-- ===== src/Env.antt =====
-- sys/dev/ebpf/ebpf_env.c and ebpf_obj.c: environments and reference-counted objects, with the
-- counters of Linux/ebpf/user/ebpf_linux_user.c.
use generic_ebpf.Base.{
  ◌<◌, ◌≡◌, refl, lt→ltb, ==_refl, ℕ, ◌+◌, ◌-◌, Bool, Option, some, none, ◌==◌, ltb, leb,
  if◌then◌else◌, ◌>>=◌,
}
use generic_ebpf.Map.{Code, ok, enomem, ebusy}
use generic_ebpf.Platform.{Platform}

abbrev pub uint32_max : ℕ
uint32_max = 4294967295

-- A counter that is full fails the assertion; so does one that is released at 0, after which the
-- second component tells whether the last reference is gone.
unfoldable pub ebpf_refcount_acquire : ℕ → Option ℕ
ebpf_refcount_acquire count = if ltb count uint32_max then some (count + 1) else none

unfoldable pub ebpf_refcount_release : ℕ → Option (ℕ × Bool)
ebpf_refcount_release count = if ltb 0 count then some (count - 1, leb count 1) else none

-- `struct ebpf_obj` without its type and destructor, which are those of the kind of object.
pub record Obj : Type 0 where
  pub eo_ee : ℕ
  pub eo_ref : ℕ

-- The counters of the environments, by their addresses.
abbrev pub Envs : Type 0
Envs = ℕ → ℕ

unfoldable pub set_env : Envs → ℕ → ℕ → Envs
set_env envs ee n i = if ee == i then n else envs i

unfoldable pub ebpf_env_acquire : Envs → ℕ → Option Envs
unfolding set_env ebpf_refcount_acquire
ebpf_env_acquire envs ee = ebpf_refcount_acquire (envs ee) >>= λ n. some (set_env envs ee n)

unfoldable pub ebpf_env_release : Envs → ℕ → Option Envs
unfolding set_env ebpf_refcount_release
ebpf_env_release envs ee = ebpf_refcount_release (envs ee) >>= λ (n, last). some (set_env envs ee n)

-- The code; an environment in use is not freed.
unfoldable pub ebpf_env_destroy : {W : Type 0} → Platform W → Envs → ℕ → W → Code × W
ebpf_env_destroy host envs ee w = if envs ee == 0 then (ok, host.free (some ee) w) else (ebusy, w)

unfoldable pub ebpf_env_create : {W : Type 0} → Platform W → Envs → W → Code × Option ℕ × Envs × W
unfolding set_env
ebpf_env_create host envs w =
    let (p, w') = host.calloc 1 16 w in
    elim p [ none ↦ (enomem, none, envs, w') | some ee ↦ (ok, some ee, set_env envs ee 0, w') ]

unfoldable pub ebpf_obj_init : Envs → ℕ → Option (Envs × Obj)
unfolding ebpf_env_acquire
ebpf_obj_init envs ee =
    ebpf_env_acquire envs ee >>= λ envs'. some (envs', record { eo_ee = ee; eo_ref = 1 })

unfoldable pub ebpf_obj_acquire : Obj → Option Obj
unfolding ebpf_refcount_acquire
ebpf_obj_acquire eo = ebpf_refcount_acquire eo.eo_ref >>= λ n. some (record eo { eo_ref = n })

-- The first half of `ebpf_obj_release`: the object, or `none` inside when it is to be destroyed.
unfoldable pub ebpf_obj_drop : Obj → Option (Option Obj)
unfolding ebpf_refcount_release
ebpf_obj_drop eo = ebpf_refcount_release eo.eo_ref >>= λ (n, last).
    some (if last then none else some (record eo { eo_ref = n }))

-- An object of an environment whose counter is not full.
pub ebpf_obj_init_lem :
    (envs : Envs) (ee : ℕ)
    → envs ee < uint32_max
    → ebpf_obj_init envs ee
      ≡ some (set_env envs ee (envs ee + 1), record { eo_ee = ee; eo_ref = 1 })
unfolding ebpf_obj_init ebpf_env_acquire ebpf_refcount_acquire
ebpf_obj_init_lem envs ee room =
    rw (ebpf_obj_init, ebpf_env_acquire, lt→ltb (envs ee) uint32_max room) refl

pub set_env_self : (envs : Envs) (ee n : ℕ) → set_env envs ee n ee ≡ n
unfolding set_env
set_env_self envs ee n = rw (==_refl ee) refl
