-- ===== src/Prog.antt =====
-- sys/dev/ebpf/ebpf_prog.c: programs and the maps that are attached to them, in a store of
-- reference-counted objects.
pub mod Attach
pub mod Create
pub mod Refs
pub mod System
pub mod Counted
pub mod Reach
use generic_ebpf.Base.{
  ℕ, zero, suc, ◌+◌, Bool, Option, some, none, List, [], ◌∷◌, ◌==◌, leb, if◌then◌else◌, ◌>>=◌, set,
  replicate, take,
}
use generic_ebpf.Map.{Code, ok, einval, ebusy, eexist}
use generic_ebpf.Env.{Obj, Envs, ebpf_obj_acquire, ebpf_obj_drop, ebpf_env_release}

-- EBPF_PROG_MAX_ATTACHED_MAPS
abbrev pub max_attached : ℕ
max_attached = 64

-- `struct ebpf_prog`, with the array `dep_maps` of addresses of maps
pub record Prog : Type 0 where
  pub eo : Obj
  pub ndep_maps : ℕ
  pub dep_maps : List (Option ℕ)

-- The object headers of the maps, by their addresses. `none` is a map that was freed.
abbrev pub Maps : Type 0
Maps = ℕ → Option Obj

unfoldable pub set_map : Maps → ℕ → Option Obj → Maps
set_map maps em o i = if em == i then o else maps i

-- Where the loop of `ebpf_prog_attach_map` stops.
pub data Scan : Type 0 where
  attached vacant exhausted : Scan

unfoldable pub scan : List (Option ℕ) → ℕ → Scan
scan [] em = exhausted
scan (none ∷ slots) em = vacant
scan (some m ∷ slots) em = if m == em then attached else scan slots em

-- Both pointers are given (a NULL is refused with EINVAL before anything else). An outer `none` is a
-- failed assertion or a map that was freed.
unfoldable pub ebpf_prog_attach_map : Maps → Prog → ℕ → Option (Code × Maps × Prog)
unfolding set_map scan
ebpf_prog_attach_map maps ep em = maps em >>= λ o.
    if ep.eo.eo_ee == o.eo_ee
    then if leb max_attached ep.ndep_maps
      then some (ebusy, maps, ep)
      else elim (scan ep.dep_maps em) [
        | attached ↦ some (eexist, maps, ep)
        | exhausted ↦ some (ok, maps, ep)
        | vacant ↦ ebpf_obj_acquire o >>= λ o'. some (
          ok,
          set_map maps em (some o'),
          record ep {
            ndep_maps = ep.ndep_maps + 1;
            dep_maps = set ep.dep_maps ep.ndep_maps (some em);
          },
        )
      ]
    else some (einval, maps, ep)

-- `ebpf_obj_release` of a map: its own destructor changes no object.
unfoldable pub release_map : Envs → Maps → ℕ → Option (Envs × Maps)
unfolding set_map
release_map envs maps em = maps em >>= λ o. ebpf_obj_drop o >>= λ left. elim left [
  | some o' ↦ some (envs, set_map maps em (some o'))
  | none ↦ ebpf_env_release envs o.eo_ee >>= λ envs'. some (envs', set_map maps em none)
]

-- The loop of `ebpf_prog_dtor` over the slots that are in use; a slot in use is not NULL.
unfoldable pub release_all : List (Option ℕ) → Envs → Maps → Option (Envs × Maps)
unfolding release_map
release_all [] envs maps = some (envs, maps)
release_all (none ∷ slots) envs maps = none
release_all (some em ∷ slots) envs maps =
    release_map envs maps em >>= λ (envs', maps'). release_all slots envs' maps'

unfoldable pub ebpf_prog_dtor : Envs → Maps → Prog → Option (Envs × Maps)
unfolding release_all
ebpf_prog_dtor envs maps ep = release_all (take ep.ndep_maps ep.dep_maps) envs maps

-- `ebpf_obj_release` of a program: what is left of it, and of the others.
unfoldable pub ebpf_prog_destroy : Envs → Maps → Prog → Option (Option Prog × Envs × Maps)
unfolding ebpf_prog_dtor
ebpf_prog_destroy envs maps ep = ebpf_obj_drop ep.eo >>= λ left. elim left [
  | some o ↦ some (some (record ep { eo = o }), envs, maps)
  | none ↦ ebpf_prog_dtor envs maps ep >>= λ (envs', maps').
      ebpf_env_release envs' ep.eo.eo_ee >>= λ envs''. some (none, envs'', maps')
]
