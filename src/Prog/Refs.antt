-- ===== src/Prog/Refs.antt =====
-- The counter of a map that is released, against the number of references to it.
use mathlib.Core.Option.{some-injective}
use mathlib.Core.Path.{subst}
use native.Mathlib.Decide.{ℕ_discrete}
use generic_ebpf.Base.{
  ℕ, ◌+◌, ◌-◌, ◌<◌, ◌≡◌, inl, inr, refl, sym, ◌∙◌, ap, arith, Option, some, none, List, [], ◌∷◌,
  map, ◌==◌, ==_refl, ne→==_false, leb, lt→ltb, if◌then◌else◌, ◌>>=◌, Bool-cases, bind-eq-some,
}
use generic_ebpf.Platform.{count, count_cons}
use generic_ebpf.Env.{Obj, Envs, ebpf_obj_drop, ebpf_env_release, ebpf_refcount_release}
use generic_ebpf.Prog.{Maps, set_map, release_map, release_all}
use generic_ebpf.Prog.Attach.{set_map_self, set_map_ne}

-- What the counter of a map must be when there are `n` references to it; none is left to a map that
-- was freed.
unfoldable pub Refs : Option Obj → ℕ → Type 0
Refs none n = n ≡ 0
Refs (some o) n = (o.eo_ref ≡ n) × (0 < n)

pub Refs-eq : (m : Option Obj) (n k : ℕ) → n ≡ k → Refs m n → Refs m k
Refs-eq m n k e r = subst (λ x. Refs m x) e r

-- a reference less, or none
abbrev left : Obj → Option Obj
left o = if leb o.eo_ref 1 then none else some (record o { eo_ref = o.eo_ref - 1 })

Refs-left : (o : Obj) (n : ℕ) → Refs (some o) n → Refs (left o) (n - 1)
unfolding Refs
Refs-left o n (e, pos) = elim (Bool-cases (leb o.eo_ref 1)) [
  | inl l ↦ rw l (ground arith)
  | inr l ↦ rw l (omega (arith, e), ground arith)
]

-- `1` where the two addresses agree
abbrev pub hit : ℕ → ℕ → ℕ
hit p q = if p == q then 1 else 0

module _ (envs : Envs) (maps : Maps) (em : ℕ) (o : Obj) (live : maps em ≡ some o)
    (pos : 0 < o.eo_ref) where
  release_map_lem :
      (envs' : Envs) (maps' : Maps)
      → release_map envs maps em ≡ some (envs', maps')
      → set_map maps em (left o) ≡ maps'
  unfolding release_map ebpf_obj_drop ebpf_refcount_release
  release_map_lem envs' maps' h =
      let l = lt→ltb 0 o.eo_ref pos in
      elim (Bool-cases (leb o.eo_ref 1)) [
        | inl last ↦
            let ran : release_map envs maps em
                ≡ (ebpf_env_release envs o.eo_ee >>= λ e. some (e, set_map maps em none)) =
              rw (release_map, live, l, last) refl in
            let (e, q, r) =
              bind-eq-some (ebpf_env_release envs o.eo_ee) (λ e. some (e, set_map maps em none))
                (sym ran ∙ h) in
            ap (λ x. set_map maps em x) (rw last refl) ∙ ap (λ x. x.1) (some-injective _ _ r)
        | inr more ↦
            let ran : release_map envs maps em
                ≡ some (envs, set_map maps em (some (record o { eo_ref = o.eo_ref - 1 }))) =
              rw (release_map, live, l, more) refl in
            ap (λ x. set_map maps em x) (rw more refl)
            ∙ ap (λ x. x.1) (some-injective _ _ (sym ran ∙ h))
      ]

-- The counters of all maps, against the numbers of references.
abbrev pub All : Maps → (ℕ → ℕ) → Type 0
All maps n = (em : ℕ) → Refs (maps em) (n em)

pub live_map :
    (m : Option Obj) (n : ℕ) → Refs m n → 0 < n → (o : Obj) × (m ≡ some o) × (o.eo_ref ≡ n)
unfolding Refs
live_map none n r pos = absurd (omega (arith, r))
live_map (some o) n (e, _) pos = (o, refl, e)

pub release_map-Refs :
    (envs envs' : Envs) (maps maps' : Maps) (n : ℕ → ℕ) (em : ℕ)
    → All maps n
    → 0 < n em
    → release_map envs maps em ≡ some (envs', maps')
    → All maps' (λ x. n x - hit em x)
unfolding Refs
release_map-Refs envs envs' maps maps' n em a pos h x =
    let (o, live, e) = live_map (maps em) (n em) (a em) pos in
    let same = release_map_lem envs maps em o live (omega (arith, e)) envs' maps' h in
    rw (sym same) (elim (ℕ_discrete em x) [
      | yes s ↦ rw (sym s, set_map_self maps em (left o), ==_refl em) (Refs-left o (n em) (e, pos))
      | no ne ↦
          rw (set_map_ne maps em x (left o) ne, ne→==_false em x ne)
            (Refs-eq (maps x) (n x) (n x - 0) (omega arith) (a x))
    ])

pub count_nil : (x : ℕ) → count x [] ≡ 0
unfolding count
count_nil x = refl

-- Releasing every map of a list.
pub release_all-Refs :
    (deps : List ℕ) (envs envs' : Envs) (maps maps' : Maps) (n : ℕ → ℕ)
    → All maps (λ x. n x + count x deps)
    → release_all (map some deps) envs maps ≡ some (envs', maps')
    → All maps' n
unfolding release_all
release_all-Refs [] envs envs' maps maps' n a h =
    let same : maps ≡ maps' = ap (λ r. r.1) (some-injective _ _ h) in
    λ x.
      Refs-eq (maps' x) (n x + count x []) (n x) (omega (arith, count_nil x))
        (subst (λ m. Refs (m x) (n x + count x [])) same (a x))
release_all-Refs (d ∷ deps) envs envs' maps maps' n a h =
    let (r, q, h') =
      bind-eq-some (release_map envs maps d) (λ r. release_all (map some deps) r.0 r.1) h in
    let pos : 0 < n d + count d (d ∷ deps) =
      omega (arith, count_cons d d deps, ap {B = ℕ} (λ b. if b then 1 else 0) (==_refl d)) in
    let b = release_map-Refs envs r.0 maps r.1 (λ x. n x + count x (d ∷ deps)) d a pos q in
    release_all-Refs deps r.0 envs' r.1 maps' n
      (λ x. Refs-eq (r.1 x) _ (n x + count x deps) (omega (arith, count_cons x d deps)) (b x)) h'
