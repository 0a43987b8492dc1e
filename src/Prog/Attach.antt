-- ===== src/Prog/Attach.antt =====
-- Attaching maps to a program.
use generic_ebpf.Base.{
  ℕ, zero, suc, ◌+◌, ◌-◌, ◌≤◌, ◌<◌, ◌≡◌, ◌≢◌, inl, inr, refl, sym, ◌∙◌, ap, arith, true, false,
  Option, some, none, List, [], ◌∷◌, ◌++◌, map, ◌==◌, ==_refl, ne→==_false, ltb, leb, leb→le,
  Bool-cases, lt→ltb, le→leb, lt→leb_false, if◌then◌else◌, set, replicate, length, length-append,
}
use native.Mathlib.Decide.{ℕ_discrete}
use generic_ebpf.Platform.{count, count_cons, count-append}
use generic_ebpf.Map.{Code, ok, einval, ebusy, eexist}
use generic_ebpf.Env.{
  Obj, Envs, uint32_max, ebpf_refcount_acquire, ebpf_refcount_release, ebpf_obj_acquire,
  ebpf_obj_drop,
}
use generic_ebpf.Prog.{
  Prog, Maps, max_attached, attached, vacant, exhausted, set_map, scan, ebpf_prog_attach_map,
  release_map,
}

-- The slots in use come first and hold different maps; the rest is NULL.
pub record IsDense (ep : Prog) (deps : List ℕ) : Type 0 where
  pub slots : ep.dep_maps ≡ map some deps ++ replicate (max_attached - length deps) none
  pub used : ep.ndep_maps ≡ length deps
  pub bounded : length deps ≤ max_attached
  pub once : (em : ℕ) → count em deps ≤ 1

scan-dense :
    (deps : List ℕ) (k em : ℕ)
    → scan (map some deps ++ replicate k none) em
      ≡ (if ltb 0 (count em deps) then attached else if k == 0 then exhausted else vacant)
unfolding scan count
scan-dense [] zero em = refl
scan-dense [] (suc k) em = ground arith
scan-dense (m ∷ deps) k em = ground (arith, scan-dense deps k em)

set-dense :
    (deps : List ℕ) (k em : ℕ)
    → set (map some deps ++ replicate (suc k) none) (length deps) (some em)
      ≡ map some (deps ++ em ∷ []) ++ replicate k none
set-dense [] k em = refl
set-dense (m ∷ deps) k em = ap (λ l. some m ∷ l) (set-dense deps k em)

pub set_map_self : (maps : Maps) (em : ℕ) (o : Option Obj) → set_map maps em o em ≡ o
unfolding set_map
set_map_self maps em o = rw (==_refl em) refl

pub set_map_ne : (maps : Maps) (em x : ℕ) (o : Option Obj) → em ≢ x → set_map maps em o x ≡ maps x
unfolding set_map
set_map_ne maps em x o ne = rw (ne→==_false em x ne) refl

-- The code of an attachment.
abbrev pub attach_code : Prog → List ℕ → ℕ → Obj → Code
attach_code ep deps em o =
    if ep.eo.eo_ee == o.eo_ee
    then if leb max_attached (length deps)
      then ebusy
      else if ltb 0 (count em deps)
      then eexist
      else ok
    else einval

-- What an attachment leaves.
pub record IsAttached (maps : Maps) (ep : Prog) (deps : List ℕ) (em : ℕ) (o : Obj)
    (r : Code × Maps × Prog) : Type 0 where
  pub code : r.0 ≡ attach_code ep deps em o
  pub refused : r.0 ≢ ok → (r.1 ≡ maps) × (r.2 ≡ ep)
  pub dense : r.0 ≡ ok → IsDense r.2 (deps ++ em ∷ [])
  pub counted : r.0 ≡ ok → r.1 em ≡ some (record o { eo_ref = o.eo_ref + 1 })
  pub others : (x : ℕ) → em ≢ x → r.1 x ≡ maps x

nothing : (x : ℕ) → count x [] ≡ 0
unfolding count
nothing x = refl

one : (x : ℕ) → count x (x ∷ []) ≡ 1
unfolding count
one x = rw (==_refl x) refl

below : (n : ℕ) → leb max_attached n ≡ false → n < max_attached
below n h = ground arith

module _ (maps : Maps) (ep : Prog) (deps : List ℕ) (em : ℕ) (o : Obj) (d : IsDense ep deps)
    (live : maps em ≡ some o) (room : o.eo_ref < uint32_max) where
  abbrev Ends : Type 0
  Ends =
      (r : Code × Maps × Prog) × (ebpf_prog_attach_map maps ep em ≡ some r)
      × IsAttached maps ep deps em o r

  refuse :
      (c : Code)
      → ebpf_prog_attach_map maps ep em ≡ some (c, maps, ep)
      → c ≡ attach_code ep deps em o
      → c ≢ ok
      → Ends
  refuse c run code ne = (
    (c, maps, ep),
    run,
    record {
      code = code;
      refused = λ h. (refl, refl);
      dense = λ h. absurd (ne h);
      counted = λ h. absurd (ne h);
      others = λ x h. refl;
    },
  )

  foreign : (ep.eo.eo_ee == o.eo_ee) ≡ false → Ends
  unfolding ebpf_prog_attach_map
  foreign e = refuse einval (rw (ebpf_prog_attach_map, live, e) refl) (rw e refl) (λ h. cc)

  module _ (same : (ep.eo.eo_ee == o.eo_ee) ≡ true) where
    full : max_attached ≤ length deps → Ends
    unfolding ebpf_prog_attach_map
    full h =
        let l = le→leb max_attached (length deps) h in
        refuse ebusy (rw (ebpf_prog_attach_map, live, same, d.used, l) refl) (rw (same, l) refl)
          (λ e. cc)

    module _ (free : length deps < max_attached) where
      scanned : (scan ep.dep_maps em) ≡ (
          if ltb 0 (count em deps)
          then attached
          else if max_attached - length deps == 0
          then exhausted
          else vacant)
      scanned = rw d.slots (scan-dense deps (max_attached - length deps) em)

      twice : 0 < count em deps → Ends
      unfolding ebpf_prog_attach_map
      twice h =
          let l = lt→leb_false max_attached (length deps) free in
          let l' = lt→leb_false max_attached ep.ndep_maps (omega (arith, d.used)) in
          let c = lt→ltb 0 (count em deps) h in
          let s : scan ep.dep_maps em ≡ attached = scanned ∙ rw c refl in
          refuse eexist (rw (ebpf_prog_attach_map, live, same, l', s) refl) (rw (same, l, c) refl)
            (λ e. cc)

      once_more : count em deps ≡ 0 → (x : ℕ) → count x (deps ++ em ∷ []) ≤ 1
      once_more z x = elim (ℕ_discrete em x) [
        | yes s ↦ rw (sym s) (omega (arith, count-append em deps (em ∷ []), one em, z))
        | no ne ↦ omega (
          arith,
          count-append x deps (em ∷ []),
          count_cons x em [],
          ap {B = ℕ} (λ b. if b then 1 else 0) (ne→==_false em x ne),
          nothing x,
          d.once x,
        )
      ]

      attach-IsDense :
          count em deps ≡ 0
          → IsDense
              (record ep {
                ndep_maps = ep.ndep_maps + 1;
                dep_maps = set ep.dep_maps ep.ndep_maps (some em);
              })
              (deps ++ em ∷ [])
      attach-IsDense z =
          let n : length (deps ++ em ∷ []) ≡ length deps + 1 = length-append deps (em ∷ []) in
          let k : max_attached - length deps ≡ suc (max_attached - length (deps ++ em ∷ [])) =
            omega (arith, n) in
          record {
            slots =
                ap (λ i. set ep.dep_maps i (some em)) d.used
                ∙ ap (λ l. set l (length deps) (some em))
                    (d.slots ∙ ap (λ j. map some deps ++ replicate j none) k)
                ∙ set-dense deps (max_attached - length (deps ++ em ∷ [])) em;
            used = omega (arith, n, d.used);
            bounded = omega (arith, n);
            once = once_more z;
          }

      fresh : count em deps ≡ 0 → Ends
      unfolding ebpf_prog_attach_map ebpf_obj_acquire ebpf_refcount_acquire
      fresh z =
          let l = lt→leb_false max_attached (length deps) free in
          let l' = lt→leb_false max_attached ep.ndep_maps (omega (arith, d.used)) in
          let c : ltb 0 (count em deps) ≡ false = rw z refl in
          let k : (max_attached - length deps == 0) ≡ false =
            ne→==_false (max_attached - length deps) 0 (λ h. omega arith) in
          let s : scan ep.dep_maps em ≡ vacant = scanned ∙ rw (c, k) refl in
          let o' : Obj = record o { eo_ref = o.eo_ref + 1 } in
          let ep' : Prog = record ep {
            ndep_maps = ep.ndep_maps + 1;
            dep_maps = set ep.dep_maps ep.ndep_maps (some em);
          } in
          (
            (ok, set_map maps em (some o'), ep'),
            rw (ebpf_prog_attach_map, live, same, l', s, lt→ltb o.eo_ref uint32_max room) refl,
            record {
              code = rw (same, l, c) refl;
              refused = λ h. absurd (h refl);
              dense = λ h. attach-IsDense z;
              counted = λ h. set_map_self maps em (some o');
              others = λ x h. set_map_ne maps em x (some o') h;
            },
          )

  -- Attaching a live map whose counter is not full is defined for every program whose slots are
  -- dense. The code is EINVAL for a map of another environment, EBUSY for a program with 64 maps,
  -- and EEXIST for a map that it has; then nothing changes. Otherwise the map is the last in dense
  -- slots, and its counter, and no other, is one more.
  pub ebpf_prog_attach_map-IsAttached : Ends
  ebpf_prog_attach_map-IsAttached = elim (Bool-cases (ep.eo.eo_ee == o.eo_ee)) [
    | inr e ↦ foreign e
    | inl e ↦ elim (Bool-cases (leb max_attached (length deps))) [
      | inl l ↦ full e (leb→le max_attached (length deps) l)
      | inr l ↦
          let free : length deps < max_attached = below (length deps) l in
          elim (ℕ_discrete (count em deps) 0) [
            | yes z ↦ fresh e free z
            | no nz ↦ twice e free (omega (arith, nz))
          ]
    ]
  ]

-- A program's reference to a map is given back: releasing a map that was just attached leaves every
-- counter as it was, if the map has another reference, and does not destroy it.
pub attach-release :
    (envs : Envs) (maps : Maps) (ep : Prog) (deps : List ℕ) (em : ℕ) (o : Obj)
    (r : Code × Maps × Prog)
    → 0 < o.eo_ref
    → maps em ≡ some o
    → IsAttached maps ep deps em o r
    → r.0 ≡ ok
    → (maps' : Maps) × (release_map envs r.1 em ≡ some (envs, maps')) × ((x : ℕ) → maps' x ≡ maps x)
unfolding release_map ebpf_obj_drop ebpf_refcount_release
attach-release envs maps ep deps em o r pos live a done =
    let l : ltb 0 (o.eo_ref + 1) ≡ true = lt→ltb 0 (o.eo_ref + 1) (omega arith) in
    let m : leb (o.eo_ref + 1) 1 ≡ false = lt→leb_false (o.eo_ref + 1) 1 (omega arith) in
    let k : o.eo_ref + 1 - 1 ≡ o.eo_ref = omega arith in
    (
      set_map r.1 em (some o),
      rw (release_map, a.counted done, l, m, k) refl,
      λ x. elim (ℕ_discrete em x) [
        | yes s ↦ rw (sym s) (set_map_self r.1 em (some o) ∙ sym live)
        | no ne ↦ set_map_ne r.1 em x (some o) ne ∙ a.others x ne
      ],
    )
