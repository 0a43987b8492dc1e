-- ===== src/Prog/Reach.antt =====
-- The counters of maps over any sequence of calls.
use mathlib.Core.Option.{some-injective}
use mathlib.Core.Path.{subst}
use native.Mathlib.Decide.{ℕ_discrete}
use generic_ebpf.Base.{
  ℕ, ◌+◌, ◌<◌, ◌≡◌, ◌≢◌, refl, sym, ◌∙◌, ap, arith, some, List, [], ◌∷◌, ◌++◌, ==_refl, ne→==_false,
  if◌then◌else◌,
}
use generic_ebpf.Platform.{count_cons, count-append}
use generic_ebpf.Map.{Code, Code-discrete, ok}
use generic_ebpf.Env.{Obj, uint32_max}
use generic_ebpf.Prog.{Prog, Maps, ebpf_prog_attach_map}
use generic_ebpf.Prog.Attach.{IsAttached, ebpf_prog_attach_map-IsAttached}
use generic_ebpf.Prog.Refs.{Refs, Refs-eq, hit, live_map, count_nil}
use generic_ebpf.Prog.System.{
  Loaded, System, attached, deps_after, Step, map_create, map_destroy, prog_create, attach_map,
  prog_destroy, Reach, here, next, AllDense, IsCounted,
}
use generic_ebpf.Prog.Counted.{
  attached_middle, middle-IsDense, insert-AllDense, map_create-IsCounted, map_destroy-IsCounted,
  prog_create-IsCounted, prog_destroy-IsCounted,
}

module _ (s : System) (a : IsCounted s) where
  module _ (front back : List Loaded) (l : Loaded) (em : ℕ) (o : Obj) (live : s.maps em ≡ some o)
      (e : s.progs ≡ front ++ l ∷ back) (r : Code × Maps × Prog)
      (t : IsAttached s.maps l.ep l.deps em o r) where
    abbrev after : Code → System
    after c = record s {
      maps = r.1;
      progs = front ++ record { ep = r.2; deps = deps_after c l.deps em } ∷ back;
    }

    attached-IsCounted : r.0 ≡ ok → IsCounted (after ok)
    unfolding Refs deps_after
    attached-IsCounted k =
        let (d, rest) = middle-IsDense front back l (subst (λ p. AllDense p) e a.dense) in
        let l' : Loaded = record { ep = r.2; deps = l.deps ++ em ∷ [] } in
        let more : (x : ℕ) → attached x (front ++ l' ∷ back) ≡ attached x s.progs + hit em x = λ x.
          omega (
            arith,
            attached_middle x front back l,
            attached_middle x front back l',
            ap (λ p. attached x p) e,
            count-append x l.deps (em ∷ []),
            count_cons x em [],
            count_nil x,
          ) in
        let was : Refs (some o) (s.handles em + attached em s.progs) =
          subst (λ m. Refs m (s.handles em + attached em s.progs)) live (a.counted em) in
        let here_too : Refs (r.1 em) (s.handles em + attached em (front ++ l' ∷ back)) =
          rw (t.counted k) (
            omega (arith, more em, was.0, ap {B = ℕ} (λ b. if b then 1 else 0) (==_refl em)),
            omega (arith, more em, was.1),
          ) in
        record {
          counted = λ x. elim (ℕ_discrete em x) [
            | yes q ↦
                subst (λ y. Refs (r.1 y) (s.handles y + attached y (front ++ l' ∷ back))) q here_too
            | no ne ↦ rw (t.others x ne) (
                Refs-eq (s.maps x) (s.handles x + attached x s.progs) _
                  (omega
                    (arith, more x, ap {B = ℕ} (λ b. if b then 1 else 0) (ne→==_false em x ne)))
                  (a.counted x))
          ];
          dense = insert-AllDense front back l' (t.dense k) rest;
        }

    refused-IsCounted : (c : Code) → r.0 ≡ c → c ≢ ok → IsCounted (after c)
    unfolding deps_after
    refused-IsCounted ok k ne = absurd (ne refl)
    refused-IsCounted other k ne =
        let (same, same') = t.refused (λ h. ne (sym k ∙ h)) in
        let l' : Loaded = record { ep = r.2; deps = l.deps } in
        let kept : front ++ l' ∷ back ≡ s.progs =
          ap (λ x. front ++ record { ep = x; deps = l.deps } ∷ back) same' ∙ sym e in
        record {
          counted = λ x.
              subst (λ p. Refs (r.1 x) (s.handles x + attached x p)) (sym kept)
                (subst (λ m. Refs (m x) (s.handles x + attached x s.progs)) (sym same)
                  (a.counted x));
          dense = subst (λ p. AllDense p) (sym kept) a.dense;
        }

  attach_map-IsCounted :
      (front back : List Loaded) (l : Loaded) (em : ℕ) (c : Code) (maps' : Maps) (ep' : Prog)
      → s.progs ≡ front ++ l ∷ back
      → 0 < s.handles em
      → ((o : Obj) → s.maps em ≡ some o → o.eo_ref < uint32_max)
      → ebpf_prog_attach_map s.maps l.ep em ≡ some (c, maps', ep')
      → IsCounted (record s {
        maps = maps';
        progs = front ++ record { ep = ep'; deps = deps_after c l.deps em } ∷ back;
      })
  attach_map-IsCounted front back l em c maps' ep' e pos room h =
      let (d, rest) = middle-IsDense front back l (subst (λ p. AllDense p) e a.dense) in
      let (o, live, _) =
        live_map (s.maps em) (s.handles em + attached em s.progs) (a.counted em) (omega arith) in
      let (r, ran, t) =
        ebpf_prog_attach_map-IsAttached s.maps l.ep l.deps em o d live (room o live) in
      let same : r ≡ (c, maps', ep') = some-injective _ _ (sym ran ∙ h) in
      let t' : IsAttached s.maps l.ep l.deps em o (c, maps', ep') =
        subst (λ x. IsAttached s.maps l.ep l.deps em o x) same t in
      elim (Code-discrete c ok) [
        | yes k ↦
            subst
              (λ x. IsCounted (record s {
                maps = maps';
                progs = front ++ record { ep = ep'; deps = deps_after x l.deps em } ∷ back;
              }))
              (sym k) (attached-IsCounted front back l em o live e (c, maps', ep') t' k)
        | no ne ↦ refused-IsCounted front back l em o live e (c, maps', ep') t' c refl ne
      ]

Step-IsCounted : {s t : System} → Step s t → IsCounted s → IsCounted t
Step-IsCounted (map_create s em ee envs' o free h) a = map_create-IsCounted s a em ee envs' o free h
Step-IsCounted (map_destroy s em envs' maps' pos h) a =
    map_destroy-IsCounted s a em envs' maps' pos h
Step-IsCounted (prog_create s ee envs' o h) a = prog_create-IsCounted s a envs' o
Step-IsCounted (attach_map s front back l em c maps' ep' e pos room h) a =
    attach_map-IsCounted s a front back l em c maps' ep' e pos room h
Step-IsCounted (prog_destroy s front back l envs' maps' e h) a =
    prog_destroy-IsCounted s a front back l envs' maps' e h

-- In every system that calls reach from one in which it holds, the counter of each map that is there
-- is the number of pointers to it that callers hold and of the programs that it is attached to, and
-- is not 0; nothing refers to a map that was freed; and the slots of each program are dense. A caller
-- attaches and destroys only maps that it holds a pointer to, and no counter is full at an
-- attachment.
pub Reach-IsCounted : {s t : System} → IsCounted s → Reach s t → IsCounted t
Reach-IsCounted a here = a
Reach-IsCounted a (next r st) = Step-IsCounted st (Reach-IsCounted a r)
