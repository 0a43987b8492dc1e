-- ===== src/Prog/Counted.antt =====
-- The counters of maps over calls that create and destroy.
use mathlib.Core.Option.{some-injective}
use mathlib.Core.Path.{subst}
use native.Mathlib.Decide.{ℕ_discrete}
use generic_ebpf.Base.{
  ℕ, ◌+◌, ◌-◌, ◌<◌, ◌≡◌, ◌≢◌, inl, inr, refl, sym, ◌∙◌, ap, arith, Option, some, none, List, [],
  ◌∷◌, ◌++◌, map, ==_refl, ne→==_false, ◌>>=◌, replicate, length, take, Option-cases, bind-eq-some,
}
use generic_ebpf.Platform.{count}
use generic_ebpf.Env.{Obj, Envs, set_env, ebpf_obj_init, ebpf_obj_drop, ebpf_env_release}
use generic_ebpf.Prog.{
  Maps, max_attached, set_map, release_map, release_all, ebpf_prog_dtor, ebpf_prog_destroy,
}
use generic_ebpf.Prog.Attach.{IsDense, set_map_self, set_map_ne}
use generic_ebpf.Prog.Refs.{Refs, Refs-eq, hit, count_nil, release_map-Refs, release_all-Refs}
use generic_ebpf.Env.{set_env_self, ebpf_env_acquire}
use generic_ebpf.Prog.Create.{no_maps}
use generic_ebpf.Prog.System.{Loaded, System, attached, AllDense, IsCounted}

attached-append :
    (em : ℕ) (front back : List Loaded)
    → attached em (front ++ back) ≡ attached em front + attached em back
unfolding attached
attached-append em [] back = omega arith
attached-append em (l ∷ front) back = omega (arith, attached-append em front back)

attached_cons :
    (em : ℕ) (l : Loaded) (progs : List Loaded)
    → attached em (l ∷ progs) ≡ count em l.deps + attached em progs
unfolding attached
attached_cons em l progs = refl

pub attached_middle :
    (em : ℕ) (front back : List Loaded) (l : Loaded)
    → attached em (front ++ l ∷ back) ≡ attached em (front ++ back) + count em l.deps
attached_middle em front back l = omega (
  arith,
  attached-append em front (l ∷ back),
  attached-append em front back,
  attached_cons em l back,
)

pub middle-IsDense :
    (front back : List Loaded) (l : Loaded)
    → AllDense (front ++ l ∷ back)
    → IsDense l.ep l.deps × AllDense (front ++ back)
unfolding AllDense
middle-IsDense [] back l d = d
middle-IsDense (x ∷ front) back l (e, d) = let (f, g) = middle-IsDense front back l d in (f, (e, g))

pub insert-AllDense :
    (front back : List Loaded) (l : Loaded)
    → IsDense l.ep l.deps
    → AllDense (front ++ back)
    → AllDense (front ++ l ∷ back)
unfolding AllDense
insert-AllDense [] back l e d = (e, d)
insert-AllDense (x ∷ front) back l e (f, d) = (f, insert-AllDense front back l e d)

set_env_ne : (f : Envs) (i j n : ℕ) → i ≢ j → set_env f i n j ≡ f j
unfolding set_env
set_env_ne f i j n ne = rw (ne→==_false i j ne) refl

ebpf_obj_init-ref :
    (envs envs' : Envs) (ee : ℕ) (o : Obj) → ebpf_obj_init envs ee ≡ some (envs', o) → o.eo_ref ≡ 1
unfolding ebpf_obj_init
ebpf_obj_init-ref envs envs' ee o h =
    let (e, q, r) =
      bind-eq-some (ebpf_env_acquire envs ee) (λ e. some (e, record { eo_ee = ee; eo_ref = 1 }))
        h in
    sym (ap (λ x. x.1.eo_ref) (some-injective _ _ r))

-- The slots in use of a program with dense slots.
take-dense :
    (deps : List ℕ) (rest : List (Option ℕ))
    → take (length deps) (map some deps ++ rest) ≡ map some deps
take-dense [] rest = refl
take-dense (d ∷ deps) rest = ap (λ l. some d ∷ l) (take-dense deps rest)

-- A destruction that leaves no program has released its maps.
destroyed-all :
    (envs envs' : Envs) (maps maps' : Maps) (l : Loaded)
    → IsDense l.ep l.deps
    → ebpf_prog_destroy envs maps l.ep ≡ some (none, envs', maps')
    → (e : Envs) × (release_all (map some l.deps) envs maps ≡ some (e, maps'))
unfolding ebpf_prog_destroy ebpf_prog_dtor
destroyed-all envs envs' maps maps' l d h = elim (Option-cases (ebpf_obj_drop l.ep.eo)) [
  | inl n ↦ absurd (cc)
  | inr (none, n) ↦
      let released : Option (Envs × Maps) =
        release_all (take l.ep.ndep_maps l.ep.dep_maps) envs maps in
      let (r, q, h') =
        bind-eq-some released (λ r. ebpf_env_release r.0 l.ep.eo.eo_ee >>= λ e. some (none, e, r.1))
          (sym (rw (ebpf_prog_destroy, n) refl) ∙ h) in
      let (e, q', h'') =
        bind-eq-some (ebpf_env_release r.0 l.ep.eo.eo_ee) (λ e. some (none, e, r.1)) h' in
      let same : r.1 ≡ maps' = ap (λ x. x.2) (some-injective _ _ h'') in
      let slots : take l.ep.ndep_maps l.ep.dep_maps ≡ map some l.deps =
        ap (λ k. take k l.ep.dep_maps) d.used
        ∙ ap (λ x. take (length l.deps) x) d.slots
        ∙ take-dense l.deps (replicate (max_attached - length l.deps) none) in
      (r.0, ap (λ x. release_all x envs maps) (sym slots) ∙ q ∙ ap (λ m. some (r.0, m)) same)
  | inr (some o, n) ↦
      let ran : ebpf_prog_destroy envs maps l.ep
          ≡ some (some (record l.ep { eo = o }), envs, maps) =
        rw (ebpf_prog_destroy, n) refl in
      absurd (cc)
]

module _ (s : System) (a : IsCounted s) where
  pub map_create-IsCounted :
      (em ee : ℕ) (envs' : Envs) (o : Obj)
      → s.maps em ≡ none
      → ebpf_obj_init s.envs ee ≡ some (envs', o)
      → IsCounted (record s {
        envs = envs';
        maps = set_map s.maps em (some o);
        handles = set_env s.handles em 1;
      })
  unfolding Refs
  map_create-IsCounted em ee envs' o free h =
      let z : s.handles em + attached em s.progs ≡ 0 =
        subst (λ m. Refs m (s.handles em + attached em s.progs)) free (a.counted em) in
      record {
        counted = λ x. elim (ℕ_discrete em x) [
          | yes e ↦
              rw (sym e, set_map_self s.maps em (some o), set_env_self s.handles em 1)
                (omega (arith, ebpf_obj_init-ref s.envs envs' ee o h, z), omega arith)
          | no ne ↦
              rw (set_map_ne s.maps em x (some o) ne, set_env_ne s.handles em x 1 ne) (a.counted x)
        ];
        dense = a.dense;
      }

  pub map_destroy-IsCounted :
      (em : ℕ) (envs' : Envs) (maps' : Maps)
      → 0 < s.handles em
      → release_map s.envs s.maps em ≡ some (envs', maps')
      → IsCounted (record s {
        envs = envs';
        maps = maps';
        handles = set_env s.handles em (s.handles em - 1);
      })
  map_destroy-IsCounted em envs' maps' pos h =
      let b =
        release_map-Refs s.envs envs' s.maps maps' (λ x. s.handles x + attached x s.progs) em
          a.counted (omega arith) h in
      record {
        counted = λ x.
            Refs-eq (maps' x) (s.handles x + attached x s.progs - hit em x) _
              (elim (ℕ_discrete em x) [
                | yes e ↦
                    rw (sym e, ==_refl em, set_env_self s.handles em (s.handles em - 1))
                      (omega arith)
                | no ne ↦
                    rw (ne→==_false em x ne, set_env_ne s.handles em x (s.handles em - 1) ne)
                      (omega arith)
              ])
              (b x);
        dense = a.dense;
      }

  pub prog_create-IsCounted :
      (envs' : Envs) (o : Obj)
      → IsCounted (record s {
        envs = envs';
        progs =
            record {
              ep = record { eo = o; ndep_maps = 0; dep_maps = replicate max_attached none };
              deps = [];
            }
            ∷ s.progs;
      })
  unfolding AllDense
  prog_create-IsCounted envs' o = record {
    counted = λ x.
        Refs-eq (s.maps x) (s.handles x + attached x s.progs) _
          (omega (arith, count_nil x, attached_cons x _ s.progs)) (a.counted x);
    dense = (no_maps o, a.dense);
  }

  pub prog_destroy-IsCounted :
      (front back : List Loaded) (l : Loaded) (envs' : Envs) (maps' : Maps)
      → s.progs ≡ front ++ l ∷ back
      → ebpf_prog_destroy s.envs s.maps l.ep ≡ some (none, envs', maps')
      → IsCounted (record s { envs = envs'; maps = maps'; progs = front ++ back })
  prog_destroy-IsCounted front back l envs' maps' e h =
      let (d, rest) = middle-IsDense front back l (subst (λ p. AllDense p) e a.dense) in
      let (e', ran) = destroyed-all s.envs envs' s.maps maps' l d h in
      let n : ℕ → ℕ = λ x. s.handles x + attached x (front ++ back) in
      record {
        counted =
            release_all-Refs l.deps s.envs e' s.maps maps' n
              (λ x.
                Refs-eq (s.maps x) (s.handles x + attached x s.progs) (n x + count x l.deps)
                  (omega (arith, attached_middle x front back l, ap (λ p. attached x p) e))
                  (a.counted x))
              ran;
        dense = rest;
      }
