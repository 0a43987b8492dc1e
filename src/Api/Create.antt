-- ===== src/Api/Create.antt =====
-- Creating a map of any type.
use generic_ebpf.Base.{
  ℕ, ◌+◌, ◌-◌, ◌<◌, ◌≡◌, ◌≢◌, refl, sym, ◌∙◌, ap, arith, inl, inr, Bool, true, false, Option, some,
  none, ◌∷◌, ==_refl, ne→==_false, ltb, lt→ltb, Bool-cases, Option-cases,
}
use mathlib.Core.Option.{some-injective}
use native.Mathlib.Decide.{ℕ_discrete}
use generic_ebpf.Map.{Code, ok, einval, enomem, MapAttr, InitResult, ready, failed}
use generic_ebpf.Platform.{Platform, remove, remove-head}
use generic_ebpf.Env.{
  Envs, uint32_max, set_env, set_env_self, ebpf_obj_init_lem, ebpf_env_release,
  ebpf_refcount_release,
}
use generic_ebpf.Api.{MapObject, Created, map_struct_size, set_up, bad_attr, ebpf_map_create}

pub set_env_same :
    (envs : Envs) (ee x : ℕ) → set_env (set_env envs ee (envs ee + 1)) ee (envs ee) x ≡ envs x
unfolding set_env
set_env_same envs ee x = elim (ℕ_discrete ee x) [
  | yes s ↦ rw (sym s, ==_refl ee) refl
  | no ne ↦ rw (ne→==_false ee x ne) refl
]

pub env_release_lem :
    (envs : Envs) (ee : ℕ)
    → ebpf_env_release (set_env envs ee (envs ee + 1)) ee
      ≡ some (set_env (set_env envs ee (envs ee + 1)) ee (envs ee))
unfolding ebpf_env_release ebpf_refcount_release
env_release_lem envs ee =
    let l : ltb 0 (envs ee + 1) ≡ true = lt→ltb 0 (envs ee + 1) (omega arith) in
    let k : envs ee + 1 - 1 ≡ envs ee = omega arith in
    rw (ebpf_env_release, set_env_self envs ee (envs ee + 1), l, k) refl

module _ {W D : Type 0} (host : Platform W)
    (map_types : ℕ → Option (MapAttr → W → InitResult D × W)) where
  open host use {live, malloc}

  -- What a creation leaves: a failed one changes no counter and keeps no memory; a successful one
  -- counts one more object of the environment and gives an object with one reference.
  pub record Accounted (ee : Option ℕ) (envs : Envs) (w : W) (r : Created W D) : Type 0 where
    pub failure :
        r.made ≡ none → (r.code ≢ ok) × ((x : ℕ) → r.envs x ≡ envs x) × (live r.world ≡ live w)
    pub success :
        (o : MapObject D)
        → r.made ≡ some o
        → (r.code ≡ ok)
          × (ee ≡ some o.eo.eo_ee)
          × (o.eo.eo_ref ≡ 1)
          × (r.envs o.eo.eo_ee ≡ envs o.eo.eo_ee + 1)

  -- A failed `init` of the type that the attributes name gives an error and keeps no memory.
  abbrev pub IsClean : Option MapAttr → Type 0
  IsClean attr =
      (a : MapAttr) (init : MapAttr → W → InitResult D × W)
      → attr ≡ some a
      → map_types a.type_id ≡ some init
      → (w : W) (c : Code) → (init a w).0 ≡ failed c
      → (c ≢ ok) × (live (init a w).1 ≡ live w)

  abbrev pub Ends : Option ℕ → Bool → Option MapAttr → Envs → W → Type 0
  Ends ee emp attr envs w =
      (r : Created W D) × (ebpf_map_create host map_types ee emp attr envs w ≡ some r)
      × Accounted ee envs w r

  untouched :
      (c : Code) (ee : Option ℕ) (envs : Envs) (w w' : W)
      → c ≢ ok
      → live w' ≡ live w
      → Accounted ee envs w (record { code = c; made = none; envs = envs; world = w' })
  untouched c ee envs w w' ne l = record {
    failure = λ h. (ne, λ x. refl, l);
    success = λ o h. absurd (cc);
  }

  abbrev Set : ℕ → (MapAttr → W → InitResult D × W) → ℕ → MapAttr → Envs → W → W → Type 0
  Set ee init p attr envs w w' =
      (r : Created W D) × (set_up host map_types init p ee attr envs w' ≡ some r)
      × Accounted (some ee) envs w r

  module _ (init : MapAttr → W → InitResult D × W) (p ee : ℕ) (attr : MapAttr) (envs : Envs)
      (w w' : W) (room : envs ee < uint32_max) (l : live w' ≡ p ∷ live w)
      (clean : (c : Code)
        → (init attr w').0 ≡ failed c
        → (c ≢ ok) × (live (init attr w').1 ≡ live w')) where
    set_up_failed : (c : Code) → (init attr w').0 ≡ failed c → Set ee init p attr envs w w'
    unfolding set_up
    set_up_failed c e =
        let (ne, same) = clean c e in
        (
          record {
            code = c;
            made = none;
            envs = set_env (set_env envs ee (envs ee + 1)) ee (envs ee);
            world = host.free (some p) (init attr w').1;
          },
          rw (set_up, ebpf_obj_init_lem envs ee room, e, env_release_lem envs ee) refl,
          record {
            failure = λ h. (
              ne,
              λ x. set_env_same envs ee x,
              host.live-free p (init attr w').1
                  ∙ ap (λ k. remove p k) (same ∙ l)
                  ∙ remove-head p (live w),
            );
            success = λ o h. absurd (cc);
          },
        )

    set_up_ready :
        (pc : Bool) (d : D) → (init attr w').0 ≡ ready pc d → Set ee init p attr envs w w'
    unfolding set_up
    set_up_ready pc d e =
        let o : MapObject D = record {
          block = p;
          eo = record { eo_ee = ee; eo_ref = 1 };
          em = record {
            key_size = attr.key_size;
            value_size = attr.value_size;
            map_flags = attr.flags;
            max_entries = attr.max_entries;
            percpu = pc;
            contents = d;
          };
        } in
        (
          record {
            code = ok;
            made = some o;
            envs = set_env envs ee (envs ee + 1);
            world = (init attr w').1;
          },
          rw (set_up, ebpf_obj_init_lem envs ee room, e) refl,
          record {
            failure = λ h. absurd (cc);
            success = λ o' h.
                rw (sym (some-injective _ _ h))
                  (refl, refl, refl, set_env_self envs ee (envs ee + 1));
          },
        )

    set_up-cases : (r : InitResult D) → (init attr w').0 ≡ r → Set ee init p attr envs w w'
    set_up-cases (failed c) e = set_up_failed c e
    set_up-cases (ready pc d) e = set_up_ready pc d e

  module _ (ee : ℕ) (attr : MapAttr) (envs : Envs) (w : W) (room : envs ee < uint32_max)
      (good : bad_attr host map_types attr ≡ false) (clean : IsClean (some attr)) where
    with_type :
        (init : MapAttr → W → InitResult D × W)
        → map_types attr.type_id ≡ some init
        → Ends (some ee) true (some attr) envs w
    unfolding ebpf_map_create
    with_type init ty =
        let (p, w') = malloc map_struct_size w in
        elim (Option-cases p) [
          | inl e ↦ (
            record { code = enomem; made = none; envs = envs; world = w' },
            rw (ebpf_map_create, good, ty, e) refl,
            untouched enomem (some ee) envs w w' (λ h. cc)
                (host.live-malloc_none map_struct_size w e),
          )
          | inr (b, e) ↦
              let (r, run, a) =
                set_up-cases init b ee attr envs w w' room
                  (host.live-malloc_some map_struct_size w b e) (clean attr init refl ty w')
                  (init attr w').0 refl in
              (r, rw (ebpf_map_create, good, ty, e) run, a)
        ]

    no_type : map_types attr.type_id ≡ none → Ends (some ee) true (some attr) envs w
    unfolding ebpf_map_create
    no_type e = (
      record { code = einval; made = none; envs = envs; world = w },
      rw (ebpf_map_create, good, e) refl,
      untouched einval (some ee) envs w w (λ h. cc) refl,
    )

  refused :
      (ee : ℕ) (attr : MapAttr) (envs : Envs) (w : W)
      → bad_attr host map_types attr ≡ true
      → Ends (some ee) true (some attr) envs w
  unfolding ebpf_map_create
  refused ee attr envs w e = (
    record { code = einval; made = none; envs = envs; world = w },
    rw (ebpf_map_create, e) refl,
    untouched einval (some ee) envs w w (λ h. cc) refl,
  )

  -- If a failed `init` of the type that the attributes name keeps no memory, then a creation is defined for each
  -- choice of arguments, NULL pointers included, as long as the counters of the environments are
  -- not full. A failed one gives an error, changes no counter and keeps no memory; a successful
  -- one gives an object with one reference and counts it in its environment.
  pub ebpf_map_create-Accounted :
      (ee : Option ℕ) (emp : Bool) (attr : Option MapAttr) (envs : Envs) (w : W)
      → IsClean attr
      → ((x : ℕ) → envs x < uint32_max)
      → Ends ee emp attr envs w
  unfolding ebpf_map_create
  ebpf_map_create-Accounted (some ee) true (some attr) envs w clean room =
      elim (Bool-cases (bad_attr host map_types attr)) [
        | inl e ↦ refused ee attr envs w e
        | inr e ↦ elim (Option-cases (map_types attr.type_id)) [
          | inl n ↦ no_type ee attr envs w (room ee) e clean n
          | inr (init, ty) ↦ with_type ee attr envs w (room ee) e clean init ty
        ]
      ]
  ebpf_map_create-Accounted none emp attr envs w clean room = (
    record { code = einval; made = none; envs = envs; world = w },
    refl,
    untouched einval none envs w w (λ h. cc) refl,
  )
  ebpf_map_create-Accounted (some ee) false attr envs w clean room = (
    record { code = einval; made = none; envs = envs; world = w },
    refl,
    untouched einval (some ee) envs w w (λ h. cc) refl,
  )
  ebpf_map_create-Accounted (some ee) true none envs w clean room = (
    record { code = einval; made = none; envs = envs; world = w },
    refl,
    untouched einval (some ee) envs w w (λ h. cc) refl,
  )
