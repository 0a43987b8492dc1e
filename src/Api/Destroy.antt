-- ===== src/Api/Destroy.antt =====
-- Destroying a map that was just created.
use mathlib.Core.Option.{some-injective}
use generic_ebpf.Base.{
  ℕ, ◌+◌, ◌<◌, ◌≡◌, refl, sym, ◌∙◌, ap, inl, inr, Bool, true, Option, some, none, Bool-cases,
  Option-cases,
}
use generic_ebpf.Map.{Code, ok, einval, enomem, MapAttr, EbpfMap, InitResult, ready, failed}
use generic_ebpf.Platform.{Platform, remove, remove-head}
use generic_ebpf.Env.{
  Envs, uint32_max, set_env, ebpf_obj_init_lem, ebpf_obj_drop, ebpf_refcount_release,
}
use generic_ebpf.Api.{
  MapObject, Created, map_struct_size, map_of, set_up, bad_attr, ebpf_map_create, ebpf_map_dtor,
  ebpf_map_destroy,
}
use generic_ebpf.Api.Create.{set_env_same, env_release_lem}

module _ {W D : Type 0} (host : Platform W)
    (map_types : ℕ → Option (MapAttr → W → InitResult D × W)) (ee : ℕ) (attr : MapAttr)
    (envs : Envs) (w : W) (room : envs ee < uint32_max) where
  abbrev p : Option ℕ
  p = (host.malloc map_struct_size w).0

  abbrev w₁ : W
  w₁ = (host.malloc map_struct_size w).1

  -- the object of a creation at `block`
  abbrev object : ℕ → Bool → D → MapObject D
  object block pc d = record {
    block = block;
    eo = record { eo_ee = ee; eo_ref = 1 };
    em = map_of attr pc d;
  }

  -- How a creation that gives an object came about.
  record Origin (r : Created W D) (o : MapObject D) : Type 0 where
    init : MapAttr → W → InitResult D × W
    known : map_types attr.type_id ≡ some init
    block : ℕ
    given : p ≡ some block
    percpu : Bool
    data_of : D
    built : (init attr w₁).0 ≡ ready percpu data_of
    result : o ≡ object block percpu data_of
    counters : r.envs ≡ set_env envs ee (envs ee + 1)
    world : r.world ≡ (init attr w₁).1

  module _ (r : Created W D) (o : MapObject D) (made : r.made ≡ some o) where
    not_made :
        (r' : Created W D) (x : Option (Created W D))
        → x ≡ some r
        → x ≡ some r'
        → r'.made ≡ none
        → ⊥
    not_made r' x e e' n =
        let same : r ≡ r' = some-injective _ _ (sym e ∙ e') in
        let h : some o ≡ none = sym made ∙ ap (λ z. z.made) same ∙ n in cc

    module _ (init : MapAttr → W → InitResult D × W) (known : map_types attr.type_id ≡ some init)
        (block : ℕ) (given : p ≡ some block) where
      set_up-Origin :
          (q : InitResult D)
          → (init attr w₁).0 ≡ q
          → set_up host map_types init block ee attr envs w₁ ≡ some r
          → Origin r o
      unfolding set_up
      set_up-Origin (failed c) e ran = absurd (
          not_made
            (record {
              code = c;
              made = none;
              envs = set_env (set_env envs ee (envs ee + 1)) ee (envs ee);
              world = host.free (some block) (init attr w₁).1;
            })
            (set_up host map_types init block ee attr envs w₁) ran
            (rw (set_up, ebpf_obj_init_lem envs ee room, e, env_release_lem envs ee) refl) refl)
      set_up-Origin (ready pc d) e ran =
          let r' : Created W D = record {
            code = ok;
            made = some (object block pc d);
            envs = set_env envs ee (envs ee + 1);
            world = (init attr w₁).1;
          } in
          let same : r ≡ r' =
            some-injective _ _ (sym ran ∙ rw (set_up, ebpf_obj_init_lem envs ee room, e) refl) in
          record {
            init = init;
            known = known;
            block = block;
            given = given;
            percpu = pc;
            data_of = d;
            built = e;
            result = some-injective _ _ (sym made ∙ ap (λ z. z.made) same);
            counters = ap (λ z. z.envs) same;
            world = ap (λ z. z.world) same;
          }

    abbrev refusal : Code → W → Created W D
    refusal c w' = record { code = c; made = none; envs = envs; world = w' }

    create-Origin :
        ebpf_map_create host map_types (some ee) true (some attr) envs w ≡ some r → Origin r o
    unfolding ebpf_map_create
    create-Origin ran = elim (Bool-cases (bad_attr host map_types attr)) [
      | inl b ↦ absurd (not_made (refusal einval w) _ ran (rw (ebpf_map_create, b) refl) refl)
      | inr b ↦ elim (Option-cases (map_types attr.type_id)) [
        | inl n ↦ absurd (not_made (refusal einval w) _ ran (rw (ebpf_map_create, b, n) refl) refl)
        | inr (init, known) ↦ elim (Option-cases p) [
          | inl n ↦
              absurd
                (not_made (refusal enomem w₁) _ ran (rw (ebpf_map_create, b, known, n) refl) refl)
          | inr (block, given) ↦
              set_up-Origin init known block given (init attr w₁).0 refl
                (sym (rw (ebpf_map_create, b, known, given) refl) ∙ ran)
        ]
      ]
    ]

  module _ (deinit : EbpfMap D → W → Option W)
      (balanced : (init : MapAttr → W → InitResult D × W)
        → map_types attr.type_id ≡ some init
        → (w' : W) (pc : Bool) (d : D) → (init attr w').0 ≡ ready pc d
        → (w'' : W) × (deinit (map_of attr pc d) (init attr w').1 ≡ some w'')
          × (host.live w'' ≡ host.live w')) where
    abbrev counted : Envs
    counted = set_env envs ee (envs ee + 1)

    destroyed :
        (block : ℕ) (pc : Bool) (d : D) (v w'' : W)
        → deinit (map_of attr pc d) v ≡ some w''
        → ebpf_map_destroy host deinit (some (object block pc d)) counted v
          ≡ some (none, set_env counted ee (envs ee), host.free (some block) w'')
    unfolding ebpf_map_destroy ebpf_map_dtor ebpf_obj_drop ebpf_refcount_release
    destroyed block pc d v w'' e = rw (ebpf_map_destroy, e, env_release_lem envs ee) refl

    -- Destroying a map that was just created, of a type whose `deinit` is defined on a new map and
    -- gives back what `init` took, is defined: the object is gone, every counter is as before the
    -- creation, and so is the live memory.
    pub ebpf_map_create-destroy :
        (r : Created W D) (o : MapObject D)
        → ebpf_map_create host map_types (some ee) true (some attr) envs w ≡ some r
        → r.made ≡ some o
        → (envs' : Envs) × (w' : W) × (ebpf_map_destroy host deinit (some o) r.envs r.world
            ≡ some (none, envs', w'))
          × ((x : ℕ) → envs' x ≡ envs x)
          × (host.live w' ≡ host.live w)
    ebpf_map_create-destroy r o ran made =
        let g = create-Origin r o made ran in
        let (w'', d, l) = balanced g.init g.known w₁ g.percpu g.data_of g.built in
        (
          set_env counted ee (envs ee),
          host.free (some g.block) w'',
          ap (λ x. ebpf_map_destroy host deinit (some x) r.envs r.world) g.result
              ∙ ap
                  (λ e.
                    ebpf_map_destroy host deinit (some (object g.block g.percpu g.data_of)) e
                      r.world)
                  g.counters
              ∙ ap
                  (λ v.
                    ebpf_map_destroy host deinit (some (object g.block g.percpu g.data_of)) counted
                      v)
                  g.world
              ∙ destroyed g.block g.percpu g.data_of (g.init attr w₁).1 w'' d,
          λ x. set_env_same envs ee x,
          host.live-free g.block w''
              ∙ ap (λ k. remove g.block k)
                  (l ∙ host.live-malloc_some map_struct_size w g.block g.given)
              ∙ remove-head g.block (host.live w),
        )
