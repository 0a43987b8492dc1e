-- ===== src/Prog/Create.antt =====
-- Creating a program: `ebpf_prog_create` of sys/dev/ebpf/ebpf_prog.c.
use mathlib.Core.Option.{some-injective}
use generic_ebpf.Base.{
  ℕ, ◌+◌, ◌<◌, ◌≤◌, ◌≡◌, ◌≢◌, refl, sym, ◌∙◌, ap, arith, inl, inr, Bool, true, ◌||◌, Option, some,
  none, List, [], ◌∷◌, ◌==◌, leb, if◌then◌else◌, ◌>>=◌, replicate, length, read_bytes,
  read_bytes-total, Bool-cases, Option-cases,
}
use generic_ebpf.Map.{Code, ok, einval, enomem}
use generic_ebpf.Platform.{Platform, count, remove, remove-head}
use generic_ebpf.Env.{
  Envs, Obj, uint32_max, set_env, ebpf_obj_init, set_env_self, ebpf_obj_init_lem,
}
use generic_ebpf.Prog.Attach.{IsDense}
use generic_ebpf.Prog.{Prog, max_attached}

-- `struct ebpf_prog_attr`; `prog` is a pointer to bytes.
pub record ProgAttr : Type 0 where
  pub type_id : ℕ
  pub prog : Option (List ℕ)
  pub prog_len : ℕ

-- A program object: the blocks of its structure and of its code, and the copied code.
pub record ProgObject : Type 0 where
  pub block : ℕ
  pub code_block : ℕ
  pub code : List ℕ
  pub ep : Prog

pub record CreatedProg (W : Type 0) : Type 0 where
  pub code : Code
  pub made : Option ProgObject
  pub envs : Envs
  pub world : W

-- `sizeof(struct ebpf_prog)` on a 64-bit host
abbrev pub prog_struct_size : ℕ
prog_struct_size = 560

pub no_maps :
    (o : Obj)
    → IsDense (record { eo = o; ndep_maps = 0; dep_maps = replicate max_attached none }) []
unfolding count
no_maps o = record { slots = refl; used = refl; bounded = omega arith; once = λ em. omega arith }

module _ {W : Type 0} (host : Platform W) (prog_types : ℕ → Bool) where
  open host use {malloc, free, live}

  -- after both allocations; `none` is a failed assertion or a code buffer shorter than `prog_len`
  unfoldable pub fill : ℕ → ℕ → ℕ → List ℕ → ℕ → Envs → W → Option (CreatedProg W)
  unfolding ebpf_obj_init
  fill block code_block ee code prog_len envs w = ebpf_obj_init envs ee >>= λ (envs', eo).
      read_bytes code 0 prog_len >>= λ bytes. some (record {
        code = ok;
        made = some (record {
          block = block;
          code_block = code_block;
          code = bytes;
          ep = record { eo = eo; ndep_maps = 0; dep_maps = replicate max_attached none };
        });
        envs = envs';
        world = w;
      })

  -- the two allocations
  unfoldable pub allocate : ℕ → List ℕ → ℕ → Envs → W → Option (CreatedProg W)
  unfolding fill
  allocate ee code prog_len envs w =
      let (p, w₁) = malloc prog_struct_size w in
      elim p [
        | none ↦ some (record { code = enomem; made = none; envs = envs; world = w₁ })
        | some block ↦
            let (q, w₂) = malloc prog_len w₁ in
            elim q [
              | none ↦
                  some (record {
                    code = enomem;
                    made = none;
                    envs = envs;
                    world = free (some block) w₂;
                  })
              | some code_block ↦ fill block code_block ee code prog_len envs w₂
            ]
      ]

  -- `prog_types` tells for which numbers the configuration has a program type.
  unfoldable pub ebpf_prog_create :
      Option ℕ → Bool → Option ProgAttr → Envs → W → Option (CreatedProg W)
  unfolding allocate
  ebpf_prog_create (some ee) true (some attr) envs w =
      let refuse : Option (CreatedProg W) =
        some (record { code = einval; made = none; envs = envs; world = w }) in
      elim attr.prog [
        | none ↦ refuse
        | some code ↦
            if leb 64 attr.type_id || (attr.prog_len == 0)
            then refuse
            else if prog_types attr.type_id
            then allocate ee code attr.prog_len envs w
            else refuse
      ]
  ebpf_prog_create _ _ _ envs w =
      some (record { code = einval; made = none; envs = envs; world = w })

  -- What a creation leaves: a failed one changes no counter and keeps no memory; a successful one
  -- keeps two blocks, copies the code and counts a program without maps in its environment.
  pub record ProgAccounted (ee : ℕ) (attr : ProgAttr) (envs : Envs) (w : W) (r : CreatedProg W)
      : Type 0 where
    pub failure : r.made ≡ none → (r.code ≢ ok) × (r.envs ≡ envs) × (live r.world ≡ live w)
    pub success :
        (o : ProgObject)
        → r.made ≡ some o
        → (r.code ≡ ok)
          × IsDense o.ep []
          × (o.ep.eo.eo_ref ≡ 1)
          × (r.envs ee ≡ envs ee + 1)
          × (live r.world ≡ o.code_block ∷ o.block ∷ live w)
          × ((attr.prog >>= λ c. read_bytes c 0 attr.prog_len) ≡ some o.code)

  module _ (ee : ℕ) (attr : ProgAttr) (envs : Envs) (w : W) (room : envs ee < uint32_max) where
    abbrev Ends : Type 0
    Ends =
        (r : CreatedProg W) × (ebpf_prog_create (some ee) true (some attr) envs w ≡ some r)
        × ProgAccounted ee attr envs w r

    fails :
        (c : Code) (w' : W)
        → c ≢ ok
        → live w' ≡ live w
        → ProgAccounted ee attr envs w (record { code = c; made = none; envs = envs; world = w' })
    fails c w' ne l = record { failure = λ h. (ne, refl, l); success = λ o h. absurd (cc) }

    refused :
        ebpf_prog_create (some ee) true (some attr) envs w
          ≡ some (record { code = einval; made = none; envs = envs; world = w })
        → Ends
    refused run = (
      record { code = einval; made = none; envs = envs; world = w },
      run,
      fails einval w (λ h. cc) refl,
    )

    module _ (code : List ℕ) (has : attr.prog ≡ some code)
        (long : attr.prog_len ≤ length code) where
      abbrev Allocates : Type 0
      Allocates =
          (r : CreatedProg W) × (allocate ee code attr.prog_len envs w ≡ some r)
          × ProgAccounted ee attr envs w r

      filled :
          (block code_block : ℕ) (w₂ : W)
          → live w₂ ≡ code_block ∷ block ∷ live w
          → (r : CreatedProg W) × (fill block code_block ee code attr.prog_len envs w₂ ≡ some r)
            × ProgAccounted ee attr envs w r
      unfolding fill
      filled block code_block w₂ l =
          let (bytes, e, n) = read_bytes-total code 0 attr.prog_len (omega arith) in
          let o : ProgObject = record {
            block = block;
            code_block = code_block;
            code = bytes;
            ep = record {
              eo = record { eo_ee = ee; eo_ref = 1 };
              ndep_maps = 0;
              dep_maps = replicate max_attached none;
            };
          } in
          (
            record { code = ok; made = some o; envs = set_env envs ee (envs ee + 1); world = w₂ },
            rw (fill, ebpf_obj_init_lem envs ee room, e) refl,
            record {
              failure = λ h. absurd (cc);
              success = λ o' h. rw (sym (some-injective _ _ h)) (
                refl,
                no_maps (record { eo_ee = ee; eo_ref = 1 }),
                refl,
                set_env_self envs ee (envs ee + 1),
                l,
                rw has e,
              );
            },
          )

      allocated : Allocates
      unfolding allocate
      allocated =
          let (p, w₁) = malloc prog_struct_size w in
          elim (Option-cases p) [
            | inl e ↦ (
              record { code = enomem; made = none; envs = envs; world = w₁ },
              rw (allocate, e) refl,
              fails enomem w₁ (λ h. cc) (host.live-malloc_none prog_struct_size w e),
            )
            | inr (block, e) ↦
                let l = host.live-malloc_some prog_struct_size w block e in
                let (q, w₂) = malloc attr.prog_len w₁ in
                elim (Option-cases q) [
                  | inl f ↦ (
                    record {
                      code = enomem;
                      made = none;
                      envs = envs;
                      world = free (some block) w₂;
                    },
                    rw (allocate, e, f) refl,
                    fails enomem (free (some block) w₂) (λ h. cc)
                        (host.live-free block w₂
                          ∙ ap (λ k. remove block k) (host.live-malloc_none attr.prog_len w₁ f ∙ l)
                          ∙ remove-head block (live w)),
                  )
                  | inr (code_block, f) ↦
                      let (r, run, g) = filled block code_block w₂ (
                        host.live-malloc_some attr.prog_len w₁ code_block f
                        ∙ ap (λ k. code_block ∷ k) l) in
                      (r, rw (allocate, e, f) run, g)
                ]
          ]

    -- Creating a program from a buffer of at least `prog_len` bytes, in an environment whose counter
    -- is not full, is defined. A failed creation gives an error, changes no counter and keeps no
    -- memory; a successful one keeps two blocks, holds a copy of the code, has no maps and one
    -- reference, and counts one more object in the environment.
    pub ebpf_prog_create-ProgAccounted :
        ((c : List ℕ) → attr.prog ≡ some c → attr.prog_len ≤ length c) → Ends
    unfolding ebpf_prog_create
    ebpf_prog_create-ProgAccounted long = elim (Option-cases attr.prog) [
      | inl n ↦ refused (rw (ebpf_prog_create, n) refl)
      | inr (code, h) ↦ elim (Bool-cases (leb 64 attr.type_id || (attr.prog_len == 0))) [
        | inl b ↦ refused (rw (ebpf_prog_create, h, b) refl)
        | inr b ↦ elim (Bool-cases (prog_types attr.type_id)) [
          | inl t ↦
              let (r, run, g) = allocated code h (long code h) in
              (r, rw (ebpf_prog_create, h, b, t) run, g)
          | inr t ↦ refused (rw (ebpf_prog_create, h, b, t) refl)
        ]
      ]
    ]
