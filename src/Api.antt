-- ===== src/Api.antt =====
-- sys/dev/ebpf/ebpf_map.c: the functions on maps of every type, which check their arguments and call
-- the operations of the type. A pointer that may be NULL is an Option.
pub mod Create
pub mod Destroy
pub mod Arrays
pub mod Types
pub mod Calls
pub mod Abstracts
pub mod Client
pub mod Session
use generic_ebpf.Base.{
  ℕ, Bool, true, false, Option, some, none, List, [], ◌==◌, ltb, leb, if◌then◌else◌, ◌>>=◌, ◌||◌,
}
use generic_ebpf.Map.{
  Code, ok, einval, enomem, MapAttr, EbpfMap, InitResult, ready, failed, flag_exist,
}
use generic_ebpf.Platform.{Platform}
use generic_ebpf.Env.{ebpf_obj_drop, Envs, Obj, ebpf_obj_init, ebpf_env_release}

-- `struct ebpf_map_ops` for the element operations of a map `M` with pointers `P` into it. An outer
-- `none` is undefined behaviour. A function that writes to a buffer of its caller takes the buffer
-- and gives it back.
pub record MapOps (M P : Type 0) : Type 0 where
  pub lookup_elem : M → List ℕ → Option (Option P)
  pub update_elem : M → List ℕ → List ℕ → ℕ → Option (Code × M)
  pub delete_elem : M → List ℕ → Code × M
  pub lookup_elem_from_user : M → List ℕ → List ℕ → Option (Code × List ℕ)
  pub update_elem_from_user : M → List ℕ → List ℕ → ℕ → Option (Code × M)
  pub delete_elem_from_user : M → List ℕ → Code × M
  pub get_next_key_from_user : M → Option (List ℕ) → List ℕ → Option (Code × List ℕ)

module _ {M P : Type 0} (ops : MapOps M P) where
  unfoldable pub ebpf_map_lookup_elem : Option M → Option (List ℕ) → Option (Option P)
  ebpf_map_lookup_elem (some m) (some key) = ops.lookup_elem m key
  ebpf_map_lookup_elem _ _ = some none

  unfoldable pub ebpf_map_lookup_elem_from_user :
      Option M → Option (List ℕ) → Option (List ℕ) → Option (Code × Option (List ℕ))
  ebpf_map_lookup_elem_from_user (some m) (some key) (some value) =
      ops.lookup_elem_from_user m key value >>= λ (c, value'). some (c, some value')
  ebpf_map_lookup_elem_from_user _ _ value = some (einval, value)

  unfoldable pub ebpf_map_update_elem :
      Option M → Option (List ℕ) → Option (List ℕ) → ℕ → Option (Code × Option M)
  ebpf_map_update_elem (some m) (some key) (some value) flags =
      if ltb flag_exist flags
      then some (einval, some m)
      else ops.update_elem m key value flags >>= λ (c, m'). some (c, some m')
  ebpf_map_update_elem em _ _ flags = some (einval, em)

  -- This one checks nothing: its pointers must not be NULL.
  unfoldable pub ebpf_map_update_elem_from_user : M → List ℕ → List ℕ → ℕ → Option (Code × M)
  ebpf_map_update_elem_from_user m key value flags = ops.update_elem_from_user m key value flags

  unfoldable pub ebpf_map_delete_elem : Option M → Option (List ℕ) → Code × Option M
  ebpf_map_delete_elem (some m) (some key) = let (c, m') = ops.delete_elem m key in (c, some m')
  ebpf_map_delete_elem em _ = (einval, em)

  unfoldable pub ebpf_map_delete_elem_from_user : Option M → Option (List ℕ) → Code × Option M
  ebpf_map_delete_elem_from_user (some m) (some key) =
      let (c, m') = ops.delete_elem_from_user m key in (c, some m')
  ebpf_map_delete_elem_from_user em _ = (einval, em)

  -- A missing key asks for the first one.
  unfoldable pub ebpf_map_get_next_key_from_user :
      Option M → Option (List ℕ) → Option (List ℕ) → Option (Code × Option (List ℕ))
  ebpf_map_get_next_key_from_user (some m) key (some next_key) =
      ops.get_next_key_from_user m key next_key >>= λ (c, next_key'). some (c, some next_key')
  ebpf_map_get_next_key_from_user _ _ next_key = some (einval, next_key)

-- EBPF_TYPE_MAX, and `sizeof(struct ebpf_map)` on a 64-bit host
abbrev pub type_max : ℕ
type_max = 64

abbrev pub map_struct_size : ℕ
map_struct_size = 64

-- A map object: the address of its structure, its header and the map.
pub record MapObject (D : Type 0) : Type 0 where
  pub block : ℕ
  pub eo : Obj
  pub em : EbpfMap D

-- What a creation ends with; `made` is what is stored to `*emp`.
pub record Created (W D : Type 0) : Type 0 where
  pub code : Code
  pub made : Option (MapObject D)
  pub envs : Envs
  pub world : W

-- The map of some attributes.
abbrev pub map_of : {D : Type 0} → MapAttr → Bool → D → EbpfMap D
map_of attr pc d = record {
  key_size = attr.key_size;
  value_size = attr.value_size;
  map_flags = attr.flags;
  max_entries = attr.max_entries;
  percpu = pc;
  contents = d;
}

module _ {W D : Type 0} (host : Platform W)
    (map_types : ℕ → Option (MapAttr → W → InitResult D × W)) where
  -- from `ebpf_obj_init` on, with the structure at `p`
  unfoldable pub set_up :
      (MapAttr → W → InitResult D × W) → ℕ → ℕ → MapAttr → Envs → W → Option (Created W D)
  unfolding ebpf_obj_init ebpf_env_release
  set_up init p ee attr envs w = ebpf_obj_init envs ee >>= λ (envs', eo).
      let (r, w') = init attr w in
      elim r [
        | failed c ↦ ebpf_env_release envs' ee >>= λ envs''.
            some (record { code = c; made = none; envs = envs''; world = host.free (some p) w' })
        | ready pc d ↦ some (record {
          code = ok;
          made = some (record { block = p; eo = eo; em = map_of attr pc d });
          envs = envs';
          world = w';
        })
      ]

  -- The attributes that are refused at once.
  unfoldable pub bad_attr : MapAttr → Bool
  bad_attr attr =
      leb type_max attr.type_id
      || (attr.key_size == 0)
      || (attr.value_size == 0)
      || (attr.max_entries == 0)

  -- `emp` tells whether the pointer is there. An outer `none` is a failed assertion.
  unfoldable pub ebpf_map_create :
      Option ℕ → Bool → Option MapAttr → Envs → W → Option (Created W D)
  unfolding set_up bad_attr
  ebpf_map_create (some ee) true (some attr) envs w =
      let refuse : Option (Created W D) =
        some (record { code = einval; made = none; envs = envs; world = w }) in
      if bad_attr attr then refuse else elim (map_types attr.type_id) [
        | none ↦ refuse
        | some init ↦
            let (p, w') = host.malloc map_struct_size w in
            elim p [
              | none ↦ some (record { code = enomem; made = none; envs = envs; world = w' })
              | some block ↦ set_up init block ee attr envs w'
            ]
      ]
  ebpf_map_create _ _ _ envs w =
      some (record { code = einval; made = none; envs = envs; world = w })

-- Destruction. `deinit` is that of the map's type; a failed assertion in it is `none`.
module _ {W D : Type 0} (host : Platform W) (deinit : EbpfMap D → W → Option W) where
  unfoldable pub ebpf_map_dtor : MapObject D → W → Option W
  ebpf_map_dtor o w = deinit o.em w

  -- `ebpf_obj_release` of a map: the object if it is still referred to.
  unfoldable pub ebpf_map_destroy :
      Option (MapObject D) → Envs → W → Option (Option (MapObject D) × Envs × W)
  unfolding ebpf_obj_drop ebpf_map_dtor ebpf_env_release
  ebpf_map_destroy none envs w = some (none, envs, w)
  ebpf_map_destroy (some o) envs w = ebpf_obj_drop o.eo >>= λ left. elim left [
    | some eo ↦ some (some (record o { eo = eo }), envs, w)
    | none ↦ ebpf_map_dtor o w >>= λ w'. ebpf_env_release envs o.eo.eo_ee >>= λ envs'.
        some (none, envs', host.free (some o.block) w')
  ]
