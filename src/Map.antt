-- ===== src/Map.antt =====
-- The parts of a map that all map types share: the return codes, `struct ebpf_map_attr` and the
-- update flags of sys/sys/ebpf.h, and `struct ebpf_map` of sys/dev/ebpf/ebpf_map.h.
use generic_ebpf.Base.{ℕ, Bool, ◌%◌, ◌/◌, ◌==◌, not}

-- What a function that returns `int` returns: 0 or one of the errno values.
pub data Code : Type 0 where
  ok einval enomem e2big ebusy eexist enoent : Code

pub Code-discrete : Discrete Code
Code-discrete = hlevel

pub record MapAttr : Type 0 where
  pub type_id : ℕ
  pub key_size : ℕ
  pub value_size : ℕ
  pub max_entries : ℕ
  pub flags : ℕ

-- `enum ebpf_map_update_flags`
abbrev pub flag_any : ℕ
flag_any = 0

abbrev pub flag_noexist : ℕ
flag_noexist = 1

abbrev pub flag_exist : ℕ
flag_exist = 2

-- `flags & EBPF_NOEXIST` and `flags & EBPF_EXIST` as truth values: the bits 0 and 1.
abbrev pub has_noexist : ℕ → Bool
has_noexist flags = not (flags % 2 == 0)

abbrev pub has_exist : ℕ → Bool
has_exist flags = not (flags / 2 % 2 == 0)

-- `struct ebpf_map` without its object header; `contents` is what the `void *data` field points
-- to, which depends on the type of the map.
pub record EbpfMap (D : Type 0) : Type 0 where
  pub key_size : ℕ
  pub value_size : ℕ
  pub map_flags : ℕ
  pub max_entries : ℕ
  pub percpu : Bool
  pub contents : D

-- What `ops.init` leaves: the fields `percpu` and `data` of the map, or an error.
pub data InitResult (D : Type 0) : Type 0 where
  ready : Bool → D → InitResult D
  failed : Code → InitResult D
