-- ===== src/Hashtable/Changes.antt =====
-- What an update of the hash table leaves: the code, the table and the lookups after it.
use generic_ebpf.Base.{
  ℕ, ◌+◌, ◌≡◌, ◌≢◌, refl, Option, some, none, List, ◌==◌, if◌then◌else◌, take, length,
}
use generic_ebpf.Map.{Code, ok, ebusy}
use generic_ebpf.Hashtable.{HashTable, HashMap, memcmp_eq, check_update_flags}
use generic_ebpf.Hashtable.Ops.{
  elem_of, hashtable_map_update_elem, hashtable_map_lookup_elem_from_user,
}
use generic_ebpf.Hashtable.Invariant.{IsValid, total}

-- The code of an update: EEXIST or ENOENT by the flags, EBUSY for a new key when every element but
-- the spare ones is in the table.
unfoldable pub update_code : Option ℕ → ℕ → HashTable → Code
unfolding check_update_flags
update_code old flags t = elim (check_update_flags old flags) [
  | ok ↦ elim old [
    | some elem ↦ ok
    | none ↦
        if total t.nbuckets t.buckets + length t.pcpu_extra_elems == t.allocator.nblocks
        then ebusy
        else ok
  ]
  | error ↦ error
]

-- The number of elements in the table.
abbrev pub entries : HashMap → ℕ
entries m = total m.contents.nbuckets m.contents.buckets

-- How many elements an update with this code adds.
unfoldable pub growth : Code → Option ℕ → ℕ
growth ok none = 1
growth ok (some elem) = 0
growth error old = 0

-- What an update leaves.
pub record Updated (hash : List ℕ → ℕ) (m : HashMap) (key value : List ℕ) (flags : ℕ)
    (r : Code × HashMap) : Type 0 where
  pub code : r.0 ≡ update_code (elem_of hash m key) flags m.contents
  pub valid : IsValid hash 1 r.1
  pub refused : r.0 ≢ ok → r.1 ≡ m
  pub grows : entries r.1 ≡ entries m + growth r.0 (elem_of hash m key)
  pub nblocks : r.1.contents.allocator.nblocks ≡ m.contents.allocator.nblocks
  pub spares : length r.1.contents.pcpu_extra_elems ≡ length m.contents.pcpu_extra_elems
  pub sizes : (r.1.key_size ≡ m.key_size) × (r.1.value_size ≡ m.value_size)
  pub stored :
      r.0 ≡ ok
      → (k : List ℕ)
      → hashtable_map_lookup_elem_from_user hash r.1 k ≡ (
          if memcmp_eq m.key_size key k
          then (ok, take m.value_size value)
          else hashtable_map_lookup_elem_from_user hash m k)

pub refused_growth : (c : Code) (old : Option ℕ) → c ≢ ok → growth c old ≡ 0
unfolding growth
refused_growth ok old ne = absurd (ne refl)
refused_growth other old ne = refl

-- An update that is defined and leaves what it should.
abbrev pub Ends : (List ℕ → ℕ) → HashMap → ℕ → List ℕ → List ℕ → ℕ → Type 0
Ends hash m cpu key value flags =
    (r : Code × HashMap) × (hashtable_map_update_elem hash m cpu key value flags ≡ some r)
    × Updated hash m key value flags r
