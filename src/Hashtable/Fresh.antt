-- ===== src/Hashtable/Fresh.antt =====
-- The table that a creation fills: empty, with its spare elements set aside.
use generic_ebpf.Base.{
  ℕ, ◌*◌, zero, suc, ◌+◌, ◌^◌, ◌<◌, ◌≤◌, ◌≡◌, ◌≢◌, inl, inr, refl, arith, false, Option, some, none,
  List, [], length, ltb, Bool-cases, length-zeros,
}
use generic_ebpf.Base.Bits.{pow_le}
use generic_ebpf.Map.{Code, ok, enoent, MapAttr}
use generic_ebpf.Platform.{Platform, count}
use generic_ebpf.Util.{ebpf_roundup, ebpf_roundup_pow_of_two}
use generic_ebpf.Util.PowerOfTwo.{ebpf_roundup_pow_of_two-eq}
use generic_ebpf.Allocator.{Allocator}
use generic_ebpf.Allocator.Pool.{IsGood}
use generic_ebpf.Hashtable.{HashTable, HashMap, get_hash_elem}
use generic_ebpf.Hashtable.Chain.{matches}
use generic_ebpf.Hashtable.Ops.{elem_of, hashtable_map_lookup_elem_from_user}
use generic_ebpf.Hashtable.Lookup.{lookup_none}
use generic_ebpf.Hashtable.Invariant.{IsValid, total}
use generic_ebpf.Hashtable.Reserve.{Reserved}
use generic_ebpf.Hashtable.Changes.{entries}
use generic_ebpf.Hashtable.Lifecycle.{Blocks, table_of}

no_elements : (n : ℕ) → total n (λ i. []) ≡ 0
unfolding total
no_elements zero = refl
no_elements (suc n) = omega (arith, no_elements n)

-- The map that a table and the attributes make.
abbrev pub plain_map : MapAttr → HashTable → HashMap
plain_map attr t = record {
  key_size = attr.key_size;
  value_size = attr.value_size;
  map_flags = attr.flags;
  max_entries = attr.max_entries;
  percpu = false;
  contents = t;
}

-- What a creation leaves.
pub record Made {W : Type 0} (hash : List ℕ → ℕ) (ncpus : ℕ) (attr : MapAttr)
    (r : Code × Option (Blocks × HashTable) × W) : Type 0 where
  pub failure : r.1 ≡ none → r.0 ≢ ok
  pub success :
      (blocks : Blocks) (t : HashTable)
      → r.1 ≡ some (blocks, t)
      → (r.0 ≡ ok)
        × IsValid hash 1 (plain_map attr t)
        × (entries (plain_map attr t) ≡ 0)
        × (length t.pcpu_extra_elems ≡ ncpus)
        × (t.allocator.nblocks ≡ attr.max_entries + ncpus)
        × ((key : List ℕ)
            → hashtable_map_lookup_elem_from_user hash (plain_map attr t) key ≡ (enoent, []))

module _ {W : Type 0} (host : Platform W) (page header ncpus : ℕ) (poke : ℕ → Option ℕ → W → W)
    (peek : ℕ → W → Option ℕ) (hash : List ℕ → ℕ) (attr : MapAttr)
    (some_entries : 0 < attr.max_entries) (few_entries : attr.max_entries ≤ 2 ^ 31)
    (fits : attr.value_size ≤ ebpf_roundup attr.value_size 8) where
  -- the new table, with the elements `extra` reserved
  abbrev pub table : List ℕ → Allocator → HashTable
  table extra a =
      table_of host page header ncpus poke peek false (ebpf_roundup attr.key_size 8)
        (ebpf_roundup attr.value_size 8) (ebpf_roundup_pow_of_two attr.max_entries) extra a

  nbuckets_pow : (k : ℕ) × (k < 32) × (ebpf_roundup_pow_of_two attr.max_entries ≡ 2 ^ k)
  nbuckets_pow =
      let (k, e, lo, hi) =
        ebpf_roundup_pow_of_two-eq attr.max_entries some_entries (omega (arith, few_entries)) in
      elim (Bool-cases (ltb k 32)) [
        | inl t ↦ (k, ground arith, omega (arith, e, hi, few_entries))
        | inr t ↦
            let big : 2 ^ 32 ≤ 2 ^ k = pow_le 32 k (ground arith) in
            absurd (omega (arith, big, hi, few_entries))
      ]

  module _ (a : Allocator) (g : IsGood a) (r : List ℕ × Allocator) (f : Reserved ncpus a r)
      (all : a.count ≡ a.nblocks) where
    pub table-IsValid : IsValid hash 1 (plain_map attr (table r.0 r.1))
    unfolding table_of count matches
    table-IsValid =
        let (k, small, e) = nbuckets_pow in
        record {
          indexed = record {
            hashed = λ b p h. absurd (omega (arith, h));
            keys_once = λ b key. omega arith;
          };
          owned = record {
            bits = k;
            bits_small = small;
            nbuckets_pow = e;
            once = λ b p. omega (arith, f.once p, g.once p);
            pool = f.good;
            kept = omega (
              arith,
              no_elements (ebpf_roundup_pow_of_two attr.max_entries),
              f.long,
              f.fewer,
              f.same,
              all,
            );
          };
          sized = (fits, λ p. omega (arith, length-zeros (1 * ebpf_roundup attr.value_size 8)));
        }

    pub table-empty :
        (key : List ℕ)
        → hashtable_map_lookup_elem_from_user hash (plain_map attr (table r.0 r.1)) key
          ≡ (enoent, [])
    unfolding elem_of get_hash_elem table_of
    table-empty key = lookup_none hash (plain_map attr (table r.0 r.1)) key refl

  pub table-entries : (r : List ℕ × Allocator) → entries (plain_map attr (table r.0 r.1)) ≡ 0
  unfolding table_of
  table-entries r = no_elements (ebpf_roundup_pow_of_two attr.max_entries)
