-- ===== src/Tests/Tables.antt =====
-- A hash table with two buckets, one CPU and room for two elements.
use generic_ebpf.Base.{
  ℕ, ◌+◌, map, length, ◌*◌, ◌%◌, ◌^◌, ◌≤◌, ◌<◌, ◌≡◌, refl, arith, true, false, some, none, List, [],
  ◌∷◌, get_or, zeros,
}
use generic_ebpf.Util.{ebpf_roundup_pow_of_two}
use generic_ebpf.Util.PowerOfTwo.{ebpf_roundup_pow_of_two-eq}
use generic_ebpf.Map.{Code}
use generic_ebpf.Platform.{count}
use generic_ebpf.Allocator.{Allocator}
use generic_ebpf.Allocator.Pool.{IsGood}
use generic_ebpf.Hashtable.{HashTable, HashMap}
use generic_ebpf.Hashtable.Ops.{
  hashtable_map_update_elem_percpu_from_user, hashtable_map_update_elem, hashtable_map_delete_elem,
}
use generic_ebpf.Hashtable.Chain.{matches}
use generic_ebpf.Hashtable.Invariant.{IsIndexed, IsOwned, IsValid, total}
use generic_ebpf.Hashtable.Overwrite.{UpdatedPercpu}
use generic_ebpf.Hashtable.Percpu.{hashtable_map_update_elem_percpu_from_user-UpdatedPercpu}
use generic_ebpf.Hashtable.First.{chain_from, key_at}
use generic_ebpf.Hashtable.Walk.{walk, walk-listed}
use generic_ebpf.Hashtable.Changes.{entries, Updated}
use generic_ebpf.Hashtable.Stored.{hashtable_map_update_elem-Updated}
use generic_ebpf.Hashtable.Lifecycle.{Blocks, hashtable_map_deinit}
use generic_ebpf.Hashtable.Drain.{hashtable_map_deinit_defined}
use generic_ebpf.Tests.Host.{World, bump, empty_world}
use generic_ebpf.Hashtable.Delete.{Deleted, hashtable_map_delete_elem-Deleted}

abbrev pub first_byte : List ℕ → ℕ
first_byte key = get_or key 0 0

abbrev pool : Allocator
pool = record {
  free_block = 200 ∷ 300 ∷ [];
  used_segment = 64 ∷ [];
  nblocks = 3;
  block_size = 32;
  count = 2;
}

abbrev table : HashTable
table = record {
  key_size = 8;
  value_size = 8;
  nbuckets = 2;
  buckets = λ b. [];
  pcpu_extra_elems = 100 ∷ [];
  allocator = pool;
  heap = λ p. record { key = zeros 8; values = zeros 8 };
}

abbrev pub small_map : HashMap
small_map = record {
  key_size = 1;
  value_size = 2;
  map_flags = 0;
  max_entries = 2;
  percpu = false;
  contents = table;
}

pool-IsGood : IsGood pool
unfolding count
pool-IsGood = record {
  counted = refl;
  within = omega arith;
  fits = omega arith;
  once = λ p. ground arith;
}

table-IsIndexed : IsIndexed first_byte 1 table
unfolding count matches
table-IsIndexed = record {
  hashed = λ b p h. absurd (omega (arith, h));
  keys_once = λ b key. omega arith;
}

table-IsOwned : IsOwned table
unfolding count total
table-IsOwned = record {
  bits = 1;
  bits_small = omega arith;
  nbuckets_pow = refl;
  once = λ b p. ground arith;
  pool = pool-IsGood;
  kept = refl;
}

pub small_map-IsValid : IsValid first_byte 1 small_map
unfolding zeros
small_map-IsValid = record {
  indexed = table-IsIndexed;
  owned = table-IsOwned;
  sized = (omega arith, λ p. omega arith);
}

hashtable_map_update_elem-Updated_example :
    (r : Code × HashMap) × (hashtable_map_update_elem first_byte small_map 0 (7 ∷ []) (1 ∷ 2 ∷ []) 0
      ≡ some r)
    × Updated first_byte small_map (7 ∷ []) (1 ∷ 2 ∷ []) 0 r
hashtable_map_update_elem-Updated_example =
    hashtable_map_update_elem-Updated first_byte small_map 0 (7 ∷ []) (1 ∷ 2 ∷ []) 0
      small_map-IsValid (omega arith) (omega arith) (omega arith)

-- the map after one update, and the proof that it is valid
abbrev filled :
    (r : Code × HashMap) × (hashtable_map_update_elem first_byte small_map 0 (7 ∷ []) (1 ∷ 2 ∷ []) 0
      ≡ some r)
    × Updated first_byte small_map (7 ∷ []) (1 ∷ 2 ∷ []) 0 r
filled =
    hashtable_map_update_elem-Updated first_byte small_map 0 (7 ∷ []) (1 ∷ 2 ∷ []) 0
      small_map-IsValid (omega arith) (omega arith) (omega arith)

hashtable_map_delete_elem-Deleted_example :
    Deleted first_byte 1 filled.0.1
      (7 ∷ [])
      (hashtable_map_delete_elem first_byte filled.0.1 (7 ∷ []))
hashtable_map_delete_elem-Deleted_example =
    hashtable_map_delete_elem-Deleted first_byte 1 filled.0.1 (7 ∷ []) filled.2.valid

abbrev blocks : Blocks
blocks = record { hash_map = 4096; buckets = 8192; extra = some 12288 }

hashtable_map_deinit_defined_example :
    (w : World) × (hashtable_map_deinit bump 4096 16 1
        (λ a p w. w)
        (λ a w. none)
        false
        blocks
        filled.0.1.contents
        empty_world
      ≡ some w)
hashtable_map_deinit_defined_example =
    hashtable_map_deinit_defined bump 4096 16 1 (λ a p w. w) (λ a w. none) filled.0.1.contents
      filled.2.valid.owned blocks empty_world

ebpf_roundup_pow_of_two-eq_example :
    (k : ℕ) × (ebpf_roundup_pow_of_two 1000 ≡ 2 ^ k % 2 ^ 32) × (1000 ≤ 2 ^ k) × (2 ^ k < 2 * 1000)
ebpf_roundup_pow_of_two-eq_example = ebpf_roundup_pow_of_two-eq 1000 (omega arith) (omega arith)

walk-listed_example :
    (walk first_byte filled.0.1 (entries filled.0.1 + 1) none
      ≡ some (
          map
            (key_at filled.0.1)
            (chain_from filled.0.1.contents.nbuckets 0 filled.0.1.contents.buckets)))
    × (length (chain_from filled.0.1.contents.nbuckets 0 filled.0.1.contents.buckets)
        ≡ entries filled.0.1)
    × ((key : List ℕ)
        → matches filled.0.1.key_size filled.0.1.contents.heap key
            (chain_from filled.0.1.contents.nbuckets 0 filled.0.1.contents.buckets)
          ≤ 1)
walk-listed_example = walk-listed first_byte 1 filled.0.1 filled.2.valid

-- two CPUs and two elements
abbrev percpu_pool : Allocator
percpu_pool = record pool { nblocks = 2 }

percpu_pool-IsGood : IsGood percpu_pool
percpu_pool-IsGood = record {
  counted = refl;
  within = omega arith;
  fits = omega arith;
  once = pool-IsGood.once;
}

abbrev pub percpu_map : HashMap
percpu_map = record small_map {
  percpu = true;
  contents = record table {
    pcpu_extra_elems = [];
    allocator = percpu_pool;
    heap = λ p. record { key = zeros 8; values = zeros 16 };
  };
}

percpu_map-IsOwned : IsOwned percpu_map.contents
unfolding count total
percpu_map-IsOwned = record {
  bits = 1;
  bits_small = omega arith;
  nbuckets_pow = refl;
  once = λ b p. ground arith;
  pool = percpu_pool-IsGood;
  kept = refl;
}

percpu_map-IsIndexed : IsIndexed first_byte 1 percpu_map.contents
unfolding count matches
percpu_map-IsIndexed = record {
  hashed = λ b p h. absurd (omega (arith, h));
  keys_once = λ b key. omega arith;
}

pub percpu_map-IsValid : IsValid first_byte 2 percpu_map
unfolding zeros
percpu_map-IsValid = record {
  indexed = percpu_map-IsIndexed;
  owned = percpu_map-IsOwned;
  sized = (omega arith, λ p. omega arith);
}

hashtable_map_update_elem_percpu_from_user-UpdatedPercpu_example :
    (r : Code × HashMap) × (hashtable_map_update_elem_percpu_from_user first_byte percpu_map 2
        (7 ∷ [])
        (1 ∷ 2 ∷ [])
        0
      ≡ some r)
    × UpdatedPercpu first_byte 2 2 percpu_map (7 ∷ []) (1 ∷ 2 ∷ []) 0 r
hashtable_map_update_elem_percpu_from_user-UpdatedPercpu_example =
    hashtable_map_update_elem_percpu_from_user-UpdatedPercpu first_byte 2 2 percpu_map (7 ∷ [])
      (1 ∷ 2 ∷ []) 0 percpu_map-IsValid (omega arith) (omega arith) (omega arith) (omega arith)
