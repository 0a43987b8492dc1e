-- ===== src/Hashtable.antt =====
-- sys/dev/ebpf/ebpf_map_hashtable.c: the hash table and its per-CPU variant, with the chains of
-- sys/dev/ebpf/ebpf_queue.h as lists of the addresses of their elements.
pub mod Ops
pub mod Chain
pub mod Invariant
pub mod Splice
pub mod Swap
pub mod Lookup
pub mod Insert
pub mod Exchange
pub mod Lifecycle
pub mod Drain
pub mod Update
pub mod Changes
pub mod NewKey
pub mod OldKey
pub mod Stored
pub mod Without
pub mod Delete
pub mod Reserve
pub mod Fresh
pub mod Create
pub mod Links
pub mod First
pub mod Next
pub mod Once
pub mod Walk
pub mod Values
pub mod Overwrite
pub mod Grow
pub mod Percpu
pub mod Recycled
use generic_ebpf.Base.{
  ℕ, ◌+◌, ◌-◌, ◌*◌, ◌^◌, u32, bit_and, Bool, true, false, ◌&&◌, Option, none, some, List, [], ◌∷◌,
  ◌++◌, ◌==◌, if◌then◌else◌, ◌>>=◌, get_elem?, set, get_or, take, drop, map, sub32,
}
use generic_ebpf.Map.{EbpfMap, Code, ok, eexist, enoent, has_noexist, has_exist}
use generic_ebpf.Allocator.{Allocator, ebpf_allocator_alloc}
use generic_ebpf.Platform.{remove}

-- An element: its key bytes, and the bytes of its values. A plain map has one value, which follows the
-- key; in a per-CPU map the constructor hangs an area for all CPUs on the pointer that follows the key.
pub record HashElem : Type 0 where
  pub key : List ℕ
  pub values : List ℕ

-- `struct ebpf_map_hashtable`, and the memory of its elements. `buckets` gives the chain of each
-- index; the sizes are those that were rounded up.
pub record HashTable : Type 0 where
  pub key_size : ℕ
  pub value_size : ℕ
  pub nbuckets : ℕ
  pub buckets : ℕ → List ℕ
  pub pcpu_extra_elems : List ℕ
  pub allocator : Allocator
  pub heap : ℕ → HashElem

abbrev pub HashMap : Type 0
HashMap = EbpfMap HashTable

-- A store in an array or in memory, as a function.
unfoldable pub set_at {ℓ} : {A : Type ℓ} → (ℕ → A) → ℕ → A → ℕ → A
set_at f i v j = if i == j then v else f j

-- `memcpy` of the first `n` bytes
unfoldable pub copy : ℕ → List ℕ → List ℕ → List ℕ
copy n dst src = take n src ++ drop n dst

unfoldable pub bytes_eq : List ℕ → List ℕ → Bool
bytes_eq [] [] = true
bytes_eq [] (y ∷ ys) = false
bytes_eq (x ∷ xs) [] = false
bytes_eq (x ∷ xs) (y ∷ ys) = (x == y) && bytes_eq xs ys

-- `memcmp(a, b, n) == 0`
unfoldable pub memcmp_eq : ℕ → List ℕ → List ℕ → Bool
memcmp_eq n a b = bytes_eq (take n a) (take n b)

-- The index of the bucket of a hash.
unfoldable pub get_hash_bucket : HashTable → ℕ → ℕ
get_hash_bucket t hash = bit_and hash (sub32 t.nbuckets 1)

unfoldable pub get_hash_elem : (ℕ → HashElem) → List ℕ → List ℕ → ℕ → Option ℕ
get_hash_elem heap [] key n = none
get_hash_elem heap (p ∷ chain) key n =
    if memcmp_eq n (heap p).key key then some p else get_hash_elem heap chain key n

-- The spare element of this CPU is swapped for `elem`. An outer `none` is a CPU out of range.
unfoldable pub get_extra_elem : HashTable → ℕ → ℕ → Option (ℕ × HashTable)
get_extra_elem t cpu elem = get_elem? t.pcpu_extra_elems cpu >>= λ tmp.
    some (tmp, record t { pcpu_extra_elems = set t.pcpu_extra_elems cpu elem })

unfoldable pub check_update_flags : Option ℕ → ℕ → Code
check_update_flags (some elem) flags = if has_noexist flags then eexist else ok
check_update_flags none flags = if has_exist flags then enoent else ok

-- The element that the new contents go to: the spare one of this CPU or one of the allocator.
unfoldable pub new_elem : HashTable → ℕ → Option ℕ → Option (Option ℕ × HashTable)
unfolding get_extra_elem
new_elem t cpu (some old) = get_extra_elem t cpu old >>= λ (p, t'). some (some p, t')
new_elem t cpu none =
    ebpf_allocator_alloc t.allocator >>= λ (p, a). some (p, record t { allocator = a })

-- The offset of the value of a CPU, a product of 32 bits, for a rounded value size.
unfoldable pub percpu_offset : ℕ → ℕ → ℕ
percpu_offset size cpu = u32 (size * cpu)

-- The `n` bytes at an offset of the values of an element
unfoldable pub value_at : HashElem → ℕ → ℕ → List ℕ
value_at e n offset = take n (drop offset e.values)

-- `memcpy` of `n` bytes to an offset of the values
unfoldable pub put_value : ℕ → List ℕ → HashElem → ℕ → HashElem
unfolding copy
put_value n value e offset = record e {
  values = take offset e.values ++ copy n (drop offset e.values) value;
}

-- `memcpy(e->key, key, n)`
unfoldable pub put_key : ℕ → List ℕ → HashElem → HashElem
unfolding copy
put_key n key e = record e { key = copy n e.key key }

-- EBPF_EPOCH_LIST_INSERT_HEAD of `p`, and EBPF_EPOCH_LIST_REMOVE of the old element if there is one
unfoldable pub link : HashTable → ℕ → ℕ → Option ℕ → HashTable
unfolding set_at
link t b p none = record t { buckets = set_at t.buckets b (p ∷ t.buckets b) }
link t b p (some old) = record t { buckets = set_at t.buckets b (remove old (p ∷ t.buckets b)) }
