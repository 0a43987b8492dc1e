-- ===== src/Hashtable/Invariant.antt =====
-- What holds of a hash table between two operations.
use generic_ebpf.Base.{
  ℕ, zero, suc, ◌+◌, ◌-◌, ◌*◌, ◌^◌, ◌%◌, ◌≤◌, ◌<◌, ◌≡◌, refl, sym, ap, arith, List, take, length,
  sub32,
}
use native.Mathlib.Decide.{ℕ_discrete}
use native.Mathlib.Nat.{one-le-pow}
use generic_ebpf.Base.Bits.{and_mask, pow_le}
use generic_ebpf.Platform.{count}
use generic_ebpf.Allocator.Pool.{IsGood}
use generic_ebpf.Hashtable.{HashTable, HashMap, set_at, get_hash_bucket}
use generic_ebpf.Hashtable.Ops.{bucket_of}
use generic_ebpf.Hashtable.Chain.{matches, set_at_self, set_at_ne}

-- The number of elements in the buckets below `n`.
unfoldable pub total : ℕ → (ℕ → List ℕ) → ℕ
total zero buckets = 0
total (suc n) buckets = total n buckets + length (buckets n)

total-beyond :
    (n : ℕ) (buckets : ℕ → List ℕ) (i : ℕ) (l : List ℕ)
    → n ≤ i
    → total n (set_at buckets i l) ≡ total n buckets
unfolding total
total-beyond zero buckets i l h = refl
total-beyond (suc n) buckets i l h =
    let e = set_at_ne buckets i n l (λ q. absurd (omega (arith, q))) in
    omega (arith, total-beyond n buckets i l (omega arith), ap (λ (c : List ℕ). length c) e)

pub total-set_at :
    (n : ℕ) (buckets : ℕ → List ℕ) (i : ℕ) (l : List ℕ)
    → i < n
    → total n (set_at buckets i l) + length (buckets i) ≡ total n buckets + length l
unfolding total
total-set_at zero buckets i l h = absurd (omega arith)
total-set_at (suc n) buckets i l h = elim (ℕ_discrete i n) [
  | yes e ↦
      let s : length (set_at buckets i l n) ≡ length l =
        ap (λ (c : List ℕ). length c) (rw (sym e) (set_at_self buckets i l)) in
      let r : length (buckets i) ≡ length (buckets n) = rw e refl in
      omega (arith, total-beyond n buckets i l (omega arith), s, r)
  | no ne ↦
      let s = ap (λ (c : List ℕ). length c) (set_at_ne buckets i n l ne) in
      omega (arith, total-set_at n buckets i l (omega arith), s)
]

-- Every element is in the bucket of its key, and no bucket has two elements with one key.
pub record IsIndexed (hash : List ℕ → ℕ) (n : ℕ) (t : HashTable) : Type 0 where
  pub hashed : (b p : ℕ) → 0 < count p (t.buckets b) → bucket_of hash t n (t.heap p).key ≡ b
  pub keys_once : (b : ℕ) (key : List ℕ) → matches n t.heap key (t.buckets b) ≤ 1

-- The mask is that of a power of two. Each element stands in one bucket at most, or is spare, or is
-- free, and only once; none is lost.
pub record IsOwned (t : HashTable) : Type 0 where
  pub bits : ℕ
  pub bits_small : bits < 32
  pub nbuckets_pow : t.nbuckets ≡ 2 ^ bits
  pub once :
      (b p : ℕ)
      → count p (t.buckets b) + count p t.pcpu_extra_elems + count p t.allocator.free_block ≤ 1
  pub pool : IsGood t.allocator
  pub kept :
      total t.nbuckets t.buckets + length t.pcpu_extra_elems + t.allocator.count
      ≡ t.allocator.nblocks

-- The values of each element have room for `slots` values of the rounded size.
abbrev pub IsSized : ℕ → HashMap → Type 0
IsSized slots m =
    (m.value_size ≤ m.contents.value_size)
    × ((p : ℕ) → slots * m.contents.value_size ≤ length (m.contents.heap p).values)

-- The invariant of a map with `slots` values for each element.
pub record IsValid (hash : List ℕ → ℕ) (slots : ℕ) (m : HashMap) : Type 0 where
  pub indexed : IsIndexed hash m.key_size m.contents
  pub owned : IsOwned m.contents
  pub sized : IsSized slots m

-- The bucket of every hash is in the array.
pub get_hash_bucket-lt :
    (t : HashTable) (hash : ℕ) → IsOwned t → get_hash_bucket t hash < t.nbuckets
unfolding get_hash_bucket
get_hash_bucket-lt t hash o =
    let small : 2 ^ o.bits < 2 ^ 32 =
      omega (arith, pow_le o.bits 31 (omega (arith, o.bits_small))) in
    let pos : 0 < 2 ^ o.bits = one-le-pow o.bits 2 (omega arith) in
    let e : sub32 (2 ^ o.bits) 1 ≡ 2 ^ o.bits - 1 = omega arith in
    let low : hash % 2 ^ o.bits < 2 ^ o.bits = omega arith in
    rw (o.nbuckets_pow, e, and_mask o.bits hash) low

pub bucket_of-lt :
    (hash : List ℕ → ℕ) (n : ℕ) (t : HashTable) (key : List ℕ)
    → IsOwned t
    → bucket_of hash t n key < t.nbuckets
unfolding bucket_of
bucket_of-lt hash n t key o = get_hash_bucket-lt t (hash (take n key)) o
