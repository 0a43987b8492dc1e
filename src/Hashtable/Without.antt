-- ===== src/Hashtable/Without.antt =====
-- The hash table without an element that went from its chain to the pool.
use generic_ebpf.Base.{
  ℕ, ◌+◌, ◌≤◌, ◌<◌, ◌≡◌, ◌≢◌, refl, sym, ◌∙◌, ap, arith, true, false, none, List, ◌∷◌, ==_refl,
  ne→==_false, if◌then◌else◌,
}
use native.Mathlib.Decide.{ℕ_discrete}
use generic_ebpf.Platform.{count, count_cons, count-remove, remove}
use generic_ebpf.Allocator.{ebpf_allocator_free}
use generic_ebpf.Allocator.Pool.{free-IsGood}
use generic_ebpf.Hashtable.{HashTable, HashMap, set_at, get_hash_bucket, get_hash_elem, memcmp_eq}
use generic_ebpf.Hashtable.Ops.{bucket_of}
use generic_ebpf.Hashtable.Chain.{
  matches, matches-remove, length-remove, set_at_self, set_at_ne, get_hash_elem-none,
  get_hash_elem-remove, memcmp_eq-take,
}
use generic_ebpf.Hashtable.Invariant.{total, IsIndexed, IsOwned, total-set_at}
use generic_ebpf.Hashtable.Swap.{bucket_of_same}

module _ (hash : List ℕ → ℕ) (n : ℕ) (t : HashTable) (i : IsIndexed hash n t) (b old : ℕ)
    (here : 0 < count old (t.buckets b)) where
  -- An element of a bucket is in no other.
  pub elsewhere-none : (c : ℕ) → b ≢ c → count old (t.buckets c) ≡ 0
  elsewhere-none c ne = elim (ℕ_discrete (count old (t.buckets c)) 0) [
    | yes z ↦ z
    | no nz ↦ absurd (ne (sym (i.hashed b old here) ∙ i.hashed c old (omega (arith, nz))))
  ]

module _ (hash : List ℕ → ℕ) (m : HashMap) (i : IsIndexed hash m.key_size m.contents)
    (o : IsOwned m.contents) (b old : ℕ) (here : 0 < count old (m.contents.buckets b)) where
  abbrev t : HashTable
  t = m.contents

  -- the table without the element
  abbrev pub without : HashTable
  without = record t {
    buckets = set_at t.buckets b (remove old (t.buckets b));
    allocator = ebpf_allocator_free t.allocator old;
  }

  fewer : (c q : ℕ) → count q (without.buckets c) ≤ count q (t.buckets c)
  fewer c q = elim (ℕ_discrete b c) [
    | yes s ↦
        rw (sym s, set_at_self t.buckets b (remove old (t.buckets b)))
          (omega (arith, count-remove q old (t.buckets b)))
    | no ne ↦ rw (set_at_ne t.buckets b c (remove old (t.buckets b)) ne) (omega arith)
  ]

  fewer_matches :
      (c : ℕ) (k : List ℕ)
      → matches m.key_size t.heap k (without.buckets c) ≤ matches m.key_size t.heap k (t.buckets c)
  fewer_matches c k = elim (ℕ_discrete b c) [
    | yes s ↦
        rw (sym s, set_at_self t.buckets b (remove old (t.buckets b)))
          (omega (arith, matches-remove m.key_size t.heap (t.buckets b) k old here))
    | no ne ↦ rw (set_at_ne t.buckets b c (remove old (t.buckets b)) ne) (omega arith)
  ]

  pub without-IsIndexed : IsIndexed hash m.key_size without
  unfolding bucket_of get_hash_bucket
  without-IsIndexed = record {
    hashed = λ c q h. i.hashed c q (omega (arith, h, fewer c q));
    keys_once = λ c k. omega (arith, fewer_matches c k, i.keys_once c k);
  }

  fewer_here : (c : ℕ) → b ≡ c → count old (without.buckets c) + 1 ≡ count old (t.buckets b)
  fewer_here c s =
      rw (sym s, set_at_self t.buckets b (remove old (t.buckets b)))
        (omega (
          arith,
          count-remove old old (t.buckets b),
          ap {B = ℕ} (λ x. if x then 1 else 0) (==_refl old),
        ))

  -- `old` goes from the chain to the free list.
  once-without :
      (c q : ℕ)
      → count q (without.buckets c)
          + count q t.pcpu_extra_elems
          + count q (old ∷ t.allocator.free_block)
        ≤ 1
  once-without c q = rw (count_cons q old t.allocator.free_block) (elim (ℕ_discrete old q) [
    | yes s ↦
        rw (sym s, ==_refl old)
          (elim (ℕ_discrete b c) [
            | yes s' ↦ omega (arith, fewer_here c s', o.once b old)
            | no ne ↦ omega (
              arith,
              o.once b old,
              fewer c old,
              elsewhere-none hash m.key_size t i b old here c ne,
            )
          ])
    | no ne ↦ rw (ne→==_false old q ne) (omega (arith, o.once c q, fewer c q))
  ])

  pub without-IsOwned : b < t.nbuckets → IsOwned without
  unfolding ebpf_allocator_free
  without-IsOwned small =
      let k = total-set_at t.nbuckets t.buckets b (remove old (t.buckets b)) small in
      let l = length-remove old (t.buckets b) here in
      let room : t.allocator.count < t.allocator.nblocks = omega (arith, o.kept, k, l) in
      let absent : count old t.allocator.free_block ≡ 0 = omega (arith, o.once b old) in
      record {
        bits = o.bits;
        bits_small = o.bits_small;
        nbuckets_pow = o.nbuckets_pow;
        once = once-without;
        pool = free-IsGood t.allocator old o.pool room absent;
        kept = omega (arith, o.kept, o.pool.fits, k, l);
      }

  pub without-total :
      b < t.nbuckets → total t.nbuckets without.buckets + 1 ≡ total t.nbuckets t.buckets
  without-total small = omega (
    arith,
    total-set_at t.nbuckets t.buckets b (remove old (t.buckets b)) small,
    length-remove old (t.buckets b) here,
  )

  -- A search in the new table, for a key other than that of `old`
  pub without-other :
      (k : List ℕ)
      → memcmp_eq m.key_size (t.heap old).key k ≡ false
      → get_hash_elem t.heap (without.buckets (bucket_of hash t m.key_size k)) k m.key_size
        ≡ get_hash_elem t.heap (t.buckets (bucket_of hash t m.key_size k)) k m.key_size
  without-other k f =
      let c = bucket_of hash t m.key_size k in
      elim (ℕ_discrete b c) [
        | yes s ↦
            rw (sym s, set_at_self t.buckets b (remove old (t.buckets b)))
              (get_hash_elem-remove m.key_size t.heap (t.buckets b) k old f)
        | no ne ↦ rw (set_at_ne t.buckets b c (remove old (t.buckets b)) ne) refl
      ]

  none_left :
      (k : List ℕ)
      → memcmp_eq m.key_size (t.heap old).key k ≡ true
      → matches m.key_size t.heap k (remove old (t.buckets b)) ≡ 0
  none_left k f = omega (
    arith,
    matches-remove m.key_size t.heap (t.buckets b) k old here,
    ap {B = ℕ} (λ x. if x then 1 else 0) f,
    i.keys_once b k,
  )

  -- and for its own key
  pub without-none :
      (k : List ℕ)
      → memcmp_eq m.key_size (t.heap old).key k ≡ true
      → get_hash_elem t.heap (without.buckets (bucket_of hash t m.key_size k)) k m.key_size ≡ none
  without-none k f =
      let c : b ≡ bucket_of hash t m.key_size k =
        sym (i.hashed b old here)
        ∙ bucket_of_same hash m.key_size t (t.heap old).key k
            (memcmp_eq-take m.key_size (t.heap old).key k f) in
      get_hash_elem-none m.key_size t.heap (without.buckets (bucket_of hash t m.key_size k)) k
        (rw (sym c, set_at_self t.buckets b (remove old (t.buckets b))) (none_left k f))
