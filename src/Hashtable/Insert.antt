-- ===== src/Hashtable/Insert.antt =====
-- A new element from the pool joins the table.
use generic_ebpf.Base.{
  ℕ, ◌+◌, ◌≤◌, ◌<◌, ◌≡◌, ◌≢◌, ◌⊎◌, inl, inr, refl, sym, ap, arith, Option, some, none, List, ◌∷◌,
  ==_refl, ne→==_false, take,
}
use native.Mathlib.Decide.{ℕ_discrete}
use generic_ebpf.Platform.{count, count_cons}
use generic_ebpf.Allocator.{Allocator, ebpf_allocator_alloc}
use generic_ebpf.Allocator.Pool.{IsGood, Taken, ebpf_allocator_alloc-Taken}
use generic_ebpf.Hashtable.{HashElem, HashTable, get_hash_bucket, get_hash_elem}
use generic_ebpf.Hashtable.Ops.{bucket_of}
use generic_ebpf.Hashtable.Chain.{matches-none, set_at_self, set_at_ne}
use generic_ebpf.Hashtable.Invariant.{IsIndexed, IsOwned, total-set_at}
use generic_ebpf.Hashtable.Swap.{linking, Links}

split_taken :
    (a : Allocator) (r : Option (Option ℕ × Allocator))
    → Taken a r
    → (r ≡ some (none, a)) × (a.count ≡ 0)
      ⊎ ((p : ℕ) × (a' : Allocator) × (r ≡ some (some p, a')) × Taken a (some (some p, a')))
split_taken a none t = absurd t
split_taken a (some (none, a')) (z, e) = inl (ap (λ x. some (none, x)) e, z)
split_taken a (some (some p, a')) t = inr (p, a', refl, t)

-- The two results of an allocation from a good pool.
pub ebpf_allocator_alloc-cases :
    (a : Allocator)
    → IsGood a
    → (ebpf_allocator_alloc a ≡ some (none, a)) × (a.count ≡ 0)
      ⊎ ((p : ℕ) × (a' : Allocator) × (ebpf_allocator_alloc a ≡ some (some p, a'))
          × Taken a (some (some p, a')))
ebpf_allocator_alloc-cases a g =
    split_taken a (ebpf_allocator_alloc a) (ebpf_allocator_alloc-Taken a g)

module _ (t : HashTable) (p : ℕ) (a' : Allocator) (o : IsOwned t)
    (taken : Taken t.allocator (some (some p, a'))) where
  -- the table after the allocation
  abbrev pub drawn : HashTable
  drawn = record t { allocator = a' }

  pub drawn-fresh : (c : ℕ) → count p (t.buckets c) ≡ 0
  drawn-fresh c = omega (arith, o.once c p, taken.0)

  free_fewer : (q : ℕ) → p ≢ q → count q a'.free_block ≡ count q t.allocator.free_block
  free_fewer q ne = taken.2 q (λ e. ne (sym e))

  once_apart :
      (c q : ℕ)
      → p ≢ q
      → count q (t.buckets c) + count q t.pcpu_extra_elems + count q a'.free_block ≤ 1
  once_apart c q ne = omega (arith, o.once c q, free_fewer q ne)

  module _ (b : ℕ) (e : HashElem) where
    abbrev pub grown : HashTable
    grown = linking drawn b p e (t.buckets b)

    chain_here : (c : ℕ) → b ≡ c → grown.buckets c ≡ p ∷ t.buckets c
    chain_here c s = rw (sym s) (set_at_self t.buckets b (p ∷ t.buckets b))

    chain_there : (c : ℕ) → b ≢ c → grown.buckets c ≡ t.buckets c
    chain_there c ne = set_at_ne t.buckets b c (p ∷ t.buckets b) ne

    head_once : (c : ℕ) → count p (grown.buckets c) ≤ 1
    head_once c = elim (ℕ_discrete b c) [
      | yes s ↦
          rw (chain_here c s, count_cons p p (t.buckets c), ==_refl p)
            (omega (arith, drawn-fresh c))
      | no ne ↦ rw (chain_there c ne) (omega (arith, drawn-fresh c))
    ]

    head_other : (c q : ℕ) → p ≢ q → count q (grown.buckets c) ≡ count q (t.buckets c)
    head_other c q ne = elim (ℕ_discrete b c) [
      | yes s ↦ rw (chain_here c s, count_cons q p (t.buckets c), ne→==_false p q ne) (omega arith)
      | no ne' ↦ rw (chain_there c ne') refl
    ]

    once-grown :
        (c q : ℕ)
        → count q (grown.buckets c) + count q t.pcpu_extra_elems + count q a'.free_block ≤ 1
    once-grown c q = elim (ℕ_discrete p q) [
      | yes s ↦ rw (sym s) (omega (arith, o.once c p, taken.0, taken.1, head_once c))
      | no ne ↦ omega (arith, once_apart c q ne, head_other c q ne)
    ]

    pub grown-IsOwned : b < t.nbuckets → IsOwned grown
    grown-IsOwned small =
        let k = total-set_at t.nbuckets t.buckets b (p ∷ t.buckets b) small in
        record {
          bits = o.bits;
          bits_small = o.bits_small;
          nbuckets_pow = o.nbuckets_pow;
          once = once-grown;
          pool = taken.5;
          kept = omega (arith, o.kept, k, taken.3, taken.4);
        }

module _ (hash : List ℕ → ℕ) (n : ℕ) (t : HashTable) (p : ℕ) (a' : Allocator) (o : IsOwned t)
    (taken : Taken t.allocator (some (some p, a'))) where
  -- What linking the element into the bucket of its key needs, if the key is not in the table.
  pub grown-Links :
      (e : HashElem) (key : List ℕ)
      → IsIndexed hash n t
      → take n e.key ≡ take n key
      → (let b = bucket_of hash t n key in
          get_hash_elem t.heap (t.buckets b) key n ≡ none
          → Links hash n (drawn t p a' o taken) b p e key (t.buckets b))
  unfolding bucket_of get_hash_bucket
  grown-Links e key i w absent =
      let b = bucket_of hash t n key in
      record {
        indexed = record { hashed = i.hashed; keys_once = i.keys_once };
        home = refl;
        written = w;
        fresh = drawn-fresh t p a' o taken;
        part = λ q. omega arith;
        gone = matches-none n t.heap (t.buckets b) key absent;
        fewer = λ k. omega arith;
      }
