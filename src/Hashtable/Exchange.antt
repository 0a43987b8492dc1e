-- ===== src/Hashtable/Exchange.antt =====
-- The spare element of a CPU takes the place of an element of the table.
use generic_ebpf.Base.{
  ℕ, ◌+◌, ◌-◌, ◌≤◌, ◌<◌, ◌≡◌, ◌≢◌, sym, ◌∙◌, ap, arith, true, some, List, ◌∷◌, ◌==◌, ==_refl,
  ne→==_false, if◌then◌else◌, take, length-set, set, get_elem?,
}
use native.Mathlib.Decide.{ℕ_discrete}
use generic_ebpf.Platform.{count, count_cons, count-remove, count-set, count-get_elem?, remove}
use generic_ebpf.Hashtable.{HashElem, HashTable, get_hash_bucket, memcmp_eq}
use generic_ebpf.Hashtable.Ops.{bucket_of}
use generic_ebpf.Hashtable.Chain.{matches-remove, length-remove, set_at_self, set_at_ne}
use generic_ebpf.Hashtable.Invariant.{IsIndexed, IsOwned, total-set_at}
use generic_ebpf.Hashtable.Swap.{linking, Links}

module _ (t : HashTable) (o : IsOwned t) (cpu p : ℕ)
    (spare : get_elem? t.pcpu_extra_elems cpu ≡ some p) (b old : ℕ)
    (here : 0 < count old (t.buckets b)) where
  -- the table after the exchange of the spare element
  abbrev pub lent : HashTable
  lent = record t { pcpu_extra_elems = set t.pcpu_extra_elems cpu old }

  abbrev pub exchanged : HashElem → HashTable
  exchanged e = linking lent b p e (remove old (t.buckets b))

  pub lent-fresh : (c : ℕ) → count p (t.buckets c) ≡ 0
  lent-fresh c = omega (arith, o.once c p, count-get_elem? t.pcpu_extra_elems cpu p spare)

  pub old-ne-p : old ≢ p
  old-ne-p s = omega (arith, lent-fresh b, here, ap (λ x. count x (t.buckets b)) s)

  module _ (alone : (c : ℕ) → b ≢ c → count old (t.buckets c) ≡ 0) (e : HashElem) where
    chain_counts :
        (q : ℕ)
        → count q ((exchanged e).buckets b)
          ≡ (if p == q then 1 else 0) + (count q (t.buckets b) - (if old == q then 1 else 0))
    chain_counts q =
        ap (λ l. count q l) (set_at_self t.buckets b (p ∷ remove old (t.buckets b)))
        ∙ count_cons q p (remove old (t.buckets b))
        ∙ ap (λ x. (if p == q then 1 else 0) + x) (count-remove q old (t.buckets b))

    spare_counts :
        (q : ℕ)
        → count q lent.pcpu_extra_elems + (if p == q then 1 else 0)
          ≡ count q t.pcpu_extra_elems + (if old == q then 1 else 0)
    spare_counts q = count-set q t.pcpu_extra_elems cpu p old spare

    old_there : (q : ℕ) → (if old == q then 1 else 0) ≤ count q (t.buckets b)
    old_there q = elim (ℕ_discrete old q) [
      | yes s ↦ rw (sym s, ==_refl old) (omega arith)
      | no ne ↦ rw (ne→==_false old q ne) (omega arith)
    ]

    old_elsewhere :
        (c q : ℕ)
        → b ≢ c
        → (if old == q then 1 else 0)
            + count q (t.buckets c)
            + count q t.pcpu_extra_elems
            + count q t.allocator.free_block
          ≤ 1
    old_elsewhere c q ne = elim (ℕ_discrete old q) [
      | yes s ↦ rw (sym s, ==_refl old) (omega (arith, alone c ne, o.once b old))
      | no ne' ↦ rw (ne→==_false old q ne') (omega (arith, o.once c q))
    ]

    once-exchanged :
        (c q : ℕ)
        → count q ((exchanged e).buckets c)
            + count q lent.pcpu_extra_elems
            + count q t.allocator.free_block
          ≤ 1
    once-exchanged c q = elim (ℕ_discrete b c) [
      | yes s ↦ rw (sym s) (omega (arith, chain_counts q, spare_counts q, old_there q, o.once b q))
      | no ne ↦
          rw (set_at_ne t.buckets b c (p ∷ remove old (t.buckets b)) ne)
            (omega (arith, spare_counts q, old_elsewhere c q ne))
    ]

    pub exchanged-IsOwned : b < t.nbuckets → IsOwned (exchanged e)
    exchanged-IsOwned small =
        let k = total-set_at t.nbuckets t.buckets b (p ∷ remove old (t.buckets b)) small in
        record {
          bits = o.bits;
          bits_small = o.bits_small;
          nbuckets_pow = o.nbuckets_pow;
          once = once-exchanged;
          pool = o.pool;
          kept = omega (
            arith,
            o.kept,
            k,
            length-remove old (t.buckets b) here,
            length-set t.pcpu_extra_elems cpu old,
          );
        }

  module _ (hash : List ℕ → ℕ) (n : ℕ) (key : List ℕ) where
    -- What linking the element into the bucket of its key needs, if `old` has that key.
    pub exchanged-Links :
        (e : HashElem)
        → IsIndexed hash n t
        → take n e.key ≡ take n key
        → bucket_of hash t n key ≡ b
        → memcmp_eq n (t.heap old).key key ≡ true
        → Links hash n lent b p e key (remove old (t.buckets b))
    unfolding bucket_of get_hash_bucket
    exchanged-Links e i w home same = record {
      indexed = record { hashed = i.hashed; keys_once = i.keys_once };
      home = home;
      written = w;
      fresh = lent-fresh;
      part = λ q. omega (arith, count-remove q old (t.buckets b));
      gone = omega (
        arith,
        matches-remove n t.heap (t.buckets b) key old here,
        ap {B = ℕ} (λ x. if x then 1 else 0) same,
        i.keys_once b key,
      );
      fewer = λ k. omega (arith, matches-remove n t.heap (t.buckets b) k old here);
    }
