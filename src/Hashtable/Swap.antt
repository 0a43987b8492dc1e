-- ===== src/Hashtable/Swap.antt =====
-- Putting a new element with a key at the head of the bucket of that key.
use generic_ebpf.Base.{
  ℕ, ◌+◌, ◌≤◌, ◌<◌, ◌≡◌, ◌≢◌, inl, inr, refl, sym, ◌∙◌, ap, arith, true, false, some, List, ◌∷◌,
  if◌then◌else◌, take, Bool-cases,
}
use native.Mathlib.Decide.{ℕ_discrete}
use generic_ebpf.Platform.{count}
use generic_ebpf.Hashtable.{
  HashElem, HashTable, HashMap, set_at, get_hash_bucket, get_hash_elem, memcmp_eq,
}
use generic_ebpf.Hashtable.Ops.{bucket_of, elem_of}
use generic_ebpf.Hashtable.Chain.{
  matches, set_at_self, set_at_ne, memcmp_eq-take, memcmp_eq_same, matches-set_at,
  get_hash_elem-set_at, matches_same, get_hash_elem_same,
}
use generic_ebpf.Hashtable.Invariant.{IsIndexed}

-- The table with `p` written and put before what is left of the chain of `b`.
abbrev pub linking : HashTable → ℕ → ℕ → HashElem → List ℕ → HashTable
linking t b p e rest = record t {
  heap = set_at t.heap p e;
  buckets = set_at t.buckets b (p ∷ rest);
}

module _ (hash : List ℕ → ℕ) (n : ℕ) where
  -- Keys with the same first bytes have the same bucket.
  pub bucket_of_same :
      (t : HashTable) (a b : List ℕ)
      → take n a ≡ take n b
      → bucket_of hash t n a ≡ bucket_of hash t n b
  unfolding bucket_of
  bucket_of_same t a b h = ap (λ k. get_hash_bucket t (hash k)) h

  module _ (t : HashTable) (b p : ℕ) (e : HashElem) (key rest : List ℕ) where
    abbrev linked : HashTable
    linked = linking t b p e rest

    -- What is known of the new element and of the rest of the chain.
    pub record Links : Type 0 where
      pub indexed : IsIndexed hash n t
      pub home : bucket_of hash t n key ≡ b
      pub written : take n e.key ≡ take n key
      pub fresh : (c : ℕ) → count p (t.buckets c) ≡ 0
      pub part : (q : ℕ) → count q rest ≤ count q (t.buckets b)
      pub gone : matches n t.heap key rest ≡ 0
      pub fewer : (k : List ℕ) → matches n t.heap k rest ≤ matches n t.heap k (t.buckets b)

    module _ (l : Links) where
      bucket_of-linked : (k : List ℕ) → bucket_of hash linked n k ≡ bucket_of hash t n k
      unfolding bucket_of get_hash_bucket
      bucket_of-linked k = refl

      absent : count p rest ≡ 0
      absent = omega (arith, l.part p, l.fresh b)

      chain_here : (c : ℕ) → b ≡ c → linked.buckets c ≡ p ∷ rest
      chain_here c s = rw (sym s) (set_at_self t.buckets b (p ∷ rest))

      chain_there : (c : ℕ) → b ≢ c → linked.buckets c ≡ t.buckets c
      chain_there c ne = set_at_ne t.buckets b c (p ∷ rest) ne

      in_rest : (q : ℕ) → p ≢ q → 0 < count q (p ∷ rest) → 0 < count q (t.buckets b)
      unfolding count
      in_rest q ne h = ground (arith, l.part q, ne)

      -- an element of the new table other than `p` is one of the old table
      hashed_old :
          (c q : ℕ)
          → p ≢ q
          → 0 < count q (t.buckets c)
          → bucket_of hash linked n (linked.heap q).key ≡ c
      hashed_old c q ne h =
          let same = ap (λ x. bucket_of hash linked n x.key) (set_at_ne t.heap p q e ne) in
          same ∙ bucket_of-linked (t.heap q).key ∙ l.indexed.hashed c q h

      not_p : (c q : ℕ) → 0 < count q (t.buckets c) → p ≢ q
      not_p c q h e = omega (arith, l.fresh c, h, ap (λ x. count x (t.buckets c)) e)

      hashed_new : (c : ℕ) → b ≡ c → bucket_of hash linked n (linked.heap p).key ≡ c
      hashed_new c s =
          let same = ap (λ x. bucket_of hash linked n x.key) (set_at_self t.heap p e) in
          same ∙ bucket_of-linked e.key ∙ bucket_of_same t e.key key l.written ∙ l.home ∙ s

      hashed-linked :
          (c q : ℕ)
          → 0 < count q (linked.buckets c)
          → bucket_of hash linked n (linked.heap q).key ≡ c
      hashed-linked c q h = elim (ℕ_discrete b c) [
        | yes s ↦ elim (ℕ_discrete p q) [
          | yes s' ↦ rw (sym s') (hashed_new c s)
          | no ne ↦
              let here : 0 < count q (p ∷ rest) = rw (sym (chain_here c s)) h in
              rw (sym s) (hashed_old b q ne (in_rest q ne here))
        ]
        | no ne ↦
            let there : 0 < count q (t.buckets c) = rw (sym (chain_there c ne)) h in
            hashed_old c q (not_p c q there) there
      ]

      matches_rest : (k : List ℕ) → matches n linked.heap k rest ≡ matches n t.heap k rest
      matches_rest k = matches-set_at n t.heap rest k p e absent

      matches_head :
          (k : List ℕ)
          → matches n linked.heap k (p ∷ rest)
            ≡ (if memcmp_eq n key k then 1 else 0) + matches n t.heap k rest
      unfolding matches
      matches_head k =
          let f : memcmp_eq n (linked.heap p).key k ≡ memcmp_eq n key k =
            ap (λ x. memcmp_eq n x.key k) (set_at_self t.heap p e)
            ∙ memcmp_eq_same n e.key key k l.written in
          rw f (ground (arith, matches_rest k))

      keys_once_here : (k : List ℕ) → matches n linked.heap k (p ∷ rest) ≤ 1
      keys_once_here k = elim (Bool-cases (memcmp_eq n key k)) [
        | inl m ↦ omega (
          arith,
          matches_head k,
          ap {B = ℕ} (λ x. if x then 1 else 0) m,
          matches_same n t.heap rest key k m,
          l.gone,
        )
        | inr m ↦ omega (
          arith,
          matches_head k,
          ap {B = ℕ} (λ x. if x then 1 else 0) m,
          l.fewer k,
          l.indexed.keys_once b k,
        )
      ]

      keys_once-linked : (c : ℕ) (k : List ℕ) → matches n linked.heap k (linked.buckets c) ≤ 1
      keys_once-linked c k = elim (ℕ_discrete b c) [
        | yes s ↦ rw (chain_here c s) (keys_once_here k)
        | no ne ↦
            let f = matches-set_at n t.heap (t.buckets c) k p e (l.fresh c) in
            rw (chain_there c ne, f) (l.indexed.keys_once c k)
      ]

      pub linked-IsIndexed : IsIndexed hash n linked
      linked-IsIndexed = record { hashed = hashed-linked; keys_once = keys_once-linked }

      -- A search for the key finds the new element.
      pub linked-found :
          (k : List ℕ)
          → memcmp_eq n key k ≡ true
          → get_hash_elem linked.heap (linked.buckets (bucket_of hash t n k)) k n ≡ some p
      unfolding get_hash_elem
      linked-found k m =
          let c : b ≡ bucket_of hash t n k =
            sym l.home ∙ bucket_of_same t key k (memcmp_eq-take n key k m) in
          let f : memcmp_eq n (linked.heap p).key k ≡ true =
            ap (λ x. memcmp_eq n x.key k) (set_at_self t.heap p e)
            ∙ memcmp_eq_same n e.key key k l.written
            ∙ m in
          rw (chain_here (bucket_of hash t n k) c, f) refl

      -- A search for another key finds what it found before.
      pub linked-other :
          (k : List ℕ)
          → memcmp_eq n key k ≡ false
          → get_hash_elem t.heap rest k n ≡ get_hash_elem t.heap (t.buckets b) k n
          → get_hash_elem linked.heap (linked.buckets (bucket_of hash t n k)) k n
            ≡ get_hash_elem t.heap (t.buckets (bucket_of hash t n k)) k n
      unfolding get_hash_elem
      linked-other k m same = elim (ℕ_discrete b (bucket_of hash t n k)) [
        | yes c ↦
            let f : memcmp_eq n (linked.heap p).key k ≡ false =
              ap (λ x. memcmp_eq n x.key k) (set_at_self t.heap p e)
              ∙ memcmp_eq_same n e.key key k l.written
              ∙ m in
            let g = get_hash_elem-set_at n t.heap rest k p e absent in
            rw (chain_here (bucket_of hash t n k) c, f, g, same, sym c) refl
        | no ne ↦
            let g =
              get_hash_elem-set_at n t.heap (t.buckets (bucket_of hash t n k)) k p e
                (l.fresh (bucket_of hash t n k)) in
            rw (chain_there (bucket_of hash t n k) ne) g
      ]

-- Keys with the same first bytes have the same element.
pub elem_of_same :
    (hash : List ℕ → ℕ) (m : HashMap) (a b : List ℕ)
    → memcmp_eq m.key_size a b ≡ true
    → elem_of hash m b ≡ elem_of hash m a
unfolding elem_of bucket_of
elem_of_same hash m a b h =
    let e = memcmp_eq-take m.key_size a b h in
    rw
      (
        e,
        get_hash_elem_same m.key_size m.contents.heap
            (m.contents.buckets (bucket_of hash m.contents m.key_size b)) a b e,
      )
      refl
