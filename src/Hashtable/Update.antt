-- ===== src/Hashtable/Update.antt =====
-- An update of a plain hash table.
use generic_ebpf.Base.{
  ℕ, ◌≤◌, ◌≡◌, inl, inr, sym, ◌∙◌, ap, arith, false, some, List, if◌then◌else◌, take, length,
  Bool-cases,
}
use native.Mathlib.Decide.{ℕ_discrete}
use generic_ebpf.Map.{ok}
use generic_ebpf.Platform.{count}
use generic_ebpf.Hashtable.{
  HashElem, HashTable, HashMap, get_hash_bucket, get_hash_elem, memcmp_eq, value_at, put_value,
  put_key,
}
use generic_ebpf.Hashtable.Ops.{bucket_of, elem_of, hashtable_map_lookup_elem_from_user}
use generic_ebpf.Hashtable.Chain.{set_at_self, set_at_ne, take-copy, get_hash_elem-some}
use generic_ebpf.Hashtable.Splice.{put_value-length}
use generic_ebpf.Hashtable.Invariant.{IsSized}
use generic_ebpf.Hashtable.Swap.{linking, Links, linked-found, linked-other}
use generic_ebpf.Hashtable.Lookup.{lookup_some, lookup_same}

-- The element `x` after its key and its value are written.
abbrev pub written : ℕ → ℕ → List ℕ → List ℕ → HashElem → HashElem
written ks vs key value x = put_value vs value (put_key ks key x) 0

pub written-key :
    (ks vs : ℕ) (key value : List ℕ) (x : HashElem)
    → ks ≤ length key
    → take ks (written ks vs key value x).key ≡ take ks key
unfolding put_value put_key
written-key ks vs key value x h = take-copy ks x.key key h

pub written-value :
    (ks vs : ℕ) (key value : List ℕ) (x : HashElem)
    → vs ≤ length x.values
    → vs ≤ length value
    → value_at (written ks vs key value x) vs 0 ≡ take vs value
unfolding put_value put_key value_at
written-value ks vs key value x pos h = take-copy vs x.values value h

pub written-sized :
    (ks vs : ℕ) (key value : List ℕ) (x : HashElem)
    → vs ≤ length x.values
    → vs ≤ length value
    → length (written ks vs key value x).values ≡ length x.values
unfolding put_key
written-sized ks vs key value x room h =
    put_value-length vs value h (put_key ks key x) 0 (omega arith)

module _ (hash : List ℕ → ℕ) (m : HashMap) (key value : List ℕ)
    (enough_key : m.key_size ≤ length key) (enough : m.value_size ≤ length value)
    (sized : IsSized 1 m) where
  abbrev t : HashTable
  t = m.contents

  abbrev b : ℕ
  b = bucket_of hash t m.key_size key

  room : (q : ℕ) → m.value_size ≤ length (t.heap q).values
  room q = omega (arith, sized.0, sized.1 q)

  module _ (p : ℕ) (rest : List ℕ) where
    abbrev e : HashElem
    e = written m.key_size m.value_size key value (t.heap p)

    abbrev pub relinked : HashMap
    relinked = record m { contents = linking t b p e rest }

    module _ (l : Links hash m.key_size t b p e key rest) where
      heap_found :
          (k : List ℕ) (q : ℕ)
          → elem_of hash m k ≡ some q
          → value_at (relinked.contents.heap q) m.value_size 0 ≡ value_at (t.heap q) m.value_size 0
      unfolding elem_of
      heap_found k q f =
          let c = bucket_of hash t m.key_size k in
          let g = get_hash_elem-some m.key_size t.heap (t.buckets c) k q f in
          ap (λ x. value_at x m.value_size 0)
            (set_at_ne t.heap p q e
              (λ s. absurd (omega (arith, l.fresh c, g.0, ap (λ x. count x (t.buckets c)) s))))

      -- A lookup after the element was written and linked.
      pub relinked-stored :
          ((k : List ℕ)
            → memcmp_eq m.key_size key k ≡ false
            → get_hash_elem t.heap rest k m.key_size
              ≡ get_hash_elem t.heap (t.buckets b) k m.key_size)
          → (k : List ℕ)
          → hashtable_map_lookup_elem_from_user hash relinked k ≡ (
              if memcmp_eq m.key_size key k
              then (ok, take m.value_size value)
              else hashtable_map_lookup_elem_from_user hash m k)
      unfolding elem_of bucket_of get_hash_bucket
      relinked-stored same k = elim (Bool-cases (memcmp_eq m.key_size key k)) [
        | inl s ↦
            let w =
              ap (λ x. value_at x m.value_size 0) (set_at_self t.heap p e)
              ∙ written-value m.key_size m.value_size key value (t.heap p) (room p) enough in
            rw s (
              lookup_some hash relinked k p (linked-found hash m.key_size t b p e key rest l k s)
              ∙ ap (λ x. (ok, x)) w)
        | inr s ↦ rw s (
            lookup_same hash m k relinked
              (linked-other hash m.key_size t b p e key rest l k s (same k s)) (heap_found k))
      ]

    pub relinked-IsSized : IsSized 1 relinked
    relinked-IsSized = (
      sized.0,
      λ q. elim (ℕ_discrete p q) [
        | yes s ↦
            rw (sym s, set_at_self t.heap p e)
              (omega (
                arith,
                written-sized m.key_size m.value_size key value (t.heap p) (room p) enough,
                sized.1 p,
              ))
        | no ne ↦ rw (set_at_ne t.heap p q e ne) (sized.1 q)
      ],
    )
