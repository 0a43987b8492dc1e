-- ===== src/Hashtable/Next.antt =====
-- The call of `get_next_key` with the key of an element.
use generic_ebpf.Base.{
  ℕ, ◌+◌, ◌-◌, ◌≤◌, ◌<◌, ◌≡◌, refl, sym, ◌∙◌, ap, arith, true, some, List, [], ◌∷◌, ◌++◌,
}
use generic_ebpf.Platform.{count}
use generic_ebpf.Hashtable.{HashTable, HashMap, memcmp_eq, get_hash_elem}
use generic_ebpf.Hashtable.Ops.{
  bucket_of, elem_of, get_first_key, list_next, hashtable_map_get_next_key,
}
use generic_ebpf.Hashtable.Chain.{matches, memcmp_eq_refl, memcmp_eq_same}
use generic_ebpf.Hashtable.Swap.{bucket_of_same}
use generic_ebpf.Hashtable.Invariant.{IsValid}
use generic_ebpf.Hashtable.Links.{head, count-middle, get_hash_elem-middle, list_next-middle}
use generic_ebpf.Hashtable.First.{key_at, take-take}

module _ (hash : List ℕ → ℕ) (slots : ℕ) (m : HashMap) (v : IsValid hash slots m) where
  abbrev t : HashTable
  t = m.contents

  module _ (b p : ℕ) (pre post : List ℕ) (here : t.buckets b ≡ pre ++ p ∷ post) where
    stands : 0 < count p (t.buckets b)
    stands = rw here (count-middle pre post p)

    home : bucket_of hash t m.key_size (key_at m p) ≡ b
    home =
        bucket_of_same hash m.key_size t (key_at m p) (t.heap p).key
          (take-take m.key_size (t.heap p).key)
        ∙ v.indexed.hashed b p stands

    own_key : memcmp_eq m.key_size (t.heap p).key (key_at m p) ≡ true
    own_key =
        memcmp_eq_same m.key_size (t.heap p).key (key_at m p) (key_at m p)
          (sym (take-take m.key_size (t.heap p).key))
        ∙ memcmp_eq_refl m.key_size (key_at m p)

    elem_of-key : elem_of hash m (key_at m p) ≡ some p
    unfolding elem_of
    elem_of-key =
        let few : matches m.key_size t.heap (key_at m p) (pre ++ p ∷ post) ≤ 1 =
          rw (sym here) (v.indexed.keys_once b (key_at m p)) in
        ap (λ c. get_hash_elem t.heap (t.buckets c) (key_at m p) m.key_size) home
        ∙ ap (λ c. get_hash_elem t.heap c (key_at m p) m.key_size) here
        ∙ get_hash_elem-middle m.key_size t.heap (key_at m p) pre post p own_key few

    list_next-key : list_next p (t.buckets (bucket_of hash t m.key_size (key_at m p))) ≡ head post
    list_next-key =
        let few : count p (pre ++ p ∷ post) ≤ 1 = rw (sym here) (omega (arith, v.owned.once b p)) in
        ap (λ c. list_next p (t.buckets c)) home
        ∙ ap (λ c. list_next p c) here
        ∙ list_next-middle pre post p few

  pub next_in :
      (b p q : ℕ) (pre post : List ℕ)
      → t.buckets b ≡ pre ++ p ∷ q ∷ post
      → hashtable_map_get_next_key hash m (some (key_at m p)) ≡ some (key_at m q)
  unfolding hashtable_map_get_next_key
  next_in b p q pre post here =
      rw
        (
          hashtable_map_get_next_key,
          elem_of-key b p pre (q ∷ post) here,
          list_next-key b p pre (q ∷ post) here,
        )
        refl

  pub next_after :
      (b p : ℕ) (pre : List ℕ)
      → t.buckets b ≡ pre ++ p ∷ []
      → hashtable_map_get_next_key hash m (some (key_at m p))
        ≡ get_first_key m (t.nbuckets - (b + 1)) (b + 1)
  unfolding hashtable_map_get_next_key
  next_after b p pre here =
      rw
        (
          hashtable_map_get_next_key,
          elem_of-key b p pre [] here,
          list_next-key b p pre [] here,
          home b p pre [] here,
        )
        refl
