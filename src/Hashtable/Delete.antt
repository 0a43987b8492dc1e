-- ===== src/Hashtable/Delete.antt =====
-- Deleting a key: `hashtable_map_delete_elem` on every branch.
use generic_ebpf.Base.{
  Option, length, ℕ, ◌+◌, ◌<◌, ◌≡◌, inl, inr, refl, ◌∙◌, arith, true, some, none, List, [],
  if◌then◌else◌, Bool-cases, Option-cases,
}
use generic_ebpf.Map.{Code, ok, enoent}
use generic_ebpf.Platform.{count}
use generic_ebpf.Allocator.{ebpf_allocator_free}
use generic_ebpf.Hashtable.{HashMap, get_hash_bucket, memcmp_eq}
use generic_ebpf.Hashtable.Ops.{
  bucket_of, elem_of, hashtable_map_delete_elem, hashtable_map_lookup_elem_from_user,
}
use generic_ebpf.Hashtable.Chain.{get_hash_elem-some, memcmp_eq-take, memcmp_eq_same}
use generic_ebpf.Hashtable.Invariant.{total, IsValid, bucket_of-lt}
use generic_ebpf.Hashtable.Swap.{elem_of_same}
use generic_ebpf.Hashtable.Lookup.{lookup_none, lookup_same}
use generic_ebpf.Hashtable.Without.{
  without, without-IsIndexed, without-IsOwned, without-total, without-other, without-none,
}

-- How many elements a deletion takes away.
unfoldable pub shrinkage : Option ℕ → ℕ
shrinkage none = 0
shrinkage (some elem) = 1

module _ (hash : List ℕ → ℕ) where
  -- What a deletion leaves: the key is gone, and every other key has what it had.
  pub record Deleted (slots : ℕ) (m : HashMap) (key : List ℕ) (r : Code × HashMap) : Type 0 where
    pub code : r.0 ≡ ok
    pub valid : IsValid hash slots r.1
    pub shrinks :
        total r.1.contents.nbuckets r.1.contents.buckets + shrinkage (elem_of hash m key)
        ≡ total m.contents.nbuckets m.contents.buckets
    pub nblocks : r.1.contents.allocator.nblocks ≡ m.contents.allocator.nblocks
    pub spares : length r.1.contents.pcpu_extra_elems ≡ length m.contents.pcpu_extra_elems
    pub sizes : (r.1.key_size ≡ m.key_size) × (r.1.value_size ≡ m.value_size)
    pub gone :
        (k : List ℕ)
        → hashtable_map_lookup_elem_from_user hash r.1 k ≡ (
            if memcmp_eq m.key_size key k
            then (enoent, [])
            else hashtable_map_lookup_elem_from_user hash m k)

  module _ (slots : ℕ) (m : HashMap) (key : List ℕ) (v : IsValid hash slots m) (old : ℕ)
      (e : elem_of hash m key ≡ some old) where
    abbrev b : ℕ
    b = bucket_of hash m.contents m.key_size key

    pub found :
        (0 < count old (m.contents.buckets b))
        × (memcmp_eq m.key_size (m.contents.heap old).key key ≡ true)
    unfolding elem_of
    found = get_hash_elem-some m.key_size m.contents.heap (m.contents.buckets b) key old e

    -- the map without the element
    abbrev pub left : HashMap
    left = record m { contents = without hash m v.indexed v.owned b old found.0 }

    key_of_old :
        (k : List ℕ) → memcmp_eq m.key_size (m.contents.heap old).key k ≡ memcmp_eq m.key_size key k
    key_of_old k =
        memcmp_eq_same m.key_size (m.contents.heap old).key key k
          (memcmp_eq-take m.key_size (m.contents.heap old).key key found.1)

    gone_left :
        (k : List ℕ)
        → hashtable_map_lookup_elem_from_user hash left k ≡ (
            if memcmp_eq m.key_size key k
            then (enoent, [])
            else hashtable_map_lookup_elem_from_user hash m k)
    unfolding elem_of bucket_of get_hash_bucket
    gone_left k = elim (Bool-cases (memcmp_eq m.key_size key k)) [
      | inl s ↦ rw s (
          lookup_none hash left k
            (without-none hash m v.indexed v.owned b old found.0 k (key_of_old k ∙ s)))
      | inr s ↦ rw s (
          lookup_same hash m k left
            (without-other hash m v.indexed v.owned b old found.0 k (key_of_old k ∙ s))
            (λ p e'. refl))
    ]

    pub left-IsValid : IsValid hash slots left
    left-IsValid = record {
      indexed = without-IsIndexed hash m v.indexed v.owned b old found.0;
      owned =
          without-IsOwned hash m v.indexed v.owned b old found.0
            (bucket_of-lt hash m.key_size m.contents key v.owned);
      sized = v.sized;
    }

    pub left-total :
        total left.contents.nbuckets left.contents.buckets + 1
        ≡ total m.contents.nbuckets m.contents.buckets
    left-total =
        without-total hash m v.indexed v.owned b old found.0
          (bucket_of-lt hash m.key_size m.contents key v.owned)

    pub delete_left : hashtable_map_delete_elem hash m key ≡ (ok, left)
    unfolding hashtable_map_delete_elem
    delete_left = rw (hashtable_map_delete_elem, e) refl

  gone_absent :
      (m : HashMap) (key k : List ℕ)
      → elem_of hash m key ≡ none
      → hashtable_map_lookup_elem_from_user hash m k ≡ (
          if memcmp_eq m.key_size key k
          then (enoent, [])
          else hashtable_map_lookup_elem_from_user hash m k)
  gone_absent m key k e = elim (Bool-cases (memcmp_eq m.key_size key k)) [
    | inl s ↦ rw s (lookup_none hash m k (elem_of_same hash m key k s ∙ e))
    | inr s ↦ rw s refl
  ]

  delete_absent :
      (m : HashMap) (key : List ℕ)
      → elem_of hash m key ≡ none
      → hashtable_map_delete_elem hash m key ≡ (ok, m)
  unfolding hashtable_map_delete_elem
  delete_absent m key e = rw (hashtable_map_delete_elem, e) refl

  -- Deleting a key, present or not, of a valid hash table keeps it valid and returns 0; the key is
  -- then absent, and a lookup of any other key gives what it gave before. The table has one element
  -- less if the key was there, and as many as before if not.
  pub hashtable_map_delete_elem-Deleted :
      (slots : ℕ) (m : HashMap) (key : List ℕ)
      → IsValid hash slots m
      → Deleted slots m key (hashtable_map_delete_elem hash m key)
  unfolding shrinkage ebpf_allocator_free
  hashtable_map_delete_elem-Deleted slots m key v = elim (Option-cases (elem_of hash m key)) [
    | inl e ↦ rw (delete_absent m key e) (record {
      code = refl;
      valid = v;
      shrinks = rw e (omega arith);
      nblocks = refl;
      spares = refl;
      sizes = (refl, refl);
      gone = λ k. gone_absent m key k e;
    })
    | inr (old, e) ↦ rw (delete_left slots m key v old e) (record {
      code = refl;
      valid = left-IsValid slots m key v old e;
      shrinks = rw e (left-total slots m key v old e);
      nblocks = refl;
      spares = refl;
      sizes = (refl, refl);
      gone = gone_left slots m key v old e;
    })
  ]
