-- ===== src/Hashtable/Ops.antt =====
-- The operations on elements of the hash table. The bucket's lock makes each update and delete one
-- step. `hash` is `ebpf_jenkins_hash` of sys/dev/ebpf/ebpf_jhash.h with the seed 0, over the bytes
-- of a key; nothing here depends on which function of them it is.
use generic_ebpf.Base.{
  ℕ, zero, suc, ◌+◌, ◌-◌, Option, none, some, List, [], ◌∷◌, ◌==◌, if◌then◌else◌, ◌>>=◌, take,
}
use generic_ebpf.Map.{Code, ok, ebusy, enoent}
use generic_ebpf.Allocator.{ebpf_allocator_free}
use generic_ebpf.Platform.{remove}
use generic_ebpf.Hashtable.{
  HashElem, HashTable, HashMap, set_at, get_hash_bucket, get_hash_elem, check_update_flags,
  new_elem, percpu_offset, value_at, put_value, put_key, link,
}

-- `for (i = 0; i < ncpus; i++)` over the values of an element, from `i` on
unfoldable pub put_all : ℕ → ℕ → List ℕ → ℕ → ℕ → HashElem → HashElem
unfolding put_value percpu_offset
put_all size n value zero i e = e
put_all size n value (suc left) i e =
    put_all size n value left (i + 1) (put_value n value e (percpu_offset size i))

unfoldable pub values_from : ℕ → ℕ → HashElem → ℕ → ℕ → List (List ℕ)
unfolding value_at percpu_offset
values_from size n e zero i = []
values_from size n e (suc left) i =
    value_at e n (percpu_offset size i) ∷ values_from size n e left (i + 1)

-- EBPF_EPOCH_LIST_NEXT of `p` in its chain
unfoldable pub list_next : ℕ → List ℕ → Option ℕ
list_next p [] = none
list_next p (q ∷ []) = none
list_next p (q ∷ r ∷ chain) = if p == q then some r else list_next p (r ∷ chain)

-- The loop at `get_first_key`: the key of the first element from bucket `i` on.
unfoldable pub get_first_key : HashMap → ℕ → ℕ → Option (List ℕ)
get_first_key m zero i = none
get_first_key m (suc left) i =
    let rest = get_first_key m left (i + 1) in
    elim (m.contents.buckets i) [
      | [] ↦ rest
      | elem ∷ chain ↦ some (take m.key_size (m.contents.heap elem).key)
    ]

module _ (hash : List ℕ → ℕ) where
  -- The bucket of a key, which every operation computes first.
  unfoldable pub bucket_of : HashTable → ℕ → List ℕ → ℕ
  unfolding get_hash_bucket
  bucket_of t n key = get_hash_bucket t (hash (take n key))

  -- The element of a key
  unfoldable pub elem_of : HashMap → List ℕ → Option ℕ
  unfolding bucket_of get_hash_elem
  elem_of m key =
      let t = m.contents in
      get_hash_elem t.heap (t.buckets (bucket_of t m.key_size key)) key m.key_size

  -- A pointer is an element and an offset in its values; NULL is `none`.
  unfoldable pub hashtable_map_lookup_elem : HashMap → ℕ → List ℕ → Option (ℕ × ℕ)
  unfolding elem_of percpu_offset
  hashtable_map_lookup_elem m cpu key = elem_of m key >>= λ elem.
      some (elem, if m.percpu then percpu_offset m.contents.value_size cpu else 0)

  -- The code, and the bytes that are copied out.
  unfoldable pub hashtable_map_lookup_elem_from_user : HashMap → List ℕ → Code × List ℕ
  unfolding elem_of value_at
  hashtable_map_lookup_elem_from_user m key = elim (elem_of m key) [
    | none ↦ (enoent, [])
    | some elem ↦ (ok, value_at (m.contents.heap elem) m.value_size 0)
  ]

  unfoldable pub hashtable_map_lookup_elem_percpu_from_user :
      HashMap → ℕ → List ℕ → Code × List (List ℕ)
  unfolding elem_of values_from
  hashtable_map_lookup_elem_percpu_from_user m ncpus key = elim (elem_of m key) [
    | none ↦ (enoent, [])
    | some elem ↦
        (ok, values_from m.contents.value_size m.value_size (m.contents.heap elem) ncpus 0)
  ]

  -- The part of an update after the check of the flags.
  unfoldable pub replace : HashMap → ℕ → List ℕ → List ℕ → Option ℕ → Option (Code × HashMap)
  unfolding bucket_of new_elem put_key put_value link set_at
  replace m cpu key value old =
      let b = bucket_of m.contents m.key_size key in
      new_elem m.contents cpu old >>= λ (new, t). elim new [
        | none ↦ some (ebusy, record m { contents = t })
        | some p ↦
            let e = put_value m.value_size value (put_key m.key_size key (t.heap p)) 0 in
            some (ok, record m { contents = link (record t { heap = set_at t.heap p e }) b p old })
      ]

  -- An outer `none` is undefined behaviour.
  unfoldable pub hashtable_map_update_elem :
      HashMap → ℕ → List ℕ → List ℕ → ℕ → Option (Code × HashMap)
  unfolding elem_of check_update_flags replace
  hashtable_map_update_elem m cpu key value flags =
      let old = elem_of m key in
      elim (check_update_flags old flags) [
        | ok ↦ replace m cpu key value old
        | error ↦ some (error, m)
      ]

  -- The two updates of a per-CPU map, which differ in the values that `write` writes.
  unfoldable pub replace_percpu :
      HashMap → List ℕ → (HashElem → HashElem) → Option ℕ → Option (Code × HashMap)
  unfolding bucket_of new_elem put_key link set_at
  replace_percpu m key write (some old) =
      let t = m.contents in
      some (ok, record m { contents = record t { heap = set_at t.heap old (write (t.heap old)) } })
  replace_percpu m key write none =
      let b = bucket_of m.contents m.key_size key in
      new_elem m.contents 0 none >>= λ (new, t). elim new [
        | none ↦ some (ebusy, record m { contents = t })
        | some p ↦
            let e = write (put_key m.key_size key (t.heap p)) in
            some (ok, record m { contents = link (record t { heap = set_at t.heap p e }) b p none })
      ]

  unfoldable pub hashtable_map_update_elem_percpu :
      HashMap → ℕ → List ℕ → List ℕ → ℕ → Option (Code × HashMap)
  unfolding elem_of check_update_flags replace_percpu put_value percpu_offset
  hashtable_map_update_elem_percpu m cpu key value flags =
      let old = elem_of m key in
      elim (check_update_flags old flags) [
        | ok ↦
            replace_percpu m key
              (λ e. put_value m.value_size value e (percpu_offset m.contents.value_size cpu)) old
        | error ↦ some (error, m)
      ]

  unfoldable pub hashtable_map_update_elem_percpu_from_user :
      HashMap → ℕ → List ℕ → List ℕ → ℕ → Option (Code × HashMap)
  unfolding elem_of check_update_flags replace_percpu put_all
  hashtable_map_update_elem_percpu_from_user m ncpus key value flags =
      let old = elem_of m key in
      elim (check_update_flags old flags) [
        | ok ↦
            replace_percpu m key (λ e. put_all m.contents.value_size m.value_size value ncpus 0 e)
              old
        | error ↦ some (error, m)
      ]

  unfoldable pub hashtable_map_delete_elem : HashMap → List ℕ → Code × HashMap
  unfolding elem_of bucket_of set_at ebpf_allocator_free
  hashtable_map_delete_elem m key =
      let t = m.contents in
      let b = bucket_of t m.key_size key in
      elim (elem_of m key) [
        | none ↦ (ok, m)
        | some elem ↦ (
          ok,
          record m {
            contents = record t {
              buckets = set_at t.buckets b (remove elem (t.buckets b));
              allocator = ebpf_allocator_free t.allocator elem;
            };
          },
        )
      ]

  -- `none` is ENOENT, and `some` holds the bytes that are copied to `next_key`.
  unfoldable pub hashtable_map_get_next_key : HashMap → Option (List ℕ) → Option (List ℕ)
  unfolding elem_of bucket_of list_next get_first_key
  hashtable_map_get_next_key m none = get_first_key m m.contents.nbuckets 0
  hashtable_map_get_next_key m (some key) =
      let t = m.contents in
      let b = bucket_of t m.key_size key in
      elim (elem_of m key) [
        | none ↦ get_first_key m t.nbuckets 0
        | some elem ↦ elim (list_next elem (t.buckets b)) [
          | some next ↦ some (take m.key_size (t.heap next).key)
          | none ↦ get_first_key m (t.nbuckets - (b + 1)) (b + 1)
        ]
      ]
