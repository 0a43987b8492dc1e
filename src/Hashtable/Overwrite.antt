-- ===== src/Hashtable/Overwrite.antt =====
-- The update of a key that a per-CPU hash table has, from user space.
use generic_ebpf.Base.{
  ℕ, ◌*◌, ◌^◌, ◌≤◌, ◌≡◌, ◌≢◌, inl, inr, refl, sym, ◌∙◌, ap, arith, true, false, some, List,
  if◌then◌else◌, take, length, replicate, Bool-cases,
}
use native.Mathlib.Decide.{ℕ_discrete}
use generic_ebpf.Map.{Code, ok}
use generic_ebpf.Hashtable.{
  HashElem, HashTable, HashMap, set_at, get_hash_bucket, memcmp_eq, check_update_flags,
}
use generic_ebpf.Hashtable.Ops.{
  bucket_of, elem_of, put_all, values_from, replace_percpu,
  hashtable_map_update_elem_percpu_from_user, hashtable_map_lookup_elem_percpu_from_user,
}
use generic_ebpf.Hashtable.Chain.{
  get_hash_elem-some, memcmp_eq-take, memcmp_eq_same, set_at_self, set_at_ne,
}
use generic_ebpf.Hashtable.Invariant.{IsValid}
use generic_ebpf.Hashtable.Swap.{elem_of_same}
use generic_ebpf.Hashtable.Changes.{update_code}
use generic_ebpf.Hashtable.Values.{
  IsWrite, put_all-IsWrite, values_from-put_all, get_hash_elem-keys, matches-keys,
  lookup_percpu-some, lookup_percpu_same,
}

-- What an update leaves, for `slots` values in each element.
pub record UpdatedPercpu (hash : List ℕ → ℕ) (slots ncpus : ℕ) (m : HashMap) (key value : List ℕ)
    (flags : ℕ) (r : Code × HashMap) : Type 0 where
  pub code : r.0 ≡ update_code (elem_of hash m key) flags m.contents
  pub valid : IsValid hash slots r.1
  pub refused : r.0 ≢ ok → r.1 ≡ m
  pub stored :
      r.0 ≡ ok
      → (k : List ℕ)
      → hashtable_map_lookup_elem_percpu_from_user hash r.1 ncpus k ≡ (
          if memcmp_eq m.key_size key k
          then (ok, replicate ncpus (take m.value_size value))
          else hashtable_map_lookup_elem_percpu_from_user hash m ncpus k)

module _ (hash : List ℕ → ℕ) (slots ncpus : ℕ) (m : HashMap) (key value : List ℕ) (flags : ℕ)
    (v : IsValid hash slots m) (fits : slots * m.contents.value_size ≤ 2 ^ 32)
    (cpus : ncpus ≤ slots) (enough_key : m.key_size ≤ length key)
    (enough : m.value_size ≤ length value) where
  abbrev t : HashTable
  t = m.contents

  abbrev b : ℕ
  b = bucket_of hash t m.key_size key

  abbrev pub write : HashElem → HashElem
  write e = put_all t.value_size m.value_size value ncpus 0 e

  keeps : IsWrite (slots * t.value_size) write
  keeps = put_all-IsWrite slots t.value_size fits m.value_size v.sized.0 value enough ncpus cpus

  abbrev pub Ends : Type 0
  Ends =
      (r : Code × HashMap) × (hashtable_map_update_elem_percpu_from_user hash m ncpus key value
          flags
        ≡ some r)
      × UpdatedPercpu hash slots ncpus m key value flags r

  -- The values of the element of the key are overwritten.
  module _ (old : ℕ) where
    abbrev heap' : ℕ → HashElem
    heap' = set_at t.heap old (write (t.heap old))

    abbrev changed : HashMap
    changed = record m { contents = record t { heap = heap' } }

    same_keys : (q : ℕ) → (heap' q).key ≡ (t.heap q).key
    same_keys q = elim (ℕ_discrete old q) [
      | yes s ↦ rw (sym s, set_at_self t.heap old (write (t.heap old))) (keeps.key (t.heap old))
      | no ne ↦ ap (λ x. x.key) (set_at_ne t.heap old q (write (t.heap old)) ne)
    ]

    elem_of-changed : (k : List ℕ) → elem_of hash changed k ≡ elem_of hash m k
    unfolding elem_of bucket_of get_hash_bucket
    elem_of-changed k =
        get_hash_elem-keys m.key_size t.heap heap' same_keys k
          (t.buckets (bucket_of hash t m.key_size k))

    changed-IsValid : IsValid hash slots changed
    unfolding bucket_of get_hash_bucket
    changed-IsValid = record {
      indexed = record {
        hashed =
            λ c p h. ap (λ k. bucket_of hash t m.key_size k) (same_keys p) ∙ v.indexed.hashed c p h;
        keys_once = λ c k.
            rw (matches-keys m.key_size t.heap heap' same_keys k (t.buckets c))
              (v.indexed.keys_once c k);
      };
      owned = record {
        bits = v.owned.bits;
        bits_small = v.owned.bits_small;
        nbuckets_pow = v.owned.nbuckets_pow;
        once = v.owned.once;
        pool = v.owned.pool;
        kept = v.owned.kept;
      };
      sized = (
        v.sized.0,
        λ p. elim (ℕ_discrete old p) [
          | yes s ↦
              rw (sym s, set_at_self t.heap old (write (t.heap old)))
                (omega (arith, keeps.long (t.heap old) (v.sized.1 old), v.sized.1 old))
          | no ne ↦ rw (set_at_ne t.heap old p (write (t.heap old)) ne) (v.sized.1 p)
        ],
      );
    }

    module _ (present : elem_of hash m key ≡ some old) where
      old_key : memcmp_eq m.key_size (t.heap old).key key ≡ true
      unfolding elem_of
      old_key = (get_hash_elem-some m.key_size t.heap (t.buckets b) key old present).1

      other_elem :
          (k : List ℕ) (q : ℕ)
          → memcmp_eq m.key_size key k ≡ false
          → elem_of hash m k ≡ some q
          → old ≢ q
      unfolding elem_of
      other_elem k q s f same =
          let c = bucket_of hash t m.key_size k in
          let g = (get_hash_elem-some m.key_size t.heap (t.buckets c) k q f).1 in
          let g' : memcmp_eq m.key_size (t.heap old).key k ≡ true =
            ap (λ x. memcmp_eq m.key_size (t.heap x).key k) same ∙ g in
          let h : memcmp_eq m.key_size (t.heap old).key k ≡ false =
            memcmp_eq_same m.key_size (t.heap old).key key k
              (memcmp_eq-take m.key_size (t.heap old).key key old_key)
            ∙ s in
          cc

      stored_changed :
          (k : List ℕ)
          → hashtable_map_lookup_elem_percpu_from_user hash changed ncpus k ≡ (
              if memcmp_eq m.key_size key k
              then (ok, replicate ncpus (take m.value_size value))
              else hashtable_map_lookup_elem_percpu_from_user hash m ncpus k)
      stored_changed k = elim (Bool-cases (memcmp_eq m.key_size key k)) [
        | inl s ↦ rw s (
            lookup_percpu-some hash changed ncpus k old
              (elem_of-changed k ∙ elem_of_same hash m key k s ∙ present)
            ∙ ap (λ x. (ok, x))
                (ap (λ x. values_from t.value_size m.value_size x ncpus 0)
                    (set_at_self t.heap old (write (t.heap old)))
                  ∙ values_from-put_all slots t.value_size fits m.value_size v.sized.0 value enough
                      ncpus (t.heap old) cpus (v.sized.1 old)))
        | inr s ↦ rw s (
            lookup_percpu_same hash m ncpus k changed (elem_of-changed k) (λ q f.
              ap (λ x. values_from t.value_size m.value_size x ncpus 0)
                (set_at_ne t.heap old q (write (t.heap old)) (other_elem k q s f))))
      ]

      pub overwritten : check_update_flags (elem_of hash m key) flags ≡ ok → Ends
      unfolding hashtable_map_update_elem_percpu_from_user replace_percpu update_code
      overwritten passed = (
        (ok, changed),
        rw (hashtable_map_update_elem_percpu_from_user, passed, present) refl,
        record {
          code = rw (update_code, passed, present) refl;
          valid = changed-IsValid;
          refused = λ h. absurd (h refl);
          stored = λ h k. stored_changed k;
        },
      )
