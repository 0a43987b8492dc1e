-- ===== src/Hashtable/Percpu.antt =====
-- The update of a per-CPU hash table from user space, on every branch.
use generic_ebpf.Base.{
  ℕ, ◌*◌, ◌^◌, ◌+◌, ◌≤◌, ◌≡◌, ◌≢◌, inl, inr, refl, ◌∙◌, ap, arith, some, none, List, ==_refl,
  ne→==_false, if◌then◌else◌, take, length, replicate, Bool-cases, Option-cases,
}
use generic_ebpf.Map.{Code, Code-discrete, ok, ebusy}
use generic_ebpf.Allocator.{Allocator, ebpf_allocator_alloc}
use generic_ebpf.Allocator.Pool.{Taken}
use generic_ebpf.Hashtable.{
  HashElem, HashTable, HashMap, get_hash_bucket, memcmp_eq, check_update_flags, new_elem, put_key,
}
use generic_ebpf.Hashtable.Ops.{
  bucket_of, elem_of, put_all, values_from, replace_percpu,
  hashtable_map_update_elem_percpu_from_user, hashtable_map_lookup_elem_percpu_from_user,
}
use generic_ebpf.Hashtable.Chain.{set_at_self, set_at_ne}
use generic_ebpf.Hashtable.Invariant.{IsValid, total}
use generic_ebpf.Hashtable.Swap.{linked-found, linked-other}
use generic_ebpf.Hashtable.Insert.{ebpf_allocator_alloc-cases}
use generic_ebpf.Hashtable.Changes.{update_code}
use generic_ebpf.Hashtable.Values.{
  IsWrite, put_all-IsWrite, values_from-put_all, lookup_percpu-some, lookup_percpu_same,
}
use generic_ebpf.Hashtable.Grow.{with_new, links, result, result-IsValid, not_p, replace_new}
use generic_ebpf.Hashtable.Overwrite.{UpdatedPercpu, overwritten}

module _ (hash : List ℕ → ℕ) (slots ncpus : ℕ) (m : HashMap) (key value : List ℕ) (flags : ℕ)
    (v : IsValid hash slots m) (fits : slots * m.contents.value_size ≤ 2 ^ 32)
    (cpus : ncpus ≤ slots) (enough_key : m.key_size ≤ length key)
    (enough : m.value_size ≤ length value) where
  abbrev t : HashTable
  t = m.contents

  abbrev b : ℕ
  b = bucket_of hash t m.key_size key

  abbrev write : HashElem → HashElem
  write e = put_all t.value_size m.value_size value ncpus 0 e

  keeps : IsWrite (slots * t.value_size) write
  keeps = put_all-IsWrite slots t.value_size fits m.value_size v.sized.0 value enough ncpus cpus

  abbrev Ends : Type 0
  Ends =
      (r : Code × HashMap) × (hashtable_map_update_elem_percpu_from_user hash m ncpus key value
          flags
        ≡ some r)
      × UpdatedPercpu hash slots ncpus m key value flags r

  refused_flags : (c : Code) → check_update_flags (elem_of hash m key) flags ≡ c → c ≢ ok → Ends
  unfolding hashtable_map_update_elem_percpu_from_user update_code
  refused_flags ok e ne = absurd (ne refl)
  refused_flags other e ne = (
    (other, m),
    rw (hashtable_map_update_elem_percpu_from_user, e) refl,
    record {
      code = rw (update_code, e) refl;
      valid = v;
      refused = λ h. refl;
      stored = λ h. absurd (ne h);
    },
  )

  module _ (passed : check_update_flags (elem_of hash m key) flags ≡ ok)
      (absent : elem_of hash m key ≡ none) where
    busy :
        ebpf_allocator_alloc t.allocator ≡ some (none, t.allocator) → t.allocator.count ≡ 0 → Ends
    unfolding hashtable_map_update_elem_percpu_from_user update_code replace_percpu new_elem
    busy e z =
        let full : total t.nbuckets t.buckets + length t.pcpu_extra_elems ≡ t.allocator.nblocks =
          omega (arith, v.owned.kept, z) in
        (
          (ebusy, m),
          rw
              (
                hashtable_map_update_elem_percpu_from_user, passed, absent, replace_percpu,
                new_elem, e,
              )
              refl,
          record {
            code = rw (update_code, passed, absent, full, ==_refl t.allocator.nblocks) refl;
            valid = v;
            refused = λ h. refl;
            stored = λ h. absurd (cc);
          },
        )

    module _ (p : ℕ) (a' : Allocator) (e : ebpf_allocator_alloc t.allocator ≡ some (some p, a'))
        (taken : Taken t.allocator (some (some p, a'))) where
      abbrev new : HashElem
      new = put_key m.key_size key (t.heap p)

      abbrev grown : HashMap
      grown = result hash slots m key v enough_key write keeps absent p a' e taken

      stored_grown :
          (k : List ℕ)
          → hashtable_map_lookup_elem_percpu_from_user hash grown ncpus k ≡ (
              if memcmp_eq m.key_size key k
              then (ok, replicate ncpus (take m.value_size value))
              else hashtable_map_lookup_elem_percpu_from_user hash m ncpus k)
      unfolding elem_of bucket_of get_hash_bucket put_key
      stored_grown k = elim (Bool-cases (memcmp_eq m.key_size key k)) [
        | inl s ↦ rw s (
            lookup_percpu-some hash grown ncpus k p (
              linked-found hash m.key_size
                (with_new hash slots m key v enough_key write keeps absent p a' e taken) b p
                (write new) key (t.buckets b)
                (links hash slots m key v enough_key write keeps absent p a' e taken) k s)
            ∙ ap (λ x. (ok, x))
                (ap (λ x. values_from t.value_size m.value_size x ncpus 0)
                    (set_at_self t.heap p (write new))
                  ∙ values_from-put_all slots t.value_size fits m.value_size v.sized.0 value enough
                      ncpus new cpus (v.sized.1 p)))
        | inr s ↦ rw s (
            lookup_percpu_same hash m ncpus k grown
              (linked-other hash m.key_size
                (with_new hash slots m key v enough_key write keeps absent p a' e taken) b p
                (write new) key (t.buckets b)
                (links hash slots m key v enough_key write keeps absent p a' e taken) k s refl)
              (λ q f.
                ap (λ x. values_from t.value_size m.value_size x ncpus 0)
                  (set_at_ne t.heap p q (write new)
                    (not_p hash slots m key v enough_key write keeps absent p a' e taken k q f))))
      ]

      ran :
          hashtable_map_update_elem_percpu_from_user hash m ncpus key value flags
          ≡ replace_percpu hash m key write (elem_of hash m key)
      unfolding hashtable_map_update_elem_percpu_from_user
      ran = rw (hashtable_map_update_elem_percpu_from_user, passed) refl

      inserted : Ends
      unfolding update_code
      inserted =
          let more : total t.nbuckets t.buckets + length t.pcpu_extra_elems ≢ t.allocator.nblocks =
            λ h. omega (arith, v.owned.kept, h, taken.3) in
          (
            (ok, grown),
            ran
                ∙ ap (λ o. replace_percpu hash m key write o) absent
                ∙ replace_new hash slots m key v enough_key write keeps absent p a' e taken,
            record {
              code =
                  rw
                    (
                      update_code,
                      passed,
                      absent,
                      ne→==_false (total t.nbuckets t.buckets + length t.pcpu_extra_elems)
                          t.allocator.nblocks more,
                    )
                    refl;
              valid = result-IsValid hash slots m key v enough_key write keeps absent p a' e taken;
              refused = λ h. absurd (h refl);
              stored = λ h k. stored_grown k;
            },
          )

  -- In a valid per-CPU hash table whose elements have a value for each CPU, at offsets that fit in
  -- 32 bits, with a key and a value of at least the map's sizes, an update from user space is
  -- defined. It keeps the table valid; its code is that of the flags, or EBUSY for a new key when no
  -- element is free; a refused update changes nothing; and after one that returned 0 a lookup gives
  -- the new value once for each CPU for the key, and what it gave before for every other key.
  pub hashtable_map_update_elem_percpu_from_user-UpdatedPercpu : Ends
  hashtable_map_update_elem_percpu_from_user-UpdatedPercpu =
      elim (Code-discrete (check_update_flags (elem_of hash m key) flags) ok) [
        | no ne ↦ refused_flags (check_update_flags (elem_of hash m key) flags) refl ne
        | yes passed ↦ elim (Option-cases (elem_of hash m key)) [
          | inr (old, present) ↦
              overwritten hash slots ncpus m key value flags v fits cpus enough_key enough old
                present passed
          | inl absent ↦ elim (ebpf_allocator_alloc-cases t.allocator v.owned.pool) [
            | inl (e, z) ↦ busy passed absent e z
            | inr (p, a', e, taken) ↦ inserted passed absent p a' e taken
          ]
        ]
      ]
