-- ===== src/Hashtable/NewKey.antt =====
-- An update with a key that the table does not have: `replace` takes an element from the pool.
use generic_ebpf.Base.{
  ℕ, ◌+◌, ◌≤◌, ◌≡◌, ◌≢◌, refl, ◌∙◌, ap, arith, some, none, List, ==_refl, ne→==_false,
  if◌then◌else◌, take, length,
}
use generic_ebpf.Map.{ok, ebusy}
use generic_ebpf.Allocator.{Allocator, ebpf_allocator_alloc}
use generic_ebpf.Allocator.Pool.{Taken}
use generic_ebpf.Hashtable.{
  HashTable, HashMap, set_at, get_hash_bucket, memcmp_eq, check_update_flags, new_elem, link,
}
use generic_ebpf.Hashtable.Ops.{
  bucket_of, elem_of, replace, hashtable_map_update_elem, hashtable_map_lookup_elem_from_user,
}
use generic_ebpf.Hashtable.Invariant.{IsOwned, IsValid, total, bucket_of-lt}
use generic_ebpf.Hashtable.Swap.{Links, linked-IsIndexed}
use generic_ebpf.Hashtable.Insert.{drawn, grown-IsOwned, grown-Links}
use generic_ebpf.Hashtable.Update.{
  written, written-key, relinked, relinked-stored, relinked-IsSized,
}
use generic_ebpf.Hashtable.Changes.{update_code, growth, Ends, refused_growth}

module _ (hash : List ℕ → ℕ) (m : HashMap) (cpu : ℕ) (key value : List ℕ) (flags : ℕ)
    (v : IsValid hash 1 m) (enough_key : m.key_size ≤ length key)
    (enough : m.value_size ≤ length value) where
  abbrev t : HashTable
  t = m.contents

  abbrev b : ℕ
  b = bucket_of hash t m.key_size key

  module _ (passed : check_update_flags (elem_of hash m key) flags ≡ ok) where
    ran :
        hashtable_map_update_elem hash m cpu key value flags
        ≡ replace hash m cpu key value (elem_of hash m key)
    unfolding hashtable_map_update_elem
    ran = rw (hashtable_map_update_elem, passed) refl

    module _ (absent : elem_of hash m key ≡ none) where
      pub busy :
          ebpf_allocator_alloc t.allocator ≡ some (none, t.allocator)
          → t.allocator.count ≡ 0
          → Ends hash m cpu key value flags
      unfolding hashtable_map_update_elem update_code replace new_elem elem_of bucket_of
      busy e z =
          let full : total t.nbuckets t.buckets + length t.pcpu_extra_elems ≡ t.allocator.nblocks =
            omega (arith, v.owned.kept, z) in
          (
            (ebusy, m),
            rw (hashtable_map_update_elem, passed, replace, absent, new_elem, e) refl,
            record {
              code = rw (update_code, passed, absent, full, ==_refl t.allocator.nblocks) refl;
              valid = v;
              refused = λ h. refl;
              grows = omega (arith, refused_growth ebusy (elem_of hash m key) (λ h. cc));
              nblocks = refl;
              spares = refl;
              sizes = (refl, refl);
              stored = λ h. absurd (cc);
            },
          )

      module _ (p : ℕ) (a' : Allocator) (e : ebpf_allocator_alloc t.allocator ≡ some (some p, a'))
          (taken : Taken t.allocator (some (some p, a'))) where
        abbrev with_new : HashMap
        with_new = record m { contents = drawn t p a' v.owned taken }

        abbrev links_new :
            Links hash m.key_size with_new.contents b p
              (written m.key_size m.value_size key value (t.heap p))
              key
              (t.buckets b)
        unfolding elem_of
        links_new =
            grown-Links hash m.key_size t p a' v.owned taken
              (written m.key_size m.value_size key value (t.heap p)) key v.indexed
              (written-key m.key_size m.value_size key value (t.heap p) enough_key) absent

        abbrev result_new : HashMap
        result_new = relinked hash with_new key value enough_key enough v.sized p (t.buckets b)

        stored_new :
            (k : List ℕ)
            → hashtable_map_lookup_elem_from_user hash result_new k ≡ (
                if memcmp_eq m.key_size key k
                then (ok, take m.value_size value)
                else hashtable_map_lookup_elem_from_user hash m k)
        unfolding hashtable_map_lookup_elem_from_user elem_of bucket_of get_hash_bucket
        stored_new k =
            relinked-stored hash with_new key value enough_key enough v.sized p (t.buckets b)
              links_new (λ k' s. refl) k

        replace_new : replace hash m cpu key value none ≡ some (ok, result_new)
        unfolding replace new_elem link set_at
        replace_new = rw (replace, new_elem, e) refl

        result_new-IsOwned : IsOwned result_new.contents
        unfolding bucket_of
        result_new-IsOwned =
            grown-IsOwned t p a' v.owned taken b
              (written m.key_size m.value_size key value (t.heap p))
              (bucket_of-lt hash m.key_size t key v.owned)

        pub inserted : Ends hash m cpu key value flags
        unfolding hashtable_map_update_elem update_code growth
        inserted =
            let more : total t.nbuckets t.buckets + length t.pcpu_extra_elems
                ≢ t.allocator.nblocks =
              λ h. omega (arith, v.owned.kept, h, taken.3) in
            (
              (ok, result_new),
              ran ∙ ap (λ o. replace hash m cpu key value o) absent ∙ replace_new,
              record {
                code =
                    rw
                      (
                        update_code,
                        passed,
                        absent,
                        ne→==_false (total t.nbuckets t.buckets + length t.pcpu_extra_elems)
                            t.allocator.nblocks more,
                      )
                      refl;
                valid = record {
                  indexed =
                      linked-IsIndexed hash m.key_size with_new.contents b p
                        (written m.key_size m.value_size key value (t.heap p)) key (t.buckets b)
                        links_new;
                  owned = result_new-IsOwned;
                  sized =
                      relinked-IsSized hash with_new key value enough_key enough v.sized p
                        (t.buckets b);
                };
                refused = λ h. absurd (h refl);
                grows =
                    rw (absent, growth)
                      (omega (arith, result_new-IsOwned.kept, v.owned.kept, taken.3, taken.4));
                nblocks = taken.4;
                spares = refl;
                sizes = (refl, refl);
                stored = λ h k. stored_new k;
              },
            )
