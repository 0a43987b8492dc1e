-- ===== src/Hashtable/OldKey.antt =====
-- An update with a key that the table has: `replace` takes the spare element of the CPU.
use generic_ebpf.Base.{
  ℕ, ◌≤◌, ◌<◌, ◌≡◌, ◌≢◌, refl, ◌∙◌, ap, arith, true, false, some, List, ◌∷◌, ne→==_false,
  if◌then◌else◌, take, length, get_elem?, length-set,
}
use generic_ebpf.Map.{ok}
use generic_ebpf.Platform.{count, remove}
use generic_ebpf.Hashtable.{
  HashElem, HashTable, HashMap, set_at, get_hash_bucket, get_hash_elem, memcmp_eq,
  check_update_flags, new_elem, get_extra_elem, link,
}
use generic_ebpf.Hashtable.Ops.{
  bucket_of, elem_of, replace, hashtable_map_update_elem, hashtable_map_lookup_elem_from_user,
}
use generic_ebpf.Hashtable.Chain.{
  get_hash_elem-some, get_hash_elem-remove, memcmp_eq-take, memcmp_eq_same,
}
use generic_ebpf.Hashtable.Invariant.{IsOwned, IsValid, bucket_of-lt}
use generic_ebpf.Hashtable.Swap.{Links, linked-IsIndexed}
use generic_ebpf.Hashtable.Exchange.{lent, old-ne-p, exchanged-IsOwned, exchanged-Links}
use generic_ebpf.Hashtable.Without.{elsewhere-none}
use generic_ebpf.Hashtable.Update.{
  written, written-key, relinked, relinked-stored, relinked-IsSized,
}
use generic_ebpf.Hashtable.Changes.{update_code, growth, Ends}

module _ (hash : List ℕ → ℕ) (m : HashMap) (cpu : ℕ) (key value : List ℕ) (flags : ℕ)
    (v : IsValid hash 1 m) (enough_key : m.key_size ≤ length key)
    (enough : m.value_size ≤ length value) where
  abbrev t : HashTable
  t = m.contents

  abbrev b : ℕ
  b = bucket_of hash t m.key_size key

  module _ (passed : check_update_flags (elem_of hash m key) flags ≡ ok) where
    ran :
        hashtable_map_update_elem hash m cpu key value flags
        ≡ replace hash m cpu key value (elem_of hash m key)
    unfolding hashtable_map_update_elem
    ran = rw (hashtable_map_update_elem, passed) refl

    module _ (old : ℕ) (present : elem_of hash m key ≡ some old) (p : ℕ)
        (spare : get_elem? t.pcpu_extra_elems cpu ≡ some p) where
      found : (0 < count old (t.buckets b)) × (memcmp_eq m.key_size (t.heap old).key key ≡ true)
      unfolding elem_of
      found = get_hash_elem-some m.key_size t.heap (t.buckets b) key old present

      alone : (c : ℕ) → b ≢ c → count old (t.buckets c) ≡ 0
      alone = elsewhere-none hash m.key_size t v.indexed b old found.0

      abbrev with_spare : HashMap
      with_spare = record m { contents = lent t v.owned cpu p spare b old found.0 }

      abbrev new : HashElem
      new = written m.key_size m.value_size key value (t.heap p)

      abbrev links_spare :
          Links hash m.key_size with_spare.contents b p new key (remove old (t.buckets b))
      links_spare =
          exchanged-Links t v.owned cpu p spare b old found.0 hash m.key_size key new v.indexed
            (written-key m.key_size m.value_size key value (t.heap p) enough_key) refl found.1

      abbrev result_spare : HashMap
      result_spare =
          relinked hash with_spare key value enough_key enough v.sized p (remove old (t.buckets b))

      same_rest :
          (k : List ℕ)
          → memcmp_eq m.key_size key k ≡ false
          → get_hash_elem t.heap (remove old (t.buckets b)) k m.key_size
            ≡ get_hash_elem t.heap (t.buckets b) k m.key_size
      same_rest k s = get_hash_elem-remove m.key_size t.heap (t.buckets b) k old (
          memcmp_eq_same m.key_size (t.heap old).key key k
            (memcmp_eq-take m.key_size (t.heap old).key key found.1)
          ∙ s)

      stored_spare :
          (k : List ℕ)
          → hashtable_map_lookup_elem_from_user hash result_spare k ≡ (
              if memcmp_eq m.key_size key k
              then (ok, take m.value_size value)
              else hashtable_map_lookup_elem_from_user hash m k)
      unfolding hashtable_map_lookup_elem_from_user elem_of bucket_of get_hash_bucket
      stored_spare k =
          relinked-stored hash with_spare key value enough_key enough v.sized p
            (remove old (t.buckets b)) links_spare same_rest k

      remove_old : remove old (p ∷ t.buckets b) ≡ p ∷ remove old (t.buckets b)
      unfolding remove
      remove_old =
          rw (remove, ne→==_false old p (old-ne-p t v.owned cpu p spare b old found.0)) refl

      replace_spare : replace hash m cpu key value (some old) ≡ some (ok, result_spare)
      unfolding replace new_elem get_extra_elem link set_at
      replace_spare = rw (replace, new_elem, get_extra_elem, spare, remove_old) refl

      result_spare-IsOwned : IsOwned result_spare.contents
      unfolding bucket_of
      result_spare-IsOwned =
          exchanged-IsOwned t v.owned cpu p spare b old found.0 alone new
            (bucket_of-lt hash m.key_size t key v.owned)

      pub swapped : Ends hash m cpu key value flags
      unfolding hashtable_map_update_elem update_code growth
      swapped = (
        (ok, result_spare),
        ran ∙ ap (λ o. replace hash m cpu key value o) present ∙ replace_spare,
        record {
          code = rw (update_code, passed, present) refl;
          valid = record {
            indexed =
                linked-IsIndexed hash m.key_size with_spare.contents b p new key
                  (remove old (t.buckets b)) links_spare;
            owned = result_spare-IsOwned;
            sized =
                relinked-IsSized hash with_spare key value enough_key enough v.sized p
                  (remove old (t.buckets b));
          };
          refused = λ h. absurd (h refl);
          grows =
              let n = length-set t.pcpu_extra_elems cpu old in
              rw (present, growth) (omega (arith, result_spare-IsOwned.kept, v.owned.kept, n));
          nblocks = refl;
          spares = length-set t.pcpu_extra_elems cpu old;
          sizes = (refl, refl);
          stored = λ h k. stored_spare k;
        },
      )
