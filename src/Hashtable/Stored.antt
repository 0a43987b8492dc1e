-- ===== src/Hashtable/Stored.antt =====
-- The whole of `hashtable_map_update_elem`, on every branch.
use generic_ebpf.Base.{
  ℕ, ◌≤◌, ◌<◌, ◌≡◌, ◌≢◌, inl, inr, refl, arith, List, length, get_or, get_elem?-eq-get_or,
  Option-cases,
}
use generic_ebpf.Map.{Code, Code-discrete, ok}
use generic_ebpf.Hashtable.{HashMap, check_update_flags}
use generic_ebpf.Hashtable.Ops.{elem_of, hashtable_map_update_elem}
use generic_ebpf.Hashtable.Invariant.{IsValid}
use generic_ebpf.Hashtable.Insert.{ebpf_allocator_alloc-cases}
use generic_ebpf.Hashtable.Changes.{update_code, Ends, refused_growth}
use generic_ebpf.Hashtable.NewKey.{busy, inserted}
use generic_ebpf.Hashtable.OldKey.{swapped}

module _ (hash : List ℕ → ℕ) (m : HashMap) (cpu : ℕ) (key value : List ℕ) (flags : ℕ)
    (v : IsValid hash 1 m) (enough_key : m.key_size ≤ length key)
    (enough : m.value_size ≤ length value) where
  refused_flags :
      (c : Code)
      → check_update_flags (elem_of hash m key) flags ≡ c
      → c ≢ ok
      → Ends hash m cpu key value flags
  unfolding hashtable_map_update_elem update_code
  refused_flags ok e ne = absurd (ne refl)
  refused_flags other e ne = (
    (other, m),
    rw (hashtable_map_update_elem, e) refl,
    record {
      code = rw (update_code, e) refl;
      valid = v;
      refused = λ h. refl;
      grows = omega (arith, refused_growth other (elem_of hash m key) ne);
      nblocks = refl;
      spares = refl;
      sizes = (refl, refl);
      stored = λ h. absurd (ne h);
    },
  )

  -- In a valid plain hash table, on a CPU in range, with a key and a value of at least the map's
  -- sizes, an update is defined. It keeps the table valid and the sizes of the map, of the pool and
  -- of the spare elements; its code is that of the flags, or EBUSY for a new key when all elements
  -- but the spare ones are in use; a refused update changes nothing; a new key, and nothing else,
  -- adds one element; and after one that returned 0 a lookup gives the new value for the key and
  -- what it gave before for every other key.
  pub hashtable_map_update_elem-Updated :
      cpu < length m.contents.pcpu_extra_elems → Ends hash m cpu key value flags
  hashtable_map_update_elem-Updated range =
      let code = check_update_flags (elem_of hash m key) flags in
      elim (Code-discrete code ok) [
        | no ne ↦ refused_flags code refl ne
        | yes passed ↦ elim (Option-cases (elem_of hash m key)) [
          | inr (old, present) ↦
              swapped hash m cpu key value flags v enough_key enough passed old present
                (get_or m.contents.pcpu_extra_elems cpu 0)
                (get_elem?-eq-get_or m.contents.pcpu_extra_elems cpu 0 range)
          | inl absent ↦ elim (ebpf_allocator_alloc-cases m.contents.allocator v.owned.pool) [
            | inl (e, z) ↦ busy hash m cpu key value flags v enough_key enough passed absent e z
            | inr (p, a', e, taken) ↦
                inserted hash m cpu key value flags v enough_key enough passed absent p a' e taken
          ]
        ]
      ]
