-- ===== src/Hashtable/Lookup.antt =====
-- A lookup from user space, by what the search for the element gives.
use generic_ebpf.Base.{ℕ, ◌≡◌, refl, ap, some, none, List, [], Option-cases, inl, inr}
use generic_ebpf.Map.{ok, enoent}
use generic_ebpf.Hashtable.{HashMap, value_at}
use generic_ebpf.Hashtable.Ops.{elem_of, hashtable_map_lookup_elem_from_user}

module _ (hash : List ℕ → ℕ) (m : HashMap) (k : List ℕ) where
  pub lookup_none :
      elem_of hash m k ≡ none → hashtable_map_lookup_elem_from_user hash m k ≡ (enoent, [])
  unfolding hashtable_map_lookup_elem_from_user
  lookup_none e = rw (hashtable_map_lookup_elem_from_user, e) refl

  pub lookup_some :
      (p : ℕ)
      → elem_of hash m k ≡ some p
      → hashtable_map_lookup_elem_from_user hash m k
        ≡ (ok, value_at (m.contents.heap p) m.value_size 0)
  unfolding hashtable_map_lookup_elem_from_user
  lookup_some p e = rw (hashtable_map_lookup_elem_from_user, e) refl

  -- Two maps that find the same element, with the same value, give the same.
  pub lookup_same :
      (m' : HashMap)
      → elem_of hash m' k ≡ elem_of hash m k
      → ((p : ℕ)
          → elem_of hash m k ≡ some p
          → value_at (m'.contents.heap p) m'.value_size 0
            ≡ value_at (m.contents.heap p) m.value_size 0)
      → hashtable_map_lookup_elem_from_user hash m' k ≡ hashtable_map_lookup_elem_from_user hash m k
  unfolding hashtable_map_lookup_elem_from_user
  lookup_same m' e v = elim (Option-cases (elem_of hash m k)) [
    | inl n ↦ rw (hashtable_map_lookup_elem_from_user, e, n) refl
    | inr (p, n) ↦ rw (hashtable_map_lookup_elem_from_user, e, n) (ap (λ x. (ok, x)) (v p n))
  ]
