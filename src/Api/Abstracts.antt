-- ===== src/Api/Abstracts.antt =====
-- When an abstract table is what a plain hash table stands for.
use generic_ebpf.Base.{
  ℕ, ◌+◌, ◌≡◌, inl, inr, refl, sym, ◌∙◌, ap, arith, Option, some, none, List, [], ◌==◌,
  if◌then◌else◌, length, Bool-cases, Option-cases, ==_refl, ne→==_false,
}
use native.Mathlib.Decide.{ℕ_discrete}
use generic_ebpf.Map.{Code, ok, ebusy, enoent, has_noexist, has_exist}
use generic_ebpf.Hashtable.{HashMap, check_update_flags}
use generic_ebpf.Hashtable.Ops.{elem_of, hashtable_map_lookup_elem_from_user}
use generic_ebpf.Hashtable.Lookup.{lookup_none, lookup_some}
use generic_ebpf.Hashtable.Invariant.{IsValid, total}
use generic_ebpf.Hashtable.Changes.{update_code, entries}
use generic_ebpf.Api.Calls.{Table, update_reply}

-- What a lookup from user space gives for an abstract value.
abbrev pub found : Option (List ℕ) → Code × List ℕ
found none = (enoent, [])
found (some v) = (ok, v)

module _ (hash : List ℕ → ℕ) (key_size value_size capacity ncpus : ℕ) where
  -- The table `s` is what the map `m` stands for.
  pub record Abstracts (m : HashMap) (s : Table) : Type 0 where
    pub valid : IsValid hash 1 m
    pub keys : m.key_size ≡ key_size
    pub values : m.value_size ≡ value_size
    pub size : entries m ≡ s.size
    pub blocks : m.contents.allocator.nblocks ≡ capacity + ncpus
    pub spares : length m.contents.pcpu_extra_elems ≡ ncpus
    pub reads : (k : List ℕ) → hashtable_map_lookup_elem_from_user hash m k ≡ found (s.get k)
    pub long : (k v : List ℕ) → s.get k ≡ some v → length v ≡ value_size

  found-none : (o : Option (List ℕ)) → found o ≡ (enoent, []) → o ≡ none
  found-none none h = refl
  found-none (some v) h = absurd (cc)

  found-some : (o : Option (List ℕ)) (v : List ℕ) → found o ≡ (ok, v) → o ≡ some v
  found-some none v h = absurd (cc)
  found-some (some w) v h = ap some (ap (λ r. r.1) h)

  -- The element of a key and the abstract value.
  pub data Same (m : HashMap) (s : Table) (key : List ℕ) : Type 0 where
    absent : elem_of hash m key ≡ none → s.get key ≡ none → Same m s key
    present : (p : ℕ) (v : List ℕ) → elem_of hash m key ≡ some p → s.get key ≡ some v → Same m s key

  pub elem_of-get : (m : HashMap) (s : Table) (key : List ℕ) → Abstracts m s → Same m s key
  elem_of-get m s key a = elim (Option-cases (elem_of hash m key)) [
    | inl e ↦ absent e (found-none (s.get key) (sym (a.reads key) ∙ lookup_none hash m key e))
    | inr (p, e) ↦
        present p _ e (found-some (s.get key) _ (sym (a.reads key) ∙ lookup_some hash m key p e))
  ]

  module _ (m : HashMap) (s : Table) (a : Abstracts m s) (key : List ℕ) where
    full :
        (total m.contents.nbuckets m.contents.buckets + length m.contents.pcpu_extra_elems
          == m.contents.allocator.nblocks)
        ≡ (s.size == capacity)
    full = elim (ℕ_discrete s.size capacity) [
      | yes e ↦
          let h : total m.contents.nbuckets m.contents.buckets + length m.contents.pcpu_extra_elems
              ≡ m.contents.allocator.nblocks =
            omega (arith, a.size, a.blocks, a.spares) in
          rw (h, e, ==_refl m.contents.allocator.nblocks, ==_refl capacity) refl
      | no ne ↦
          ne→==_false _ m.contents.allocator.nblocks
            (λ h. ne (omega (arith, a.size, a.blocks, a.spares)))
          ∙ sym (ne→==_false s.size capacity ne)
    ]

    code_new :
        (flags : ℕ)
        → update_code none flags m.contents
          ≡ update_reply key_size value_size capacity none flags s.size
    unfolding update_code check_update_flags update_reply
    code_new flags = elim (Bool-cases (has_exist flags)) [
      | inl f ↦ rw (update_code, f) refl
      | inr f ↦ rw (update_code, f) (ap (λ b. if b then ebusy else ok) full)
    ]

    code_old :
        (flags p : ℕ) (v : List ℕ)
        → update_code (some p) flags m.contents
          ≡ update_reply key_size value_size capacity (some v) flags s.size
    unfolding update_code check_update_flags update_reply
    code_old flags p v = elim (Bool-cases (has_noexist flags)) [
      | inl f ↦ rw (update_code, f) refl
      | inr f ↦ rw (update_code, f) refl
    ]

    pub code_as :
        (flags : ℕ)
        → update_code (elem_of hash m key) flags m.contents
          ≡ update_reply key_size value_size capacity (s.get key) flags s.size
    code_as flags =
        let reply : Option (List ℕ) → Code =
          λ o. update_reply key_size value_size capacity o flags s.size in
        elim (elem_of-get m s key a) [
          | absent e g ↦
              ap (λ o. update_code o flags m.contents) e ∙ code_new flags ∙ ap reply (sym g)
          | present p v e g ↦
              ap (λ o. update_code o flags m.contents) e ∙ code_old flags p v ∙ ap reply (sym g)
        ]
