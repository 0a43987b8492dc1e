-- ===== src/Hashtable/Recycled.antt =====
-- An element of a per-CPU hash table that a deletion gives back and a program's update takes again:
-- `hashtable_map_update_elem_percpu` writes the value of its own CPU only.
use generic_ebpf.Base.{
  ℕ, ◌*◌, ◌^◌, ◌+◌, ◌≤◌, ◌<◌, ◌≡◌, ◌≢◌, inl, inr, refl, sym, ◌∙◌, ap, arith, true, false, Option,
  some, none, List, Bool, if◌then◌else◌, ltb, take, length, u32, ◌>>=◌,
}
use mathlib.Core.Option.{some-injective}
use generic_ebpf.Map.{ok}
use generic_ebpf.Allocator.{Allocator, ebpf_allocator_alloc, ebpf_allocator_free}
use generic_ebpf.Allocator.Pool.{Taken}
use generic_ebpf.Hashtable.{
  HashElem, HashMap, check_update_flags, put_key, put_value, percpu_offset, value_at,
}
use generic_ebpf.Hashtable.Ops.{
  bucket_of, elem_of, replace_percpu, hashtable_map_lookup_elem, hashtable_map_update_elem_percpu,
  hashtable_map_delete_elem,
}
use generic_ebpf.Hashtable.Chain.{set_at_self, memcmp_eq_refl}
use generic_ebpf.Hashtable.Invariant.{IsValid}
use generic_ebpf.Hashtable.Swap.{linked-found}
use generic_ebpf.Hashtable.Insert.{ebpf_allocator_alloc-cases}
use generic_ebpf.Hashtable.Delete.{left, left-IsValid, left-total, delete_left}
use generic_ebpf.Hashtable.Values.{IsWrite, put-IsWrite, put_own, put_others}
use generic_ebpf.Hashtable.Grow.{with_new, links, result, replace_new}

-- What a program on a CPU reads at the pointer that a lookup gives.
unfoldable pub read_on : (List ℕ → ℕ) → HashMap → ℕ → List ℕ → Option (List ℕ)
unfolding hashtable_map_lookup_elem value_at
read_on hash m cpu key = hashtable_map_lookup_elem hash m cpu key >>= λ (p, i).
    some (value_at (m.contents.heap p) m.value_size i)

read_on_found :
    (hash : List ℕ → ℕ) (m : HashMap) (cpu : ℕ) (key : List ℕ) (p : ℕ)
    → m.percpu ≡ true
    → elem_of hash m key ≡ some p
    → read_on hash m cpu key
      ≡ some (value_at (m.contents.heap p) m.value_size (percpu_offset m.contents.value_size cpu))
unfolding read_on hashtable_map_lookup_elem
read_on_found hash m cpu key p per f = rw (read_on, hashtable_map_lookup_elem, f, per) refl

taken_first :
    (c : Bool) (old p : ℕ) (x y a' : Allocator)
    → (if◌then◌else◌ {A = Option (Option ℕ × Allocator)} c (some (some old, x)) (some (none, y)))
      ≡ some (some p, a')
    → old ≡ p
taken_first true old p x y a' e =
    some-injective _ _ (ap {B = Option ℕ} (λ r. r.0) (some-injective _ _ e))
taken_first false old p x y a' e = absurd (cc)

-- The pool gives the block that came back last.
alloc-free :
    (a : Allocator) (old p : ℕ) (a' : Allocator)
    → ebpf_allocator_alloc (ebpf_allocator_free a old) ≡ some (some p, a')
    → old ≡ p
unfolding ebpf_allocator_alloc ebpf_allocator_free
alloc-free a old p a' e = taken_first (ltb 0 (u32 (a.count + 1))) old p _ _ a' e

module _ (hash : List ℕ → ℕ) (slots : ℕ) (m : HashMap) (v : IsValid hash slots m)
    (fits : slots * m.contents.value_size ≤ 2 ^ 32) (percpu : m.percpu ≡ true) (cpu : ℕ)
    (in_range : cpu < slots) (gone key value : List ℕ) (flags : ℕ)
    (enough_key : m.key_size ≤ length key) (enough : m.value_size ≤ length value) (old : ℕ)
    (present : elem_of hash m gone ≡ some old) where
  -- the map after the deletion
  abbrev without : HashMap
  without = (hashtable_map_delete_elem hash m gone).1

  abbrev Recycles : Type 0
  Recycles =
      (r : HashMap) × (hashtable_map_update_elem_percpu hash without cpu key value flags
        ≡ some (ok, r))
      × (read_on hash r cpu key ≡ some (take m.value_size value))
      × ((other : ℕ)
          → other < slots
          → cpu ≢ other
          → read_on hash r other key ≡ read_on hash m other gone)

  abbrev shortened : HashMap
  shortened = left hash slots m gone v old present

  shortened-IsValid : IsValid hash slots shortened
  shortened-IsValid = left-IsValid hash slots m gone v old present

  abbrev write : HashElem → HashElem
  write e = put_value m.value_size value e (percpu_offset m.contents.value_size cpu)

  keeps : IsWrite (slots * m.contents.value_size) write
  keeps =
      put-IsWrite slots m.contents.value_size fits m.value_size v.sized.0 value enough cpu in_range

  module _ (absent : elem_of hash shortened key ≡ none)
      (passed : check_update_flags none flags ≡ ok) (p : ℕ) (a' : Allocator)
      (e : ebpf_allocator_alloc shortened.contents.allocator ≡ some (some p, a'))
      (taken : Taken shortened.contents.allocator (some (some p, a'))) where
    abbrev after : HashMap
    after =
        result hash slots shortened key shortened-IsValid enough_key write keeps absent p a' e taken

    abbrev new : HashElem
    new = write (put_key m.key_size key (m.contents.heap p))

    same_block : old ≡ p
    same_block = alloc-free m.contents.allocator old p a' e

    found_after : elem_of hash after key ≡ some p
    unfolding elem_of
    found_after =
        linked-found hash m.key_size
          (with_new hash slots shortened key shortened-IsValid enough_key write keeps absent p a' e
            taken)
          (bucket_of hash shortened.contents m.key_size key) p new key
          (shortened.contents.buckets (bucket_of hash shortened.contents m.key_size key))
          (links hash slots shortened key shortened-IsValid enough_key write keeps absent p a' e
            taken)
          key (memcmp_eq_refl m.key_size key)

    at : ℕ → ℕ
    at c = percpu_offset m.contents.value_size c

    read_after : (c : ℕ) → read_on hash after c key ≡ some (value_at new m.value_size (at c))
    unfolding at
    read_after c =
        read_on_found hash after c key p percpu found_after
        ∙ ap (λ x. some (value_at x m.value_size (at c))) (set_at_self m.contents.heap p new)

    own : value_at new m.value_size (at cpu) ≡ take m.value_size value
    unfolding put_key at
    own =
        put_own slots m.contents.value_size fits m.value_size v.sized.0 value enough
          (put_key m.key_size key (m.contents.heap p)) cpu in_range (v.sized.1 p)

    others :
        (c : ℕ)
        → c < slots
        → cpu ≢ c
        → value_at new m.value_size (at c) ≡ value_at (m.contents.heap old) m.value_size (at c)
    unfolding put_key value_at at
    others c h ne =
        put_others slots m.contents.value_size fits m.value_size v.sized.0 value enough
          (put_key m.key_size key (m.contents.heap p)) cpu c in_range h (v.sized.1 p) ne
        ∙ ap (λ q. value_at (m.contents.heap q) m.value_size (at c)) (sym same_block)

    allowed : check_update_flags (elem_of hash shortened key) flags ≡ ok
    allowed = ap (λ o. check_update_flags o flags) absent ∙ passed

    ran :
        hashtable_map_update_elem_percpu hash shortened cpu key value flags
        ≡ replace_percpu hash shortened key write (elem_of hash shortened key)
    unfolding hashtable_map_update_elem_percpu
    ran = rw (hashtable_map_update_elem_percpu, allowed) refl

    updated : hashtable_map_update_elem_percpu hash shortened cpu key value flags ≡ some (ok, after)
    updated =
        ran
        ∙ ap (λ o. replace_percpu hash shortened key write o) absent
        ∙ replace_new hash slots shortened key shortened-IsValid enough_key write keeps absent p a'
            e taken

    recycles : Recycles
    unfolding at
    recycles = (
      after,
      ap (λ x. hashtable_map_update_elem_percpu hash x.1 cpu key value flags)
            (delete_left hash slots m gone v old present)
          ∙ updated,
      read_after cpu ∙ ap (λ x. some x) own,
      λ c h ne.
          read_after c
          ∙ ap (λ x. some x) (others c h ne)
          ∙ sym (read_on_found hash m c gone old percpu present),
    )

  -- In a valid per-CPU hash table whose values are at offsets that fit in 32 bits, when a key that is
  -- present is deleted and a program then stores a key that is not in the table, with flags that
  -- allow it, the update returns 0. A program on the same CPU reads the new value for the new key;
  -- on every other CPU of the table it reads the value that the deleted key had there.
  pub hashtable_map_update_elem_percpu_recycles :
      elem_of hash without key ≡ none → check_update_flags none flags ≡ ok → Recycles
  unfolding ebpf_allocator_free
  hashtable_map_update_elem_percpu_recycles none_left passed =
      let d = delete_left hash slots m gone v old present in
      let absent : elem_of hash shortened key ≡ none =
        ap (λ x. elem_of hash x.1 key) (sym d) ∙ none_left in
      let blocks : shortened.contents.allocator.nblocks ≡ m.contents.allocator.nblocks = refl in
      let spares : length shortened.contents.pcpu_extra_elems ≡ length m.contents.pcpu_extra_elems =
        refl in
      elim (ebpf_allocator_alloc-cases shortened.contents.allocator shortened-IsValid.owned.pool) [
        | inl (e, z) ↦ absurd (
            omega (
              arith,
              z,
              blocks,
              spares,
              shortened-IsValid.owned.kept,
              v.owned.kept,
              left-total hash slots m gone v old present,
            ))
        | inr (p, a', e, taken) ↦ recycles absent passed p a' e taken
      ]
