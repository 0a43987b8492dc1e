-- ===== src/Array/Access.antt =====
-- What the element operations of the array map read and write.
use mathlib.Core.Logic.{◌⊎◌}
use mathlib.Core.Path.{subst}
use mathlib.Core.Option.{some-injective}
use native.Mathlib.Decide.{ℕ_discrete}
use generic_ebpf.Base.{
  ℕ, ◌+◌, ◌*◌, ◌^◌, ◌≤◌, ◌<◌, ◌≡◌, ◌≢◌, refl, arith, some, List, get_elem?, set, length, read_bytes,
  write_bytes, ◌>>=◌, read_bytes-total, write_bytes-total, false, Option-cases, get_elem?-lt,
  get_elem?-set_self, get_elem?-set_ne, inl, inr, sym, ap, ◌∙◌, read_bytes-write_bytes,
  read_bytes-write_bytes_apart,
}
use generic_ebpf.Map.{ok, has_noexist}
use generic_ebpf.Array.{ArrayMap, Area, area_at, offset}
use generic_ebpf.Array.Ops.{elem_bytes, array_map_update_elem_common, array_map_update_elem}

-- The sizes are `uint32_t`s and not 0, and each area is as large as `calloc` made it.
pub record IsValid (em : ArrayMap) : Type 0 where
  pub value_size_pos : 0 < em.value_size
  pub value_size_fits : em.value_size < 2 ^ 32
  pub max_entries_fits : em.max_entries < 2 ^ 32
  pub areas_sized :
      (i : ℕ) (a : Area) → area_at em i ≡ some a → length a.bytes ≡ em.max_entries * em.value_size

-- For a key in range the 32-bit offset, wrapped or not, stays inside of the area.
offset_in_bounds :
    (em : ArrayMap) (k : ℕ)
    → k < em.max_entries
    → offset em k + em.value_size ≤ em.max_entries * em.value_size
offset_in_bounds em k h = grind arith

-- Two elements lie in different areas or share no byte.
abbrev pub Apart : ArrayMap → ℕ → ℕ → ℕ → ℕ → Type 0
Apart em i k j q =
    (i ≢ j)
    ⊎ ((offset em q + em.value_size ≤ offset em k) ⊎ (offset em k + em.value_size ≤ offset em q))

-- The result of storing `v` as the element `k` of the area `i`.
pub record Stored (em : ArrayMap) (i k : ℕ) (v : List ℕ) (em' : ArrayMap) : Type 0 where
  pub reads : elem_bytes em' i k ≡ some v
  pub keeps : (j q : ℕ) → Apart em i k j q → elem_bytes em' j q ≡ elem_bytes em j q
  pub size : length v ≡ em.value_size
  pub value_size : em'.value_size ≡ em.value_size
  pub max_entries : em'.max_entries ≡ em.max_entries
  pub valid : IsValid em'

module _ (em : ArrayMap) (valid : IsValid em) (i k : ℕ) (a : Area) (here : area_at em i ≡ some a)
    (inside : k < em.max_entries) where
  -- the map with new bytes in the area `i`
  abbrev stored : List ℕ → ArrayMap
  stored bytes' = record em {
    contents = record em.contents {
      areas = set em.contents.areas i (some (record a { bytes = bytes' }));
    };
  }

  in_areas : i < length em.contents.areas
  in_areas = elim (Option-cases (get_elem? em.contents.areas i)) [
    | inl e ↦ absurd (cc (sym here ∙ ap (λ o. o >>= λ b. b) e))
    | inr (b, e) ↦ get_elem?-lt em.contents.areas i e
  ]

  area_at-stored_self :
      (bytes' : List ℕ) → area_at (stored bytes') i ≡ some (record a { bytes = bytes' })
  area_at-stored_self bytes' = rw (get_elem?-set_self em.contents.areas i _ in_areas)

  area_at-stored_ne : (bytes' : List ℕ) (j : ℕ) → i ≢ j → area_at (stored bytes') j ≡ area_at em j
  area_at-stored_ne bytes' j ne = rw (get_elem?-set_ne em.contents.areas i j _ ne)

  stored-IsValid : (bytes' : List ℕ) → length bytes' ≡ length a.bytes → IsValid (stored bytes')
  stored-IsValid bytes' l = record {
    value_size_pos = valid.value_size_pos;
    value_size_fits = valid.value_size_fits;
    max_entries_fits = valid.max_entries_fits;
    areas_sized = λ j b e. elim (ℕ_discrete i j) [
      | yes p ↦
          let e' = subst (λ t. area_at (stored bytes') t ≡ some b) (sym p) e in
          let same = some-injective _ _ (sym (area_at-stored_self bytes') ∙ e') in
          sym (ap (λ (x : Area). length x.bytes) same) ∙ l ∙ valid.areas_sized i a here
      | no p ↦ valid.areas_sized j b (sym (area_at-stored_ne bytes' j p) ∙ e)
    ];
  }

  module _ (v bytes' : List ℕ) (fits : length v ≡ em.value_size)
      (w : write_bytes a.bytes (offset em k) v ≡ some bytes') where
    stored-reads : elem_bytes (stored bytes') i k ≡ some v
    unfolding elem_bytes
    stored-reads = rw (area_at-stored_self bytes') (
        subst (λ n. read_bytes bytes' (offset em k) n ≡ some v) fits
          (read_bytes-write_bytes a.bytes (offset em k) v bytes' w))

    stored-keeps : (j q : ℕ) → Apart em i k j q → elem_bytes (stored bytes') j q ≡ elem_bytes em j q
    unfolding elem_bytes
    stored-keeps j q apart = elim (ℕ_discrete i j) [
      | no p ↦ rw (area_at-stored_ne bytes' j p)
      | yes p ↦
          subst (λ t. elem_bytes (stored bytes') t q ≡ elem_bytes em t q) p
            (rw (area_at-stored_self bytes', here)
              (read_bytes-write_bytes_apart a.bytes (offset em k) v bytes' (offset em q)
                em.value_size w (ground arith)))
    ]

  pub update_common-Stored :
      (value v : List ℕ)
      → read_bytes value 0 em.value_size ≡ some v
      → length v ≡ em.value_size
      → (em' : ArrayMap) × (array_map_update_elem_common em i k value ≡ some em')
        × Stored em i k v em'
  unfolding array_map_update_elem_common
  update_common-Stored value v e l =
      let sized = valid.areas_sized i a here in
      let (bytes', w, l') =
        write_bytes-total a.bytes (offset em k) v (omega (arith, offset_in_bounds em k inside)) in
      (
        stored bytes',
        rw (e, here, w),
        record {
          reads = stored-reads v bytes' l w;
          keeps = stored-keeps v bytes' l w;
          size = l;
          value_size = refl;
          max_entries = refl;
          valid = stored-IsValid bytes' l';
        },
      )

update_allowed :
    (em : ArrayMap) (k : ℕ) (value : List ℕ) (flags : ℕ) {em' : ArrayMap}
    → k < em.max_entries
    → has_noexist flags ≡ false
    → array_map_update_elem_common em 0 k value ≡ some em'
    → array_map_update_elem em k value flags ≡ some (ok, em')
unfolding array_map_update_elem
update_allowed em k value flags inside allowed run = ground arith

module _ (em : ArrayMap) (valid : IsValid em) (a : Area) (here : area_at em 0 ≡ some a) (k : ℕ)
    (inside : k < em.max_entries) (value : List ℕ) (long : em.value_size ≤ length value) (flags : ℕ)
    (allowed : has_noexist flags ≡ false) where
  -- A permitted update of a key in range returns 0 and stores the first `value_size` bytes of the
  -- value buffer `value` as that element; every element that shares no byte with it is unchanged,
  -- and the map stays valid.
  pub array_map_update_elem-Stored :
      (v : List ℕ) × (em' : ArrayMap) × (read_bytes value 0 em.value_size ≡ some v)
      × (array_map_update_elem em k value flags ≡ some (ok, em'))
      × Stored em 0 k v em'
  unfolding array_map_update_elem
  array_map_update_elem-Stored =
      let (v, e, l) = read_bytes-total value 0 em.value_size (omega arith) in
      let (em', run, st) = update_common-Stored em valid 0 k a here inside value v e l in
      (v, em', e, update_allowed em k value flags inside allowed run, st)
