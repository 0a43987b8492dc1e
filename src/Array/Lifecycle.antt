-- ===== src/Array/Lifecycle.antt =====
-- Memory that creating and destroying an array map takes and gives back, on every path.
use generic_ebpf.Base.{ℕ, ◌≡◌, refl, arith, some, none, [], ◌∷◌, false, Option-cases, inl, inr}
use generic_ebpf.Map.{enomem, MapAttr, InitResult, ready, failed}
use generic_ebpf.Platform.{Platform, remove-head}
use generic_ebpf.Array.{ArrayMap, area_of, ArrayData, array_map_init, array_map_deinit}

module _ {W : Type 0} (host : Platform W) (attr : MapAttr) (w : W) where
  open host use {live, calloc, free}

  abbrev w₁ : W
  w₁ = (calloc 1 8 w).1

  abbrev w₂ : W
  w₂ = (calloc attr.max_entries attr.value_size w₁).1

  init_first_null : (calloc 1 8 w).0 ≡ none → array_map_init host attr w ≡ (failed enomem, w₁)
  unfolding array_map_init
  init_first_null e = rw (array_map_init, e)

  init_second_null :
      (ma : ℕ)
      → (calloc 1 8 w).0 ≡ some ma
      → (calloc attr.max_entries attr.value_size w₁).0 ≡ none
      → array_map_init host attr w ≡ (failed enomem, free (some ma) w₂)
  unfolding array_map_init
  init_second_null ma e f = ground arith

  init_both :
      (ma b : ℕ)
      → (calloc 1 8 w).0 ≡ some ma
      → (calloc attr.max_entries attr.value_size w₁).0 ≡ some b
      → array_map_init host attr w
        ≡ (ready false (record { ma = ma; areas = some (area_of attr b) ∷ [] }), w₂)
  unfolding array_map_init
  init_both ma b e f = ground arith

  -- What an attempt at creation may leave: an ENOMEM and nothing new that is live, or a map that is
  -- not per CPU and whose data `deinit` gives back, whatever else the map has become.
  abbrev pub Balanced : InitResult ArrayData × W → Type 0
  Balanced (failed c, w') = (c ≡ enomem) × (live w' ≡ live w)
  Balanced (ready pc d, w') =
      (pc ≡ false)
      × ((em : ArrayMap) → em.contents ≡ d → live (array_map_deinit host em w') ≡ live w)

  deinit_both :
      (ma b : ℕ) (em : ArrayMap)
      → em.contents ≡ record { ma = ma; areas = some (area_of attr b) ∷ [] }
      → (calloc 1 8 w).0 ≡ some ma
      → (calloc attr.max_entries attr.value_size w₁).0 ≡ some b
      → live (array_map_deinit host em w₂) ≡ live w
  unfolding array_map_deinit
  deinit_both ma b em c e f = rw (
    c,
    host.live-free,
    host.live-free,
    host.live-calloc_some attr.max_entries attr.value_size w₁ b f,
    remove-head,
    host.live-calloc_some 1 8 w ma e,
    remove-head,
  )

  pub array_map_init-Balanced : Balanced (array_map_init host attr w)
  array_map_init-Balanced = elim (Option-cases (calloc 1 8 w).0) [
    | inl e ↦ rw (init_first_null e) (refl, host.live-calloc_none 1 8 w e)
    | inr (ma, e) ↦ elim (Option-cases (calloc attr.max_entries attr.value_size w₁).0) [
      | inl f ↦ rw (init_second_null ma e f) (
        refl,
        rw (
          host.live-free,
          host.live-calloc_none attr.max_entries attr.value_size w₁ f,
          host.live-calloc_some 1 8 w ma e,
          remove-head,
        ),
      )
      | inr (b, f) ↦ rw (init_both ma b e f) (refl, λ em c. deinit_both ma b em c e f)
    ]
  ]
