-- ===== src/Array/Leak.antt =====
-- What a failed creation of a per-CPU array map leaves behind.
use generic_ebpf.Base.{
  ℕ, ◌≡◌, ◌≢◌, refl, ◌∙◌, ap, arith, some, none, List, ◌∷◌, ==_refl, ne→==_false,
}
use generic_ebpf.Map.{enomem, MapAttr, failed}
use generic_ebpf.Platform.{Platform, remove}
use generic_ebpf.Array.{array_map_init_common, array_map_init_percpu, init_percpu_loop, err0_loop}

remove_second : (p q : ℕ) (l : List ℕ) → p ≢ q → remove p (q ∷ p ∷ l) ≡ q ∷ l
unfolding remove
remove_second p q l ne = rw (ne→==_false p q ne, ==_refl p) refl

module _ {W : Type 0} (host : Platform W) (attr : MapAttr) (w : W) where
  open host use {calloc, free, live}

  abbrev w₁ : W
  w₁ = (calloc 2 8 w).1

  abbrev w₂ : W
  w₂ = (calloc attr.max_entries attr.value_size w₁).1

  abbrev w₃ : W
  w₃ = (calloc attr.max_entries attr.value_size w₂).1

  -- On two CPUs, if the area of the first is allocated and that of the second is not, the creation
  -- fails with ENOMEM and the area of the first CPU stays allocated.
  pub array_map_init_percpu-leaks :
      (ma b : ℕ)
      → ma ≢ b
      → (calloc 2 8 w).0 ≡ some ma
      → (calloc attr.max_entries attr.value_size w₁).0 ≡ some b
      → (calloc attr.max_entries attr.value_size w₂).0 ≡ none
      → (w' : W) × (array_map_init_percpu host 2 attr w ≡ (failed enomem, w'))
        × (live w' ≡ b ∷ live w)
  unfolding array_map_init_percpu init_percpu_loop err0_loop array_map_init_common
  array_map_init_percpu-leaks ma b ne e f g = (
    free (some ma) (free none w₃),
    ground arith,
    host.live-free ma (free none w₃)
        ∙ ap (λ l. remove ma l)
            (host.live-free_null w₃
              ∙ host.live-calloc_none attr.max_entries attr.value_size w₂ g
              ∙ host.live-calloc_some attr.max_entries attr.value_size w₁ b f
              ∙ ap (λ l. b ∷ l) (host.live-calloc_some 2 8 w ma e))
        ∙ remove_second ma b (live w) ne,
  )
