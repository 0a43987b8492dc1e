-- ===== src/Array.antt =====
-- sys/dev/ebpf/ebpf_map_array.c: the array map and its per-CPU variant.
pub mod Ops
pub mod Access
pub mod Laws
pub mod Keys
pub mod Lifecycle
pub mod Leak
use generic_ebpf.Base.{
  ℕ, zero, suc, ◌+◌, ◌*◌, ◌^◌, ◌-◌, true, false, Option, none, some, List, [], ◌∷◌, u32, get_elem?,
  set, replicate, zeros, ◌>>=◌,
}
use generic_ebpf.Map.{Code, ok, enomem, MapAttr, EbpfMap, InitResult, ready, failed}
use generic_ebpf.Platform.{Platform}

-- The block that `struct ebpf_map_array` points to: its address and its bytes.
pub record Area : Type 0 where
  pub block : ℕ
  pub bytes : List ℕ

-- What `em->data` points to: the block `ma` of `struct ebpf_map_array`s (one, or one for each
-- CPU) and the areas that these point to, `none` for a NULL.
pub record ArrayData : Type 0 where
  pub ma : ℕ
  pub areas : List (Option Area)

abbrev pub ArrayMap : Type 0
ArrayMap = EbpfMap ArrayData

abbrev pub uint32_max : ℕ
uint32_max = 2 ^ 32 - 1

-- `em->value_size * k` in 32 bits
abbrev pub offset : ArrayMap → ℕ → ℕ
offset em k = u32 (em.value_size * k)

abbrev pub area_block : Option Area → Option ℕ
area_block none = none
area_block (some a) = some a.block

abbrev pub area_at : ArrayMap → ℕ → Option Area
area_at em i = get_elem? em.contents.areas i >>= λ a. a

-- `calloc` gives zeros
abbrev pub area_of : MapAttr → ℕ → Area
area_of attr p = record { block = p; bytes = zeros (attr.max_entries * attr.value_size) }

-- Creation and destruction, against the allocator of the host.
module _ {W : Type 0} (host : Platform W) where
  open host use {calloc, free}

  unfoldable pub array_map_init_common : MapAttr → W → Code × Option Area × W
  array_map_init_common attr w =
      let (p, w') = calloc attr.max_entries attr.value_size w in
      elim p [ none ↦ (enomem, none, w') | some b ↦ (ok, some (area_of attr b), w') ]

  unfoldable pub array_map_init : MapAttr → W → InitResult ArrayData × W
  unfolding array_map_init_common
  array_map_init attr w =
      let (p, w₁) = calloc 1 8 w in
      elim p [
        | none ↦ (failed enomem, w₁)
        | some ma ↦
            let (error, area, w₂) = array_map_init_common attr w₁ in
            elim error [
              | ok ↦ (ready false (record { ma = ma; areas = area ∷ [] }), w₂)
              | other ↦ (failed other, free (some ma) w₂)
            ]
      ]

  -- The loop of `array_map_init_percpu` with `left` rounds to go at index `i`; the result is the
  -- index at which it stopped, the error, and `ma`.
  unfoldable pub init_percpu_loop :
      MapAttr → ℕ → ℕ → List (Option Area) → W → ℕ × Code × List (Option Area) × W
  unfolding array_map_init_common
  init_percpu_loop attr zero i areas w = (i, ok, areas, w)
  init_percpu_loop attr (suc left) i areas w =
      let (error, area, w') = array_map_init_common attr w in
      let rest = init_percpu_loop attr left (i + 1) (set areas i area) w' in
      elim error [ ok ↦ rest | other ↦ (i, other, set areas i area, w') ]

  -- `for (j = i; j > 0; j--) ebpf_free(ma[i].array)`: the index is `i` in every round.
  unfoldable pub err0_loop : ℕ → ℕ → List (Option Area) → W → W
  err0_loop zero i areas w = w
  err0_loop (suc j) i areas w = err0_loop j i areas (free (get_elem? areas i >>= area_block) w)

  unfoldable pub array_map_init_percpu : ℕ → MapAttr → W → InitResult ArrayData × W
  unfolding init_percpu_loop err0_loop
  array_map_init_percpu ncpus attr w =
      let (p, w₁) = calloc ncpus 8 w in
      elim p [
        | none ↦ (failed enomem, w₁)
        | some ma ↦
            let (i, error, areas, w₂) = init_percpu_loop attr ncpus 0 (replicate ncpus none) w₁ in
            elim error [
              | ok ↦ (ready true (record { ma = ma; areas = areas }), w₂)
              | other ↦ (failed other, free (some ma) (err0_loop i i areas w₂))
            ]
      ]

  unfoldable pub array_map_deinit : ArrayMap → W → W
  array_map_deinit em w = free (some em.contents.ma) (free (area_at em 0 >>= λ a. some a.block) w)

  -- `ma[i].array` for the CPUs from 0 on
  unfoldable pub free_areas : List (Option Area) → W → W
  free_areas [] w = w
  free_areas (a ∷ areas) w = free_areas areas (free (area_block a) w)

  unfoldable pub array_map_deinit_percpu : ArrayMap → W → W
  unfolding free_areas
  array_map_deinit_percpu em w = free (some em.contents.ma) (free_areas em.contents.areas w)
