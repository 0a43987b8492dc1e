-- ===== src/Allocator.antt =====
-- sys/dev/ebpf/ebpf_allocator.c: the pool of fixed-size blocks, with the singly linked lists of
-- sys/dev/ebpf/ebpf_queue.h as lists of addresses.
pub mod Pool
pub mod Segments
pub mod Fits
pub mod Prealloc
pub mod Init
pub mod Apart
pub mod Spread
use generic_ebpf.Base.{
  ℕ, zero, suc, true, false, ◌+◌, ◌-◌, ◌%◌, Option, none, some, List, [], ◌∷◌, ◌==◌, ltb, u32,
  sub32, if◌then◌else◌, ◌>>=◌,
}
use generic_ebpf.Map.{Code, ok, enomem}
use generic_ebpf.Platform.{Platform}

pub record Allocator : Type 0 where
  pub free_block : List ℕ
  pub used_segment : List ℕ
  pub nblocks : ℕ
  pub block_size : ℕ
  pub count : ℕ

-- `sizeof(struct ebpf_allocator_entry)` and EBPF_ALLOCATOR_ALIGN, on a 64-bit host
abbrev pub entry_size : ℕ
entry_size = 8

abbrev pub align : ℕ
align = 8

-- The spin lock that the two functions hold makes each of them one step. An outer `none` is the
-- removal of the head of an empty list; the inner one is NULL.
unfoldable pub ebpf_allocator_alloc : Allocator → Option (Option ℕ × Allocator)
ebpf_allocator_alloc a =
    if ltb 0 a.count
    then elim a.free_block [
      | [] ↦ none
      | b ∷ bs ↦ some (some b, record a { free_block = bs; count = a.count - 1 })
    ]
    else some (none, a)

unfoldable pub ebpf_allocator_free : Allocator → ℕ → Allocator
ebpf_allocator_free a p = record a { free_block = p ∷ a.free_block; count = u32 (a.count + 1) }

-- The size of the next segment, a `uint32_t`: a page, or more if a block does not fit.
unfoldable pub segment_size : ℕ → ℕ → ℕ
segment_size page block_size =
    if ltb page (entry_size + block_size + align)
    then u32 (entry_size + block_size + align)
    else page

-- How far `data` is moved to be aligned.
unfoldable pub padding : ℕ → ℕ
padding addr = if addr % align == 0 then 0 else align - addr % align

-- The address and the number of bytes left of a segment at the start of a block, as the code counts
-- them, and the end of the segment that the host gave.
pub record Cursor : Type 0 where
  pub addr : ℕ
  pub size : ℕ
  pub limit : ℕ

-- What a pre-allocation ends with.
pub record Result (W : Type 0) : Type 0 where
  pub code : Code
  pub alloc : Allocator
  pub world : W

module _ {W : Type 0} (host : Platform W) (page : ℕ) (ctor : Option (ℕ → W → Code × W)) where
  open host use {calloc, free}

  -- The head of the outer loop: a new segment, or NULL.
  unfoldable pub new_segment : Allocator → W → Option Cursor × Allocator × W
  unfolding segment_size padding
  new_segment a w =
      let size = segment_size page a.block_size in
      let (p, w') = calloc 1 size w in
      elim p [
        | none ↦ (none, a, w')
        | some segment ↦
            let addr = segment + entry_size in
            (
              some (record {
                addr = addr + padding addr;
                size = sub32 (sub32 size entry_size) (padding addr);
                limit = segment + size;
              }),
              record a { used_segment = segment ∷ a.used_segment },
              w',
            )
      ]

  -- `ctor(data, arg)`, if there is a constructor.
  unfoldable pub construct : ℕ → W → Code × W
  construct addr w = elim ctor [ none ↦ (ok, w) | some f ↦ f addr w ]

  -- The inner loop from a block at `c` on, with `count` blocks made before, and the outer loop
  -- round it. One unit of fuel pays for one block; `none` means that the fuel ran out, or that the
  -- link of a block would be written behind the end of its segment, which is undefined.
  unfoldable pub carve : ℕ → ℕ → ℕ → Cursor → Allocator → W → Option (Result W)
  unfolding new_segment construct
  carve zero nblocks count c a w = none
  carve (suc fuel) nblocks count c a w =
      let (error, w₁) = construct c.addr w in
      let a₁ = record a { free_block = c.addr ∷ a.free_block } in
      let size = sub32 c.size a.block_size in
      let made = u32 (count + 1) in
      let (seg, a₂, w₂) = new_segment a₁ w₁ in
      let in_segment =
        carve fuel nblocks made
          (record { addr = c.addr + a.block_size; size = size; limit = c.limit }) a₁ w₁ in
      elim (ltb c.limit (c.addr + entry_size)) [
        | true ↦ none
        | false ↦ elim error [
          | ok ↦
              if made == nblocks
              then some (record { code = ok; alloc = a₁; world = w₁ })
              else if ltb a.block_size size
              then in_segment
              else elim seg [
                | none ↦ some (record { code = enomem; alloc = a₂; world = w₂ })
                | some c' ↦ carve fuel nblocks made c' a₂ w₂
              ]
          | other ↦ some (record { code = other; alloc = a; world = w₁ })
        ]
      ]

  unfoldable pub ebpf_allocator_prealloc : ℕ → Allocator → ℕ → W → Option (Result W)
  unfolding new_segment carve
  ebpf_allocator_prealloc fuel a nblocks w =
      let (seg, a', w') = new_segment a w in
      elim seg [
        | none ↦ some (record { code = enomem; alloc = a'; world = w' })
        | some c ↦ carve fuel nblocks 0 c a' w'
      ]

  -- `ebpf_allocator_init` with one unit of fuel for each block.
  unfoldable pub ebpf_allocator_init : ℕ → ℕ → W → Option (Result W)
  unfolding ebpf_allocator_prealloc
  ebpf_allocator_init block_size nblocks w =
      ebpf_allocator_prealloc nblocks
        (record {
          free_block = [];
          used_segment = [];
          nblocks = nblocks;
          block_size = block_size;
          count = nblocks;
        })
        nblocks w

-- Destruction: the assertion, the destructor over the free blocks, and the segments.
module _ {W : Type 0} (host : Platform W) (dtor : Option (ℕ → W → W)) where
  unfoldable pub destruct_all : List ℕ → W → W
  destruct_all [] w = w
  destruct_all (b ∷ bs) w = destruct_all bs (elim dtor [ none ↦ w | some f ↦ f b w ])

  unfoldable pub free_segments : List ℕ → W → W
  free_segments [] w = w
  free_segments (p ∷ ps) w = free_segments ps (host.free (some p) w)

  -- `none` is a failed assertion: not all blocks are back.
  unfoldable pub ebpf_allocator_deinit : Allocator → W → Option W
  unfolding destruct_all free_segments
  ebpf_allocator_deinit a w =
      if a.count == a.nblocks
      then some (free_segments a.used_segment (destruct_all a.free_block w))
      else none
