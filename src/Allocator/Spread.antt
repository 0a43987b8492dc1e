-- ===== src/Allocator/Spread.antt =====
-- What the pre-allocation loop leaves in memory.
use generic_ebpf.Base.{
  ℕ, zero, suc, ◌+◌, ◌^◌, ◌<◌, ◌≤◌, ◌≡◌, ◌≢◌, inl, inr, refl, sym, ◌∙◌, arith, true, false, Option,
  some, none, [], ◌∷◌, u32, sub32, ltb, ◌==◌, Bool-cases, Option-cases,
}
use mathlib.Core.Option.{some-injective}
use generic_ebpf.Map.{Code, Code-discrete, ok, enomem}
use generic_ebpf.Platform.{Platform, Regions, count}
use generic_ebpf.Allocator.Pool.{IsGood}
use generic_ebpf.Allocator.Init.{Account, ebpf_allocator_init-Account}
use generic_ebpf.Allocator.Fits.{Fits-inside}
use generic_ebpf.Allocator.{
  Allocator, Cursor, Result, entry_size, new_segment, construct, carve, ebpf_allocator_prealloc,
  ebpf_allocator_init,
}
use generic_ebpf.Allocator.Apart.{
  IsSpread, IsSpread-once, Placed, Ahead, new_segment-Placed, new_segment-Ahead, built-Placed,
  made-Placed, made-Ahead,
}

module _ {W : Type 0} (host : Platform W) (mem : Regions host) (page : ℕ)
    (ctor : Option (ℕ → W → Code × W))
    (ctor-keeps : (addr : ℕ) (w : W) (x : ℕ)
      → mem.held w x ≡ true
      → mem.held (construct host page ctor addr w).1 x ≡ true)
    (fits_page : page < 2 ^ 32) where
  open mem use {held}

  -- One round of the loop, by what it comes to.
  module _ (fuel nblocks made : ℕ) (c : Cursor) (a : Allocator) (w : W)
      (inside : ltb c.limit (c.addr + entry_size) ≡ false) where
    abbrev built : Code × W
    built = construct host page ctor c.addr w

    abbrev with_block : Allocator
    with_block = record a { free_block = c.addr ∷ a.free_block }

    abbrev run : Option (Result W)
    run = carve host page ctor (suc fuel) nblocks made c a w

    abbrev left : ℕ
    left = sub32 c.size a.block_size

    run-failed :
        (other : Code)
        → built.0 ≡ other
        → other ≢ ok
        → run ≡ some (record { code = other; alloc = a; world = built.1 })
    unfolding carve
    run-failed ok e ne = absurd (ne refl)
    run-failed other e ne = rw (carve, inside, e) refl

    module _ (e : built.0 ≡ ok) where
      run-last :
          (u32 (made + 1) == nblocks) ≡ true
          → run ≡ some (record { code = ok; alloc = with_block; world = built.1 })
      unfolding carve
      run-last m = rw (carve, inside, e, m) refl

      module _ (m : (u32 (made + 1) == nblocks) ≡ false) where
        run-here :
            ltb a.block_size left ≡ true
            → run
              ≡ carve host page ctor fuel nblocks
                  (u32 (made + 1))
                  (record { addr = c.addr + a.block_size; size = left; limit = c.limit })
                  with_block
                  built.1
        unfolding carve
        run-here t = rw (carve, inside, e, m, t) refl

        module _ (t : ltb a.block_size left ≡ false) where
          abbrev other_segment : Option Cursor × Allocator × W
          other_segment = new_segment host page ctor with_block built.1

          run-none :
              other_segment.0 ≡ none
              → run
                ≡ some (record { code = enomem; alloc = other_segment.1; world = other_segment.2 })
          unfolding carve
          run-none n = rw (carve, inside, e, m, t, n) refl

          run-there :
              (c' : Cursor)
              → other_segment.0 ≡ some c'
              → run
                ≡ carve host page ctor fuel nblocks
                    (u32 (made + 1))
                    c'
                    other_segment.1
                    other_segment.2
          unfolding carve
          run-there c' n = rw (carve, inside, e, m, t, n) refl

  new_segment-size :
      (a : Allocator) (w : W) → (new_segment host page ctor a w).1.block_size ≡ a.block_size
  unfolding new_segment
  new_segment-size a w = ground arith

  -- What the loop leaves.
  abbrev Left : ℕ → Result W → Type 0
  Left size r =
      Placed host mem page ctor ctor-keeps fits_page r.alloc r.world × (r.alloc.block_size ≡ size)

  Left-same :
      {size : ℕ} (o : Option (Result W)) (r r' : Result W)
      → o ≡ some r'
      → o ≡ some r
      → Left size r'
      → Left size r
  Left-same o r r' p q l = rw (sym (some-injective _ _ (sym p ∙ q))) l

  carve-Left :
      (fuel nblocks made size : ℕ) (c : Cursor) (a : Allocator) (w : W) (r : Result W)
      → entry_size ≤ size
      → size + 16 < 2 ^ 32
      → a.block_size ≡ size
      → Placed host mem page ctor ctor-keeps fits_page a w
      → Ahead host mem page ctor ctor-keeps fits_page c a w
      → carve host page ctor fuel nblocks made c a w ≡ some r
      → Left size r
  unfolding carve
  carve-Left zero nblocks made size c a w r linked wide same g h e = absurd (cc)
  carve-Left (suc fuel) nblocks made size c a w r linked wide same g h e =
      let inside = Fits-inside a.block_size c (omega (arith, linked, same)) h.fits in
      let b = built fuel nblocks made c a w inside in
      let a₁ = with_block fuel nblocks made c a w inside in
      let u = u32 (made + 1) in
      let v = made-Placed host mem page ctor ctor-keeps fits_page c a w g h in
      let s = new_segment host page ctor a₁ b.1 in
      let pos' : 0 < a₁.block_size = omega (arith, linked, same) in
      let wide' : a₁.block_size + 16 < 2 ^ 32 = omega (arith, same) in
      elim (Code-discrete b.0 ok) [
        | no ne ↦
            Left-same _ r _ (run-failed fuel nblocks made c a w inside b.0 refl ne) e
              (built-Placed host mem page ctor ctor-keeps fits_page c a w g h, same)
        | yes k ↦ elim (Bool-cases (u == nblocks)) [
          | inl m ↦ Left-same _ r _ (run-last fuel nblocks made c a w inside k m) e (v, same)
          | inr m ↦ elim (Bool-cases (ltb a.block_size (sub32 c.size a.block_size))) [
            | inl t ↦
                carve-Left fuel nblocks u size _ a₁ b.1 r linked wide same v
                  (made-Ahead host mem page ctor ctor-keeps fits_page c a w g h t)
                  (sym (run-here fuel nblocks made c a w inside k m t) ∙ e)
            | inr t ↦
                let v' =
                  new_segment-Placed host mem page ctor ctor-keeps fits_page a₁ b.1 pos' wide' v in
                elim (Option-cases s.0) [
                  | inl n ↦
                      Left-same _ r _ (run-none fuel nblocks made c a w inside k m t n) e
                        (v', new_segment-size a₁ b.1 ∙ same)
                  | inr (c', n) ↦
                      carve-Left fuel nblocks u size c' s.1 s.2 r linked wide
                        (new_segment-size a₁ b.1 ∙ same) v'
                        (new_segment-Ahead host mem page ctor ctor-keeps fits_page a₁ b.1 pos' wide'
                          c' n v)
                        (sym (run-there fuel nblocks made c a w inside k m t c' n) ∙ e)
                ]
          ]
        ]
      ]

  empty_pool : ℕ → ℕ → Allocator
  empty_pool block_size nblocks = record {
    free_block = [];
    used_segment = [];
    nblocks = nblocks;
    block_size = block_size;
    count = nblocks;
  }

  empty_pool-Placed :
      (block_size nblocks : ℕ) (w : W)
      → Placed host mem page ctor ctor-keeps fits_page (empty_pool block_size nblocks) w
  unfolding IsSpread count empty_pool
  empty_pool-Placed block_size nblocks w = record {
    spread = tt;
    inside = λ p x m l h. absurd (omega (arith, m));
  }

  init-Left :
      (block_size nblocks : ℕ) (w : W) (r : Result W)
      → entry_size ≤ block_size
      → block_size + 16 < 2 ^ 32
      → ebpf_allocator_init host page ctor block_size nblocks w ≡ some r
      → Left block_size r
  unfolding ebpf_allocator_init ebpf_allocator_prealloc empty_pool
  init-Left block_size nblocks w r linked wide e =
      let pos : 0 < block_size = omega (arith, linked) in
      let a = empty_pool block_size nblocks in
      let g = empty_pool-Placed block_size nblocks w in
      let v = new_segment-Placed host mem page ctor ctor-keeps fits_page a w pos wide g in
      let s = new_segment host page ctor a w in
      elim (Option-cases s.0) [
        | inl n ↦
            Left-same _ r (record { code = enomem; alloc = s.1; world = s.2 })
              (rw (ebpf_allocator_init, ebpf_allocator_prealloc, n) refl) e
              (v, new_segment-size a w)
        | inr (c, n) ↦
            carve-Left nblocks nblocks 0 block_size c s.1 s.2 r linked wide (new_segment-size a w) v
              (new_segment-Ahead host mem page ctor ctor-keeps fits_page a w pos wide c n g)
              (sym (rw (ebpf_allocator_init, ebpf_allocator_prealloc, n) refl) ∙ e)
      ]

  summary :
      (size nblocks : ℕ) (w : W) (r : Result W)
      → 0 < size
      → nblocks < 2 ^ 32
      → Account host page nblocks w r
      → Left size r
      → IsSpread size r.alloc.free_block
        × (r.code ≡ ok → IsGood r.alloc × (r.alloc.count ≡ nblocks) × (r.alloc.nblocks ≡ nblocks))
  summary size nblocks w r pos small t (g, same) =
      let spread : IsSpread size r.alloc.free_block = rw (sym same) g.spread in
      (
        spread,
        λ k. (
          record {
            counted = elim t.blocks [ inl ne ↦ absurd (ne k) | inr n ↦ omega (arith, n, t.count) ];
            within = omega (arith, t.count, t.nblocks_kept);
            fits = omega (arith, t.nblocks_kept);
            once = IsSpread-once size r.alloc.free_block pos spread;
          },
          t.count,
          t.nblocks_kept,
        ),
      )

  module _
      (quiet : (addr : ℕ) (w : W)
        → host.live (construct host page ctor addr w).1 ≡ host.live w) where
    -- Creating a pool of blocks that have room for a link, and whose size does not wrap when a segment
    -- is sized, ends; its blocks lie apart from each other; and without an error the pool is good and
    -- has the number of free blocks that was asked for. The constructor, if there is one, must not
    -- change what is live.
    pub ebpf_allocator_init-IsSpread :
        (block_size nblocks : ℕ) (w : W)
        → entry_size ≤ block_size
        → block_size + 16 < 2 ^ 32
        → 0 < nblocks
        → nblocks < 2 ^ 32
        → (r : Result W) × (ebpf_allocator_init host page ctor block_size nblocks w ≡ some r)
          × IsSpread block_size r.alloc.free_block
          × (r.code ≡ ok → IsGood r.alloc × (r.alloc.count ≡ nblocks) × (r.alloc.nblocks ≡ nblocks))
    ebpf_allocator_init-IsSpread block_size nblocks w linked wide some_blocks small =
        let (r, e, t) =
          ebpf_allocator_init-Account host page ctor fits_page quiet block_size nblocks w linked
            wide some_blocks small in
        let (spread, good) =
          summary block_size nblocks w r (omega (arith, linked)) small t
            (init-Left block_size nblocks w r linked wide e) in
        (r, e, spread, good)
