-- ===== src/Allocator/Prealloc.antt =====
-- The rounds of the pre-allocation loop.
use generic_ebpf.Base.{
  ℕ, zero, suc, ◌+◌, ◌^◌, ◌<◌, ◌≤◌, ◌≡◌, ◌≢◌, inl, inr, refl, ap, arith, true, false, Option, some,
  none, List, [], ◌∷◌, length, u32, sub32, ltb, ==_refl, ne→==_false, ◌==◌, Bool-cases,
  Option-cases,
}
use native.Mathlib.Decide.{ℕ_discrete}
use generic_ebpf.Map.{Code, Code-discrete, ok, enomem}
use generic_ebpf.Platform.{Platform}
use generic_ebpf.Allocator.Segments
use generic_ebpf.Allocator.Fits.{Fits, Fits-inside, next_block-Fits, new_segment-Fits}
use generic_ebpf.Allocator.{Allocator, Cursor, Result, entry_size, new_segment, construct, carve}

module _ {W : Type 0} (host : Platform W) (page : ℕ) (ctor : Option (ℕ → W → Code × W))
    (fits_page : page < 2 ^ 32)
    (quiet : (addr : ℕ) (w : W) → host.live (construct host page ctor addr w).1 ≡ host.live w) where
  open host use {live}

  -- A result of making `n` blocks on top of those that `a` has.
  pub record Made (n : ℕ) (a : Allocator) (w : W) (r : Result W) : Type 0 where
    pub all_made : r.code ≡ ok → length r.alloc.free_block ≡ length a.free_block + n
    pub tracks : Segments.Tracks host page ctor quiet a w r.alloc r.world

  abbrev Ends : ℕ → ℕ → ℕ → Cursor → Allocator → W → Type 0
  Ends fuel nblocks count c a w =
      (r : Result W) × (carve host page ctor fuel nblocks count c a w ≡ some r) × Made fuel a w r

  module _ (fuel nblocks count : ℕ) (c : Cursor) (a : Allocator) (w : W)
      (inside : ltb c.limit (c.addr + entry_size) ≡ false) where
    -- the states of one round of the loop
    abbrev built : Code × W
    built = construct host page ctor c.addr w

    abbrev a₁ : Allocator
    a₁ = record a { free_block = c.addr ∷ a.free_block }

    abbrev left : ℕ
    left = sub32 c.size a.block_size

    abbrev made : ℕ
    made = u32 (count + 1)

    abbrev next_block : Cursor
    next_block = record { addr = c.addr + a.block_size; size = left; limit = c.limit }

    abbrev seg : Option Cursor × Allocator × W
    seg = new_segment host page ctor a₁ built.1

    quiet-Tracks :
        (b : Allocator)
        → b.used_segment ≡ a.used_segment
        → b.nblocks ≡ a.nblocks
        → b.count ≡ a.count
        → b.block_size ≡ a.block_size
        → Segments.Tracks host page ctor quiet a w b built.1
    quiet-Tracks b p q r t = record {
      segments = [];
      used = p;
      live_too = quiet c.addr w;
      nblocks_same = q;
      count_same = r;
      size_same = t;
    }

    failed_ctor :
        (error : Code) → built.0 ≡ error → error ≢ ok → Ends (suc fuel) nblocks count c a w
    unfolding carve
    failed_ctor ok e ne = absurd (ne refl)
    failed_ctor other e ne = (
      record { code = other; alloc = a; world = built.1 },
      rw (carve, inside, e),
      record { all_made = λ h. absurd (ne h); tracks = quiet-Tracks a refl refl refl refl },
    )

    module _ (e : built.0 ≡ ok) where
      last_block : (made == nblocks) ≡ true → fuel ≡ 0 → Ends (suc fuel) nblocks count c a w
      unfolding carve
      last_block m z = (
        record { code = ok; alloc = a₁; world = built.1 },
        rw (carve, inside, e, m),
        record { all_made = λ h. omega arith; tracks = quiet-Tracks a₁ refl refl refl refl },
      )

      module _ (m : (made == nblocks) ≡ false) where
        more_here :
            ltb a.block_size left ≡ true
            → Ends fuel nblocks made next_block a₁ built.1
            → Ends (suc fuel) nblocks count c a w
        unfolding carve
        more_here t (r, run, g) = (
          r,
          rw (carve, inside, e, m, t) run,
          record {
            all_made = λ h. omega (arith, g.all_made h);
            tracks =
                Segments.Tracks-trans host page ctor quiet a a₁ r.alloc w built.1 r.world
                  (quiet-Tracks a₁ refl refl refl refl) g.tracks;
          },
        )

        no_segment :
            ltb a.block_size left ≡ false → seg.0 ≡ none → Ends (suc fuel) nblocks count c a w
        unfolding carve
        no_segment t n = (
          record { code = enomem; alloc = seg.1; world = seg.2 },
          rw (carve, inside, e, m, t, n),
          record {
            all_made = λ h. absurd (cc);
            tracks =
                Segments.Tracks-trans host page ctor quiet a a₁ seg.1 w built.1 seg.2
                  (quiet-Tracks a₁ refl refl refl refl)
                  (Segments.new_segment-Tracks host page ctor quiet a₁ built.1);
          },
        )

        more_there :
            (c' : Cursor)
            → ltb a.block_size left ≡ false
            → seg.0 ≡ some c'
            → Ends fuel nblocks made c' seg.1 seg.2
            → Ends (suc fuel) nblocks count c a w
        unfolding carve
        more_there c' t n (r, run, g) = (
          r,
          rw (carve, inside, e, m, t, n) run,
          record {
            all_made = λ h. omega (
              arith,
              g.all_made h,
              ap (λ (l : List ℕ). length l)
                  (Segments.new_segment-free host page ctor quiet a₁ built.1),
            );
            tracks =
                Segments.Tracks-trans host page ctor quiet a a₁ r.alloc w built.1 r.world
                  (quiet-Tracks a₁ refl refl refl refl)
                  (Segments.Tracks-trans host page ctor quiet a₁ seg.1 r.alloc built.1 seg.2 r.world
                    (Segments.new_segment-Tracks host page ctor quiet a₁ built.1) g.tracks);
          },
        )

  -- The loop ends with a fuel of one for each block that is left to make.
  pub carve_ends :
      (fuel nblocks count : ℕ) (c : Cursor) (a : Allocator) (w : W)
      → entry_size ≤ a.block_size
      → a.block_size + 16 < 2 ^ 32
      → Fits a.block_size c
      → 0 < fuel
      → count + fuel ≡ nblocks
      → nblocks < 2 ^ 32
      → Ends fuel nblocks count c a w
  carve_ends zero nblocks count c a w linked wide fits pos sum small = absurd (omega arith)
  carve_ends (suc fuel) nblocks count c a w linked wide fits pos sum small =
      let inside = Fits-inside a.block_size c linked fits in
      let m = u32 (count + 1) in
      let next = next_block fuel nblocks count c a w inside in
      let b = built fuel nblocks count c a w inside in
      let after = a₁ fuel nblocks count c a w inside in
      let same = (Segments.new_segment-Tracks host page ctor quiet after b.1).size_same in
      let s = seg fuel nblocks count c a w inside in
      elim (Code-discrete b.0 ok) [
        | no ne ↦ failed_ctor fuel nblocks count c a w inside b.0 refl ne
        | yes e ↦ elim (ℕ_discrete m nblocks) [
          | yes q ↦
              last_block fuel nblocks count c a w inside e (rw q (==_refl nblocks)) (omega arith)
          | no q ↦
              let ne = ne→==_false m nblocks q in
              elim (Bool-cases (ltb a.block_size next.size)) [
                | inl t ↦ more_here fuel nblocks count c a w inside e ne t (
                    carve_ends fuel nblocks m next after b.1 linked wide
                      (next_block-Fits a.block_size c fits t) (omega arith) (omega arith) small)
                | inr t ↦ elim (Option-cases s.0) [
                  | inl n ↦ no_segment fuel nblocks count c a w inside e ne t n
                  | inr (c', n) ↦ more_there fuel nblocks count c a w inside e ne c' t n (
                      carve_ends fuel nblocks m c' s.1 s.2 (omega (arith, linked, same))
                        (omega (arith, wide, same))
                        (rw same (new_segment-Fits host page ctor fits_page after b.1 wide c' n))
                        (omega arith) (omega arith) small)
                ]
              ]
        ]
      ]
