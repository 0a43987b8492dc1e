-- ===== src/Allocator/Fits.antt =====
-- The room that is left in a segment.
use generic_ebpf.Base.{
  ℕ, ◌+◌, ◌^◌, ◌<◌, ◌≤◌, ◌≡◌, inl, inr, refl, sym, ◌∙◌, ap, arith, true, false, Option, some, none,
  ◌∷◌, sub32, ltb, ltb→lt, le→ltb_false, Option-cases,
}
use mathlib.Core.Option.{some-injective}
use generic_ebpf.Map.{Code}
use generic_ebpf.Platform.{Platform}
use generic_ebpf.Allocator.{Allocator, Cursor, entry_size, segment_size, padding, new_segment}

-- There is room for a block, and what the code counts as left is in the segment.
pub record Fits (block_size : ℕ) (c : Cursor) : Type 0 where
  pub room : block_size ≤ c.size
  pub small : c.size < 2 ^ 32
  pub within : c.addr + c.size ≤ c.limit

-- Blocks that hold at least a link have it in the segment.
pub Fits-inside :
    (block_size : ℕ) (c : Cursor)
    → entry_size ≤ block_size
    → Fits block_size c
    → ltb c.limit (c.addr + entry_size) ≡ false
Fits-inside block_size c h f = le→ltb_false c.limit _ (omega (arith, h, f.room, f.within))

pub next_block-Fits :
    (block_size : ℕ) (c : Cursor)
    → Fits block_size c
    → ltb block_size (sub32 c.size block_size) ≡ true
    → Fits block_size
        (record { addr = c.addr + block_size; size = sub32 c.size block_size; limit = c.limit })
next_block-Fits block_size c f t =
    let more = ltb→lt block_size (sub32 c.size block_size) t in
    record {
      room = omega (arith, more);
      small = omega (arith, f.small);
      within = omega (arith, f.room, f.small, f.within);
    }

module _ {W : Type 0} (host : Platform W) (page : ℕ) (ctor : Option (ℕ → W → Code × W))
    (fits_page : page < 2 ^ 32) where
  module _ (a : Allocator) (w : W) (wide : a.block_size + 16 < 2 ^ 32) where
    abbrev seg : Option Cursor × Allocator × W
    seg = new_segment host page ctor a w

    segment_room :
        (8 + a.block_size + 8 ≤ segment_size page a.block_size)
        × (segment_size page a.block_size < 2 ^ 32)
    unfolding segment_size
    segment_room = ground arith

    padding-le : (addr : ℕ) → padding addr ≤ 7
    unfolding padding
    padding-le addr = ground arith

    abbrev pub segment_cursor : ℕ → Cursor
    segment_cursor s = record {
      addr = s + entry_size + padding (s + entry_size);
      size = sub32 (sub32 (segment_size page a.block_size) entry_size) (padding (s + entry_size));
      limit = s + segment_size page a.block_size;
    }

    pub new_segment-some :
        (s : ℕ)
        → (host.calloc 1 (segment_size page a.block_size) w).0 ≡ some s
        → seg ≡ (
          some (segment_cursor s),
          record a { used_segment = s ∷ a.used_segment },
          (host.calloc 1 (segment_size page a.block_size) w).1,
        )
    unfolding new_segment
    new_segment-some s e = rw (new_segment, e) refl

    pub segment_cursor-in :
        (s : ℕ)
        → (s ≤ (segment_cursor s).addr)
          × ((segment_cursor s).addr + (segment_cursor s).size ≡ s + segment_size page a.block_size)
          × (a.block_size ≤ (segment_cursor s).size)
          × ((segment_cursor s).size < 2 ^ 32)
    segment_cursor-in s =
        let (r, k) = segment_room in
        let p = padding-le (s + entry_size) in (omega arith, omega arith, omega arith, omega arith)

    pub new_segment-Fits : (c : Cursor) → seg.0 ≡ some c → Fits a.block_size c
    unfolding new_segment
    new_segment-Fits c h =
        elim (Option-cases (host.calloc 1 (segment_size page a.block_size) w).0) [
          | inl e ↦ let n : seg.0 ≡ none = rw (new_segment, e) refl in absurd (cc)
          | inr (s, e) ↦
              let q = new_segment-some s e in
              let same : segment_cursor s ≡ c = some-injective _ _ (sym (ap (λ r. r.0) q) ∙ h) in
              let (i, j, k, l) = segment_cursor-in s in
              rw (sym same) (record { room = k; small = l; within = omega (arith, j) })
        ]
