-- ===== src/Allocator/Apart.antt =====
-- Where the blocks of a new pool lie in memory.
use generic_ebpf.Base.{
  ℕ, ◌+◌, ◌-◌, if◌then◌else◌, ◌^◌, ◌<◌, ◌≤◌, ◌≡◌, ◌⊎◌, inl, inr, refl, sym, ◌∙◌, ap, arith, true,
  Option, some, none, List, [], ◌∷◌, sub32, ltb, leb, ltb→lt, ne→==_false, max, Bool-cases,
  Option-cases,
}
use mathlib.Core.Option.{some-injective}
use native.Mathlib.Decide.{ℕ_discrete}
use generic_ebpf.Map.{Code}
use generic_ebpf.Platform.{Platform, Regions, count, count_cons}
use generic_ebpf.Allocator.Fits.{
  Fits, next_block-Fits, segment_cursor, segment_cursor-in, new_segment-some,
}
use generic_ebpf.Allocator.{Allocator, Cursor, segment_size, new_segment, construct}

-- Two blocks of `size` bytes do not overlap.
abbrev pub Apart : ℕ → ℕ → ℕ → Type 0
Apart size p q = (p + size ≤ q) ⊎ (q + size ≤ p)

-- No two blocks of the list overlap.
unfoldable pub IsSpread : ℕ → List ℕ → Type 0
IsSpread size [] = Unit
IsSpread size (p ∷ l) = ((q : ℕ) → 0 < count q l → Apart size p q) × IsSpread size l

-- Blocks of at least one byte that do not overlap have different addresses.
pub IsSpread-once : (size : ℕ) (l : List ℕ) → 0 < size → IsSpread size l → (p : ℕ) → count p l ≤ 1
unfolding IsSpread count
IsSpread-once size [] pos s p = omega arith
IsSpread-once size (q ∷ l) pos (a, s) p = elim (ℕ_discrete q p) [
  | yes e ↦ elim (ℕ_discrete (count p l) 0) [
    | yes z ↦ ground arith
    | no n ↦ elim (a p (omega arith)) [
      | inl h ↦ absurd (omega arith)
      | inr h ↦ absurd (omega arith)
    ]
  ]
  | no ne ↦ rw (ne→==_false q p ne) (IsSpread-once size l pos s p)
]

-- Two ranges without a common byte.
disjoint_ranges :
    (p m q n : ℕ)
    → 0 < m
    → 0 < n
    → ((x : ℕ) → p ≤ x → x < p + m → q ≤ x → x < q + n → ⊥)
    → (p + m ≤ q) ⊎ (q + n ≤ p)
disjoint_ranges p m q n pos pos' none_common = elim (Bool-cases (leb (p + m) q)) [
  | inl e ↦ inl (ground arith)
  | inr e ↦ elim (Bool-cases (leb (q + n) p)) [
    | inl f ↦ inr (ground arith)
    | inr f ↦
        let a : q < p + m = ground arith in
        let b : p < q + n = ground arith in
        absurd (none_common (max p q) (omega arith) (omega arith) (omega arith) (omega arith))
  ]
]

module _ {W : Type 0} (host : Platform W) (mem : Regions host) (page : ℕ)
    (ctor : Option (ℕ → W → Code × W))
    (ctor-keeps : (addr : ℕ) (w : W) (x : ℕ)
      → mem.held w x ≡ true
      → mem.held (construct host page ctor addr w).1 x ≡ true)
    (fits_page : page < 2 ^ 32) where
  open mem use {held}

  -- The blocks made so far lie apart, in memory of the pool.
  pub record Placed (a : Allocator) (w : W) : Type 0 where
    pub spread : IsSpread a.block_size a.free_block
    pub inside :
        (p x : ℕ) → 0 < count p a.free_block → p ≤ x → x < p + a.block_size → held w x ≡ true

  -- The rest of the segment at `c` has room for a block, belongs to the pool and has no block yet.
  pub record Ahead (c : Cursor) (a : Allocator) (w : W) : Type 0 where
    pub fits : Fits a.block_size c
    pub ours : (x : ℕ) → c.addr ≤ x → x < c.addr + c.size → held w x ≡ true
    pub vacant :
        (p : ℕ) → 0 < count p a.free_block → (p + a.block_size ≤ c.addr) ⊎ (c.addr + c.size ≤ p)

  module _ (a : Allocator) (w : W) (pos : 0 < a.block_size)
      (wide : a.block_size + 16 < 2 ^ 32) where
    abbrev seg : Option Cursor × Allocator × W
    seg = new_segment host page ctor a w

    pub new_segment-Placed : Placed a w → Placed seg.1 seg.2
    unfolding new_segment
    new_segment-Placed g =
        let size = segment_size page a.block_size in
        elim (Option-cases (host.calloc 1 size w).0) [
          | inl e ↦
              rw (new_segment, e)
                (record {
                  spread = g.spread;
                  inside = λ p x m l h. mem.calloc-keeps 1 size w x (g.inside p x m l h);
                })
          | inr (s, e) ↦
              rw (new_segment, e)
                (record {
                  spread = g.spread;
                  inside = λ p x m l h. mem.calloc-keeps 1 size w x (g.inside p x m l h);
                })
        ]

    segment_cursor-Ahead :
        (s : ℕ)
        → (host.calloc 1 (segment_size page a.block_size) w).0 ≡ some s
        → Placed a w
        → Ahead
            (segment_cursor host page ctor fits_page a w wide s)
            (record a { used_segment = s ∷ a.used_segment })
            (host.calloc 1 (segment_size page a.block_size) w).1
    segment_cursor-Ahead s e g =
        let size = segment_size page a.block_size in
        let (i, j, k, l) = segment_cursor-in host page ctor fits_page a w wide s in
        record {
          fits = record { room = k; small = l; within = omega (arith, j) };
          ours = λ x m n. (mem.calloc-fresh 1 size w s e x (omega arith) (omega arith)).1;
          vacant = λ p m.
              disjoint_ranges p a.block_size
                (segment_cursor host page ctor fits_page a w wide s).addr
                (segment_cursor host page ctor fits_page a w wide s).size pos (omega arith)
                (λ x t u t' u'.
                  let f = (mem.calloc-fresh 1 size w s e x (omega arith) (omega arith)).0 in
                  let h = g.inside p x m t u in absurd (cc));
        }

    pub new_segment-Ahead : (c : Cursor) → seg.0 ≡ some c → Placed a w → Ahead c seg.1 seg.2
    unfolding new_segment
    new_segment-Ahead c h g =
        elim (Option-cases (host.calloc 1 (segment_size page a.block_size) w).0) [
          | inl e ↦ let n : seg.0 ≡ none = rw (new_segment, e) refl in absurd (cc)
          | inr (s, e) ↦
              let q = new_segment-some host page ctor fits_page a w wide s e in
              let same : (segment_cursor host page ctor fits_page a w wide s) ≡ c =
                some-injective _ _ (sym (ap (λ r. r.0) q) ∙ h) in
              rw (sym same, q) (segment_cursor-Ahead s e g)
        ]

  -- The state after the block at `c` is made.
  module _ (c : Cursor) (a : Allocator) (w : W) (g : Placed a w) (r : Ahead c a w) where
    abbrev w₁ : W
    w₁ = (construct host page ctor c.addr w).1

    abbrev a₁ : Allocator
    a₁ = record a { free_block = c.addr ∷ a.free_block }

    pub built-Placed : Placed a w₁
    built-Placed = record {
      spread = g.spread;
      inside = λ p x m l h. ctor-keeps c.addr w x (g.inside p x m l h);
    }

    member :
        (p : ℕ) → 0 < count p (c.addr ∷ a.free_block) → (c.addr ≡ p) ⊎ (0 < count p a.free_block)
    unfolding count
    member p h = elim (ℕ_discrete c.addr p) [
      | yes e ↦ inl e
      | no ne ↦ inr (
          omega (
            arith,
            h,
            ap {B = ℕ} (λ b. if b then 1 else 0) (ne→==_false c.addr p ne),
            count_cons p c.addr a.free_block,
          ))
    ]

    pub made-Placed : Placed a₁ w₁
    unfolding IsSpread
    made-Placed = record {
      spread = (
        λ p m. elim (r.vacant p m) [ inl h ↦ inr h | inr h ↦ inl (omega (arith, r.fits.room)) ],
        g.spread,
      );
      inside = λ p x m l h. ctor-keeps c.addr w x (elim (member p m) [
        | inl e ↦ r.ours x (omega (arith, e)) (omega (arith, e, r.fits.room))
        | inr m' ↦ g.inside p x m' l h
      ]);
    }

    pub made-Ahead :
        ltb a.block_size (sub32 c.size a.block_size) ≡ true
        → Ahead
            (record {
              addr = c.addr + a.block_size;
              size = sub32 c.size a.block_size;
              limit = c.limit;
            })
            a₁
            w₁
    made-Ahead t =
        let left : sub32 c.size a.block_size ≡ c.size - a.block_size =
          omega (arith, r.fits.room, r.fits.small) in
        let more = ltb→lt a.block_size (sub32 c.size a.block_size) t in
        record {
          fits = next_block-Fits a.block_size c r.fits t;
          ours =
              λ x l h. ctor-keeps c.addr w x (r.ours x (omega arith) (omega (arith, r.fits.room)));
          vacant = λ p m. elim (member p m) [
            | inl e ↦ inl (omega arith)
            | inr m' ↦ elim (r.vacant p m') [
              | inl h ↦ inl (omega arith)
              | inr h ↦ inr (omega (arith, r.fits.room))
            ]
          ];
        }
