-- ===== src/Util/PowerOfTwo.antt =====
-- Rounding up to a power of two, one step of `ebpf_roundup_pow_of_two` at a time.
use native.Mathlib.Nat.{pow-suc, one-le-pow, div-le_self}
use generic_ebpf.Base.{
  ℕ, zero, suc, ◌+◌, ◌-◌, ◌*◌, ◌/◌, ◌%◌, ◌^◌, ◌≤◌, ◌<◌, ◌≡◌, refl, sym, ◌∙◌, ap, ap₂, arith, bit_or,
  sub32,
}
use native.Mathlib.Decide.{dec_lt}
use generic_ebpf.Base.Bits.{or-lt, or_fields, or-zero, or_digit, pow_le}
use generic_ebpf.Util.{smear, ebpf_roundup_pow_of_two}

or_right : (n a b : ℕ) → b < 2 ^ n → b ≤ bit_or a b
or_right zero a b h = omega arith
or_right (suc n) a b h =
    let half : b / 2 < 2 ^ n = omega (arith, pow-suc 2 n) in
    omega (arith, or_digit a b, or_right n (a / 2) (b / 2) half)

or_left : (n a b : ℕ) → a < 2 ^ n → a ≤ bit_or a b
or_left zero a b h = omega arith
or_left (suc n) a b h =
    let half : a / 2 < 2 ^ n = omega (arith, pow-suc 2 n) in
    omega (arith, or_digit a b, or_left n (a / 2) (b / 2) half)

pow_split : (j h : ℕ) → 2 ^ (j + h) ≡ 2 ^ j * 2 ^ h
pow_split zero h = let e : 0 + h ≡ h = omega arith in rw e (omega arith)
pow_split (suc j) h =
    let e : suc j + h ≡ suc (j + h) = omega arith in
    rw e (grind (arith, pow-suc 2 (j + h), pow-suc 2 j, pow_split j h))

-- A number whose high part is `q`, with a number below its low part.
or_top :
    (q h x z : ℕ) → q * 2 ^ h ≤ x → x < q * 2 ^ h + 2 ^ h → z < 2 ^ h → q * 2 ^ h + z ≤ bit_or x z
or_top q h x z lo hi small =
    let r = x - q * 2 ^ h in
    let e : q * 2 ^ h + r ≡ x = omega arith in
    let f : 0 * 2 ^ h + z ≡ z = omega arith in
    let s = or_fields h q r 0 z (omega arith) small in
    let t : bit_or x z ≡ bit_or q 0 * 2 ^ h + bit_or r z = ap₂ bit_or (sym e) (sym f) ∙ s in
    let u : bit_or x z ≡ q * 2 ^ h + bit_or r z =
      t ∙ ap (λ c. c * 2 ^ h + bit_or r z) (or-zero q) in
    omega (arith, u, or_right h r z small)

-- The top `j` of the `k` bits are ones.
record IsFilled (k j x : ℕ) : Type 0 where
  below : x < 2 ^ k
  ones : 2 ^ k ≤ x + 2 ^ (k - j)

-- The arithmetic of one step, for a shift by `j`: a lower bound on the shifted number.
abbrev Shift : ℕ → Type 0
Shift j =
    (g x : ℕ)
    → 2 ^ j * (2 ^ j * g) ≤ x + 2 ^ j * g
    → x < 2 ^ j * (2 ^ j * g)
    → (2 ^ j * g ≤ x / 2 ^ j + g) × (x / 2 ^ j < 2 ^ j * g)

abbrev ShiftShort : ℕ → Type 0
ShiftShort j =
    (b x : ℕ)
    → b ≤ 2 ^ j
    → 2 ^ j * b ≤ x + b
    → x < 2 ^ j * b
    → (b ≤ x / 2 ^ j + 1) × (x / 2 ^ j < b)

shift1 : Shift 1 × ShiftShort 1
shift1 = (λ g x e h. (omega arith, omega arith), λ b x s e h. (omega arith, omega arith))

shift2 : Shift 2 × ShiftShort 2
shift2 = (λ g x e h. (omega arith, omega arith), λ b x s e h. (omega arith, omega arith))

shift4 : Shift 4 × ShiftShort 4
shift4 = (λ g x e h. (omega arith, omega arith), λ b x s e h. (omega arith, omega arith))

shift8 : Shift 8 × ShiftShort 8
shift8 = (λ g x e h. (omega arith, omega arith), λ b x s e h. (omega arith, omega arith))

shift16 : Shift 16 × ShiftShort 16
shift16 = (λ g x e h. (omega arith, omega arith), λ b x s e h. (omega arith, omega arith))

top_times : (a b : ℕ) → 0 < a → (a - 1) * b + b ≡ a * b
top_times zero b h = absurd (omega arith)
top_times (suc a) b h = let e : suc a - 1 ≡ a = omega arith in rw e (omega arith)

module _ (j : ℕ) (arithmetic : Shift j × ShiftShort j) (k x : ℕ) (f : IsFilled k j x) where
  smear_long : j + j ≤ k → IsFilled k (j + j) (smear j x)
  unfolding smear
  smear_long l =
      let h = k - j in
      let g = k - (j + j) in
      let a = 2 ^ j in
      let e : 2 ^ k ≡ a * 2 ^ h = ap (λ n. 2 ^ n) (omega arith) ∙ pow_split j h in
      let e' : 2 ^ h ≡ a * 2 ^ g = ap (λ n. 2 ^ n) (omega arith) ∙ pow_split j g in
      let e'' : 2 ^ k ≡ a * (a * 2 ^ g) = e ∙ ap (λ n. a * n) e' in
      let (lo, hi) =
        arithmetic.0 (2 ^ g) x (omega (arith, f.ones, e', e'')) (omega (arith, f.below, e'')) in
      let t = top_times a (2 ^ h) (one-le-pow j 2 (omega arith)) in
      let top =
        or_top (a - 1) h x (x / a) (omega (arith, f.ones, e, t)) (omega (arith, f.below, e, t))
          (omega (arith, hi, e')) in
      record {
        below = or-lt k x (x / a) f.below (omega (arith, hi, e', pow_le h k (omega arith)));
        ones = omega (arith, top, lo, t, e, e');
      }

  smear_short : j ≤ k → k ≤ j + j → IsFilled k (j + j) (smear j x)
  unfolding smear
  smear_short l l' =
      let h = k - j in
      let a = 2 ^ j in
      let e : 2 ^ k ≡ a * 2 ^ h = ap (λ n. 2 ^ n) (omega arith) ∙ pow_split j h in
      let z : k - (j + j) ≡ 0 = omega arith in
      let one : 2 ^ (k - (j + j)) ≡ 1 = ap (λ n. 2 ^ n) z in
      let (lo, hi) =
        arithmetic.1 (2 ^ h) x (pow_le h j (omega arith)) (omega (arith, f.ones, e))
          (omega (arith, f.below, e)) in
      let t = top_times a (2 ^ h) (one-le-pow j 2 (omega arith)) in
      let top =
        or_top (a - 1) h x (x / a) (omega (arith, f.ones, e, t)) (omega (arith, f.below, e, t))
          hi in
      record {
        below = or-lt k x (x / a) f.below (omega (arith, hi, pow_le h k (omega arith)));
        ones = omega (arith, top, lo, t, e, one);
      }

  below_too : (a : ℕ) → x / a < 2 ^ k
  below_too a = omega (arith, div-le_self x a, f.below)

  smear_full : k < j → IsFilled k (j + j) (smear j x)
  unfolding smear
  smear_full l =
      let z : k - j ≡ 0 = omega arith in
      let z' : k - (j + j) ≡ 0 = omega arith in
      let one : 2 ^ (k - j) ≡ 1 = ap (λ n. 2 ^ n) z in
      let one' : 2 ^ (k - (j + j)) ≡ 1 = ap (λ n. 2 ^ n) z' in
      record {
        below = or-lt k x (x / 2 ^ j) f.below (below_too (2 ^ j));
        ones = omega (arith, or_left k x (x / 2 ^ j) f.below, f.ones, one, one');
      }

  -- One step doubles the number of ones at the top.
  smear-IsFilled : IsFilled k (j + j) (smear j x)
  smear-IsFilled = elim (dec_lt k j) [
    | yes l ↦ smear_full l
    | no l ↦ elim (dec_lt k (j + j)) [
      | yes l' ↦ smear_short (omega (arith, l)) (omega arith)
      | no l' ↦ smear_long (omega (arith, l'))
    ]
  ]

-- The length in bits: a positive number has its top bit set.
bits :
    (fuel m : ℕ)
    → m < 2 ^ fuel
    → 0 < m
    → (k : ℕ) × (0 < k) × (m < 2 ^ k) × (2 ^ k ≤ m + m) × (k ≤ fuel)
bits zero m h pos = absurd (omega arith)
bits (suc fuel) m h pos = elim (dec_lt m (2 ^ fuel)) [
  | yes l ↦ let (k, p, a, b, c) = bits fuel m l pos in (k, p, a, b, omega arith)
  | no l ↦ (suc fuel, omega arith, h, omega (arith, l, pow-suc 2 fuel), omega arith)
]

first-IsFilled :
    (m : ℕ)
    → m < 2 ^ 32
    → (k : ℕ) × IsFilled k 1 m × (m + 1 ≤ 2 ^ k) × (2 ^ k < 2 * (m + 1)) × (k ≤ 32)
first-IsFilled zero h =
    (0, record { below = omega arith; ones = omega arith }, omega arith, omega arith, omega arith)
first-IsFilled (suc m) h =
    let (k, p, a, b, c) = bits 32 (suc m) h (omega arith) in
    let s : k ≡ suc (k - 1) = omega arith in
    let d : 2 ^ k ≡ 2 ^ suc (k - 1) = ap (λ n. 2 ^ n) s in
    let e : 2 ^ k ≡ 2 ^ (k - 1) + 2 ^ (k - 1) = omega (arith, d, pow-suc 2 (k - 1)) in
    (k, record { below = a; ones = omega (arith, e) }, omega arith, omega arith, c)

-- Rounding up a number from 1 to 2 ^ 32 - 1 gives, in 32 bits, the least power of two that is not
-- below it: the power is at least the number and less than twice it. Above 2 ^ 31 that power is
-- 2 ^ 32, which is 0 in 32 bits.
pub ebpf_roundup_pow_of_two-eq :
    (n : ℕ)
    → 0 < n
    → n < 2 ^ 32
    → (k : ℕ) × (ebpf_roundup_pow_of_two n ≡ 2 ^ k % 2 ^ 32) × (n ≤ 2 ^ k) × (2 ^ k < 2 * n)
unfolding ebpf_roundup_pow_of_two
ebpf_roundup_pow_of_two-eq n pos small =
    let m = n - 1 in
    let (k, f₁, lo, hi, c) = first-IsFilled m (omega arith) in
    let f₂ = smear-IsFilled 1 shift1 k m f₁ in
    let f₄ = smear-IsFilled 2 shift2 k (smear 1 m) f₂ in
    let f₈ = smear-IsFilled 4 shift4 k (smear 2 (smear 1 m)) f₄ in
    let f₁₆ = smear-IsFilled 8 shift8 k (smear 4 (smear 2 (smear 1 m))) f₈ in
    let f₃₂ = smear-IsFilled 16 shift16 k (smear 8 (smear 4 (smear 2 (smear 1 m)))) f₁₆ in
    let z : 2 ^ (k - 32) ≡ 1 = ap (λ i. 2 ^ i) {x = k - 32} {y = 0} (omega arith) in
    let start : sub32 n 1 ≡ m = omega arith in
    let y = smear 16 (smear 8 (smear 4 (smear 2 (smear 1 m)))) in
    let all : y + 1 ≡ 2 ^ k = omega (arith, f₃₂.ones, f₃₂.below, z) in
    (k, rw (start, all) refl, omega (arith, lo), omega (arith, hi))
