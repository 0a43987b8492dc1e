-- ===== src/Base/Bits.antt =====
-- The bit operations at variables: one binary digit at a time, and the facts that follow.
use Prim.Native.Nat.{
  ℕ, zero, suc, ◌+◌, ◌-◌, ◌*◌, ◌/◌, ◌%◌, ◌^◌, ◌≤◌, ◌<◌, min, max, bit_and, bit_or, bit_xor, digits,
  differ, bitwise, bit_and-bitwise, bit_or-bitwise, bit_xor-bitwise,
}
use mathlib.Core.Path.{◌≡◌, refl, ap, ap₂, sym}
use native.Mathlib.Nat.{pow-suc, one-le-pow}
use native.Mathlib.Omega.{arith}

-- The recursion behind the three operations: `low` combines two digits, and `rest` is applied once
-- the left number is used up.
module _ (rest : ℕ → ℕ) (low : ℕ → ℕ → ℕ) where
  -- All fuels from the left number on give the same digits.
  enough_fuel : (a f g b : ℕ) → a ≤ f → a ≤ g → digits rest low f a b ≡ digits rest low g a b
  enough_fuel zero zero zero b p q = refl
  enough_fuel zero zero (suc g) b p q = refl
  enough_fuel zero (suc f) zero b p q = refl
  enough_fuel zero (suc f) (suc g) b p q = refl
  enough_fuel (suc a) zero g b p q = absurd (omega arith)
  enough_fuel (suc a) (suc f) zero b p q = absurd (omega arith)
  enough_fuel (suc a) (suc f) (suc g) b p q =
      omega (arith, enough_fuel (suc a / 2) f g (b / 2) (omega arith) (omega arith))

  lowest :
      (a b : ℕ)
      → bitwise rest low (suc a) b
        ≡ bitwise rest low (suc a / 2) (b / 2) * 2 + low (suc a % 2) (b % 2)
  lowest a b =
      omega (arith, enough_fuel (suc a / 2) a (suc a / 2) (b / 2) (omega arith) (omega arith))

-- One digit at a time.
pub or_digit : (a b : ℕ) → bit_or a b ≡ bit_or (a / 2) (b / 2) * 2 + max (a % 2) (b % 2)
or_digit zero b = omega (arith, bit_or-bitwise 0 b, bit_or-bitwise 0 (b / 2))
or_digit (suc a) b =
    omega
      (arith, bit_or-bitwise (suc a) b, bit_or-bitwise (suc a / 2) (b / 2), lowest (λ y. y) max a b)

pub and_digit : (a b : ℕ) → bit_and a b ≡ bit_and (a / 2) (b / 2) * 2 + min (a % 2) (b % 2)
and_digit zero b = omega (arith, bit_and-bitwise 0 b, bit_and-bitwise 0 (b / 2))
and_digit (suc a) b =
    omega (
      arith,
      bit_and-bitwise (suc a) b,
      bit_and-bitwise (suc a / 2) (b / 2),
      lowest (λ y. 0) min a b,
    )

-- The sum of two binary digits without its carry.
abbrev pub xor_low : ℕ → ℕ → ℕ
xor_low x y = (x + y) % 2

differ_digits : (x y : ℕ) → x < 2 → y < 2 → differ x y ≡ xor_low x y
differ_digits zero zero h k = refl
differ_digits zero (suc zero) h k = refl
differ_digits (suc zero) zero h k = refl
differ_digits (suc zero) (suc zero) h k = refl
differ_digits (suc (suc x)) y h k = absurd (omega arith)
differ_digits x (suc (suc y)) h k = absurd (omega arith)

pub xor_digit : (a b : ℕ) → bit_xor a b ≡ bit_xor (a / 2) (b / 2) * 2 + xor_low (a % 2) (b % 2)
xor_digit zero b = omega (arith, bit_xor-bitwise 0 b, bit_xor-bitwise 0 (b / 2))
xor_digit (suc a) b = omega (
  arith,
  bit_xor-bitwise (suc a) b,
  bit_xor-bitwise (suc a / 2) (b / 2),
  lowest (λ y. y) differ a b,
  differ_digits (suc a % 2) (b % 2) (omega arith) (omega arith),
)

-- Twice a multiple of a power of two.
scaled : (k q : ℕ) → q * 2 ^ suc k ≡ 2 * (q * 2 ^ k)
scaled k q = omega (arith, ap (λ (t : ℕ). q * t) (pow-suc 2 k))

halves : (k q r : ℕ) → (q * 2 ^ suc k + r) / 2 ≡ q * 2 ^ k + r / 2
halves k q r = omega (arith, scaled k q)

parity : (k q r : ℕ) → (q * 2 ^ suc k + r) % 2 ≡ r % 2
parity k q r = omega (arith, scaled k q)

-- An operation that works digit by digit acts on the digits from `k` on and on those below `k`
-- apart, and does not leave the width of its arguments.
module _ (op low : ℕ → ℕ → ℕ)
    (digit : (a b : ℕ) → op a b ≡ op (a / 2) (b / 2) * 2 + low (a % 2) (b % 2))
    (low-lt : (x y : ℕ) → x < 2 → y < 2 → low x y < 2) (none : op 0 0 ≡ 0) where
  below_one : (r t : ℕ) → r < 1 → t < 1 → op r t ≡ 0
  below_one zero zero h g = none
  below_one zero (suc t) h g = absurd (omega arith)
  below_one (suc r) t h g = absurd (omega arith)

  digitwise_fields :
      (k q r s t : ℕ)
      → r < 2 ^ k
      → t < 2 ^ k
      → op (q * 2 ^ k + r) (s * 2 ^ k + t) ≡ op q s * 2 ^ k + op r t
  digitwise_fields zero q r s t h g =
      let e : q * 1 + r ≡ q = omega arith in
      let f : s * 1 + t ≡ s = omega arith in omega (arith, ap₂ op e f, below_one r t h g)
  digitwise_fields (suc k) q r s t h g =
      let h' : r / 2 < 2 ^ k = omega (arith, pow-suc 2 k) in
      let g' : t / 2 < 2 ^ k = omega (arith, pow-suc 2 k) in
      let low_parts : low ((q * 2 ^ suc k + r) % 2) ((s * 2 ^ suc k + t) % 2)
          ≡ low (r % 2) (t % 2) =
        ap₂ low (parity k q r) (parity k s t) in
      omega (
        arith,
        digit (q * 2 ^ suc k + r) (s * 2 ^ suc k + t),
        digit r t,
        ap₂ op (halves k q r) (halves k s t),
        low_parts,
        digitwise_fields k q (r / 2) s (t / 2) h' g',
        scaled k (op q s),
      )

  digitwise-lt : (k a b : ℕ) → a < 2 ^ k → b < 2 ^ k → op a b < 2 ^ k
  digitwise-lt zero a b h g = omega (arith, below_one a b h g)
  digitwise-lt (suc k) a b h g =
      let h' : a / 2 < 2 ^ k = omega (arith, pow-suc 2 k) in
      let g' : b / 2 < 2 ^ k = omega (arith, pow-suc 2 k) in
      omega (
        arith,
        digit a b,
        pow-suc 2 k,
        low-lt (a % 2) (b % 2) (omega arith) (omega arith),
        digitwise-lt k (a / 2) (b / 2) h' g',
      )

max-lt : (x y : ℕ) → x < 2 → y < 2 → max x y < 2
max-lt x y h g = omega arith

min-lt : (x y : ℕ) → x < 2 → y < 2 → min x y < 2
min-lt x y h g = omega arith

xor_low-lt : (x y : ℕ) → x < 2 → y < 2 → xor_low x y < 2
xor_low-lt x y h g = omega arith

pub or_fields :
    (k q r s t : ℕ)
    → r < 2 ^ k
    → t < 2 ^ k
    → bit_or (q * 2 ^ k + r) (s * 2 ^ k + t) ≡ bit_or q s * 2 ^ k + bit_or r t
or_fields = digitwise_fields bit_or max or_digit max-lt refl

pub and_fields :
    (k q r s t : ℕ)
    → r < 2 ^ k
    → t < 2 ^ k
    → bit_and (q * 2 ^ k + r) (s * 2 ^ k + t) ≡ bit_and q s * 2 ^ k + bit_and r t
and_fields = digitwise_fields bit_and min and_digit min-lt refl

pub or-lt : (k a b : ℕ) → a < 2 ^ k → b < 2 ^ k → bit_or a b < 2 ^ k
or-lt = digitwise-lt bit_or max or_digit max-lt refl

pub and-lt : (k a b : ℕ) → a < 2 ^ k → b < 2 ^ k → bit_and a b < 2 ^ k
and-lt = digitwise-lt bit_and min and_digit min-lt refl

pub xor-lt : (k a b : ℕ) → a < 2 ^ k → b < 2 ^ k → bit_xor a b < 2 ^ k
xor-lt = digitwise-lt bit_xor xor_low xor_digit xor_low-lt refl

-- Zero on one side, by induction on the width.
or_zero_width : (k a : ℕ) → a < 2 ^ k → (bit_or a 0 ≡ a) × (bit_or 0 a ≡ a)
or_zero_width zero zero h = (refl, refl)
or_zero_width zero (suc a) h = absurd (omega arith)
or_zero_width (suc k) a h =
    omega (arith, or_digit a 0, or_digit 0 a, or_zero_width k (a / 2) (omega (arith, pow-suc 2 k)))

and_zero_width : (k a : ℕ) → a < 2 ^ k → bit_and a 0 ≡ 0
and_zero_width zero zero h = refl
and_zero_width zero (suc a) h = absurd (omega arith)
and_zero_width (suc k) a h =
    omega (arith, and_digit a 0, and_zero_width k (a / 2) (omega (arith, pow-suc 2 k)))

lt-two-pow : (a : ℕ) → a < 2 ^ a
lt-two-pow zero = omega arith
lt-two-pow (suc a) = omega (arith, pow-suc 2 a, lt-two-pow a)

pub or-zero : (a : ℕ) → bit_or a 0 ≡ a
or-zero a = (or_zero_width a a (lt-two-pow a)).0

-- A number and all ones.
and_ones : (k r : ℕ) → r < 2 ^ k → bit_and r (2 ^ k - 1) ≡ r
and_ones zero zero h = refl
and_ones zero (suc r) h = absurd (omega arith)
and_ones (suc k) r h =
    let e : (2 ^ suc k - 1) / 2 ≡ 2 ^ k - 1 = omega (arith, pow-suc 2 k, one-le-pow k 2) in
    omega (
      arith,
      and_digit r (2 ^ suc k - 1),
      ap (λ (t : ℕ). bit_and (r / 2) t) e,
      and_ones k (r / 2) (omega (arith, pow-suc 2 k)),
      pow-suc 2 k,
      one-le-pow k 2,
    )

-- A mask of `k` low bits is the remainder by 2 ^ k.
pub and_mask : (k a : ℕ) → bit_and a (2 ^ k - 1) ≡ a % 2 ^ k
and_mask k a =
    let pos : 0 < 2 ^ k = one-le-pow k 2 (omega arith) in
    let low : a % 2 ^ k < 2 ^ k = omega arith in
    let e : a / 2 ^ k * 2 ^ k + a % 2 ^ k ≡ a = omega arith in
    let f : 0 * 2 ^ k + (2 ^ k - 1) ≡ 2 ^ k - 1 = omega arith in
    omega (
      arith,
      ap₂ bit_and e f,
      and_fields k (a / 2 ^ k) (a % 2 ^ k) 0 (2 ^ k - 1) low (omega arith),
      ap (λ (t : ℕ). t * 2 ^ k) (and_zero_width (a / 2 ^ k) (a / 2 ^ k) (lt-two-pow (a / 2 ^ k))),
      and_ones k (a % 2 ^ k) low,
    )

-- Powers of two grow with the exponent.
pow_add : (k j : ℕ) → 2 ^ k ≤ 2 ^ (k + j)
pow_add k zero = let e : k + 0 ≡ k = omega arith in rw e (omega arith)
pow_add k (suc j) =
    let e : k + suc j ≡ suc (k + j) = omega arith in
    rw e (omega (arith, pow_add k j, pow-suc 2 (k + j)))

pub pow_le : (k n : ℕ) → k ≤ n → 2 ^ k ≤ 2 ^ n
pow_le k n h = let e : k + (n - k) ≡ n = omega arith in rw (sym e) (pow_add k (n - k))
