-- ===== src/Platform.antt =====
-- sys/dev/ebpf/ebpf_platform.h: what the library asks of its host. The functions wrap those of the
-- C library or of the kernel (`calloc`, `malloc`, `free`), so they are a parameter: operations on a
-- world `W`, with the documented behaviour of an allocator as laws.
use generic_ebpf.Base.{
  ℕ, zero, suc, get_elem?, set, ◌-◌, ◌+◌, ◌*◌, ◌<◌, ◌≤◌, ◌≡◌, arith, List, [], ◌∷◌, ◌++◌, Bool,
  true, false, Option, none, some, ◌==◌, if◌then◌else◌, ==_refl,
}
use mathlib.Core.Option.{some-injective}

-- The list without the first occurrence of `p`.
unfoldable pub remove : ℕ → List ℕ → List ℕ
remove p [] = []
remove p (q ∷ l) = if p == q then l else q ∷ remove p l

-- `live` are the addresses that were handed out and not yet freed. NULL is `none`.
pub record Platform (W : Type 0) : Type 0 where
  pub calloc : ℕ → ℕ → W → Option ℕ × W
  pub malloc : ℕ → W → Option ℕ × W
  pub free : Option ℕ → W → W
  pub live : W → List ℕ
  pub live-calloc_some :
      (n s : ℕ) (w : W) (p : ℕ) → (calloc n s w).0 ≡ some p → live (calloc n s w).1 ≡ p ∷ live w
  pub live-calloc_none :
      (n s : ℕ) (w : W) → (calloc n s w).0 ≡ none → live (calloc n s w).1 ≡ live w
  pub live-malloc_some :
      (s : ℕ) (w : W) (p : ℕ) → (malloc s w).0 ≡ some p → live (malloc s w).1 ≡ p ∷ live w
  pub live-malloc_none : (s : ℕ) (w : W) → (malloc s w).0 ≡ none → live (malloc s w).1 ≡ live w
  pub live-free : (p : ℕ) (w : W) → live (free (some p) w) ≡ remove p (live w)
  pub live-free_null : (w : W) → live (free none w) ≡ live w

-- Which bytes of the memory of `host` belong to live blocks: a new block covers bytes that belonged
-- to none, and no other block loses a byte.
pub record Regions {W : Type 0} (host : Platform W) : Type 0 where
  pub held : W → ℕ → Bool
  pub calloc-fresh :
      (n s : ℕ) (w : W) (p : ℕ)
      → (host.calloc n s w).0 ≡ some p
      → (x : ℕ) → p ≤ x
      → x < p + n * s
      → (held w x ≡ false) × (held (host.calloc n s w).1 x ≡ true)
  pub calloc-keeps :
      (n s : ℕ) (w : W) (x : ℕ) → held w x ≡ true → held (host.calloc n s w).1 x ≡ true

-- How often `q` stands in a list of addresses.
unfoldable pub count : ℕ → List ℕ → ℕ
count q [] = 0
count q (p ∷ l) = if p == q then suc (count q l) else count q l

pub count-remove :
    (q p : ℕ) (l : List ℕ) → count q (remove p l) ≡ count q l - (if p == q then 1 else 0)
unfolding count remove
count-remove q p [] = ground arith
count-remove q p (r ∷ l) = ground (arith, count-remove q p l)

pub count-append : (q : ℕ) (l r : List ℕ) → count q (l ++ r) ≡ count q l + count q r
unfolding count
count-append q [] r = omega arith
count-append q (p ∷ l) r = ground (arith, count-append q l r)

pub remove-head : (p : ℕ) (l : List ℕ) → remove p (p ∷ l) ≡ l
unfolding remove
remove-head p l = rw (==_refl p)

pub count_cons : (q p : ℕ) (l : List ℕ) → count q (p ∷ l) ≡ (if p == q then 1 else 0) + count q l
unfolding count
count_cons q p l = ground arith

-- Replacing the entry `p` at an index by `v`.
pub count-set :
    (q : ℕ) (l : List ℕ) (i p v : ℕ)
    → get_elem? l i ≡ some p
    → count q (set l i v) + (if p == q then 1 else 0) ≡ count q l + (if v == q then 1 else 0)
unfolding count
count-set q [] i p v h = absurd (cc)
count-set q (r ∷ l) zero p v h = rw (some-injective _ _ h) (ground arith)
count-set q (r ∷ l) (suc i) p v h = ground (arith, count-set q l i p v h)

pub count-get_elem? : (l : List ℕ) (i p : ℕ) → get_elem? l i ≡ some p → 0 < count p l
unfolding count
count-get_elem? [] i p h = absurd (cc)
count-get_elem? (r ∷ l) zero p h = rw (some-injective _ _ h, ==_refl p) (omega arith)
count-get_elem? (r ∷ l) (suc i) p h = ground (arith, count-get_elem? l i p h)
