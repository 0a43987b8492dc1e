-- ===== src/Base/Bytes.antt =====
-- `memcpy` from and to a part of a memory block. A block is the list of its bytes; `none` is an
-- access that does not lie inside of it.
use Prim.Native.Nat.{ℕ, zero, suc, ◌+◌, ◌≤◌}
use mathlib.Core.Path.{◌≡◌, refl, ap}
use mathlib.Core.Logic.{◌⊎◌}
use mathlib.Core.List.{List, [], ◌∷◌}
use mathlib.Core.Option
use mathlib.Core.Option.{Option, none, some}
use native.Mathlib.Omega.{arith}
use generic_ebpf.Base.Lists.{length}

-- The `n` bytes from offset `o` on.
unfoldable pub read_bytes : List ℕ → ℕ → ℕ → Option (List ℕ)
read_bytes bs zero zero = some []
read_bytes [] zero (suc n) = none
read_bytes (b ∷ bs) zero (suc n) = Option.map (λ r. b ∷ r) (read_bytes bs zero n)
read_bytes [] (suc o) n = none
read_bytes (b ∷ bs) (suc o) n = read_bytes bs o n

-- The block with the bytes `vs` stored from offset `o` on.
unfoldable pub write_bytes : List ℕ → ℕ → List ℕ → Option (List ℕ)
write_bytes bs zero [] = some bs
write_bytes [] zero (v ∷ vs) = none
write_bytes (b ∷ bs) zero (v ∷ vs) = Option.map (λ r. v ∷ r) (write_bytes bs zero vs)
write_bytes [] (suc o) vs = none
write_bytes (b ∷ bs) (suc o) vs = Option.map (λ r. b ∷ r) (write_bytes bs o vs)

pub read_bytes-total :
    (bs : List ℕ) (o n : ℕ)
    → o + n ≤ length bs
    → (r : List ℕ) × (read_bytes bs o n ≡ some r) × (length r ≡ n)
unfolding read_bytes
read_bytes-total bs zero zero h = ([], refl, refl)
read_bytes-total [] zero (suc n) h = absurd (omega arith)
read_bytes-total (b ∷ bs) zero (suc n) h =
    let (r, e, l) = read_bytes-total bs zero n (omega arith) in (b ∷ r, rw e, ap suc l)
read_bytes-total [] (suc o) n h = absurd (omega arith)
read_bytes-total (b ∷ bs) (suc o) n h = read_bytes-total bs o n (omega arith)

pub write_bytes-total :
    (bs : List ℕ) (o : ℕ) (vs : List ℕ)
    → o + length vs ≤ length bs
    → (r : List ℕ) × (write_bytes bs o vs ≡ some r) × (length r ≡ length bs)
unfolding write_bytes
write_bytes-total bs zero [] h = (bs, refl, refl)
write_bytes-total [] zero (v ∷ vs) h = absurd (omega arith)
write_bytes-total (b ∷ bs) zero (v ∷ vs) h =
    let (r, e, l) = write_bytes-total bs zero vs (omega arith) in (v ∷ r, rw e, ap suc l)
write_bytes-total [] (suc o) vs h = absurd (omega arith)
write_bytes-total (b ∷ bs) (suc o) vs h =
    let (r, e, l) = write_bytes-total bs o vs (omega arith) in (b ∷ r, rw e, ap suc l)

-- Inversion of a mapped result.
pub map-eq-some {ℓ κ} :
    {A : Type ℓ} {B : Type κ} (f : A → B) (o : Option A) {b : B}
    → Option.map f o ≡ some b
    → (a : A) × (o ≡ some a) × (f a ≡ b)
map-eq-some f none h = absurd (cc)
map-eq-some f (some a) h = (a, refl, cc)

pub length-write_bytes :
    (bs : List ℕ) (o : ℕ) (vs : List ℕ) {r : List ℕ}
    → write_bytes bs o vs ≡ some r
    → length r ≡ length bs
unfolding write_bytes
length-write_bytes bs zero [] h = ground arith
length-write_bytes [] zero (v ∷ vs) h = cc
length-write_bytes (b ∷ bs) zero (v ∷ vs) h =
    let (r', e, q) = map-eq-some (λ r. v ∷ r) (write_bytes bs zero vs) h in
    rw (← q) (ap suc (length-write_bytes bs zero vs e))
length-write_bytes [] (suc o) vs h = cc
length-write_bytes (b ∷ bs) (suc o) vs h =
    let (r', e, q) = map-eq-some (λ r. b ∷ r) (write_bytes bs o vs) h in
    rw (← q) (ap suc (length-write_bytes bs o vs e))

-- What was written is read back.
pub read_bytes-write_bytes :
    (bs : List ℕ) (o : ℕ) (vs r : List ℕ)
    → write_bytes bs o vs ≡ some r
    → read_bytes r o (length vs) ≡ some vs
unfolding read_bytes write_bytes
read_bytes-write_bytes bs zero [] r h = refl
read_bytes-write_bytes [] zero (v ∷ vs) r h = cc
read_bytes-write_bytes (b ∷ bs) zero (v ∷ vs) r h =
    let (r', e, q) = map-eq-some (λ r. v ∷ r) (write_bytes bs zero vs) h in
    rw (← q, read_bytes-write_bytes bs zero vs r' e)
read_bytes-write_bytes [] (suc o) vs r h = cc
read_bytes-write_bytes (b ∷ bs) (suc o) vs r h =
    let (r', e, q) = map-eq-some (λ r. b ∷ r) (write_bytes bs o vs) h in
    rw (← q, read_bytes-write_bytes bs o vs r' e)

-- A part that lies before or behind the written one is unchanged.
pub read_bytes-write_bytes_apart :
    (bs : List ℕ) (o : ℕ) (vs r : List ℕ) (p n : ℕ)
    → write_bytes bs o vs ≡ some r
    → (p + n ≤ o) ⊎ (o + length vs ≤ p)
    → read_bytes r p n ≡ read_bytes bs p n
unfolding read_bytes write_bytes
read_bytes-write_bytes_apart bs zero [] r p n h a = ground arith
read_bytes-write_bytes_apart [] zero (v ∷ vs) r p n h a = cc
read_bytes-write_bytes_apart (b ∷ bs) zero (v ∷ vs) r zero zero h a = refl
read_bytes-write_bytes_apart (b ∷ bs) zero (v ∷ vs) r zero (suc n) h a = absurd (omega arith)
read_bytes-write_bytes_apart (b ∷ bs) zero (v ∷ vs) r (suc p) n h a =
    let (r', e, q) = map-eq-some (λ r. v ∷ r) (write_bytes bs zero vs) h in
    rw (← q) (read_bytes-write_bytes_apart bs zero vs r' p n e (omega arith))
read_bytes-write_bytes_apart [] (suc o) vs r p n h a = cc
read_bytes-write_bytes_apart (b ∷ bs) (suc o) vs r zero zero h a = refl
read_bytes-write_bytes_apart (b ∷ bs) (suc o) vs r zero (suc n) h a =
    let (r', e, q) = map-eq-some (λ r. b ∷ r) (write_bytes bs o vs) h in
    rw (← q, read_bytes-write_bytes_apart bs o vs r' zero n e (omega arith))
read_bytes-write_bytes_apart (b ∷ bs) (suc o) vs r (suc p) n h a =
    let (r', e, q) = map-eq-some (λ r. b ∷ r) (write_bytes bs o vs) h in
    rw (← q) (read_bytes-write_bytes_apart bs o vs r' p n e (omega arith))
