-- ===== src/Hashtable/Splice.antt =====
-- Writing some bytes in the middle of the values of an element.
use generic_ebpf.Base.{
  ℕ, zero, suc, ◌+◌, ◌≤◌, ◌≡◌, ◌⊎◌, inl, inr, refl, ◌∙◌, ap, arith, List, [], ◌∷◌, ◌++◌, take, drop,
  length,
}
use generic_ebpf.Hashtable.{HashElem, copy, value_at, put_value}
use generic_ebpf.Hashtable.Chain.{take-copy}

copy-length :
    (n : ℕ) (xs v : List ℕ) → n ≤ length xs → n ≤ length v → length (copy n xs v) ≡ length xs
unfolding copy
copy-length zero xs v h k = refl
copy-length (suc n) [] v h k = absurd (omega arith)
copy-length (suc n) (x ∷ xs) [] h k = absurd (omega arith)
copy-length (suc n) (x ∷ xs) (y ∷ v) h k =
    omega (arith, copy-length n xs v (omega arith) (omega arith))

drop-copy :
    (n q : ℕ) (xs v : List ℕ)
    → n ≤ q
    → n ≤ length xs
    → n ≤ length v
    → drop q (copy n xs v) ≡ drop q xs
unfolding copy
drop-copy zero q xs v h k l = refl
drop-copy (suc n) zero xs v h k l = absurd (omega arith)
drop-copy (suc n) (suc q) [] v h k l = absurd (omega arith)
drop-copy (suc n) (suc q) (x ∷ xs) [] h k l = absurd (omega arith)
drop-copy (suc n) (suc q) (x ∷ xs) (y ∷ v) h k l =
    drop-copy n q xs v (omega arith) (omega arith) (omega arith)

-- What `splice` puts in the place of the rest behind `at`.
splice : ℕ → List ℕ → List ℕ → List ℕ
splice at xs ys = take at xs ++ ys

drop-splice : (at : ℕ) (xs ys : List ℕ) → at ≤ length xs → drop at (splice at xs ys) ≡ ys
unfolding splice
drop-splice zero xs ys h = refl
drop-splice (suc at) [] ys h = absurd (omega arith)
drop-splice (suc at) (x ∷ xs) ys h = drop-splice at xs ys (omega arith)

splice-length :
    (at : ℕ) (xs ys : List ℕ)
    → at ≤ length xs
    → length ys ≡ length (drop at xs)
    → length (splice at xs ys) ≡ length xs
unfolding splice
splice-length zero xs ys h e = e
splice-length (suc at) [] ys h e = absurd (omega arith)
splice-length (suc at) (x ∷ xs) ys h e = omega (arith, splice-length at xs ys (omega arith) e)

drop-rest : (at : ℕ) (xs : List ℕ) → at ≤ length xs → length (drop at xs) + at ≡ length xs
drop-rest zero xs h = omega arith
drop-rest (suc at) [] h = absurd (omega arith)
drop-rest (suc at) (x ∷ xs) h = omega (arith, drop-rest at xs (omega arith))

take_before :
    (n at : ℕ) (xs ys : List ℕ) → n ≤ at → at ≤ length xs → take n (splice at xs ys) ≡ take n xs
unfolding splice
take_before zero at xs ys h k = refl
take_before (suc n) zero xs ys h k = absurd (omega arith)
take_before (suc n) (suc at) [] ys h k = absurd (omega arith)
take_before (suc n) (suc at) (x ∷ xs) ys h k =
    ap (λ l. x ∷ l) (take_before n at xs ys (omega arith) (omega arith))

before :
    (n q at : ℕ) (xs ys : List ℕ)
    → q + n ≤ at
    → at ≤ length xs
    → take n (drop q (splice at xs ys)) ≡ take n (drop q xs)
unfolding splice
before n zero at xs ys h k = take_before n at xs ys (omega arith) k
before n (suc q) zero xs ys h k = absurd (omega arith)
before n (suc q) (suc at) [] ys h k = absurd (omega arith)
before n (suc q) (suc at) (x ∷ xs) ys h k = before n q at xs ys (omega arith) (omega arith)

behind :
    (n q at : ℕ) (xs v : List ℕ)
    → at + n ≤ q
    → at + n ≤ length xs
    → n ≤ length v
    → drop q (splice at xs (copy n (drop at xs) v)) ≡ drop q xs
unfolding splice
behind n q zero xs v h k l = drop-copy n q xs v (omega arith) (omega arith) l
behind n zero (suc at) xs v h k l = absurd (omega arith)
behind n (suc q) (suc at) [] v h k l = absurd (omega arith)
behind n (suc q) (suc at) (x ∷ xs) v h k l = behind n q at xs v (omega arith) (omega arith) l

module _ (n : ℕ) (value : List ℕ) (enough : n ≤ length value) (e : HashElem) (at : ℕ)
    (room : at + n ≤ length e.values) where
  pub put_value-length : length (put_value n value e at).values ≡ length e.values
  unfolding put_value splice
  put_value-length =
      let r = drop-rest at e.values (omega arith) in
      splice-length at e.values (copy n (drop at e.values) value) (omega arith)
        (copy-length n (drop at e.values) value (omega (arith, r)) enough)

  pub put_value_self : value_at (put_value n value e at) n at ≡ take n value
  unfolding put_value value_at splice
  put_value_self =
      ap (λ l. take n l) (drop-splice at e.values (copy n (drop at e.values) value) (omega arith))
      ∙ take-copy n (drop at e.values) value enough

  -- The bytes that a write does not reach
  pub put_value_other :
      (q : ℕ) → (q + n ≤ at) ⊎ (at + n ≤ q) → value_at (put_value n value e at) n q ≡ value_at e n q
  unfolding put_value value_at splice
  put_value_other q (inl h) =
      before n q at e.values (copy n (drop at e.values) value) h (omega arith)
  put_value_other q (inr h) = ap (λ l. take n l) (behind n q at e.values value h room enough)
