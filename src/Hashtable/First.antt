-- ===== src/Hashtable/First.antt =====
-- The elements of a hash table in the order of its buckets, and the first of them.
use generic_ebpf.Base.{
  ℕ, zero, suc, ◌+◌, ◌-◌, ◌<◌, ◌≡◌, refl, ◌∙◌, ap, arith, some, none, List, [], ◌∷◌, ◌++◌, take,
}
use generic_ebpf.Hashtable.{HashMap}
use generic_ebpf.Hashtable.Ops.{get_first_key}

-- The elements in `left` buckets from `i` on, in order.
unfoldable pub chain_from : ℕ → ℕ → (ℕ → List ℕ) → List ℕ
chain_from zero i buckets = []
chain_from (suc left) i buckets = buckets i ++ chain_from left (i + 1) buckets

-- The bytes of the key of an element
abbrev pub key_at : HashMap → ℕ → List ℕ
key_at m p = take m.key_size (m.contents.heap p).key

-- Where the first element of some buckets is.
pub data First (m : HashMap) (left i : ℕ) : Type 0 where
  empty : chain_from left i m.contents.buckets ≡ [] → get_first_key m left i ≡ none → First m left i
  found :
      (b p : ℕ) (post : List ℕ)
      → b < i + left
      → m.contents.buckets b ≡ p ∷ post
      → chain_from left i m.contents.buckets
        ≡ p ∷ post ++ chain_from (i + left - (b + 1)) (b + 1) m.contents.buckets
      → get_first_key m left i ≡ some (key_at m p)
      → First m left i

first_at :
    (m : HashMap) (left i : ℕ) (l : List ℕ)
    → m.contents.buckets i ≡ l
    → First m left (i + 1)
    → First m (suc left) i
unfolding get_first_key chain_from
first_at m left i [] e (empty c g) = empty (rw (chain_from, e) c) (rw (get_first_key, e) g)
first_at m left i [] e (found b p post lt h c g) =
    let k : i + 1 + left - (b + 1) ≡ i + suc left - (b + 1) = omega arith in
    found b p post (omega arith) h
      (rw (chain_from, e) (c ∙ ap (λ n. p ∷ post ++ chain_from n (b + 1) m.contents.buckets) k))
      (rw (get_first_key, e) g)
first_at m left i (p ∷ post) e f =
    let k : left ≡ i + suc left - (i + 1) = omega arith in
    found i p post (omega arith) e
      (rw (chain_from, e) (ap (λ n. p ∷ post ++ chain_from n (i + 1) m.contents.buckets) k))
      (rw (get_first_key, e) refl)

pub first_lem : (m : HashMap) (left i : ℕ) → First m left i
unfolding get_first_key chain_from
first_lem m zero i = empty refl refl
first_lem m (suc left) i = first_at m left i (m.contents.buckets i) refl (first_lem m left (i + 1))

pub take-take : (n : ℕ) (l : List ℕ) → take n (take n l) ≡ take n l
take-take zero l = refl
take-take (suc n) [] = refl
take-take (suc n) (x ∷ l) = ap (λ k. x ∷ k) (take-take n l)
