-- ===== src/Hashtable/Links.antt =====
-- Where an element stands in its chain, and what follows it.
use generic_ebpf.Base.{
  ℕ, ◌+◌, ◌≤◌, ◌<◌, ◌≡◌, refl, arith, true, Option, some, none, List, [], ◌∷◌, ◌++◌, ==_refl,
  ne→==_false, Bool-cases, inl, inr,
}
use native.Mathlib.Decide.{ℕ_discrete}
use generic_ebpf.Platform.{count}
use generic_ebpf.Hashtable.{HashElem, get_hash_elem, memcmp_eq}
use generic_ebpf.Hashtable.Ops.{list_next}
use generic_ebpf.Hashtable.Chain.{matches}

abbrev pub head : List ℕ → Option ℕ
head [] = none
head (p ∷ l) = some p

pub matches-append :
    (n : ℕ) (heap : ℕ → HashElem) (key a b : List ℕ)
    → matches n heap key (a ++ b) ≡ matches n heap key a + matches n heap key b
unfolding matches
matches-append n heap key [] b = omega arith
matches-append n heap key (p ∷ a) b = ground (arith, matches-append n heap key a b)

matches-middle :
    (n : ℕ) (heap : ℕ → HashElem) (key pre post : List ℕ) (p : ℕ)
    → memcmp_eq n (heap p).key key ≡ true
    → 0 < matches n heap key (pre ++ p ∷ post)
unfolding matches
matches-middle n heap key [] post p e = ground arith
matches-middle n heap key (q ∷ pre) post p e =
    ground (arith, matches-middle n heap key pre post p e)

-- A search for a key that only one element has finds it.
pub get_hash_elem-middle :
    (n : ℕ) (heap : ℕ → HashElem) (key pre post : List ℕ) (p : ℕ)
    → memcmp_eq n (heap p).key key ≡ true
    → matches n heap key (pre ++ p ∷ post) ≤ 1
    → get_hash_elem heap (pre ++ p ∷ post) key n ≡ some p
unfolding get_hash_elem matches
get_hash_elem-middle n heap key [] post p e h = rw e refl
get_hash_elem-middle n heap key (q ∷ pre) post p e h =
    elim (Bool-cases (memcmp_eq n (heap q).key key)) [
      | inl f ↦ absurd (ground (arith, matches-middle n heap key pre post p e))
      | inr f ↦ rw f (get_hash_elem-middle n heap key pre post p e (ground arith))
    ]

pub count-middle : (pre post : List ℕ) (p : ℕ) → 0 < count p (pre ++ p ∷ post)
unfolding count
count-middle [] post p = rw (==_refl p) (omega arith)
count-middle (q ∷ pre) post p = ground (arith, count-middle pre post p)

-- The successor of an element that stands in its chain once.
pub list_next-middle :
    (pre post : List ℕ) (p : ℕ)
    → count p (pre ++ p ∷ post) ≤ 1
    → list_next p (pre ++ p ∷ post) ≡ head post
unfolding list_next count
list_next-middle [] [] p h = refl
list_next-middle [] (r ∷ post) p h = rw (==_refl p) refl
list_next-middle (q ∷ []) post p h = elim (ℕ_discrete p q) [
  | yes e ↦ absurd (ground (arith, count-middle [] post p))
  | no ne ↦ rw (ne→==_false p q ne) (list_next-middle [] post p (ground arith))
]
list_next-middle (q ∷ r ∷ pre) post p h = elim (ℕ_discrete p q) [
  | yes e ↦ absurd (ground (arith, count-middle (r ∷ pre) post p))
  | no ne ↦ rw (ne→==_false p q ne) (list_next-middle (r ∷ pre) post p (ground arith))
]
