-- ===== src/Hashtable/Chain.antt =====
-- Searching a chain of elements, and how a search changes with the chain and with the memory.
use generic_ebpf.Base.{
  ℕ, zero, suc, ◌+◌, ◌≤◌, ◌<◌, ◌≡◌, ◌≢◌, inl, inr, refl, sym, ◌∙◌, ap, arith, Bool, true, false,
  ◌&&◌, none, some, List, [], ◌∷◌, ◌++◌, ◌==◌, ==_refl, ==_iff, ne→==_false, if◌then◌else◌, take,
  drop, length, Bool-cases,
}
use mathlib.Core.Option.{some-injective}
use generic_ebpf.Platform.{count, remove}
use generic_ebpf.Hashtable.{HashElem, set_at, copy, bytes_eq, memcmp_eq, get_hash_elem}

bytes_eq_refl : (a : List ℕ) → bytes_eq a a ≡ true
unfolding bytes_eq
bytes_eq_refl [] = refl
bytes_eq_refl (x ∷ a) = ground (arith, bytes_eq_refl a)

and_left : (a b : Bool) → (a && b) ≡ true → a ≡ true
and_left true b h = refl
and_left false b h = h

and_right : (a b : Bool) → (a && b) ≡ true → b ≡ true
and_right true b h = h
and_right false b h = absurd (cc)

bytes_eq-eq : (a b : List ℕ) → bytes_eq a b ≡ true → a ≡ b
unfolding bytes_eq
bytes_eq-eq [] [] h = refl
bytes_eq-eq [] (y ∷ b) h = absurd (cc)
bytes_eq-eq (x ∷ a) [] h = absurd (cc)
bytes_eq-eq (x ∷ a) (y ∷ b) h =
    let p : x ≡ y = (==_iff x y).0 (and_left (x == y) (bytes_eq a b) h) in
    let q = bytes_eq-eq a b (and_right (x == y) (bytes_eq a b) h) in cc

-- Comparison of two keys is equality of their first `n` bytes.
pub memcmp_eq-take : (n : ℕ) (a b : List ℕ) → memcmp_eq n a b ≡ true → take n a ≡ take n b
unfolding memcmp_eq
memcmp_eq-take n a b h = bytes_eq-eq (take n a) (take n b) h

pub memcmp_eq_refl : (n : ℕ) (a : List ℕ) → memcmp_eq n a a ≡ true
unfolding memcmp_eq
memcmp_eq_refl n a = bytes_eq_refl (take n a)

pub memcmp_eq_same :
    (n : ℕ) (a b c : List ℕ) → take n a ≡ take n b → memcmp_eq n a c ≡ memcmp_eq n b c
unfolding memcmp_eq
memcmp_eq_same n a b c h = ap (λ l. bytes_eq l (take n c)) h

take-take_append :
    (n : ℕ) (src rest : List ℕ) → n ≤ length src → take n (take n src ++ rest) ≡ take n src
take-take_append zero src rest h = refl
take-take_append (suc n) [] rest h = absurd (omega arith)
take-take_append (suc n) (x ∷ src) rest h =
    ap (λ l. x ∷ l) (take-take_append n src rest (omega arith))

pub take-copy : (n : ℕ) (dst src : List ℕ) → n ≤ length src → take n (copy n dst src) ≡ take n src
unfolding copy
take-copy n dst src h = take-take_append n src (drop n dst) h

pub set_at_self {ℓ} : {A : Type ℓ} (f : ℕ → A) (i : ℕ) (v : A) → set_at f i v i ≡ v
unfolding set_at
set_at_self f i v = rw (==_refl i)

pub set_at_ne {ℓ} : {A : Type ℓ} (f : ℕ → A) (i j : ℕ) (v : A) → i ≢ j → set_at f i v j ≡ f j
unfolding set_at
set_at_ne f i j v h = rw (ne→==_false i j h)

-- How many elements of a chain have the key.
unfoldable pub matches : ℕ → (ℕ → HashElem) → List ℕ → List ℕ → ℕ
matches n heap key [] = 0
matches n heap key (p ∷ chain) =
    if memcmp_eq n (heap p).key key
    then suc (matches n heap key chain)
    else matches n heap key chain

-- A search that finds something finds an element of the chain with that key.
pub get_hash_elem-some :
    (n : ℕ) (heap : ℕ → HashElem) (chain key : List ℕ) (p : ℕ)
    → get_hash_elem heap chain key n ≡ some p
    → (0 < count p chain) × (memcmp_eq n (heap p).key key ≡ true)
unfolding get_hash_elem count
get_hash_elem-some n heap [] key p h = absurd (cc)
get_hash_elem-some n heap (q ∷ chain) key p h = elim (Bool-cases (memcmp_eq n (heap q).key key)) [
  | inl e ↦
      let s : q ≡ p = some-injective _ _ (sym (rw e) ∙ h) in
      rw (sym s) (rw (==_refl q) (omega arith), e)
  | inr e ↦
      let (c, m) = get_hash_elem-some n heap chain key p (sym (rw e) ∙ h) in (ground (arith, c), m)
]

pub get_hash_elem-none :
    (n : ℕ) (heap : ℕ → HashElem) (chain key : List ℕ)
    → matches n heap key chain ≡ 0
    → get_hash_elem heap chain key n ≡ none
unfolding get_hash_elem matches
get_hash_elem-none n heap [] key h = refl
get_hash_elem-none n heap (q ∷ chain) key h = ground (arith, get_hash_elem-none n heap chain key)

-- A write to an element outside the chain does not change a search or the number of matches.
pub get_hash_elem-set_at :
    (n : ℕ) (heap : ℕ → HashElem) (chain key : List ℕ) (p : ℕ) (e : HashElem)
    → count p chain ≡ 0
    → get_hash_elem (set_at heap p e) chain key n ≡ get_hash_elem heap chain key n
unfolding get_hash_elem count set_at
get_hash_elem-set_at n heap [] key p e h = refl
get_hash_elem-set_at n heap (q ∷ chain) key p e h =
    ground (arith, get_hash_elem-set_at n heap chain key p e)

pub matches-set_at :
    (n : ℕ) (heap : ℕ → HashElem) (chain key : List ℕ) (p : ℕ) (e : HashElem)
    → count p chain ≡ 0
    → matches n (set_at heap p e) key chain ≡ matches n heap key chain
unfolding matches count set_at
matches-set_at n heap [] key p e h = refl
matches-set_at n heap (q ∷ chain) key p e h = ground (arith, matches-set_at n heap chain key p e)

-- Taking out an element with another key does not change a search.
pub get_hash_elem-remove :
    (n : ℕ) (heap : ℕ → HashElem) (chain key : List ℕ) (p : ℕ)
    → memcmp_eq n (heap p).key key ≡ false
    → get_hash_elem heap (remove p chain) key n ≡ get_hash_elem heap chain key n
unfolding get_hash_elem remove
get_hash_elem-remove n heap [] key p h = refl
get_hash_elem-remove n heap (q ∷ chain) key p h =
    ground (arith, get_hash_elem-remove n heap chain key p h)

pub matches-remove :
    (n : ℕ) (heap : ℕ → HashElem) (chain key : List ℕ) (p : ℕ)
    → 0 < count p chain
    → matches n heap key (remove p chain) + (if memcmp_eq n (heap p).key key then 1 else 0)
      ≡ matches n heap key chain
unfolding matches remove count
matches-remove n heap [] key p h = absurd (omega arith)
matches-remove n heap (q ∷ chain) key p h = ground (arith, matches-remove n heap chain key p)

pub matches_same :
    (n : ℕ) (heap : ℕ → HashElem) (chain a b : List ℕ)
    → memcmp_eq n a b ≡ true
    → matches n heap a chain ≡ matches n heap b chain
unfolding matches memcmp_eq
matches_same n heap [] a b h = refl
matches_same n heap (q ∷ chain) a b h =
    let e = bytes_eq-eq (take n a) (take n b) h in rw (e, matches_same n heap chain a b h)

pub length-remove : (p : ℕ) (l : List ℕ) → 0 < count p l → length (remove p l) + 1 ≡ length l
unfolding remove count
length-remove p [] h = absurd (omega arith)
length-remove p (q ∷ l) h = ground (arith, length-remove p l)

none_ne : (q : ℕ) → none ≢ some q
none_ne q h = cc

pub matches-none :
    (n : ℕ) (heap : ℕ → HashElem) (chain key : List ℕ)
    → get_hash_elem heap chain key n ≡ none
    → matches n heap key chain ≡ 0
unfolding get_hash_elem matches
matches-none n heap [] key h = refl
matches-none n heap (q ∷ chain) key h = elim (Bool-cases (memcmp_eq n (heap q).key key)) [
  | inl e ↦ absurd (none_ne q (sym (sym (rw e) ∙ h)))
  | inr e ↦ rw e (matches-none n heap chain key (sym (rw e) ∙ h))
]

pub get_hash_elem_same :
    (n : ℕ) (heap : ℕ → HashElem) (chain a b : List ℕ)
    → take n a ≡ take n b
    → get_hash_elem heap chain a n ≡ get_hash_elem heap chain b n
unfolding get_hash_elem memcmp_eq
get_hash_elem_same n heap [] a b h = refl
get_hash_elem_same n heap (q ∷ chain) a b h = rw (h, get_hash_elem_same n heap chain a b h)
