-- ===== src/Hashtable/Walk.antt =====
-- Walking the keys of a hash table with `get_next_key`, as a program in user space does: from a NULL
-- key on, each key that was returned is passed to the next call, until ENOENT.
use mathlib.Core.Option
use mathlib.Core.List.{append_assoc}
use generic_ebpf.Base.{
  ℕ, zero, suc, ◌+◌, ◌-◌, ◌≤◌, ◌<◌, ◌≡◌, refl, sym, ◌∙◌, ap, arith, Option, some, none, List, [],
  ◌∷◌, ◌++◌, map, length, length-append,
}
use generic_ebpf.Hashtable.{HashTable, HashMap}
use generic_ebpf.Hashtable.Ops.{hashtable_map_get_next_key}
use generic_ebpf.Hashtable.Chain.{matches}
use generic_ebpf.Hashtable.Invariant.{IsValid, total}
use generic_ebpf.Hashtable.Changes.{entries}
use generic_ebpf.Hashtable.First.{chain_from, key_at, empty, found, first_lem}
use generic_ebpf.Hashtable.Next.{next_in, next_after}
use generic_ebpf.Hashtable.Once.{matches-listed}

-- The keys in the order in which they are returned; `none` if `fuel` calls do not reach ENOENT.
unfoldable pub walk : (List ℕ → ℕ) → HashMap → ℕ → Option (List ℕ) → Option (List (List ℕ))
walk hash m zero key = none
walk hash m (suc fuel) key = elim (hashtable_map_get_next_key hash m key) [
  | none ↦ some []
  | some k ↦ Option.map (λ ks. k ∷ ks) (walk hash m fuel (some k))
]

module _ (hash : List ℕ → ℕ) (slots : ℕ) (m : HashMap) (v : IsValid hash slots m) where
  abbrev t : HashTable
  t = m.contents

  walk_more :
      (fuel : ℕ) (key : Option (List ℕ)) (k : List ℕ) (ks : List (List ℕ))
      → hashtable_map_get_next_key hash m key ≡ some k
      → walk hash m fuel (some k) ≡ some ks
      → walk hash m (suc fuel) key ≡ some (k ∷ ks)
  unfolding walk
  walk_more fuel key k ks e h = rw (walk, e, h) refl

  walk_end :
      (fuel : ℕ) (key : Option (List ℕ))
      → hashtable_map_get_next_key hash m key ≡ none
      → walk hash m (suc fuel) key ≡ some []
  unfolding walk
  walk_end fuel key e = rw (walk, e) refl

  walk-rest :
      (fuel b p : ℕ) (pre post : List ℕ)
      → b < t.nbuckets
      → t.buckets b ≡ pre ++ p ∷ post
      → length (post ++ chain_from (t.nbuckets - (b + 1)) (b + 1) t.buckets) < fuel
      → walk hash m fuel (some (key_at m p))
        ≡ some (map (key_at m) (post ++ chain_from (t.nbuckets - (b + 1)) (b + 1) t.buckets))
  walk-rest zero b p pre post small here h = absurd (omega arith)
  walk-rest (suc fuel) b p pre (q ∷ post) small here h =
      let here' : t.buckets b ≡ (pre ++ p ∷ []) ++ q ∷ post =
        here ∙ sym (append_assoc pre (p ∷ []) (q ∷ post)) in
      walk_more fuel (some (key_at m p)) (key_at m q) _ (next_in hash slots m v b p q pre post here)
        (walk-rest fuel b q (pre ++ p ∷ []) post small here' (omega arith))
  walk-rest (suc fuel) b p pre [] small here h = elim (first_lem m (t.nbuckets - (b + 1)) (b + 1)) [
    | empty c g ↦
        walk_end fuel _ (next_after hash slots m v b p pre here ∙ g)
        ∙ ap (λ l. some (map (key_at m) l)) (sym c)
    | found b' p' post' lt here' c g ↦
        let k : b + 1 + (t.nbuckets - (b + 1)) - (b' + 1) ≡ t.nbuckets - (b' + 1) = omega arith in
        let c' = c ∙ ap (λ n. p' ∷ post' ++ chain_from n (b' + 1) t.buckets) k in
        let n = ap (λ l. length l) c' in
        walk_more fuel (some (key_at m p)) (key_at m p') _
          (next_after hash slots m v b p pre here ∙ g)
          (walk-rest fuel b' p' [] post' (omega arith) here' (omega arith))
        ∙ ap (λ l. some (map (key_at m) l)) (sym c')
  ]

  listed-length :
      (left i : ℕ)
      → i + left ≡ t.nbuckets
      → length (chain_from left i t.buckets) + total i t.buckets ≡ total t.nbuckets t.buckets
  unfolding chain_from total
  listed-length zero i e =
      let k : i ≡ t.nbuckets = omega arith in omega (arith, ap (λ n. total n t.buckets) k)
  listed-length (suc left) i e =
      let k : i + 1 ≡ suc i = omega arith in
      omega (
        arith,
        length-append (t.buckets i) (chain_from left (i + 1) t.buckets),
        listed-length left (i + 1) (omega arith),
        ap (λ n. total n t.buckets) k,
      )

  total_none : total 0 t.buckets ≡ 0
  unfolding total
  total_none = refl

  abbrev listed : List ℕ
  listed = chain_from t.nbuckets 0 t.buckets

  walk_keys : walk hash m (suc (entries m)) none ≡ some (map (key_at m) listed)
  unfolding hashtable_map_get_next_key
  walk_keys = elim (first_lem m t.nbuckets 0) [
    | empty c g ↦ walk_end (entries m) none g ∙ ap (λ l. some (map (key_at m) l)) (sym c)
    | found b p post lt here c g ↦
        let k : 0 + t.nbuckets - (b + 1) ≡ t.nbuckets - (b + 1) = omega arith in
        let c' = c ∙ ap (λ n. p ∷ post ++ chain_from n (b + 1) t.buckets) k in
        let n = ap (λ (l : List ℕ). length l) c' in
        walk_more (entries m) none (key_at m p) _ g (
          walk-rest (entries m) b p [] post (omega arith) here
            (omega (arith, n, listed-length t.nbuckets 0 (omega arith), total_none)))
        ∙ ap (λ l. some (map (key_at m) l)) (sym c')
  ]

  -- The walk from a NULL key over a valid hash table returns the key of each element of each bucket,
  -- in the order of the buckets and of their chains, and then ends; it takes one call more than there
  -- are elements. No two of the elements have the same key.
  pub walk-listed :
      (walk hash m (entries m + 1) none ≡ some (map (key_at m) (chain_from t.nbuckets 0 t.buckets)))
      × (length (chain_from t.nbuckets 0 t.buckets) ≡ entries m)
      × ((key : List ℕ) → matches m.key_size t.heap key (chain_from t.nbuckets 0 t.buckets) ≤ 1)
  walk-listed =
      let e : entries m + 1 ≡ suc (entries m) = omega arith in
      (
        ap (λ n. walk hash m n none) e ∙ walk_keys,
        omega (arith, listed-length t.nbuckets 0 (omega arith), total_none),
        λ key. matches-listed hash slots m v key t.nbuckets 0,
      )
