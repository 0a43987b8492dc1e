-- ===== src/Hashtable/Values.antt =====
-- The values of an element of a per-CPU hash table, and writes that leave the keys as they are.
use generic_ebpf.Base.{
  ℕ, zero, suc, ◌+◌, ◌*◌, ◌^◌, ◌≤◌, ◌<◌, ◌≡◌, ◌≢◌, ◌⊎◌, refl, sym, ◌∙◌, ap, arith, some, List, [],
  ◌∷◌, length, take, u32, replicate, inl, inr, Option-cases,
}
use native.Mathlib.Decide.{ℕ_discrete, dec_lt}
use generic_ebpf.Map.{ok}
use generic_ebpf.Hashtable.{HashElem, HashMap, get_hash_elem, percpu_offset, value_at, put_value}
use generic_ebpf.Hashtable.Ops.{
  elem_of, put_all, values_from, hashtable_map_lookup_elem_percpu_from_user,
}
use generic_ebpf.Hashtable.Chain.{matches}
use generic_ebpf.Hashtable.Splice.{put_value-length, put_value_self, put_value_other}

offset_small : (size i : ℕ) → size * i + size ≤ 2 ^ 32 → u32 (size * i) ≡ size * i
offset_small zero i h = let none : 0 * i ≡ 0 = omega arith in omega (arith, none)
offset_small (suc s) i h = omega arith

below_scaled : (c n k q : ℕ) → n ≤ c → k < q → c * k + n ≤ c * q
below_scaled c n k q h l = let s : c * k + c ≤ c * q = grind arith in omega arith

-- A change of values, of at least `area` bytes, that leaves the key and their length as they are.
pub record IsWrite (area : ℕ) (write : HashElem → HashElem) : Type 0 where
  pub key : (e : HashElem) → (write e).key ≡ e.key
  pub long : (e : HashElem) → area ≤ length e.values → length (write e).values ≡ length e.values

-- The values of `slots` CPUs, `size` bytes apart, whose offsets do not wrap.
module _ (slots size : ℕ) (fits : slots * size ≤ 2 ^ 32) (n : ℕ) (small : n ≤ size) where
  -- The value of a CPU in range lies in the area.
  pub percpu_offset-in :
      (i : ℕ) → i < slots → (percpu_offset size i ≡ size * i) × (size * i + n ≤ slots * size)
  unfolding percpu_offset
  percpu_offset-in i h =
      let inside : size * i + size ≤ slots * size = grind arith in
      (offset_small size i (omega arith), omega arith)

  -- The values of two CPUs share no byte.
  pub percpu_offset-apart :
      (i j : ℕ)
      → i < slots
      → j < slots
      → i ≢ j
      → (percpu_offset size j + n ≤ percpu_offset size i)
        ⊎ (percpu_offset size i + n ≤ percpu_offset size j)
  percpu_offset-apart i j hi hj ne =
      let (ei, _) = percpu_offset-in i hi in
      let (ej, _) = percpu_offset-in j hj in
      rw (ei, ej)
        (elim (dec_lt i j) [
          | yes lt ↦ inr (below_scaled size n i j small lt)
          | no ge ↦ inl (below_scaled size n j i small (omega (arith, ne, ge)))
        ])

  module _ (value : List ℕ) (enough : n ≤ length value) where
    abbrev put : HashElem → ℕ → HashElem
    put e i = put_value n value e (percpu_offset size i)

    room :
        (e : HashElem) (i : ℕ)
        → i < slots
        → slots * size ≤ length e.values
        → percpu_offset size i + n ≤ length e.values
    room e i h sized = let (a, b) = percpu_offset-in i h in omega arith

    pub put_own :
        (e : HashElem) (i : ℕ)
        → i < slots
        → slots * size ≤ length e.values
        → value_at (put e i) n (percpu_offset size i) ≡ take n value
    put_own e i h sized = put_value_self n value enough e (percpu_offset size i) (room e i h sized)

    pub put_others :
        (e : HashElem) (i j : ℕ)
        → i < slots
        → j < slots
        → slots * size ≤ length e.values
        → i ≢ j
        → value_at (put e i) n (percpu_offset size j) ≡ value_at e n (percpu_offset size j)
    put_others e i j hi hj sized ne =
        put_value_other n value enough e (percpu_offset size i) (room e i hi sized)
          (percpu_offset size j) (percpu_offset-apart i j hi hj ne)

    put-length :
        (e : HashElem) (i : ℕ)
        → i < slots
        → slots * size ≤ length e.values
        → length (put e i).values ≡ length e.values
    put-length e i h sized =
        put_value-length n value enough e (percpu_offset size i) (room e i h sized)

    put_all-length :
        (left i : ℕ) (e : HashElem)
        → i + left ≤ slots
        → slots * size ≤ length e.values
        → length (put_all size n value left i e).values ≡ length e.values
    unfolding put_all
    put_all-length zero i e h sized = refl
    put_all-length (suc left) i e h sized =
        let l = put-length e i (omega arith) sized in
        put_all-length left (i + 1) (put e i) (omega arith) (omega (arith, l)) ∙ l

    put_all-key : (left i : ℕ) (e : HashElem) → (put_all size n value left i e).key ≡ e.key
    unfolding put_all put_value
    put_all-key zero i e = refl
    put_all-key (suc left) i e = put_all-key left (i + 1) (put e i)

    pub put-IsWrite : (i : ℕ) → i < slots → IsWrite (slots * size) (λ e. put e i)
    unfolding put_value
    put-IsWrite i h = record { key = λ e. refl; long = λ e sized. put-length e i h sized }

    pub put_all-IsWrite :
        (left : ℕ) → left ≤ slots → IsWrite (slots * size) (λ e. put_all size n value left 0 e)
    put_all-IsWrite left h = record {
      key = put_all-key left 0;
      long = λ e sized. put_all-length left 0 e (omega arith) sized;
    }

    put_all_before :
        (left i j : ℕ) (e : HashElem)
        → j < i
        → i + left ≤ slots
        → slots * size ≤ length e.values
        → value_at (put_all size n value left i e) n (percpu_offset size j)
          ≡ value_at e n (percpu_offset size j)
    unfolding put_all
    put_all_before zero i j e h fit sized = refl
    put_all_before (suc left) i j e h fit sized =
        let l = put-length e i (omega arith) sized in
        put_all_before left (i + 1) j (put e i) (omega arith) (omega arith) (omega (arith, l))
        ∙ put_others e i j (omega arith) (omega arith) sized (λ s. absurd (omega (arith, s)))

    put_all_in :
        (left i j : ℕ) (e : HashElem)
        → i ≤ j
        → j < i + left
        → i + left ≤ slots
        → slots * size ≤ length e.values
        → value_at (put_all size n value left i e) n (percpu_offset size j) ≡ take n value
    unfolding put_all
    put_all_in zero i j e lo hi fit sized = absurd (omega arith)
    put_all_in (suc left) i j e lo hi fit sized =
        let l = put-length e i (omega arith) sized in
        elim (ℕ_discrete i j) [
          | yes s ↦
              put_all_before left (i + 1) j (put e i) (omega (arith, s)) (omega arith)
                (omega (arith, l))
              ∙ ap (λ x. value_at (put e i) n (percpu_offset size x)) (sym s)
              ∙ put_own e i (omega arith) sized
          | no ne ↦
              put_all_in left (i + 1) j (put e i) (omega (arith, ne)) (omega arith) (omega arith)
                (omega (arith, l))
        ]

    values_from-eq :
        (left i : ℕ) (e : HashElem)
        → ((j : ℕ) → i ≤ j → j < i + left → value_at e n (percpu_offset size j) ≡ take n value)
        → values_from size n e left i ≡ replicate left (take n value)
    unfolding values_from
    values_from-eq zero i e h = refl
    values_from-eq (suc left) i e h =
        rw
          (
            h i (omega arith) (omega arith),
            values_from-eq left (i + 1) e (λ j lo hi. h j (omega arith) (omega arith)),
          )
          refl

    -- What is written for all CPUs is there for each.
    pub values_from-put_all :
        (ncpus : ℕ) (e : HashElem)
        → ncpus ≤ slots
        → slots * size ≤ length e.values
        → values_from size n (put_all size n value ncpus 0 e) ncpus 0
          ≡ replicate ncpus (take n value)
    values_from-put_all ncpus e h sized =
        values_from-eq ncpus 0 (put_all size n value ncpus 0 e)
          (λ j lo hi. put_all_in ncpus 0 j e lo hi (omega arith) sized)

-- Two memories whose elements have the same keys.
module _ (n : ℕ) (heap heap' : ℕ → HashElem) (same : (q : ℕ) → (heap' q).key ≡ (heap q).key)
    (key : List ℕ) where
  pub get_hash_elem-keys :
      (chain : List ℕ) → get_hash_elem heap' chain key n ≡ get_hash_elem heap chain key n
  unfolding get_hash_elem
  get_hash_elem-keys [] = refl
  get_hash_elem-keys (q ∷ chain) = rw (same q, get_hash_elem-keys chain) refl

  pub matches-keys : (chain : List ℕ) → matches n heap' key chain ≡ matches n heap key chain
  unfolding matches
  matches-keys [] = refl
  matches-keys (q ∷ chain) = rw (same q, matches-keys chain) refl

-- A lookup from user space in a per-CPU table, by what the search for the element gives.
module _ (hash : List ℕ → ℕ) (m : HashMap) (ncpus : ℕ) (k : List ℕ) where
  pub lookup_percpu-some :
      (p : ℕ)
      → elem_of hash m k ≡ some p
      → hashtable_map_lookup_elem_percpu_from_user hash m ncpus k
        ≡ (ok, values_from m.contents.value_size m.value_size (m.contents.heap p) ncpus 0)
  unfolding hashtable_map_lookup_elem_percpu_from_user
  lookup_percpu-some p e = rw (hashtable_map_lookup_elem_percpu_from_user, e) refl

  -- Two tables that find the same element, with the same values, give the same.
  pub lookup_percpu_same :
      (m' : HashMap)
      → elem_of hash m' k ≡ elem_of hash m k
      → ((p : ℕ)
          → elem_of hash m k ≡ some p
          → values_from m'.contents.value_size m'.value_size (m'.contents.heap p) ncpus 0
            ≡ values_from m.contents.value_size m.value_size (m.contents.heap p) ncpus 0)
      → hashtable_map_lookup_elem_percpu_from_user hash m' ncpus k
        ≡ hashtable_map_lookup_elem_percpu_from_user hash m ncpus k
  unfolding hashtable_map_lookup_elem_percpu_from_user
  lookup_percpu_same m' e v = elim (Option-cases (elem_of hash m k)) [
    | inl n ↦ rw (hashtable_map_lookup_elem_percpu_from_user, e, n) refl
    | inr (p, n) ↦ rw (hashtable_map_lookup_elem_percpu_from_user, e, n) (ap (λ x. (ok, x)) (v p n))
  ]
