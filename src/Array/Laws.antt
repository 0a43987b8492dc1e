-- ===== src/Array/Laws.antt =====
-- What a caller of the array map may rely on, on every branch of the update.
use mathlib.Core.Logic.{◌⊎◌}
use mathlib.Core.Path.{subst}
use native.Mathlib.Decide.{ℕ_discrete, dec_lt}
use generic_ebpf.Base.{
  ℕ, ◌+◌, ◌*◌, ◌^◌, ◌≤◌, ◌<◌, ◌≡◌, ◌≢◌, arith, sym, ◌∙◌, some, List, ◌==◌, u32, true, false,
  if◌then◌else◌, inl, inr, length, read_bytes, write_bytes, ==_refl, ne→==_false, lt→leb_false,
  write_bytes-total, read_bytes-write_bytes,
}
use generic_ebpf.Map.{ok, einval, eexist, has_noexist}
use generic_ebpf.Array.{ArrayMap, Area, area_at, offset}
use generic_ebpf.Array.Access.{IsValid, Apart, array_map_update_elem-Stored}
use generic_ebpf.Array.Ops.{elem_bytes, array_map_update_elem, array_map_lookup_elem_from_user}

-- Without a wrap the offset is the product.
offset_exact :
    (em : ArrayMap) (k : ℕ)
    → 0 < em.value_size
    → em.max_entries * em.value_size ≤ 2 ^ 32
    → k < em.max_entries
    → offset em k ≡ em.value_size * k
offset_exact em k pos small h =
    let fits : em.value_size * k + em.value_size ≤ em.max_entries * em.value_size = grind arith in
    omega arith

below_scaled : (c k q : ℕ) → k < q → c * k + c ≤ c * q
below_scaled c k q h = grind arith

elements-Apart :
    (em : ArrayMap) (k q : ℕ)
    → 0 < em.value_size
    → em.max_entries * em.value_size ≤ 2 ^ 32
    → k < em.max_entries
    → q < em.max_entries
    → k ≢ q
    → Apart em 0 k 0 q
elements-Apart em k q pos small hk hq ne = inr (
    rw (offset_exact em k pos small hk, offset_exact em q pos small hq)
      (elim (dec_lt k q) [
        | yes lt ↦ inr (below_scaled em.value_size k q lt)
        | no ge ↦ inl (below_scaled em.value_size q k (omega arith))
      ]))

elem_bytes_same_offset :
    (em : ArrayMap) (i q k : ℕ) → offset em q ≡ offset em k → elem_bytes em i q ≡ elem_bytes em i k
unfolding elem_bytes
elem_bytes_same_offset em i q k same = rw same

offset-wraps : (c k d turns : ℕ) → c * d ≡ turns * 2 ^ 32 → u32 (c * (k + d)) ≡ u32 (c * k)
offset-wraps c k d turns h =
    let split : c * (k + d) ≡ c * k + c * d = grind arith in omega (arith, split, h)

lookup_found :
    (em : ArrayMap) (k : ℕ) (out v out' : List ℕ)
    → k < em.max_entries
    → elem_bytes em 0 k ≡ some v
    → write_bytes out 0 v ≡ some out'
    → array_map_lookup_elem_from_user em k out ≡ some (ok, out')
unfolding array_map_lookup_elem_from_user
lookup_found em k out v out' inside e w = rw (lt→leb_false _ _ inside, e, w)

module _ (em : ArrayMap) (valid : IsValid em) (a : Area) (here : area_at em 0 ≡ some a) (k : ℕ)
    (inside : k < em.max_entries) (value : List ℕ) (long : em.value_size ≤ length value) (flags : ℕ)
    (allowed : has_noexist flags ≡ false) where
  -- In an array map of at most 2 ^ 32 bytes a permitted update of a key in range returns 0, and
  -- then every key in range reads as before but the updated one, which reads as the first
  -- `value_size` bytes of the value buffer.
  pub array_map_update_elem-get :
      em.max_entries * em.value_size ≤ 2 ^ 32
      → (v : List ℕ) × (em' : ArrayMap) × (read_bytes value 0 em.value_size ≡ some v)
        × (array_map_update_elem em k value flags ≡ some (ok, em'))
        × ((q : ℕ)
            → q < em.max_entries
            → elem_bytes em' 0 q ≡ (if k == q then some v else elem_bytes em 0 q))
  array_map_update_elem-get small =
      let (v, em', e, run, st) =
        array_map_update_elem-Stored em valid a here k inside value long flags allowed in
      (
        v,
        em',
        e,
        run,
        λ q hq. elim (ℕ_discrete k q) [
          | yes p ↦ rw (← p, ==_refl k) st.reads
          | no p ↦
              rw (ne→==_false k q p)
                (st.keeps 0 q (elements-Apart em k q valid.value_size_pos small inside hq p))
        ],
      )

  -- Keys whose distance times the value size is a multiple of 2 ^ 32 share their element: after a
  -- permitted update of the key `k` the different key `k + d` is in range too and reads as the value
  -- stored under `k`.
  pub array_map_update_elem-alias :
      (d turns : ℕ)
      → 0 < d
      → k + d < em.max_entries
      → em.value_size * d ≡ turns * 2 ^ 32
      → (v : List ℕ) × (em' : ArrayMap) × (read_bytes value 0 em.value_size ≡ some v)
        × (array_map_update_elem em k value flags ≡ some (ok, em'))
        × (k + d ≢ k)
        × (elem_bytes em' 0 (k + d) ≡ some v)
  array_map_update_elem-alias d turns pos inside' wraps =
      let (v, em', e, run, st) =
        array_map_update_elem-Stored em valid a here k inside value long flags allowed in
      let same =
        subst (λ s. u32 (s * (k + d)) ≡ u32 (s * k)) (sym st.value_size)
          (offset-wraps em.value_size k d turns wraps) in
      (
        v,
        em',
        e,
        run,
        λ h. absurd (omega (arith, h, pos)),
        elem_bytes_same_offset em' 0 (k + d) k same ∙ st.reads,
      )

  -- What a permitted update stores under a key in range, a lookup from user space of that key
  -- copies back: both return 0, and the first `value_size` bytes of the two buffers agree.
  pub array_map_lookup-update :
      (out : List ℕ)
      → em.value_size ≤ length out
      → (em' : ArrayMap) × (out' : List ℕ) × (array_map_update_elem em k value flags
          ≡ some (ok, em'))
        × (array_map_lookup_elem_from_user em' k out ≡ some (ok, out'))
        × (read_bytes out' 0 em.value_size ≡ read_bytes value 0 em.value_size)
  array_map_lookup-update out room =
      let (v, em', e, run, st) =
        array_map_update_elem-Stored em valid a here k inside value long flags allowed in
      let (out', w, _) = write_bytes-total out 0 v (omega (arith, st.size)) in
      let inside' : k < em'.max_entries = omega (arith, st.max_entries) in
      (
        em',
        out',
        run,
        lookup_found em' k out v out' inside' st.reads w,
        subst (λ n. read_bytes out' 0 n ≡ some v) st.size (read_bytes-write_bytes out 0 v out' w)
            ∙ sym e,
      )

-- A refused update changes nothing: with the flag EBPF_NOEXIST it returns EEXIST whatever the
-- key, and without it a key out of range gets EINVAL.
pub array_map_update_elem-refused :
    (em : ArrayMap) (k : ℕ) (value : List ℕ) (flags : ℕ)
    → (has_noexist flags ≡ true) ⊎ (em.max_entries ≤ k)
    → array_map_update_elem em k value flags
      ≡ some ((if has_noexist flags then eexist else einval), em)
unfolding array_map_update_elem
array_map_update_elem-refused em k value flags h = ground arith
