-- ===== src/Array/Ops.antt =====
-- The element operations of sys/dev/ebpf/ebpf_map_array.c. A key is the `uint32_t` that the key
-- buffer holds. An outer `none` is an access outside of a block or of a buffer, which C leaves
-- undefined.
use generic_ebpf.Base.{
  ℕ, zero, suc, ◌+◌, ◌*◌, Option, none, some, List, ◌==◌, leb, u32, sub32, if◌then◌else◌, set,
  read_bytes, write_bytes, ◌>>=◌,
}
use generic_ebpf.Map.{Code, ok, einval, eexist, enoent, has_noexist}
use generic_ebpf.Array.{ArrayMap, area_at, offset, uint32_max}

-- The addresses that the two `lookup_elem` return; the inner `none` is NULL.
unfoldable pub array_map_lookup_elem : ArrayMap → ℕ → Option (Option ℕ)
array_map_lookup_elem em k =
    if leb em.max_entries k
    then some none
    else (area_at em 0 >>= λ a. some (some (a.block + offset em k)))

unfoldable pub array_map_lookup_elem_percpu : ℕ → ArrayMap → ℕ → Option (Option ℕ)
array_map_lookup_elem_percpu curcpu em k =
    if leb em.max_entries k
    then some none
    else (area_at em curcpu >>= λ a. some (some (a.block + offset em k)))

-- The bytes of an element: what `memcpy` takes from `elem`.
unfoldable pub elem_bytes : ArrayMap → ℕ → ℕ → Option (List ℕ)
elem_bytes em i k = area_at em i >>= λ a. read_bytes a.bytes (offset em k) em.value_size

-- The result is the code and the buffer `value` after the call.
unfoldable pub array_map_lookup_elem_from_user : ArrayMap → ℕ → List ℕ → Option (Code × List ℕ)
unfolding elem_bytes
array_map_lookup_elem_from_user em k value =
    if leb em.max_entries k
    then some (einval, value)
    else (elem_bytes em 0 k >>= λ elem. write_bytes value 0 elem >>= λ value'. some (ok, value'))

-- The copies for the CPUs `i`, `i + 1`, …, `left` of them.
unfoldable pub copy_percpu : ArrayMap → ℕ → ℕ → ℕ → List ℕ → Option (List ℕ)
unfolding elem_bytes
copy_percpu em k zero i value = some value
copy_percpu em k (suc left) i value = elem_bytes em i k >>= λ elem.
    write_bytes value (u32 (em.value_size * i)) elem >>= λ value'.
    copy_percpu em k left (i + 1) value'

unfoldable pub array_map_lookup_elem_percpu_from_user :
    ℕ → ArrayMap → ℕ → List ℕ → Option (Code × List ℕ)
unfolding copy_percpu
array_map_lookup_elem_percpu_from_user ncpus em k value =
    if leb em.max_entries k
    then some (einval, value)
    else (copy_percpu em k ncpus 0 value >>= λ value'. some (ok, value'))

-- Store into the area of index `i`.
unfoldable pub array_map_update_elem_common : ArrayMap → ℕ → ℕ → List ℕ → Option ArrayMap
array_map_update_elem_common em i k value = read_bytes value 0 em.value_size >>= λ v.
    area_at em i >>= λ a. write_bytes a.bytes (offset em k) v >>= λ bytes'. some (record em {
      contents = record em.contents {
        areas = set em.contents.areas i (some (record a { bytes = bytes' }));
      };
    })

unfoldable pub array_map_update_check_attr : ArrayMap → ℕ → ℕ → Code
array_map_update_check_attr em k flags =
    if has_noexist flags then eexist else if leb em.max_entries k then einval else ok

unfoldable pub array_map_update_elem : ArrayMap → ℕ → List ℕ → ℕ → Option (Code × ArrayMap)
unfolding array_map_update_check_attr
array_map_update_elem em k value flags = elim (array_map_update_check_attr em k flags) [
  | ok ↦ array_map_update_elem_common em 0 k value >>= λ em'. some (ok, em')
  | error ↦ some (error, em)
]

unfoldable pub array_map_update_elem_percpu :
    ℕ → ArrayMap → ℕ → List ℕ → ℕ → Option (Code × ArrayMap)
unfolding array_map_update_check_attr
array_map_update_elem_percpu curcpu em k value flags =
    elim (array_map_update_check_attr em k flags) [
      | ok ↦ array_map_update_elem_common em curcpu k value >>= λ em'. some (ok, em')
      | error ↦ some (error, em)
    ]

-- The stores for the CPUs `i`, `i + 1`, …, `left` of them.
unfoldable pub update_percpu : ℕ → ℕ → ArrayMap → ℕ → List ℕ → Option ArrayMap
update_percpu zero i em k value = some em
update_percpu (suc left) i em k value =
    array_map_update_elem_common em i k value >>= λ em'. update_percpu left (i + 1) em' k value

unfoldable pub array_map_update_elem_percpu_from_user :
    ℕ → ArrayMap → ℕ → List ℕ → ℕ → Option (Code × ArrayMap)
unfolding array_map_update_check_attr
array_map_update_elem_percpu_from_user ncpus em k value flags =
    elim (array_map_update_check_attr em k flags) [
      | ok ↦ update_percpu ncpus 0 em k value >>= λ em'. some (ok, em')
      | error ↦ some (error, em)
    ]

unfoldable pub array_map_delete_elem : ArrayMap → ℕ → Code
array_map_delete_elem em k = einval

-- The code, and what is stored to `*next_key`. A missing key is a NULL pointer.
unfoldable pub array_map_get_next_key : ArrayMap → Option ℕ → Code × Option ℕ
array_map_get_next_key em key =
    let k : ℕ = elim key [ none ↦ uint32_max | some k' ↦ k' ] in
    if leb em.max_entries k
    then (ok, some 0)
    else if k == sub32 em.max_entries 1
    then (enoent, none)
    else (ok, some (u32 (k + 1)))
