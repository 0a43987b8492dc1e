-- ===== src/Tests/Recycled.antt =====
-- An element of a per-CPU hash table that goes from one key to another.
use generic_ebpf.Base.{ℕ, ◌<◌, ◌≡◌, ◌≢◌, refl, sym, ◌∙◌, arith, true, some, none, [], ◌∷◌, take}
use mathlib.Core.Option.{some-injective}
use generic_ebpf.Map.{Code, ok}
use generic_ebpf.Allocator.{ebpf_allocator_alloc, ebpf_allocator_free}
use generic_ebpf.Platform.{remove}
use generic_ebpf.Hashtable.{
  percpu_offset, HashMap, set_at, get_hash_bucket, get_hash_elem, memcmp_eq, bytes_eq,
  check_update_flags, new_elem, copy, put_key, put_value, link,
}
use generic_ebpf.Hashtable.Ops.{
  bucket_of, elem_of, put_all, replace_percpu, hashtable_map_update_elem_percpu,
  hashtable_map_update_elem_percpu_from_user, hashtable_map_delete_elem,
}
use generic_ebpf.Hashtable.Invariant.{IsValid}
use generic_ebpf.Hashtable.Percpu.{hashtable_map_update_elem_percpu_from_user-UpdatedPercpu}
use generic_ebpf.Hashtable.Recycled.{read_on, hashtable_map_update_elem_percpu_recycles}
use generic_ebpf.Tests.Tables.{first_byte, percpu_map, percpu_map-IsValid}

-- the map with 1, 2 on both CPUs for the key 7
abbrev held : Code × HashMap
held =
    elim (hashtable_map_update_elem_percpu_from_user first_byte percpu_map 2 (7 ∷ []) (1 ∷ 2 ∷ [])
      0) [ none ↦ (ok, percpu_map) | some r ↦ r ]

held_runs :
    hashtable_map_update_elem_percpu_from_user first_byte percpu_map 2 (7 ∷ []) (1 ∷ 2 ∷ []) 0
    ≡ some held
unfolding hashtable_map_update_elem_percpu_from_user replace_percpu new_elem ebpf_allocator_alloc
    elem_of bucket_of get_hash_bucket get_hash_elem check_update_flags
held_runs = refl

held-IsValid : IsValid first_byte 2 held.1
held-IsValid =
    let (r, runs, u) =
      hashtable_map_update_elem_percpu_from_user-UpdatedPercpu first_byte 2 2 percpu_map (7 ∷ [])
        (1 ∷ 2 ∷ []) 0 percpu_map-IsValid (omega arith) (omega arith) (omega arith) (omega arith) in
    rw (some-injective _ _ (sym held_runs ∙ runs)) u.valid

held_elem : elem_of first_byte held.1 (7 ∷ []) ≡ some 200
unfolding hashtable_map_update_elem_percpu_from_user replace_percpu new_elem ebpf_allocator_alloc
    elem_of bucket_of get_hash_bucket get_hash_elem check_update_flags link put_key put_value
    put_all percpu_offset copy set_at memcmp_eq bytes_eq
held_elem = refl

held_sizes :
    (held.1.percpu ≡ true)
    × (held.1.key_size ≡ 1)
    × (held.1.value_size ≡ 2)
    × (held.1.contents.value_size ≡ 8)
unfolding hashtable_map_update_elem_percpu_from_user replace_percpu new_elem ebpf_allocator_alloc
    elem_of bucket_of get_hash_bucket get_hash_elem check_update_flags link put_key put_value
    put_all percpu_offset copy set_at memcmp_eq bytes_eq
held_sizes = (refl, refl, refl, refl)

no_nine :
    elem_of first_byte (hashtable_map_delete_elem first_byte held.1 (7 ∷ [])).1 (9 ∷ []) ≡ none
unfolding hashtable_map_update_elem_percpu_from_user replace_percpu new_elem ebpf_allocator_alloc
    elem_of bucket_of get_hash_bucket get_hash_elem check_update_flags link put_key put_value
    put_all percpu_offset copy set_at memcmp_eq bytes_eq hashtable_map_delete_elem remove
    ebpf_allocator_free
no_nine = refl

unflagged : check_update_flags none 0 ≡ ok
unfolding check_update_flags
unflagged = refl

hashtable_map_update_elem_percpu_recycles_example :
    (r : HashMap) × (hashtable_map_update_elem_percpu first_byte
        (hashtable_map_delete_elem first_byte held.1 (7 ∷ [])).1
        0
        (9 ∷ [])
        (3 ∷ 4 ∷ [])
        0
      ≡ some (ok, r))
    × (read_on first_byte r 0 (9 ∷ []) ≡ some (take held.1.value_size (3 ∷ 4 ∷ [])))
    × ((other : ℕ)
        → other < 2
        → 0 ≢ other
        → read_on first_byte r other (9 ∷ []) ≡ read_on first_byte held.1 other (7 ∷ []))
hashtable_map_update_elem_percpu_recycles_example =
    hashtable_map_update_elem_percpu_recycles first_byte 2 held.1 held-IsValid
      (omega (arith, held_sizes.3)) held_sizes.0 0 (omega arith) (7 ∷ []) (9 ∷ []) (3 ∷ 4 ∷ []) 0
      (omega (arith, held_sizes.1)) (omega (arith, held_sizes.2)) 200 held_elem no_nine unflagged
