-- ===== src/Tests/Arrays.antt =====
-- An array map of three elements of two bytes.
use mathlib.Core.Option.{some-injective}
use generic_ebpf.Base.{
  ℕ, zero, suc, ◌≤◌, ◌<◌, ◌≡◌, ◌≢◌, ◌==◌, refl, sym, ap, arith, false, if◌then◌else◌, some, none,
  List, [], ◌∷◌, length, read_bytes, zeros, length-zeros, ◌∙◌,
}
use generic_ebpf.Map.{ok, enomem, failed, MapAttr}
use generic_ebpf.Array.{Area, ArrayMap, area_at, array_map_init_percpu}
use generic_ebpf.Array.Ops.{elem_bytes, array_map_update_elem, array_map_lookup_elem_from_user}
use generic_ebpf.Array.Access.{IsValid, Stored, array_map_update_elem-Stored}
use generic_ebpf.Array.Laws.{
  array_map_update_elem-get, array_map_update_elem-alias, array_map_lookup-update,
}
use generic_ebpf.Array.Keys.{walk, count_up, walk-all}
use generic_ebpf.Array.Leak.{array_map_init_percpu-leaks}
use generic_ebpf.Tests.Host.{World, scarce, empty_world}

abbrev area : Area
area = record { block = 4096; bytes = 1 ∷ 2 ∷ 3 ∷ 4 ∷ 5 ∷ 6 ∷ [] }

abbrev triple : ArrayMap
triple = record {
  key_size = 4;
  value_size = 2;
  map_flags = 0;
  max_entries = 3;
  percpu = false;
  contents = record { ma = 64; areas = some area ∷ [] };
}

triple_sized : (i : ℕ) (a : Area) → area_at triple i ≡ some a → length a.bytes ≡ 6
triple_sized zero a h = ap (λ (b : Area). length b.bytes) (sym (some-injective _ _ h))
triple_sized (suc i) a h = absurd (cc)

triple-IsValid : IsValid triple
triple-IsValid = record {
  value_size_pos = omega arith;
  value_size_fits = omega arith;
  max_entries_fits = omega arith;
  areas_sized = triple_sized;
}

array_map_update_elem-Stored_example :
    (v : List ℕ) × (em' : ArrayMap) × (read_bytes (8 ∷ 9 ∷ []) 0 2 ≡ some v)
    × (array_map_update_elem triple 1 (8 ∷ 9 ∷ []) 0 ≡ some (ok, em'))
    × Stored triple 0 1 v em'
array_map_update_elem-Stored_example =
    array_map_update_elem-Stored triple triple-IsValid area refl 1 (omega arith) (8 ∷ 9 ∷ [])
      (omega arith) 0 refl

array_map_update_elem-get_example :
    (v : List ℕ) × (em' : ArrayMap) × (read_bytes (8 ∷ 9 ∷ []) 0 2 ≡ some v)
    × (array_map_update_elem triple 1 (8 ∷ 9 ∷ []) 0 ≡ some (ok, em'))
    × ((q : ℕ) → q < 3 → elem_bytes em' 0 q ≡ (if 1 == q then some v else elem_bytes triple 0 q))
array_map_update_elem-get_example =
    array_map_update_elem-get triple triple-IsValid area refl 1 (omega arith) (8 ∷ 9 ∷ [])
      (omega arith) 0 refl (omega arith)

array_map_lookup-update_example :
    (em' : ArrayMap) × (out' : List ℕ) × (array_map_update_elem triple 1 (8 ∷ 9 ∷ []) 0
      ≡ some (ok, em'))
    × (array_map_lookup_elem_from_user em' 1 (0 ∷ 0 ∷ []) ≡ some (ok, out'))
    × (read_bytes out' 0 2 ≡ read_bytes (8 ∷ 9 ∷ []) 0 2)
array_map_lookup-update_example =
    array_map_lookup-update triple triple-IsValid area refl 1 (omega arith) (8 ∷ 9 ∷ [])
      (omega arith) 0 refl (0 ∷ 0 ∷ []) (omega arith)

-- three elements of 2 ^ 31 bytes: the offsets of the first and the last are the same
abbrev wide_area : Area
wide_area = record { block = 4096; bytes = zeros 6442450944 }

abbrev wide : ArrayMap
wide = record {
  key_size = 4;
  value_size = 2147483648;
  map_flags = 0;
  max_entries = 3;
  percpu = false;
  contents = record { ma = 64; areas = some wide_area ∷ [] };
}

wide_sized : (i : ℕ) (a : Area) → area_at wide i ≡ some a → length a.bytes ≡ 6442450944
wide_sized zero a h =
    ap (λ (b : Area). length b.bytes) (sym (some-injective _ _ h)) ∙ length-zeros 6442450944
wide_sized (suc i) a h = absurd (cc)

wide-IsValid : IsValid wide
wide-IsValid = record {
  value_size_pos = omega arith;
  value_size_fits = omega arith;
  max_entries_fits = omega arith;
  areas_sized = wide_sized;
}

long_value : 2147483648 ≤ length (zeros 2147483648)
long_value = omega (arith, length-zeros 2147483648)

array_map_update_elem-alias_example :
    (v : List ℕ) × (em' : ArrayMap) × (read_bytes (zeros 2147483648) 0 2147483648 ≡ some v)
    × (array_map_update_elem wide 0 (zeros 2147483648) 0 ≡ some (ok, em'))
    × (◌≢◌ {A = ℕ} 2 0)
    × (elem_bytes em' 0 2 ≡ some v)
array_map_update_elem-alias_example =
    array_map_update_elem-alias wide wide-IsValid wide_area refl 0 (omega arith) (zeros 2147483648)
      long_value 0 refl 2 1 (omega arith) (omega arith) refl

walk-all_example : walk triple 4 none ≡ some (count_up 0 3)
walk-all_example = walk-all triple (omega arith) (omega arith)

abbrev attr : MapAttr
attr = record { type_id = 0; key_size = 4; value_size = 2; max_entries = 3; flags = 0 }

array_map_init_percpu-leaks_example :
    (w : World) × (array_map_init_percpu scarce 2 attr empty_world ≡ (failed enomem, w))
    × (w.held ≡ 8192 ∷ [])
array_map_init_percpu-leaks_example =
    array_map_init_percpu-leaks scarce attr empty_world 4096 8192 (λ h. omega (arith, h)) refl refl
      refl
