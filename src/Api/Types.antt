-- ===== src/Api/Types.antt =====
-- The operations of the four map types: `emt_array` and `emt_percpu_array` of
-- sys/dev/ebpf/ebpf_map_array.c, `emt_hashtable` and `emt_percpu_hashtable` of
-- sys/dev/ebpf/ebpf_map_hashtable.c. `cpu` is `ebpf_curcpu()`, and integers in buffers are
-- little-endian.
use generic_ebpf.Base.{
  ℕ, ◌+◌, ◌*◌, ◌/◌, ◌%◌, Option, some, none, List, [], ◌∷◌, u32, ◌>>=◌, read_bytes, write_bytes,
}
use generic_ebpf.Map.{Code, ok, enoent}
use generic_ebpf.Array.{ArrayMap}
use generic_ebpf.Array.Ops.{
  array_map_lookup_elem, array_map_lookup_elem_percpu, array_map_lookup_elem_from_user,
  array_map_lookup_elem_percpu_from_user, array_map_update_elem, array_map_update_elem_percpu,
  array_map_update_elem_percpu_from_user, array_map_delete_elem, array_map_get_next_key,
}
use generic_ebpf.Hashtable.{HashMap}
use generic_ebpf.Hashtable.Ops.{
  hashtable_map_lookup_elem, hashtable_map_lookup_elem_from_user,
  hashtable_map_lookup_elem_percpu_from_user, hashtable_map_update_elem,
  hashtable_map_update_elem_percpu, hashtable_map_update_elem_percpu_from_user,
  hashtable_map_delete_elem, hashtable_map_get_next_key,
}
use generic_ebpf.Api.{MapOps}

number_of : List ℕ → ℕ
number_of [] = 0
number_of (b ∷ bs) = b % 256 + 256 * number_of bs

-- `*(uint32_t *)key`
unfoldable pub key_of : List ℕ → Option ℕ
unfolding number_of
key_of key = read_bytes key 0 4 >>= λ bs. some (number_of bs)

-- the bytes of a `uint32_t`
unfoldable pub bytes_of : ℕ → List ℕ
bytes_of k = k % 256 ∷ k / 256 % 256 ∷ k / 65536 % 256 ∷ k / 16777216 % 256 ∷ []

-- A NULL key, or the number that the buffer holds.
unfoldable pub given_key : Option (List ℕ) → Option (Option ℕ)
unfolding key_of
given_key none = some none
given_key (some key) = key_of key >>= λ k. some (some k)

unfoldable pub array_next_key : ArrayMap → Option (List ℕ) → List ℕ → Option (Code × List ℕ)
unfolding given_key bytes_of
array_next_key em key next_key = given_key key >>= λ k.
    let (c, next) = array_map_get_next_key em k in
    elim next [
      | none ↦ some (c, next_key)
      | some n ↦ write_bytes next_key 0 (bytes_of n) >>= λ next_key'. some (c, next_key')
    ]

-- A deletion does not read its key.
unfoldable pub emt_array : MapOps ArrayMap ℕ
unfolding key_of array_next_key
emt_array = record {
  lookup_elem = λ em key. key_of key >>= λ k. array_map_lookup_elem em k;
  update_elem = λ em key value flags. key_of key >>= λ k. array_map_update_elem em k value flags;
  delete_elem = λ em key. (array_map_delete_elem em 0, em);
  lookup_elem_from_user =
      λ em key value. key_of key >>= λ k. array_map_lookup_elem_from_user em k value;
  update_elem_from_user =
      λ em key value flags. key_of key >>= λ k. array_map_update_elem em k value flags;
  delete_elem_from_user = λ em key. (array_map_delete_elem em 0, em);
  get_next_key_from_user = array_next_key;
}

unfoldable pub emt_percpu_array : ℕ → ℕ → MapOps ArrayMap ℕ
unfolding key_of array_next_key
emt_percpu_array ncpus cpu = record {
  lookup_elem = λ em key. key_of key >>= λ k. array_map_lookup_elem_percpu cpu em k;
  update_elem =
      λ em key value flags. key_of key >>= λ k. array_map_update_elem_percpu cpu em k value flags;
  delete_elem = λ em key. (array_map_delete_elem em 0, em);
  lookup_elem_from_user =
      λ em key value. key_of key >>= λ k. array_map_lookup_elem_percpu_from_user ncpus em k value;
  update_elem_from_user = λ em key value flags.
      key_of key >>= λ k. array_map_update_elem_percpu_from_user ncpus em k value flags;
  delete_elem_from_user = λ em key. (array_map_delete_elem em 0, em);
  get_next_key_from_user = array_next_key;
}

-- The values are stored from CPU `i` on, at offsets that are products of 32 bits.
unfoldable pub copy_values : ℕ → ℕ → List (List ℕ) → List ℕ → Option (List ℕ)
copy_values size i [] value = some value
copy_values size i (v ∷ vs) value =
    write_bytes value (u32 (size * i)) v >>= λ value'. copy_values size (i + 1) vs value'

-- What a lookup copies out, stored to the buffer of the caller. An error stores nothing.
unfoldable pub copy_out : Code × List ℕ → List ℕ → Option (Code × List ℕ)
copy_out (ok, v) value = write_bytes value 0 v >>= λ value'. some (ok, value')
copy_out (error, v) value = some (error, value)

module _ (hash : List ℕ → ℕ) where
  unfoldable pub hashtable_next_key : HashMap → Option (List ℕ) → List ℕ → Option (Code × List ℕ)
  hashtable_next_key m key next_key = elim (hashtable_map_get_next_key hash m key) [
    | none ↦ some (enoent, next_key)
    | some k ↦ write_bytes next_key 0 k >>= λ next_key'. some (ok, next_key')
  ]

  unfoldable pub emt_hashtable : ℕ → MapOps HashMap (ℕ × ℕ)
  unfolding copy_out hashtable_next_key
  emt_hashtable cpu = record {
    lookup_elem = λ m key. some (hashtable_map_lookup_elem hash m cpu key);
    update_elem = λ m key value flags. hashtable_map_update_elem hash m cpu key value flags;
    delete_elem = λ m key. hashtable_map_delete_elem hash m key;
    lookup_elem_from_user =
        λ m key value. copy_out (hashtable_map_lookup_elem_from_user hash m key) value;
    update_elem_from_user =
        λ m key value flags. hashtable_map_update_elem hash m cpu key value flags;
    delete_elem_from_user = λ m key. hashtable_map_delete_elem hash m key;
    get_next_key_from_user = hashtable_next_key;
  }

  unfoldable pub emt_percpu_hashtable : ℕ → ℕ → MapOps HashMap (ℕ × ℕ)
  unfolding copy_values hashtable_next_key
  emt_percpu_hashtable ncpus cpu = record {
    lookup_elem = λ m key. some (hashtable_map_lookup_elem hash m cpu key);
    update_elem = λ m key value flags. hashtable_map_update_elem_percpu hash m cpu key value flags;
    delete_elem = λ m key. hashtable_map_delete_elem hash m key;
    lookup_elem_from_user = λ m key value.
        let (c, vs) = hashtable_map_lookup_elem_percpu_from_user hash m ncpus key in
        copy_values m.value_size 0 vs value >>= λ value'. some (c, value');
    update_elem_from_user = λ m key value flags.
        hashtable_map_update_elem_percpu_from_user hash m ncpus key value flags;
    delete_elem_from_user = λ m key. hashtable_map_delete_elem hash m key;
    get_next_key_from_user = hashtable_next_key;
  }
