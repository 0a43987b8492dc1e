-- ===== src/Api/Calls.antt =====
-- Calls of the functions of sys/dev/ebpf/ebpf_map.c on a plain hash table, and what they would do on
-- an abstract table: a function on keys that counts its entries and holds a bounded number of them.
use generic_ebpf.Base.{
  ℕ, ◌+◌, ◌-◌, ◌<◌, ◌≤◌, Option, some, none, List, [], ◌∷◌, ◌++◌, ◌==◌, ltb, if◌then◌else◌, ◌>>=◌,
  take, drop, length,
}
use generic_ebpf.Map.{Code, ok, einval, ebusy, eexist, enoent, flag_exist, has_noexist, has_exist}
use generic_ebpf.Hashtable.{HashMap, memcmp_eq}
use generic_ebpf.Api.{ebpf_map_lookup_elem_from_user, ebpf_map_update_elem, ebpf_map_delete_elem}
use generic_ebpf.Api.Types.{emt_hashtable}

-- Each call runs on the CPU with the given number; a lookup is given the buffer to copy to.
pub data Call : Type 0 where
  update : ℕ → List ℕ → List ℕ → ℕ → Call
  delete : ℕ → List ℕ → Call
  lookup : ℕ → List ℕ → List ℕ → Call

-- The code of a call, and the buffer of a lookup after it.
abbrev pub Reply : Type 0
Reply = Code × Option (List ℕ)

module _ (hash : List ℕ → ℕ) where
  unfoldable pub perform : Call → Option HashMap → Option (Reply × Option HashMap)
  perform (update cpu key value flags) m =
      ebpf_map_update_elem (emt_hashtable hash cpu) m (some key) (some value) flags >>= λ (c, m').
      some ((c, none), m')
  perform (delete cpu key) m =
      let (c, m') = ebpf_map_delete_elem (emt_hashtable hash cpu) m (some key) in
      some ((c, none), m')
  perform (lookup cpu key value) m =
      ebpf_map_lookup_elem_from_user (emt_hashtable hash cpu) m (some key) (some value) >>= λ r.
      some (r, m)

  unfoldable pub run : List Call → Option HashMap → Option (List Reply × Option HashMap)
  unfolding perform
  run [] m = some ([], m)
  run (c ∷ calls) m = perform c m >>= λ (r, m'). run calls m' >>= λ (rs, m''). some (r ∷ rs, m'')

-- The abstract table.
pub record Table : Type 0 where
  pub get : List ℕ → Option (List ℕ)
  pub size : ℕ

abbrev pub empty : Table
empty = record { get = λ k. none; size = 0 }

-- The sizes of keys and values, and the number of entries that there is room for.
module _ (key_size value_size capacity : ℕ) where
  unfoldable pub update_reply : Option (List ℕ) → ℕ → ℕ → Code
  update_reply (some v) flags size = if has_noexist flags then eexist else ok
  update_reply none flags size =
      if has_exist flags then enoent else if size == capacity then ebusy else ok

  -- one more for a new key
  unfoldable pub store : List ℕ → List ℕ → Table → Table
  store key value s = record {
    get = λ k. if memcmp_eq key_size key k then some (take value_size value) else s.get k;
    size = elim (s.get key) [ none ↦ s.size + 1 | some v ↦ s.size ];
  }

  unfoldable pub forget : List ℕ → Table → Table
  forget key s = record {
    get = λ k. if memcmp_eq key_size key k then none else s.get k;
    size = elim (s.get key) [ none ↦ s.size | some v ↦ s.size - 1 ];
  }

  unfoldable pub answer : Call → Table → Reply × Table
  unfolding update_reply store forget
  answer (update cpu key value flags) s =
      if ltb flag_exist flags
      then ((einval, none), s)
      else let c = update_reply (s.get key) flags s.size in
        ((c, none), elim c [ ok ↦ store key value s | error ↦ s ])
  answer (delete cpu key) s = ((ok, none), forget key s)
  answer (lookup cpu key value) s = elim (s.get key) [
    | none ↦ ((enoent, some value), s)
    | some v ↦ ((ok, some (v ++ drop (length v) value)), s)
  ]

  unfoldable pub replay : List Call → Table → List Reply × Table
  unfolding answer
  replay [] s = ([], s)
  replay (c ∷ calls) s =
      let (r, s') = answer c s in let (rs, s'') = replay calls s' in (r ∷ rs, s'')

-- The calls that stay inside of their buffers, on CPUs that are there.
unfoldable pub Fits : ℕ → ℕ → ℕ → Call → Type 0
Fits key_size value_size ncpus (update cpu key value flags) =
    (cpu < ncpus) × (key_size ≤ length key) × (value_size ≤ length value)
Fits key_size value_size ncpus (delete cpu key) = key_size ≤ length key
Fits key_size value_size ncpus (lookup cpu key value) =
    (key_size ≤ length key) × (value_size ≤ length value)

-- All calls of a list do.
unfoldable pub AllFit : ℕ → ℕ → ℕ → List Call → Type 0
unfolding Fits
AllFit key_size value_size ncpus [] = Unit
AllFit key_size value_size ncpus (c ∷ calls) =
    Fits key_size value_size ncpus c × AllFit key_size value_size ncpus calls
