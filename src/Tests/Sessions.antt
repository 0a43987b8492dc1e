-- ===== src/Tests/Sessions.antt =====
-- A plain hash table from its creation to its destruction.
use generic_ebpf.Base.{ℕ, ◌<◌, ◌≤◌, ◌≡◌, refl, arith, false, Option, some, none, List, [], ◌∷◌}
use generic_ebpf.Map.{Code, MapAttr, enoent, ok, ebusy}
use generic_ebpf.Hashtable.{HashTable, HashMap, get_hash_elem, memcmp_eq, bytes_eq}
use generic_ebpf.Hashtable.Ops.{elem_of, hashtable_map_lookup_elem_from_user}
use generic_ebpf.Hashtable.Lookup.{lookup_none}
use generic_ebpf.Hashtable.Invariant.{total}
use generic_ebpf.Hashtable.Lifecycle.{Blocks, hashtable_map_init}
use generic_ebpf.Hashtable.Fresh.{Made}
use generic_ebpf.Hashtable.Create.{hashtable_map_init-IsValid}
use generic_ebpf.Api.Calls.{
  Call, update, delete, lookup, empty, run, replay, answer, update_reply, store, forget, AllFit,
  Fits,
}
use generic_ebpf.Api.Abstracts.{Abstracts}
use generic_ebpf.Api.Client.{run-replay}
use generic_ebpf.Api.Session.{Serves, session-Serves}
use generic_ebpf.Tests.Host.{World, linear, linear_regions, empty_world}
use generic_ebpf.Tests.Tables.{first_byte, small_map, small_map-IsValid}

abbrev attr : MapAttr
attr = record { type_id = 2; key_size = 1; value_size = 2; max_entries = 2; flags = 0 }

-- a third key finds no room, and a deletion makes some
abbrev calls : List Call
calls =
    update 0 (7 ∷ []) (1 ∷ 2 ∷ []) 0
    ∷ update 0 (8 ∷ []) (3 ∷ 4 ∷ []) 1
    ∷ update 0 (9 ∷ []) (5 ∷ 6 ∷ []) 0
    ∷ delete 0 (7 ∷ [])
    ∷ update 0 (9 ∷ []) (5 ∷ 6 ∷ []) 0
    ∷ lookup 0 (9 ∷ []) (0 ∷ 0 ∷ 0 ∷ [])
    ∷ []

calls-AllFit : AllFit 1 2 1 calls
unfolding AllFit Fits
calls-AllFit =
    let fits : (◌<◌ 0 1) × (◌≤◌ 1 1) × (◌≤◌ 2 2) = (omega arith, omega arith, omega arith) in
    (fits, (fits, (fits, (omega arith, (fits, ((omega arith, omega arith), tt))))))

-- what the calls return
replies :
    (replay 1 2 2 calls empty).0
    ≡ (ok, none)
      ∷ (ok, none)
      ∷ (ebusy, none)
      ∷ (ok, none)
      ∷ (ok, none)
      ∷ (ok, some (5 ∷ 6 ∷ 0 ∷ []))
      ∷ []
unfolding replay answer update_reply store forget memcmp_eq bytes_eq
replies = refl

nothing_there :
    (k : List ℕ) → hashtable_map_lookup_elem_from_user first_byte small_map k ≡ (enoent, [])
unfolding elem_of get_hash_elem
nothing_there k = lookup_none first_byte small_map k refl

small_map-Abstracts : Abstracts first_byte 1 2 2 1 small_map empty
unfolding total
small_map-Abstracts = record {
  valid = small_map-IsValid;
  keys = refl;
  values = refl;
  size = refl;
  blocks = refl;
  spares = refl;
  reads = nothing_there;
  long = λ k v h. absurd (cc);
}

run-replay_example :
    (m : HashMap) × (run first_byte calls (some small_map)
      ≡ some ((replay 1 2 2 calls empty).0, some m))
    × Abstracts first_byte 1 2 2 1 m (replay 1 2 2 calls empty).1
run-replay_example =
    run-replay first_byte 1 2 2 1 calls small_map empty small_map-Abstracts calls-AllFit

hashtable_map_init-IsValid_example :
    (o : Code × Option (Blocks × HashTable) × World) × (hashtable_map_init linear 4096 16 1
        (λ a p w. w)
        (λ a w. none)
        false
        attr
        empty_world
      ≡ some o)
    × Made first_byte 1 attr o
hashtable_map_init-IsValid_example =
    hashtable_map_init-IsValid linear linear_regions 4096 16 1 (λ a p w. w) (λ a w. none)
      (omega arith) first_byte attr (omega arith) (omega arith) (omega arith) (omega arith)
      (omega arith) empty_world

session-Serves_example :
    (o : Code × Option (Blocks × HashTable) × World) × (hashtable_map_init linear 4096 16 1
        (λ a p w. w)
        (λ a w. none)
        false
        attr
        empty_world
      ≡ some o)
    × ((blocks : Blocks) (t : HashTable)
        → o.1 ≡ some (blocks, t)
        → Serves linear 4096 16 1 (λ a p w. w) (λ a w. none) first_byte attr calls blocks t)
session-Serves_example =
    session-Serves linear linear_regions 4096 16 1 (λ a p w. w) (λ a w. none) (omega arith)
      first_byte attr (omega arith) (omega arith) (omega arith) (omega arith) (omega arith) calls
      calls-AllFit empty_world
