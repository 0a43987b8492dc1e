-- ===== src/Api/Client.antt =====
-- What a caller of the functions of sys/dev/ebpf/ebpf_map.c can observe of a plain hash table.
use mathlib.Core.Option.{some-injective}
use generic_ebpf.Base.{
  ℕ, ◌+◌, ◌≤◌, ◌≡◌, inl, inr, refl, sym, ◌∙◌, ap, arith, false, some, none, List, [], ◌∷◌, ◌++◌,
  ltb, if◌then◌else◌, take, drop, length, length-take, write_bytes, Bool-cases, Option-cases,
}
use generic_ebpf.Map.{Code, ok, enoent, flag_exist}
use generic_ebpf.Hashtable.{HashMap, memcmp_eq}
use generic_ebpf.Hashtable.Ops.{
  elem_of, hashtable_map_lookup_elem_from_user, hashtable_map_update_elem,
  hashtable_map_delete_elem,
}
use generic_ebpf.Hashtable.Changes.{Updated, entries, growth}
use generic_ebpf.Hashtable.Stored.{hashtable_map_update_elem-Updated}
use generic_ebpf.Hashtable.Delete.{shrinkage, hashtable_map_delete_elem-Deleted}
use generic_ebpf.Api.{ebpf_map_lookup_elem_from_user, ebpf_map_update_elem, ebpf_map_delete_elem}
use generic_ebpf.Api.Types.{emt_hashtable, copy_out}
use generic_ebpf.Api.Calls.{
  Call, update, delete, lookup, Table, perform, run, update_reply, store, forget, answer, replay,
  Fits, AllFit,
}
use generic_ebpf.Api.Abstracts.{found, Abstracts, absent, present, elem_of-get, code_as}

-- A write at the start of a buffer.
write_bytes-front :
    (v value : List ℕ)
    → length v ≤ length value
    → write_bytes value 0 v ≡ some (v ++ drop (length v) value)
unfolding write_bytes
write_bytes-front [] value h = refl
write_bytes-front (x ∷ v) [] h = absurd (omega arith)
write_bytes-front (x ∷ v) (y ∷ value) h = rw (write_bytes-front v value (omega arith)) refl

module _ (hash : List ℕ → ℕ) (key_size value_size capacity ncpus : ℕ) where
  module _ (m : HashMap) (s : Table)
      (a : Abstracts hash key_size value_size capacity ncpus m s) where
    abbrev Steps : Call → Type 0
    Steps c =
        (m' : HashMap) × (perform hash c (some m)
          ≡ some ((answer key_size value_size capacity c s).0, some m'))
        × Abstracts hash key_size value_size capacity ncpus m'
            (answer key_size value_size capacity c s).1

    lookup-Steps :
        (cpu : ℕ) (key value : List ℕ) → value_size ≤ length value → Steps (lookup cpu key value)
    unfolding perform answer ebpf_map_lookup_elem_from_user emt_hashtable copy_out
    lookup-Steps cpu key value room = elim (Option-cases (s.get key)) [
      | inl g ↦
          let r : hashtable_map_lookup_elem_from_user hash m key ≡ (enoent, []) =
            a.reads key ∙ ap found g in
          (m, rw (r, answer, g) refl, rw (answer, g) a)
      | inr (v, g) ↦
          let r : hashtable_map_lookup_elem_from_user hash m key ≡ (ok, v) =
            a.reads key ∙ ap found g in
          let w = write_bytes-front v value (omega (arith, a.long key v g)) in
          (m, rw (r, w, answer, g) refl, rw (answer, g) a)
    ]

    same_key : (key k : List ℕ) → memcmp_eq m.key_size key k ≡ memcmp_eq key_size key k
    same_key key k = ap (λ n. memcmp_eq n key k) a.keys

    forget-reads :
        (key k : List ℕ)
        → (if memcmp_eq m.key_size key k
            then (enoent, [])
            else hashtable_map_lookup_elem_from_user hash m k)
          ≡ found ((forget key_size value_size capacity key s).get k)
    unfolding forget
    forget-reads key k = elim (Bool-cases (memcmp_eq key_size key k)) [
      | inl e ↦ rw (same_key key k ∙ e, e) refl
      | inr e ↦ rw (same_key key k ∙ e, e) (a.reads k)
    ]

    forget-long :
        (key k v : List ℕ)
        → (forget key_size value_size capacity key s).get k ≡ some v
        → length v ≡ value_size
    unfolding forget
    forget-long key k v h = elim (Bool-cases (memcmp_eq key_size key k)) [
      | inl e ↦ absurd (cc)
      | inr e ↦ a.long k v (sym (rw e refl) ∙ h)
    ]

    forget-size :
        (key : List ℕ) (n : ℕ)
        → n + shrinkage (elem_of hash m key) ≡ entries m
        → n ≡ (forget key_size value_size capacity key s).size
    unfolding forget shrinkage
    forget-size key n h = elim (elem_of-get hash key_size value_size capacity ncpus m s key a) [
      | absent e g ↦
          let z : shrinkage (elem_of hash m key) ≡ 0 = rw e refl in
          rw g (omega (arith, h, a.size, z))
      | present p v e g ↦
          let z : shrinkage (elem_of hash m key) ≡ 1 = rw e refl in
          rw g (omega (arith, h, a.size, z))
    ]

    delete-Steps : (cpu : ℕ) (key : List ℕ) → Steps (delete cpu key)
    unfolding perform answer ebpf_map_delete_elem emt_hashtable
    delete-Steps cpu key =
        let r = hashtable_map_delete_elem hash m key in
        let d = hashtable_map_delete_elem-Deleted hash 1 m key a.valid in
        (
          r.1,
          ap (λ c. some ((c, none), some r.1)) d.code,
          record {
            valid = d.valid;
            keys = d.sizes.0 ∙ a.keys;
            values = d.sizes.1 ∙ a.values;
            size = forget-size key (entries r.1) d.shrinks;
            blocks = d.nblocks ∙ a.blocks;
            spares = d.spares ∙ a.spares;
            reads = λ k. d.gone k ∙ forget-reads key k;
            long = forget-long key;
          },
        )

    store-reads :
        (key value k : List ℕ)
        → (if memcmp_eq m.key_size key k
            then (ok, take m.value_size value)
            else hashtable_map_lookup_elem_from_user hash m k)
          ≡ found ((store key_size value_size capacity key value s).get k)
    unfolding store
    store-reads key value k = elim (Bool-cases (memcmp_eq key_size key k)) [
      | inl e ↦ rw (same_key key k ∙ e, e) (ap (λ n. (ok, take n value)) a.values)
      | inr e ↦ rw (same_key key k ∙ e, e) (a.reads k)
    ]

    store-long :
        (key value k v : List ℕ)
        → value_size ≤ length value
        → (store key_size value_size capacity key value s).get k ≡ some v
        → length v ≡ value_size
    unfolding store
    store-long key value k v room h = elim (Bool-cases (memcmp_eq key_size key k)) [
      | inl e ↦
          let q : take value_size value ≡ v = some-injective _ _ (sym (rw e refl) ∙ h) in
          rw (sym q) (omega (arith, length-take value_size value))
      | inr e ↦ a.long k v (sym (rw e refl) ∙ h)
    ]

    store-size :
        (key value : List ℕ) (n : ℕ)
        → n ≡ entries m + growth ok (elem_of hash m key)
        → n ≡ (store key_size value_size capacity key value s).size
    unfolding store growth
    store-size key value n h =
        elim (elem_of-get hash key_size value_size capacity ncpus m s key a) [
          | absent e g ↦
              let z : growth ok (elem_of hash m key) ≡ 1 = rw e refl in
              rw g (omega (arith, h, a.size, z))
          | present p v e g ↦
              let z : growth ok (elem_of hash m key) ≡ 0 = rw e refl in
              rw g (omega (arith, h, a.size, z))
        ]

    module _ (cpu : ℕ) (key value : List ℕ) (flags : ℕ) (small : ltb flag_exist flags ≡ false)
        (room : value_size ≤ length value) (r : Code × HashMap)
        (ran : hashtable_map_update_elem hash m cpu key value flags ≡ some r)
        (u : Updated hash m key value flags r) where
      abbrev reply : Code
      reply = update_reply key_size value_size capacity (s.get key) flags s.size

      code_here : r.0 ≡ reply
      code_here = u.code ∙ code_as hash key_size value_size capacity ncpus m s a key flags

      stored-Abstracts :
          r.0 ≡ ok
          → Abstracts hash key_size value_size capacity ncpus r.1
              (store key_size value_size capacity key value s)
      stored-Abstracts k = record {
        valid = u.valid;
        keys = u.sizes.0 ∙ a.keys;
        values = u.sizes.1 ∙ a.values;
        size =
            store-size key value (entries r.1)
              (u.grows ∙ ap (λ c. entries m + growth c (elem_of hash m key)) k);
        blocks = u.nblocks ∙ a.blocks;
        spares = u.spares ∙ a.spares;
        reads = λ q. u.stored k q ∙ store-reads key value q;
        long = λ q v. store-long key value q v room;
      }

      after_code :
          (c : Code)
          → reply ≡ c
          → Abstracts hash key_size value_size capacity ncpus r.1
              (elim c [ ok ↦ store key_size value_size capacity key value s | error ↦ s ])
      after_code ok e = stored-Abstracts (code_here ∙ e)
      after_code other e = rw (u.refused (λ h. let q = sym (code_here ∙ e) ∙ h in cc)) a

      update-ran : Steps (update cpu key value flags)
      unfolding perform answer ebpf_map_update_elem emt_hashtable
      update-ran = (
        r.1,
        rw (small, ran) (ap (λ c. some ((c, none), some r.1)) code_here),
        rw small (after_code reply refl),
      )

    update-Steps :
        (cpu : ℕ) (key value : List ℕ) (flags : ℕ)
        → Fits key_size value_size ncpus (update cpu key value flags)
        → Steps (update cpu key value flags)
    unfolding perform answer ebpf_map_update_elem emt_hashtable Fits
    update-Steps cpu key value flags (range, enough_key, room) =
        elim (Bool-cases (ltb flag_exist flags)) [
          | inl e ↦ (m, rw e refl, rw e a)
          | inr e ↦
              let (r, ran, u) =
                hashtable_map_update_elem-Updated hash m cpu key value flags a.valid
                  (omega (arith, enough_key, a.keys)) (omega (arith, room, a.values))
                  (omega (arith, range, a.spares)) in
              update-ran cpu key value flags e room r ran u
        ]

    perform-Steps : (c : Call) → Fits key_size value_size ncpus c → Steps c
    unfolding Fits
    perform-Steps (update cpu key value flags) f = update-Steps cpu key value flags f
    perform-Steps (delete cpu key) f = delete-Steps cpu key
    perform-Steps (lookup cpu key value) f = lookup-Steps cpu key value f.1

  -- Any sequence of updates, deletions and lookups through the functions on maps is defined on a
  -- plain hash table, and each call returns what it returns on the abstract table that the map stands
  -- for: a function on keys with a bounded number of entries. The map then stands for what that table
  -- has become. The keys and values must be as long as the map's sizes, and the CPUs in range.
  pub run-replay :
      (calls : List Call) (m : HashMap) (s : Table)
      → Abstracts hash key_size value_size capacity ncpus m s
      → AllFit key_size value_size ncpus calls
      → (m' : HashMap) × (run hash calls (some m)
          ≡ some ((replay key_size value_size capacity calls s).0, some m'))
        × Abstracts hash key_size value_size capacity ncpus m'
            (replay key_size value_size capacity calls s).1
  unfolding run replay AllFit
  run-replay [] m s a f = (m, refl, a)
  run-replay (c ∷ calls) m s a (f, fs) =
      let (m', ran, b) = perform-Steps m s a c f in
      let t = answer key_size value_size capacity c s in
      let (m'', rest, d) = run-replay calls m' t.1 b fs in (m'', rw (ran, rest) refl, d)
