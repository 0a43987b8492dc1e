-- ===== src/Hashtable/Create.antt =====
-- Creating a plain hash table: `hashtable_map_init` of sys/dev/ebpf/ebpf_map_hashtable.c.
use generic_ebpf.Base.{
  ℕ, ◌+◌, ◌^◌, ◌<◌, ◌≤◌, ◌≡◌, ◌≢◌, inl, inr, refl, sym, ◌∙◌, ap, arith, true, false, Option, some,
  none, List, u32, ltb, le→ltb_false, Option-cases,
}
use mathlib.Core.Option.{some-injective}
use generic_ebpf.Map.{Code, Code-discrete, ok, enomem, MapAttr}
use generic_ebpf.Platform.{Platform, Regions}
use generic_ebpf.Util.{ebpf_roundup, ebpf_roundup_pow_of_two}
use generic_ebpf.Allocator.{Result, construct, ebpf_allocator_init}
use generic_ebpf.Allocator.Pool.{IsGood}
use generic_ebpf.Allocator.Spread.{ebpf_allocator_init-IsSpread}
use generic_ebpf.Hashtable.{HashTable}
use generic_ebpf.Hashtable.Drain.{deinit_full}
use generic_ebpf.Hashtable.Reserve.{reserve-Reserved}
use generic_ebpf.Hashtable.Lifecycle.{
  Blocks, table_of, err1, init_plain, hashtable_map_init, map_size, bucket_size,
}
use generic_ebpf.Hashtable.Fresh.{Made, table, table-IsValid, table-empty, table-entries}

-- The size that an element's part is rounded up to.
roundup-between : (n : ℕ) → n + 7 < 2 ^ 32 → (n ≤ ebpf_roundup n 8) × (ebpf_roundup n 8 ≤ n + 7)
unfolding ebpf_roundup
roundup-between n h = (omega arith, omega arith)

module _ {W : Type 0} (host : Platform W) (mem : Regions host) (page header ncpus : ℕ)
    (poke : ℕ → Option ℕ → W → W) (peek : ℕ → W → Option ℕ) (fits_page : page < 2 ^ 32)
    (hash : List ℕ → ℕ) (attr : MapAttr) (some_entries : 0 < attr.max_entries)
    (few_entries : attr.max_entries ≤ 2 ^ 31) (few_cpus : attr.max_entries + ncpus < 2 ^ 32)
    (sizes : attr.key_size + attr.value_size + header + 32 < 2 ^ 32) (linked : 8 ≤ header) where
  rounded : attr.value_size ≤ ebpf_roundup attr.value_size 8
  rounded = (roundup-between attr.value_size (omega (arith, sizes))).0

  abbrev Outcome : Type 0
  Outcome = Code × Option (Blocks × HashTable) × W

  abbrev block_size : ℕ
  block_size = u32 (ebpf_roundup attr.key_size 8 + ebpf_roundup attr.value_size 8 + header)

  abbrev new_pool : W → Option (Result W)
  new_pool w = ebpf_allocator_init host page none block_size (u32 (attr.max_entries + ncpus)) w

  fails : (c : Code) (w : W) → c ≢ ok → Made hash ncpus attr (c, none, w)
  fails c w ne = record { failure = λ h. ne; success = λ blocks t h. absurd (cc) }

  block_size-between : (8 ≤ block_size) × (block_size + 16 < 2 ^ 32)
  block_size-between =
      let (k, k') = roundup-between attr.key_size (omega (arith, sizes)) in
      let (v, v') = roundup-between attr.value_size (omega (arith, sizes)) in
      (omega (arith, linked, sizes), omega (arith, sizes))

  quiet : (addr : ℕ) (w : W) → host.live (construct host page none addr w).1 ≡ host.live w
  unfolding construct
  quiet addr w = refl

  keeps :
      (addr : ℕ) (w : W) (x : ℕ)
      → mem.held w x ≡ true
      → mem.held (construct host page none addr w).1 x ≡ true
  unfolding construct
  keeps addr w x h = h

  module _ (hash_map buckets : ℕ) (w : W) where
    abbrev Plain : Type 0
    Plain =
        (o : Outcome) × (init_plain host page header ncpus poke peek attr hash_map buckets w
          ≡ some o)
        × Made hash ncpus attr o

    module _ (r : Result W) (ran : new_pool w ≡ some r) where
      pool_failed : (c : Code) → r.code ≡ c → c ≢ ok → Plain
      unfolding init_plain
      pool_failed ok e ne = absurd (ne refl)
      pool_failed other e ne = (
        (other, none, err1 host page header ncpus poke peek hash_map buckets r.world),
        rw (init_plain, ran, e) refl,
        fails other _ ne,
      )

      module _ (k : r.code ≡ ok) (g : IsGood r.alloc) (n : r.alloc.count ≡ attr.max_entries + ncpus)
          (n' : r.alloc.nblocks ≡ attr.max_entries + ncpus) where
        no_spares : (host.calloc ncpus 8 r.world).0 ≡ none → Plain
        unfolding init_plain
        no_spares e =
            let w' = (host.calloc ncpus 8 r.world).1 in
            let (w'', d) = deinit_full host none r.alloc w' (n ∙ sym n') in
            (
              (enomem, none, err1 host page header ncpus poke peek hash_map buckets w''),
              rw (init_plain, ran, k, e, d) refl,
              fails enomem _ (λ h. cc),
            )

        spares : (extra : ℕ) → (host.calloc ncpus 8 r.world).0 ≡ some extra → Plain
        unfolding init_plain table_of
        spares extra e =
            let (s, run, f) = reserve-Reserved ncpus r.alloc g (omega arith) in
            let t =
              table host page header ncpus poke peek hash attr some_entries few_entries rounded s.0
                s.1 in
            (
              (
                ok,
                some (record { hash_map = hash_map; buckets = buckets; extra = some extra }, t),
                (host.calloc ncpus 8 r.world).1,
              ),
              rw (init_plain, ran, k, e, run) refl,
              record {
                failure = λ h. absurd (cc);
                success = λ blocks t' h.
                    let same : t ≡ t' = ap (λ x. x.1) (some-injective _ _ h) in
                    rw (sym same) (
                      refl,
                      table-IsValid host page header ncpus poke peek hash attr some_entries
                          few_entries rounded r.alloc g s f (n ∙ sym n'),
                      table-entries host page header ncpus poke peek hash attr some_entries
                          few_entries rounded s,
                      f.long,
                      f.same ∙ n',
                      table-empty host page header ncpus poke peek hash attr some_entries
                          few_entries rounded r.alloc g s f (n ∙ sym n'),
                    );
              },
            )

    init_plain-Made : Plain
    init_plain-Made =
        let wrap : u32 (attr.max_entries + ncpus) ≡ attr.max_entries + ncpus =
          omega (arith, few_cpus) in
        let (pos, wide) = block_size-between in
        let (r, ran, spread, good) =
          ebpf_allocator_init-IsSpread host mem page none keeps fits_page quiet block_size
            (u32 (attr.max_entries + ncpus)) w pos wide (omega (arith, some_entries))
            (omega arith) in
        elim (Code-discrete r.code ok) [
          | no ne ↦ pool_failed r ran r.code refl ne
          | yes k ↦
              let (g, n, n') = good k in
              elim (Option-cases (host.calloc ncpus 8 r.world).0) [
                | inl e ↦ no_spares r ran k g (n ∙ wrap) (n' ∙ wrap) e
                | inr (extra, e) ↦ spares r ran k g (n ∙ wrap) (n' ∙ wrap) extra e
              ]
        ]

  abbrev Creates : W → Type 0
  Creates w =
      (o : Outcome) × (hashtable_map_init host page header ncpus poke peek false attr w ≡ some o)
      × Made hash ncpus attr o

  sum_fits :
      ltb 4294967295 (u32 (ebpf_roundup attr.key_size 8 + ebpf_roundup attr.value_size 8) + header)
      ≡ false
  sum_fits =
      let (k, k') = roundup-between attr.key_size (omega (arith, sizes)) in
      let (v, v') = roundup-between attr.value_size (omega (arith, sizes)) in
      le→ltb_false 4294967295 _ (omega (arith, sizes))

  -- Creating a plain hash table is defined for 1 to 2 ^ 31 entries, when neither the number of
  -- blocks nor the size of a block wraps and a list entry is no smaller than a pointer, on a host
  -- whose new blocks overlap no others. It either fails with an error or gives a valid table, in
  -- which no key is found.
  pub hashtable_map_init-IsValid : (w : W) → Creates w
  unfolding hashtable_map_init
  hashtable_map_init-IsValid w =
      let (p, w₁) = host.calloc 1 map_size w in
      elim (Option-cases p) [
        | inl e ↦ (
          (enomem, none, w₁),
          rw (hashtable_map_init, sum_fits, e) refl,
          fails enomem w₁ (λ h. cc),
        )
        | inr (hash_map, e) ↦
            let (q, w₂) = host.calloc (ebpf_roundup_pow_of_two attr.max_entries) bucket_size w₁ in
            elim (Option-cases q) [
              | inl f ↦ (
                (enomem, none, host.free (some hash_map) w₂),
                rw (hashtable_map_init, sum_fits, e, f) refl,
                fails enomem _ (λ h. cc),
              )
              | inr (buckets, f) ↦
                  let (o, run, m) = init_plain-Made hash_map buckets w₂ in
                  (o, rw (hashtable_map_init, sum_fits, e, f) run, m)
            ]
      ]
