-- ===== src/Hashtable/Lifecycle.antt =====
-- Creation and destruction of the hash table. `header` is the size of the list entry at the start of
-- an element, which depends on the host; `poke` and `peek` write and read a pointer in the memory of
-- an element.
use generic_ebpf.Base.{
  ℕ, zero, suc, ◌+◌, ◌*◌, Bool, true, false, Option, some, none, List, [], ◌∷◌, ltb, if◌then◌else◌,
  ◌>>=◌, u32, zeros,
}
use generic_ebpf.Map.{Code, ok, enomem, e2big, MapAttr}
use generic_ebpf.Platform.{Platform}
use generic_ebpf.Util.{ebpf_roundup, ebpf_roundup_pow_of_two}
use generic_ebpf.Allocator.{
  Allocator, ebpf_allocator_alloc, ebpf_allocator_free, ebpf_allocator_init, ebpf_allocator_deinit,
}
use generic_ebpf.Hashtable.{HashTable}

-- The blocks that the table holds besides the segments of its allocator.
pub record Blocks : Type 0 where
  pub hash_map : ℕ
  pub buckets : ℕ
  pub extra : Option ℕ

-- `sizeof(struct ebpf_map_hashtable)` and `sizeof(struct hash_bucket)`, as far as they matter
abbrev pub map_size : ℕ
map_size = 96

abbrev pub bucket_size : ℕ
bucket_size = 16

-- The loop that reserves an element for each CPU; a NULL fails the assertion.
unfoldable pub reserve : ℕ → Allocator → Option (List ℕ × Allocator)
reserve zero a = some ([], a)
reserve (suc left) a = ebpf_allocator_alloc a >>= λ (p, a').
    p >>= λ elem. reserve left a' >>= λ (rest, a''). some (elem ∷ rest, a'')

-- The elements of a list go back to the allocator, from the first on.
unfoldable pub drain : List ℕ → Allocator → Allocator
drain [] a = a
drain (p ∷ l) a = drain l (ebpf_allocator_free a p)

-- The buckets from `i` on, `left` of them.
unfoldable pub drain_buckets : ℕ → ℕ → (ℕ → List ℕ) → Allocator → Allocator
unfolding drain
drain_buckets zero i buckets a = a
drain_buckets (suc left) i buckets a = drain_buckets left (i + 1) buckets (drain (buckets i) a)

-- The allocator after the elements of the table are back: the spare ones first.
unfoldable pub emptied : Bool → HashTable → Allocator
unfolding drain drain_buckets
emptied percpu t =
    drain_buckets t.nbuckets 0 t.buckets
      (if percpu then t.allocator else drain t.pcpu_extra_elems t.allocator)

module _ {W : Type 0} (host : Platform W) (page header ncpus : ℕ) (poke : ℕ → Option ℕ → W → W)
    (peek : ℕ → W → Option ℕ) where
  open host use {calloc, free}

  -- `key_size` and `value_size` are the rounded sizes.
  unfoldable pub percpu_elem_ctor : ℕ → ℕ → ℕ → W → Code × W
  percpu_elem_ctor key_size value_size mem w =
      let (p, w') = calloc ncpus value_size w in
      let w'' = poke (mem + header + key_size) p w' in
      elim p [ none ↦ (enomem, w'') | some v ↦ (ok, w'') ]

  unfoldable pub percpu_elem_dtor : ℕ → ℕ → W → W
  percpu_elem_dtor key_size mem w = free (peek (mem + header + key_size) w) w

  -- What the allocation of the elements leaves. Blocks start as zeros.
  unfoldable pub table_of : Bool → ℕ → ℕ → ℕ → List ℕ → Allocator → HashTable
  table_of percpu key_size value_size nbuckets extra a = record {
    key_size = key_size;
    value_size = value_size;
    nbuckets = nbuckets;
    buckets = λ i. [];
    pcpu_extra_elems = extra;
    allocator = a;
    heap = λ p. record {
      key = zeros key_size;
      values = zeros ((if percpu then ncpus else 1) * value_size);
    };
  }

  -- The paths `err1` and `err0`: the segments of the allocator stay.
  unfoldable pub err1 : ℕ → ℕ → W → W
  err1 hash_map buckets w = free (some hash_map) (free (some buckets) w)

  -- The per-CPU branch, after the buckets were made.
  unfoldable pub init_percpu : MapAttr → ℕ → ℕ → W → Option (Code × Option (Blocks × HashTable) × W)
  unfolding percpu_elem_ctor table_of err1
  init_percpu attr hash_map buckets w =
      let key_size = ebpf_roundup attr.key_size 8 in
      let value_size = ebpf_roundup attr.value_size 8 in
      ebpf_allocator_init host page (some (percpu_elem_ctor key_size value_size))
        (u32 (key_size + 8 + header)) attr.max_entries w
      >>= λ r. elim r.code [
        | ok ↦ some (
          ok,
          some (
            record { hash_map = hash_map; buckets = buckets; extra = none },
            table_of true key_size value_size (ebpf_roundup_pow_of_two attr.max_entries) [] r.alloc,
          ),
          r.world,
        )
        | error ↦ some (error, none, err1 hash_map buckets r.world)
      ]

  -- The other branch, with the reserved elements and the path `err2`.
  unfoldable pub init_plain : MapAttr → ℕ → ℕ → W → Option (Code × Option (Blocks × HashTable) × W)
  unfolding reserve table_of err1
  init_plain attr hash_map buckets w =
      let key_size = ebpf_roundup attr.key_size 8 in
      let value_size = ebpf_roundup attr.value_size 8 in
      ebpf_allocator_init host page none (u32 (key_size + value_size + header))
        (u32 (attr.max_entries + ncpus)) w
      >>= λ r. elim r.code [
        | ok ↦
            let (p, w') = calloc ncpus 8 r.world in
            elim p [
              | none ↦ ebpf_allocator_deinit host none r.alloc w' >>= λ w''.
                  some (enomem, none, err1 hash_map buckets w'')
              | some extra ↦ reserve ncpus r.alloc >>= λ (elems, a). some (
                ok,
                some (
                  record { hash_map = hash_map; buckets = buckets; extra = some extra },
                  table_of false key_size value_size (ebpf_roundup_pow_of_two attr.max_entries)
                      elems a,
                ),
                w',
              )
            ]
        | error ↦ some (error, none, err1 hash_map buckets r.world)
      ]

  -- The sum of the rounded sizes wraps before it is compared.
  unfoldable pub hashtable_map_init :
      Bool → MapAttr → W → Option (Code × Option (Blocks × HashTable) × W)
  unfolding init_percpu init_plain
  hashtable_map_init percpu attr w =
      if ltb 4294967295
        (u32 (ebpf_roundup attr.key_size 8 + ebpf_roundup attr.value_size 8) + header)
      then some (e2big, none, w)
      else let (p, w₁) = calloc 1 map_size w in
        elim p [
          | none ↦ some (enomem, none, w₁)
          | some hash_map ↦
              let (q, w₂) = calloc (ebpf_roundup_pow_of_two attr.max_entries) bucket_size w₁ in
              elim q [
                | none ↦ some (enomem, none, free (some hash_map) w₂)
                | some buckets ↦
                    if percpu
                    then init_percpu attr hash_map buckets w₂
                    else init_plain attr hash_map buckets w₂
              ]
        ]

  -- `none` is the failed assertion of `ebpf_allocator_deinit`.
  unfoldable pub hashtable_map_deinit : Bool → Blocks → HashTable → W → Option W
  unfolding emptied percpu_elem_dtor
  hashtable_map_deinit percpu blocks t w =
      let dtor : Option (ℕ → W → W) = if percpu then some (percpu_elem_dtor t.key_size) else none in
      ebpf_allocator_deinit host dtor (emptied percpu t) w >>= λ w'.
      let w'' = if percpu then w' else free blocks.extra w' in
      some (free (some blocks.hash_map) (free (some blocks.buckets) w''))
