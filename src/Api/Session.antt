-- ===== src/Api/Session.antt =====
-- The life of a plain hash table: its creation, calls on it, and its destruction.
use generic_ebpf.Base.{ℕ, ◌+◌, ◌^◌, ◌<◌, ◌≤◌, ◌≡◌, refl, false, Option, some, List}
use generic_ebpf.Map.{Code, MapAttr}
use generic_ebpf.Platform.{Platform, Regions}
use generic_ebpf.Hashtable.{HashTable, HashMap}
use generic_ebpf.Hashtable.Lifecycle.{Blocks, hashtable_map_init, hashtable_map_deinit}
use generic_ebpf.Hashtable.Fresh.{plain_map}
use generic_ebpf.Hashtable.Create.{hashtable_map_init-IsValid}
use generic_ebpf.Hashtable.Drain.{hashtable_map_deinit_defined}
use generic_ebpf.Api.Calls.{Call, empty, run, replay, AllFit}
use generic_ebpf.Api.Abstracts.{Abstracts}
use generic_ebpf.Api.Client.{run-replay}

-- The calls on a table behave as those on an abstract table that is empty at first and has room for
-- `max_entries` entries, and the table that they leave can be destroyed.
abbrev pub Serves :
    {W : Type 0}
    → Platform W
    → ℕ
    → ℕ
    → ℕ
    → (ℕ → Option ℕ → W → W)
    → (ℕ → W → Option ℕ)
    → (List ℕ → ℕ)
    → MapAttr
    → List Call
    → Blocks
    → HashTable
    → Type 0
Serves {W} host page header ncpus poke peek hash attr calls blocks t =
    (m : HashMap) × (run hash calls (some (plain_map attr t))
      ≡ some ((replay attr.key_size attr.value_size attr.max_entries calls empty).0, some m))
    × ((w : W)
        → (w' : W) × (hashtable_map_deinit host page header ncpus poke peek false blocks m.contents
              w
            ≡ some w'))

module _ {W : Type 0} (host : Platform W) (mem : Regions host) (page header ncpus : ℕ)
    (poke : ℕ → Option ℕ → W → W) (peek : ℕ → W → Option ℕ) (fits_page : page < 2 ^ 32)
    (hash : List ℕ → ℕ) (attr : MapAttr) (some_entries : 0 < attr.max_entries)
    (few_entries : attr.max_entries ≤ 2 ^ 31) (few_cpus : attr.max_entries + ncpus < 2 ^ 32)
    (sizes : attr.key_size + attr.value_size + header + 32 < 2 ^ 32) (linked : 8 ≤ header) where
  -- A plain hash table of 1 to 2 ^ 31 entries, created where neither the number of blocks nor the
  -- size of a block wraps and a list entry is no smaller than a pointer, on a host whose new blocks
  -- overlap no others: the creation is defined, and if it gives a table, then any sequence of updates, deletions and lookups on it, with buffers
  -- that are long enough and CPUs that are there, returns what an abstract table returns that is
  -- empty at first and has room for `max_entries` entries, whatever the hash function; and after
  -- them the table can be destroyed without a failed assertion.
  pub session-Serves :
      (calls : List Call)
      → AllFit attr.key_size attr.value_size ncpus calls
      → (w : W)
      → (o : Code × Option (Blocks × HashTable) × W) × (hashtable_map_init host page header ncpus
            poke peek false attr w
          ≡ some o)
        × ((blocks : Blocks) (t : HashTable)
            → o.1 ≡ some (blocks, t)
            → Serves host page header ncpus poke peek hash attr calls blocks t)
  session-Serves calls f w =
      let (o, ran, made) =
        hashtable_map_init-IsValid host mem page header ncpus poke peek fits_page hash attr
          some_entries few_entries few_cpus sizes linked w in
      (
        o,
        ran,
        λ blocks t e.
            let (k, v, n, spares, nblocks, gone) = made.success blocks t e in
            let a : Abstracts hash attr.key_size attr.value_size attr.max_entries ncpus
                (plain_map attr t) empty =
              record {
                valid = v;
                keys = refl;
                values = refl;
                size = n;
                blocks = nblocks;
                spares = spares;
                reads = gone;
                long = λ q x h. absurd (cc);
              } in
            let (m, run, b) =
              run-replay hash attr.key_size attr.value_size attr.max_entries ncpus calls
                (plain_map attr t) empty a f in
            (
              m,
              run,
              λ w'.
                  hashtable_map_deinit_defined host page header ncpus poke peek m.contents
                    b.valid.owned blocks w',
            ),
      )
