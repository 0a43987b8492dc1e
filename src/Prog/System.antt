-- ===== src/Prog/System.antt =====
-- A system of maps and programs as a relation: one step for each call that creates, attaches or
-- destroys.
use generic_ebpf.Base.{ℕ, ◌+◌, ◌-◌, ◌<◌, ◌≡◌, some, none, List, [], ◌∷◌, ◌++◌, replicate}
use generic_ebpf.Platform.{count}
use generic_ebpf.Map.{Code, ok}
use generic_ebpf.Env.{Obj, Envs, uint32_max, set_env, ebpf_obj_init}
use generic_ebpf.Prog.{
  Prog, Maps, max_attached, set_map, ebpf_prog_attach_map, release_map, ebpf_prog_destroy,
}
use generic_ebpf.Prog.Attach.{IsDense}
use generic_ebpf.Prog.Refs.{Refs}

-- A program, with the maps that are attached to it.
pub record Loaded : Type 0 where
  pub ep : Prog
  pub deps : List ℕ

-- The objects of the system, and the pointers to maps that callers of `ebpf_map_create` hold.
pub record System : Type 0 where
  pub envs : Envs
  pub maps : Maps
  pub progs : List Loaded
  pub handles : ℕ → ℕ

-- How often a map is attached.
unfoldable pub attached : ℕ → List Loaded → ℕ
attached em [] = 0
attached em (l ∷ progs) = count em l.deps + attached em progs

-- What an attachment with this code adds to the maps of a program.
unfoldable pub deps_after : Code → List ℕ → ℕ → List ℕ
deps_after ok deps em = deps ++ em ∷ []
deps_after error deps em = deps

-- One call. A caller attaches and destroys only maps that it holds a pointer to, and a map is
-- created at an address where there is none.
pub data Step : System → System → Type 0 where
  map_create :
      (s : System) (em ee : ℕ) (envs' : Envs) (o : Obj)
      → s.maps em ≡ none
      → ebpf_obj_init s.envs ee ≡ some (envs', o)
      → Step s (record s {
        envs = envs';
        maps = set_map s.maps em (some o);
        handles = set_env s.handles em 1;
      })
  map_destroy :
      (s : System) (em : ℕ) (envs' : Envs) (maps' : Maps)
      → 0 < s.handles em
      → release_map s.envs s.maps em ≡ some (envs', maps')
      → Step s (record s {
        envs = envs';
        maps = maps';
        handles = set_env s.handles em (s.handles em - 1);
      })
  prog_create :
      (s : System) (ee : ℕ) (envs' : Envs) (o : Obj)
      → ebpf_obj_init s.envs ee ≡ some (envs', o)
      → Step s (record s {
        envs = envs';
        progs =
            record {
              ep = record { eo = o; ndep_maps = 0; dep_maps = replicate max_attached none };
              deps = [];
            }
            ∷ s.progs;
      })
  attach_map :
      (s : System) (front back : List Loaded) (l : Loaded) (em : ℕ) (c : Code) (maps' : Maps)
      (ep' : Prog)
      → s.progs ≡ front ++ l ∷ back
      → 0 < s.handles em
      → ((o : Obj) → s.maps em ≡ some o → o.eo_ref < uint32_max)
      → ebpf_prog_attach_map s.maps l.ep em ≡ some (c, maps', ep')
      → Step s (record s {
        maps = maps';
        progs = front ++ record { ep = ep'; deps = deps_after c l.deps em } ∷ back;
      })
  prog_destroy :
      (s : System) (front back : List Loaded) (l : Loaded) (envs' : Envs) (maps' : Maps)
      → s.progs ≡ front ++ l ∷ back
      → ebpf_prog_destroy s.envs s.maps l.ep ≡ some (none, envs', maps')
      → Step s (record s { envs = envs'; maps = maps'; progs = front ++ back })

pub data Reach (s : System) : System → Type 0 where
  here : Reach s s
  next : {t u : System} → Reach s t → Step t u → Reach s u

-- The slots of each program are dense.
unfoldable pub AllDense : List Loaded → Type 0
AllDense [] = Unit
AllDense (l ∷ progs) = IsDense l.ep l.deps × AllDense progs

-- The counter of each map is the number of pointers to it that callers hold and of programs that it
-- is attached to.
pub record IsCounted (s : System) : Type 0 where
  pub counted : (em : ℕ) → Refs (s.maps em) (s.handles em + attached em s.progs)
  pub dense : AllDense s.progs
