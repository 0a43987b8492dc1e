-- ===== src/Tests/Systems.antt =====
-- A map and a program: creation, attachment, and destruction in the order that frees the map last.
use mathlib.Core.Option.{some-injective}
use generic_ebpf.Base.{refl, sym, arith, some, none, [], ◌∷◌, replicate, set}
use generic_ebpf.Map.{ok}
use generic_ebpf.Env.{
  Obj, set_env, ebpf_obj_init, ebpf_env_acquire, ebpf_refcount_acquire, ebpf_obj_acquire,
  ebpf_obj_drop, ebpf_refcount_release, ebpf_env_release,
}
use generic_ebpf.Prog.{
  max_attached, set_map, scan, ebpf_prog_attach_map, release_map, release_all, ebpf_prog_dtor,
  ebpf_prog_destroy,
}
use generic_ebpf.Prog.Refs.{Refs}
use generic_ebpf.Prog.System.{
  Loaded, System, attached, deps_after, Step, map_create, prog_create, attach_map, map_destroy,
  prog_destroy, here, next, AllDense, IsCounted,
}
use generic_ebpf.Prog.Reach.{Reach-IsCounted}

abbrev no_objects : System
no_objects = record { envs = λ e. 0; maps = λ m. none; progs = []; handles = λ m. 0 }

no_objects-IsCounted : IsCounted no_objects
unfolding Refs attached AllDense
no_objects-IsCounted = record { counted = λ em. omega arith; dense = tt }

abbrev header : Obj
header = record { eo_ee = 16; eo_ref = 1 }

abbrev one_map : System
one_map = record {
  envs = set_env (λ e. 0) 16 1;
  maps = set_map (λ m. none) 500 (some header);
  progs = [];
  handles = set_env (λ m. 0) 500 1;
}

abbrev fresh : Loaded
fresh = record {
  ep = record { eo = header; ndep_maps = 0; dep_maps = replicate max_attached none };
  deps = [];
}

abbrev one_each : System
one_each = record one_map { envs = set_env one_map.envs 16 2; progs = fresh ∷ [] }

abbrev attached_map : Obj
attached_map = record header { eo_ref = 2 }

abbrev attached_once : System
attached_once = record one_each {
  maps = set_map one_map.maps 500 (some attached_map);
  progs =
      record {
        ep = record fresh.ep { ndep_maps = 1; dep_maps = set fresh.ep.dep_maps 0 (some 500) };
        deps = 500 ∷ [];
      }
      ∷ [];
}

creates : Step no_objects one_map
unfolding ebpf_obj_init ebpf_env_acquire ebpf_refcount_acquire
creates = map_create no_objects 500 16 (set_env (λ e. 0) 16 1) header refl refl

loads : Step one_map one_each
unfolding ebpf_obj_init ebpf_env_acquire ebpf_refcount_acquire set_env
loads = prog_create one_map 16 (set_env one_map.envs 16 2) header refl

attaches : Step one_each attached_once
unfolding ebpf_prog_attach_map scan ebpf_obj_acquire ebpf_refcount_acquire set_map set_env
    deps_after
attaches =
    attach_map one_each [] [] fresh 500 ok (set_map one_map.maps 500 (some attached_map))
      (record fresh.ep { ndep_maps = 1; dep_maps = set fresh.ep.dep_maps 0 (some 500) }) refl
      (omega arith) (λ o h. rw (sym (some-injective _ _ h)) (omega arith)) refl

-- the caller gives its pointer back, and the program still has the map
abbrev held_by_prog : System
held_by_prog = record attached_once {
  maps = set_map attached_once.maps 500 (some header);
  handles = set_env attached_once.handles 500 0;
}

gives_back : Step attached_once held_by_prog
unfolding release_map ebpf_obj_drop ebpf_refcount_release set_map set_env
gives_back =
    map_destroy attached_once 500 attached_once.envs (set_map attached_once.maps 500 (some header))
      (omega arith) refl

-- with the program the map goes too
abbrev emptied_again : System
emptied_again = record held_by_prog {
  envs = set_env (set_env held_by_prog.envs 16 1) 16 0;
  maps = set_map held_by_prog.maps 500 none;
  progs = [];
}

unloads : Step held_by_prog emptied_again
unfolding ebpf_prog_destroy ebpf_prog_dtor release_all release_map ebpf_obj_drop
    ebpf_refcount_release ebpf_env_release set_map set_env
unloads =
    prog_destroy held_by_prog [] []
      (record {
        ep = record fresh.ep { ndep_maps = 1; dep_maps = set fresh.ep.dep_maps 0 (some 500) };
        deps = 500 ∷ [];
      })
      emptied_again.envs emptied_again.maps refl refl

Reach-IsCounted_example : IsCounted emptied_again
Reach-IsCounted_example =
    Reach-IsCounted no_objects-IsCounted
      (next (next (next (next (next here creates) loads) attaches) gives_back) unloads)
