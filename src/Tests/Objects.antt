-- ===== src/Tests/Objects.antt =====
-- Environments, maps and programs.
use mathlib.Core.Option.{some-injective}
use generic_ebpf.Base.{
  ℕ, ◌≡◌, refl, sym, arith, true, false, Option, some, none, List, [], ◌∷◌, replicate, length, ◌≤◌,
}
use generic_ebpf.Map.{Code, ok, MapAttr, InitResult}
use generic_ebpf.Platform.{count}
use generic_ebpf.Env.{Obj, Envs, set_env}
use generic_ebpf.Prog.{Prog, Maps, ebpf_prog_attach_map}
use generic_ebpf.Prog.Attach.{IsDense, IsAttached, ebpf_prog_attach_map-IsAttached}
use generic_ebpf.Prog.Create.{
  ProgAttr, CreatedProg, ProgAccounted, ebpf_prog_create, ebpf_prog_create-ProgAccounted,
}
use generic_ebpf.Api.{MapObject, Created, map_of, ebpf_map_create}
use generic_ebpf.Api.Create.{Accounted}
use generic_ebpf.Api.Arrays.{array_create-Accounted}
use generic_ebpf.Array.{ArrayData, area_of, array_map_init}
use generic_ebpf.Tests.Host.{World, bump, scarce, empty_world}

abbrev header : Obj
header = record { eo_ee = 16; eo_ref = 1 }

abbrev maps : Maps
maps = λ m. some header

abbrev prog : Prog
prog = record { eo = header; ndep_maps = 1; dep_maps = some 500 ∷ replicate 63 none }

prog-IsDense : IsDense prog (500 ∷ [])
unfolding count
prog-IsDense = record { slots = refl; used = refl; bounded = omega arith; once = λ m. ground arith }

ebpf_prog_attach_map-IsAttached_example :
    (r : Code × Maps × Prog) × (ebpf_prog_attach_map maps prog 600 ≡ some r)
    × IsAttached maps prog (500 ∷ []) 600 header r
ebpf_prog_attach_map-IsAttached_example =
    ebpf_prog_attach_map-IsAttached maps prog (500 ∷ []) 600 header prog-IsDense refl (omega arith)

abbrev envs : Envs
envs = λ e. 2

-- every type is the array
abbrev types : ℕ → Option (MapAttr → World → InitResult ArrayData × World)
types t = some (array_map_init bump)

abbrev attr : MapAttr
attr = record { type_id = 1; key_size = 4; value_size = 2; max_entries = 3; flags = 0 }

-- on a host that refuses the third block, so that the creation fails inside of `init`
array_create-Accounted_example :
    (r : Created World ArrayData) × (ebpf_map_create scarce
        (λ t. some (array_map_init scarce))
        (some 16)
        true
        (some attr)
        envs
        empty_world
      ≡ some r)
    × Accounted scarce (λ t. some (array_map_init scarce)) (some 16) envs empty_world r
array_create-Accounted_example =
    array_create-Accounted scarce (λ t. some (array_map_init scarce)) (some 16) true (some attr)
      envs empty_world (λ a e. refl) (λ x. omega arith)

abbrev code_attr : ProgAttr
code_attr = record { type_id = 1; prog = some (7 ∷ 0 ∷ 0 ∷ 0 ∷ []); prog_len = 4 }

code_long : (c : List ℕ) → code_attr.prog ≡ some c → 4 ≤ length c
code_long c h = rw (sym (some-injective _ _ h)) (omega arith)

ebpf_prog_create-ProgAccounted_example :
    (r : CreatedProg World) × (ebpf_prog_create bump
        (λ t. true)
        (some 16)
        true
        (some code_attr)
        envs
        empty_world
      ≡ some r)
    × ProgAccounted bump (λ t. true) 16 code_attr envs empty_world r
ebpf_prog_create-ProgAccounted_example =
    ebpf_prog_create-ProgAccounted bump (λ t. true) 16 code_attr envs empty_world (omega arith)
      code_long

array_object : MapObject ArrayData
array_object = record {
  block = 4096;
  eo = record { eo_ee = 16; eo_ref = 1 };
  em = map_of attr false (record { ma = 8192; areas = some (area_of attr 12288) ∷ [] });
}

array_created : Created World ArrayData
array_created = record {
  code = ok;
  made = some array_object;
  envs = set_env envs 16 3;
  world = record { next = 16384; held = 12288 ∷ 8192 ∷ 4096 ∷ [] };
}
