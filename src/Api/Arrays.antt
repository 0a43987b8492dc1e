-- ===== src/Api/Arrays.antt =====
-- Creating and destroying a map of the plain array type: `ebpf_map_create` and `ebpf_map_destroy`
-- of sys/dev/ebpf/ebpf_map.c with `array_map_init` and `array_map_deinit` of ebpf_map_array.c.
use mathlib.Core.Option.{some-injective}
use generic_ebpf.Base.{ℕ, ◌<◌, ◌≡◌, ◌≢◌, sym, ◌∙◌, ap, Bool, Option, some}
use generic_ebpf.Map.{Code, ok, enomem, MapAttr, InitResult, failed, ready, EbpfMap}
use generic_ebpf.Platform.{Platform}
use generic_ebpf.Env.{Envs, uint32_max}
use generic_ebpf.Array.{ArrayData, array_map_init, array_map_deinit}
use generic_ebpf.Array.Lifecycle.{Balanced, array_map_init-Balanced}
use generic_ebpf.Api.Create.{Ends, ebpf_map_create-Accounted}

error_of : InitResult ArrayData → Code
error_of (failed c) = c
error_of (ready pc d) = ok

data_of : InitResult ArrayData → ArrayData → ArrayData
data_of (failed c) d = d
data_of (ready pc d) d' = d

enomem_ne : enomem ≢ ok
enomem_ne h = cc

module _ {W : Type 0} (host : Platform W) where
  -- `deinit` of the plain array
  abbrev pub deinit : EbpfMap ArrayData → W → Option W
  deinit em w = some (array_map_deinit host em w)

  failed_clean :
      (a : MapAttr) (w : W) (c : Code) (r : InitResult ArrayData × W)
      → Balanced host a w r
      → r.0 ≡ failed c
      → (c ≢ ok) × (host.live r.1 ≡ host.live w)
  unfolding error_of
  failed_clean a w c (failed c', w') (e, l) h =
      let same : c' ≡ c = ap error_of h in (λ z. absurd (enomem_ne (sym e ∙ same ∙ z)), l)
  failed_clean a w c (ready pc d, w') b h = absurd (cc)

  module _ (map_types : ℕ → Option (MapAttr → W → InitResult ArrayData × W)) where
    -- Creating a map whose attributes name the plain array is defined for each choice of arguments,
    -- NULL pointers included, as long as the counters of the environments are not full. A failed
    -- creation gives an error, changes no counter and keeps no memory, wherever it fails; a
    -- successful one gives an object with one reference and counts it in its environment.
    pub array_create-Accounted :
        (ee : Option ℕ) (emp : Bool) (attr : Option MapAttr) (envs : Envs) (w : W)
        → ((a : MapAttr) → attr ≡ some a → map_types a.type_id ≡ some (array_map_init host))
        → ((x : ℕ) → envs x < uint32_max)
        → Ends host map_types ee emp attr envs w
    array_create-Accounted ee emp attr envs w plain room =
        ebpf_map_create-Accounted host map_types ee emp attr envs w
          (λ a init e ty w' c.
            rw (some-injective _ _ (sym ty ∙ plain a e))
              (failed_clean a w' c (array_map_init host a w') (array_map_init-Balanced host a w')))
          room
