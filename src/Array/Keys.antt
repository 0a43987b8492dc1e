-- ===== src/Array/Keys.antt =====
-- Walking the keys of an array map with `get_next_key`, as a program in user space does: from a
-- NULL key on, each key that was returned is passed to the next call, until ENOENT.
use mathlib.Core.Option
use generic_ebpf.Base.{
  ℕ, zero, suc, ◌+◌, ◌-◌, ◌^◌, ◌<◌, ◌≡◌, arith, Option, some, none, List, [], ◌∷◌,
}
use generic_ebpf.Map.{Code, ok}
use generic_ebpf.Array.{ArrayMap}
use generic_ebpf.Array.Ops.{array_map_get_next_key}

-- What the walk does with the answer of one call.
abbrev walk_next : (ℕ → Option (List ℕ)) → Code → Option ℕ → Option (List ℕ)
walk_next rest ok (some k) = Option.map (λ ks. k ∷ ks) (rest k)
walk_next rest ok none = none
walk_next rest other k = some []

-- The keys in the order in which they are returned; `none` if `fuel` calls do not reach an error.
pub walk : ArrayMap → ℕ → Option ℕ → Option (List ℕ)
walk em zero key = none
walk em (suc fuel) key =
    let (code, k) = array_map_get_next_key em key in walk_next (λ n. walk em fuel (some n)) code k

-- `a`, `a + 1`, …, `n` numbers
pub count_up : ℕ → ℕ → List ℕ
count_up a zero = []
count_up a (suc n) = a ∷ count_up (a + 1) n

module _ (em : ArrayMap) (pos : 0 < em.max_entries) (fits : em.max_entries < 2 ^ 32) where
  walk_from :
      (left k fuel : ℕ)
      → k + 1 + left ≡ em.max_entries
      → left < fuel
      → walk em fuel (some k) ≡ some (count_up (k + 1) left)
  unfolding walk count_up array_map_get_next_key
  walk_from left k zero e h = absurd (omega arith)
  walk_from zero k (suc fuel) e h = ground arith
  walk_from (suc left) k (suc fuel) e h = ground (arith, walk_from left (k + 1) fuel)

  -- The walk from a NULL key returns every key from 0 to `max_entries - 1` once, in order, and then
  -- ends; it takes `max_entries + 1` calls.
  pub walk-all : walk em (em.max_entries + 1) none ≡ some (count_up 0 em.max_entries)
  unfolding walk count_up array_map_get_next_key
  walk-all =
      let m : em.max_entries ≡ suc (em.max_entries - 1) = omega arith in
      ground (arith, walk_from (em.max_entries - 1) 0 em.max_entries)
