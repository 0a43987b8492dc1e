-- ===== src/Hashtable/Reserve.antt =====
-- Taking the spare elements of a plain hash table from its pool.
use generic_ebpf.Base.{
  ℕ, zero, suc, ◌+◌, ◌≤◌, ◌≡◌, inl, inr, refl, sym, ◌∙◌, ap, arith, some, List, [], ◌∷◌, length,
  if◌then◌else◌, ==_refl, ne→==_false,
}
use native.Mathlib.Decide.{ℕ_discrete}
use generic_ebpf.Platform.{count, count_cons}
use generic_ebpf.Allocator.{Allocator}
use generic_ebpf.Allocator.Pool.{IsGood, Taken}
use generic_ebpf.Hashtable.Insert.{ebpf_allocator_alloc-cases}
use generic_ebpf.Hashtable.Lifecycle.{reserve}

-- What `n` allocations in a row leave: the blocks are different from each other and from the ones
-- that are still free.
pub record Reserved (n : ℕ) (a : Allocator) (r : List ℕ × Allocator) : Type 0 where
  pub long : length r.0 ≡ n
  pub good : IsGood r.1
  pub fewer : r.1.count + n ≡ a.count
  pub same : r.1.nblocks ≡ a.nblocks
  pub once : (q : ℕ) → count q r.0 + count q r.1.free_block ≤ count q a.free_block

-- One block more in front.
drawn-once :
    (p : ℕ) (a a' : Allocator)
    → Taken a (some (some p, a'))
    → (l free : List ℕ) → ((q : ℕ) → count q l + count q free ≤ count q a'.free_block)
    → (q : ℕ) → count q (p ∷ l) + count q free ≤ count q a.free_block
drawn-once p a a' t l free h q = elim (ℕ_discrete p q) [
  | yes s ↦ rw (sym s) (
      omega
        (arith, count_cons p p l, ap {B = ℕ} (λ b. if b then 1 else 0) (==_refl p), h p, t.0, t.1))
  | no ne ↦ omega (
    arith,
    count_cons q p l,
    ap {B = ℕ} (λ b. if b then 1 else 0) (ne→==_false p q ne),
    h q,
    t.2 q (λ x. ne (sym x)),
  )
]

pub reserve-Reserved :
    (n : ℕ) (a : Allocator)
    → IsGood a
    → n ≤ a.count
    → (r : List ℕ × Allocator) × (reserve n a ≡ some r) × Reserved n a r
unfolding reserve count
reserve-Reserved zero a g h = (
  ([], a),
  refl,
  record { long = refl; good = g; fewer = omega arith; same = refl; once = λ q. omega arith },
)
reserve-Reserved (suc n) a g h = elim (ebpf_allocator_alloc-cases a g) [
  | inl (e, z) ↦ absurd (omega arith)
  | inr (p, a', e, t) ↦
      let (r, run, f) = reserve-Reserved n a' t.5 (omega (arith, t.3)) in
      (
        (p ∷ r.0, r.1),
        rw (reserve, e, run) refl,
        record {
          long = ap suc f.long;
          good = f.good;
          fewer = omega (arith, f.fewer, t.3);
          same = f.same ∙ t.4;
          once = λ q. drawn-once p a a' t r.0 r.1.free_block f.once q;
        },
      )
]
