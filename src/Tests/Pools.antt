-- ===== src/Tests/Pools.antt =====
-- Pools of blocks.
use generic_ebpf.Base.{ℕ, true, ◌≡◌, refl, arith, some, none, [], ◌∷◌}
use generic_ebpf.Platform.{count}
use generic_ebpf.Allocator.{
  Allocator, Result, construct, ebpf_allocator_alloc, ebpf_allocator_free, ebpf_allocator_init,
}
use generic_ebpf.Allocator.Pool.{IsGood, Taken, ebpf_allocator_alloc-Taken, free-IsGood}
use generic_ebpf.Allocator.Init.{Account, ebpf_allocator_init-Account}
use generic_ebpf.Allocator.Apart.{IsSpread}
use generic_ebpf.Allocator.Spread.{ebpf_allocator_init-IsSpread}
use generic_ebpf.Map.{ok}
use generic_ebpf.Tests.Host.{World, bump, linear, linear_regions, empty_world}

abbrev two : Allocator
two = record {
  free_block = 200 ∷ 300 ∷ [];
  used_segment = 64 ∷ [];
  nblocks = 3;
  block_size = 32;
  count = 2;
}

two-IsGood : IsGood two
unfolding count
two-IsGood = record {
  counted = refl;
  within = omega arith;
  fits = omega arith;
  once = λ p. ground arith;
}

ebpf_allocator_alloc-Taken_example : Taken two (ebpf_allocator_alloc two)
ebpf_allocator_alloc-Taken_example = ebpf_allocator_alloc-Taken two two-IsGood

absent : count 100 two.free_block ≡ 0
unfolding count
absent = refl

free-IsGood_example : IsGood (ebpf_allocator_free two 100)
free-IsGood_example = free-IsGood two 100 two-IsGood (omega arith) absent

still : (addr : ℕ) (w : World) → (construct bump 4096 none addr w).1.held ≡ w.held
unfolding construct
still addr w = refl

ebpf_allocator_init-Account_example :
    (r : Result World) × (ebpf_allocator_init bump 4096 none 32 5 empty_world ≡ some r)
    × Account bump 4096 5 empty_world r
ebpf_allocator_init-Account_example =
    ebpf_allocator_init-Account bump 4096 none (omega arith) still 32 5 empty_world (omega arith)
      (omega arith) (omega arith) (omega arith)

abbrev back : Allocator
back = record {
  free_block = 4104 ∷ [];
  used_segment = 4096 ∷ [];
  nblocks = 1;
  block_size = 32;
  count = 1;
}

abbrev one_segment : World
one_segment = record { next = 8192; held = 4096 ∷ 64 ∷ [] }

still_linear : (addr : ℕ) (w : World) → (construct linear 4096 none addr w).1.held ≡ w.held
unfolding construct
still_linear addr w = refl

kept_linear :
    (addr : ℕ) (w : World) (x : ℕ)
    → linear_regions.held w x ≡ true
    → linear_regions.held (construct linear 4096 none addr w).1 x ≡ true
unfolding construct
kept_linear addr w x h = h

ebpf_allocator_init-IsSpread_example :
    (r : Result World) × (ebpf_allocator_init linear 4096 none 32 200 empty_world ≡ some r)
    × IsSpread 32 r.alloc.free_block
    × (r.code ≡ ok → IsGood r.alloc × (r.alloc.count ≡ 200) × (r.alloc.nblocks ≡ 200))
ebpf_allocator_init-IsSpread_example =
    ebpf_allocator_init-IsSpread linear linear_regions 4096 none kept_linear (omega arith)
      still_linear 32 200 empty_world (omega arith) (omega arith) (omega arith) (omega arith)
