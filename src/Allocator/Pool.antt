-- ===== src/Allocator/Pool.antt =====
-- Taking blocks from the pool and giving them back.
use generic_ebpf.Base.{
  ℕ, zero, suc, ◌+◌, ◌^◌, ◌<◌, ◌≤◌, ◌≡◌, ◌≢◌, refl, arith, Option, some, none, List, [], ◌∷◌,
  length, lt→ltb,
}
use generic_ebpf.Platform.{count}
use generic_ebpf.Allocator.{Allocator, ebpf_allocator_alloc, ebpf_allocator_free}

-- The counter is the length of the free list and within the total, and no block is in the list
-- twice.
pub record IsGood (a : Allocator) : Type 0 where
  pub counted : a.count ≡ length a.free_block
  pub within : a.count ≤ a.nblocks
  pub fits : a.nblocks < 2 ^ 32
  pub once : (p : ℕ) → count p a.free_block ≤ 1

-- What a caller gets from a good pool: NULL and the same pool when it is empty, and otherwise a
-- block that was free and is not free any more, from a pool that is good again.
abbrev pub Taken : Allocator → Option (Option ℕ × Allocator) → Type 0
Taken a none = ⊥
Taken a (some (none, a')) = (a.count ≡ 0) × (a' ≡ a)
Taken a (some (some p, a')) =
    (count p a.free_block ≡ 1)
    × (count p a'.free_block ≡ 0)
    × ((q : ℕ) → q ≢ p → count q a'.free_block ≡ count q a.free_block)
    × (a'.count + 1 ≡ a.count)
    × (a'.nblocks ≡ a.nblocks)
    × IsGood a'

-- The same over the fields.
taken :
    (l segs : List ℕ) (n size c : ℕ)
    → (let a : Allocator = record {
      free_block = l;
      used_segment = segs;
      nblocks = n;
      block_size = size;
      count = c;
    } in
        IsGood a → Taken a (ebpf_allocator_alloc a))
unfolding ebpf_allocator_alloc count
taken l segs n size zero g = (refl, refl)
taken [] segs n size (suc c) g = absurd (omega (arith, g.counted))
taken (p ∷ l) segs n size (suc c) g =
    let gone : count p l ≡ 0 = ground (arith, g.once p) in
    rw (lt→ltb 0 (suc c) (omega arith)) (
      ground arith,
      gone,
      λ q ne. ground arith,
      omega arith,
      refl,
      record {
        counted = omega (arith, g.counted);
        within = omega (arith, g.within);
        fits = g.fits;
        once = λ q. ground (arith, g.once q);
      },
    )

-- Allocation from a good pool never follows a NULL pointer; it hands out a free block while there
-- is one, and no block twice.
pub ebpf_allocator_alloc-Taken : (a : Allocator) → IsGood a → Taken a (ebpf_allocator_alloc a)
ebpf_allocator_alloc-Taken a g = taken a.free_block a.used_segment a.nblocks a.block_size a.count g

-- A block that is given back is the next to be handed out, and the pool is then as it was.
pub alloc-free :
    (a : Allocator) (p : ℕ)
    → a.count + 1 < 2 ^ 32
    → ebpf_allocator_alloc (ebpf_allocator_free a p) ≡ some (some p, a)
unfolding ebpf_allocator_alloc ebpf_allocator_free
alloc-free a p h = ground arith

-- Giving back a block that is not free, to a good pool that is not full, leaves a good pool.
pub free-IsGood :
    (a : Allocator) (p : ℕ)
    → IsGood a
    → a.count < a.nblocks
    → count p a.free_block ≡ 0
    → IsGood (ebpf_allocator_free a p)
unfolding ebpf_allocator_free count
free-IsGood a p g room absent = record {
  counted = omega (arith, g.counted);
  within = omega arith;
  fits = g.fits;
  once = λ q. ground (arith, g.once q, absent);
}
