-- ===== src/Hashtable/Drain.antt =====
-- Giving all elements of a hash table back to its allocator.
use generic_ebpf.Base.{
  ℕ, zero, suc, ◌+◌, ◌^◌, ◌<◌, ◌≡◌, refl, ◌∙◌, ap, arith, false, Option, some, none, List, [], ◌∷◌,
  length, ==_refl,
}
use generic_ebpf.Platform.{Platform}
use generic_ebpf.Allocator.{
  Allocator, ebpf_allocator_free, ebpf_allocator_deinit, free_segments, destruct_all,
}
use generic_ebpf.Hashtable.{HashTable}
use generic_ebpf.Hashtable.Lifecycle.{Blocks, drain, drain_buckets, emptied, hashtable_map_deinit}
use generic_ebpf.Hashtable.Invariant.{IsOwned, total}

drain-count :
    (l : List ℕ) (a : Allocator)
    → a.count + length l < 2 ^ 32
    → ((drain l a).count ≡ a.count + length l) × ((drain l a).nblocks ≡ a.nblocks)
unfolding drain ebpf_allocator_free
drain-count [] a h = (omega arith, refl)
drain-count (p ∷ l) a h =
    let small : (ebpf_allocator_free a p).count + length l < 2 ^ 32 = omega arith in
    let (c, n) = drain-count l (ebpf_allocator_free a p) small in (omega (arith, c), n)

-- the elements in `left` buckets from `i` on
spread : ℕ → ℕ → (ℕ → List ℕ) → ℕ
spread zero i buckets = 0
spread (suc left) i buckets = length (buckets i) + spread left (i + 1) buckets

drain_buckets-count :
    (left i : ℕ) (buckets : ℕ → List ℕ) (a : Allocator)
    → a.count + spread left i buckets < 2 ^ 32
    → ((drain_buckets left i buckets a).count ≡ a.count + spread left i buckets)
      × ((drain_buckets left i buckets a).nblocks ≡ a.nblocks)
unfolding drain_buckets spread
drain_buckets-count zero i buckets a h = (omega arith, refl)
drain_buckets-count (suc left) i buckets a h =
    let (c, n) = drain-count (buckets i) a (omega arith) in
    let (d, k) =
      drain_buckets-count left (i + 1) buckets (drain (buckets i) a) (omega (arith, c)) in
    (omega (arith, c, d), k ∙ n)

-- Counting from the front and from the back gives the same.
total-spread :
    (left i : ℕ) (buckets : ℕ → List ℕ)
    → total i buckets + spread left i buckets ≡ total (i + left) buckets
unfolding total spread
total-spread zero i buckets = let e : i + 0 ≡ i = omega arith in rw e (omega arith)
total-spread (suc left) i buckets =
    let e : i + suc left ≡ i + 1 + left = omega arith in
    let f : i + 1 ≡ suc i = omega arith in
    let g : total (i + 1) buckets ≡ total i buckets + length (buckets i) = rw f refl in
    rw e (omega (arith, total-spread left (i + 1) buckets, g))

spread_all : (n : ℕ) (buckets : ℕ → List ℕ) → spread n 0 buckets ≡ total n buckets
unfolding total
spread_all n buckets =
    let e : 0 + n ≡ n = omega arith in
    let f : total (0 + n) buckets ≡ total n buckets = ap (λ k. total k buckets) e in
    omega (arith, total-spread n 0 buckets, f)

all_back : (t : HashTable) → IsOwned t → (emptied false t).count ≡ (emptied false t).nblocks
unfolding emptied
all_back t o =
    let s = spread_all t.nbuckets t.buckets in
    let (c, n) = drain-count t.pcpu_extra_elems t.allocator (omega (arith, o.kept, o.pool.fits)) in
    let (d, k) =
      drain_buckets-count t.nbuckets 0 t.buckets (drain t.pcpu_extra_elems t.allocator)
        (omega (arith, o.kept, o.pool.fits, c, s)) in
    omega (arith, o.kept, c, d, n, k, s)

pub deinit_full :
    {W : Type 0} (host : Platform W) (dtor : Option (ℕ → W → W)) (a : Allocator) (w : W)
    → a.count ≡ a.nblocks
    → (w' : W) × (ebpf_allocator_deinit host dtor a w ≡ some w')
unfolding ebpf_allocator_deinit
deinit_full host dtor a w full = (
  free_segments host dtor a.used_segment (destruct_all host dtor a.free_block w),
  rw (ebpf_allocator_deinit, full, ==_refl a.nblocks) refl,
)

module _ {W : Type 0} (host : Platform W) (page header ncpus : ℕ) (poke : ℕ → Option ℕ → W → W)
    (peek : ℕ → W → Option ℕ) (t : HashTable) (o : IsOwned t) where
  -- Destroying a plain hash table in which no element was lost brings every element back to its
  -- allocator, so that the assertion on the number of its blocks holds and the destruction is
  -- defined.
  pub hashtable_map_deinit_defined :
      (blocks : Blocks) (w : W)
      → (w' : W) × (hashtable_map_deinit host page header ncpus poke peek false blocks t w
          ≡ some w')
  unfolding hashtable_map_deinit
  hashtable_map_deinit_defined blocks w =
      let (w₁, e) = deinit_full host none (emptied false t) w (all_back t o) in
      (
        host.free (some blocks.hash_map)
            (host.free (some blocks.buckets) (host.free blocks.extra w₁)),
        rw (hashtable_map_deinit, e) refl,
      )
