-- ===== src/Allocator/Segments.antt =====
-- The segments that the pool takes from the host.
use mathlib.Core.List.{append_assoc}
use generic_ebpf.Base.{
  ℕ, ◌≡◌, inl, inr, refl, sym, ◌∙◌, ap, arith, Option, List, [], ◌∷◌, ◌++◌, Option-cases,
}
use generic_ebpf.Map.{Code}
use generic_ebpf.Platform.{Platform}
use generic_ebpf.Allocator.{Allocator, new_segment, construct, segment_size}

module _ {W : Type 0} (host : Platform W) (page : ℕ) (ctor : Option (ℕ → W → Code × W))
    (quiet : (addr : ℕ) (w : W) → host.live (construct host page ctor addr w).1 ≡ host.live w) where
  open host use {live, calloc}

  -- The segments that were taken between two states of the pool and of the world.
  pub record Tracks (a : Allocator) (w : W) (a' : Allocator) (w' : W) : Type 0 where
    pub segments : List ℕ
    pub used : a'.used_segment ≡ segments ++ a.used_segment
    pub live_too : live w' ≡ segments ++ live w
    pub nblocks_same : a'.nblocks ≡ a.nblocks
    pub count_same : a'.count ≡ a.count
    pub size_same : a'.block_size ≡ a.block_size

  pub Tracks-trans :
      (a b c : Allocator) (u v w : W) → Tracks a u b v → Tracks b v c w → Tracks a u c w
  Tracks-trans a b c u v w s t = record {
    segments = t.segments ++ s.segments;
    used =
        t.used
        ∙ ap (λ l. t.segments ++ l) s.used
        ∙ sym (append_assoc t.segments s.segments a.used_segment);
    live_too =
        t.live_too
        ∙ ap (λ l. t.segments ++ l) s.live_too
        ∙ sym (append_assoc t.segments s.segments (live u));
    nblocks_same = t.nblocks_same ∙ s.nblocks_same;
    count_same = t.count_same ∙ s.count_same;
    size_same = t.size_same ∙ s.size_same;
  }

  pub new_segment-Tracks :
      (a : Allocator) (w : W)
      → Tracks a w (new_segment host page ctor a w).1 (new_segment host page ctor a w).2
  unfolding new_segment
  new_segment-Tracks a w =
      let size = segment_size page a.block_size in
      elim (Option-cases (calloc 1 size w).0) [
        | inl e ↦
            rw (new_segment, e)
              (record {
                segments = [];
                used = refl;
                live_too = host.live-calloc_none 1 size w e;
                nblocks_same = refl;
                count_same = refl;
                size_same = refl;
              })
        | inr (p, e) ↦
            rw (new_segment, e)
              (record {
                segments = p ∷ [];
                used = refl;
                live_too = host.live-calloc_some 1 size w p e;
                nblocks_same = refl;
                count_same = refl;
                size_same = refl;
              })
      ]

  pub new_segment-free :
      (a : Allocator) (w : W) → (new_segment host page ctor a w).1.free_block ≡ a.free_block
  unfolding new_segment
  new_segment-free a w = ground arith
