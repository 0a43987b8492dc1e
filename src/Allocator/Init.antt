-- ===== src/Allocator/Init.antt =====
-- Creating and destroying a pool.
use generic_ebpf.Base.{
  ℕ, ◌+◌, ◌^◌, ◌<◌, ◌≤◌, ◌≡◌, ◌≢◌, ◌⊎◌, inl, inr, sym, ◌∙◌, ap, arith, Option, some, List, [], ◌++◌,
  length, Option-cases,
}
use mathlib.Core.List.{append-nil}
use generic_ebpf.Map.{Code, Code-discrete, ok, enomem}
use generic_ebpf.Platform.{Platform}
use generic_ebpf.Allocator.Segments.{Tracks-trans, new_segment-Tracks, new_segment-free}
use generic_ebpf.Allocator.Fits.{new_segment-Fits}
use generic_ebpf.Allocator.Prealloc.{carve_ends}
use generic_ebpf.Allocator.{
  Allocator, Result, entry_size, new_segment, construct, ebpf_allocator_prealloc,
  ebpf_allocator_init,
}

segments_account :
    (segs used lw' lw : List ℕ) → used ≡ segs ++ [] → lw' ≡ segs ++ lw → lw' ≡ used ++ lw
segments_account segs used lw' lw p q = q ∙ ap (λ l. l ++ lw) (sym (p ∙ append-nil segs))

module _ {W : Type 0} (host : Platform W) (page : ℕ) where
  open host use {live}

  -- The account of a pool just after its creation in the world `w`: either an error, or all blocks
  -- are free; both counters are the number of blocks; and what is live besides what was before is
  -- the list of segments.
  pub record Account (nblocks : ℕ) (w : W) (r : Result W) : Type 0 where
    pub blocks : (r.code ≢ ok) ⊎ (length r.alloc.free_block ≡ nblocks)
    pub count : r.alloc.count ≡ nblocks
    pub nblocks_kept : r.alloc.nblocks ≡ nblocks
    pub segments_live : live r.world ≡ r.alloc.used_segment ++ live w

  module _ (ctor : Option (ℕ → W → Code × W)) (fits_page : page < 2 ^ 32)
      (quiet : (addr : ℕ) (w : W) → live (construct host page ctor addr w).1 ≡ live w) where
    -- Creating a pool of at least one block is defined and ends, where a block has room for a link and
    -- its size does not wrap when a segment is sized: each link is written inside of its segment. The
    -- creation either fails or has all its blocks free, and it keeps account of each segment. The
    -- constructor, if there is one, must not change what is live.
    pub ebpf_allocator_init-Account :
        (block_size nblocks : ℕ) (w : W)
        → entry_size ≤ block_size
        → block_size + 16 < 2 ^ 32
        → 0 < nblocks
        → nblocks < 2 ^ 32
        → (r : Result W) × (ebpf_allocator_init host page ctor block_size nblocks w ≡ some r)
          × Account nblocks w r
    unfolding ebpf_allocator_init
    ebpf_allocator_init-Account block_size nblocks w linked wide pos small =
        let a : Allocator = record {
          free_block = [];
          used_segment = [];
          nblocks = nblocks;
          block_size = block_size;
          count = nblocks;
        } in
        let s = new_segment host page ctor a w in
        let t = new_segment-Tracks host page ctor quiet a w in
        elim (Option-cases s.0) [
          | inl e ↦ (
            record { code = enomem; alloc = s.1; world = s.2 },
            rw (ebpf_allocator_prealloc, e),
            record {
              blocks = inl (λ h. cc);
              count = t.count_same;
              nblocks_kept = t.nblocks_same;
              segments_live =
                  segments_account t.segments s.1.used_segment (live s.2) (live w) t.used
                    t.live_too;
            },
          )
          | inr (c, e) ↦
              let (r, run, g) =
                carve_ends host page ctor fits_page quiet nblocks nblocks 0 c s.1 s.2
                  (omega (arith, linked, t.size_same)) (omega (arith, wide, t.size_same))
                  (rw t.size_same (new_segment-Fits host page ctor fits_page a w wide c e)) pos
                  (omega arith) small in
              let u = Tracks-trans host page ctor quiet a s.1 r.alloc w s.2 r.world t g.tracks in
              (
                r,
                rw (ebpf_allocator_prealloc, e) run,
                record {
                  blocks = elim (Code-discrete r.code ok) [
                    | no ne ↦ inl ne
                    | yes h ↦ inr (
                        omega (
                          arith,
                          g.all_made h,
                          ap (λ (l : List ℕ). length l) (new_segment-free host page ctor quiet a w),
                        ))
                  ];
                  count = u.count_same;
                  nblocks_kept = u.nblocks_same;
                  segments_live =
                      segments_account u.segments r.alloc.used_segment (live r.world) (live w)
                        u.used u.live_too;
                },
              )
        ]
