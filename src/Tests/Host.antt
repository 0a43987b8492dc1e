-- ===== src/Tests/Host.antt =====
-- A host whose allocator hands out addresses in steps of 4096 and never runs out.
use mathlib.Core.Option.{some-injective}
use generic_ebpf.Base.{
  sym, true, false, inl, inr, ◌∙◌, ltb, ltb→lt, lt→ltb, le→ltb_false, ◌*◌, ◌<◌, ◌≤◌, arith,
  if◌then◌else◌, Bool-cases, ℕ, ◌+◌, ◌≡◌, refl, ap, Option, some, none, List, [], ◌∷◌,
}
use generic_ebpf.Platform.{Platform, Regions, remove}

pub record World : Type 0 where
  pub next : ℕ
  pub held : List ℕ

abbrev hand_out : World → Option ℕ × World
hand_out w = (some w.next, record { next = w.next + 4096; held = w.next ∷ w.held })

abbrev take_back : Option ℕ → World → World
take_back none w = w
take_back (some p) w = record w { held = remove p w.held }

pub never_null : (p : ℕ) → some p ≡ none → ⊥
never_null p h = cc

abbrev pub bump : Platform World
bump = record {
  calloc = λ n s w. hand_out w;
  malloc = λ s w. hand_out w;
  free = take_back;
  live = λ w. w.held;
  live-calloc_some = λ n s w p h. ap (λ q. q ∷ w.held) (some-injective _ _ h);
  live-calloc_none = λ n s w h. absurd (never_null w.next h);
  live-malloc_some = λ s w p h. ap (λ q. q ∷ w.held) (some-injective _ _ h);
  live-malloc_none = λ s w h. absurd (never_null w.next h);
  live-free = λ p w. refl;
  live-free_null = λ w. refl;
}

abbrev pub empty_world : World
empty_world = record { next = 4096; held = [] }

-- A host that has two blocks to give.
abbrev two_only : World → Option ℕ × World
two_only w = if ltb w.next 12288 then hand_out w else (none, w)

granted :
    (w : World) (p : ℕ)
    → ltb w.next 12288 ≡ true
    → (two_only w).0 ≡ some p
    → (two_only w).1.held ≡ p ∷ w.held
granted w p e h =
    let same : w.next ≡ p = some-injective _ _ (sym (rw e refl) ∙ h) in rw (e, same) refl

denied : (w : World) (p : ℕ) → ltb w.next 12288 ≡ false → (two_only w).0 ≡ some p → ⊥
denied w p e h = never_null p (sym h ∙ rw e refl)

pub two_only-some : (w : World) (p : ℕ) → (two_only w).0 ≡ some p → (two_only w).1.held ≡ p ∷ w.held
two_only-some w p h = elim (Bool-cases (ltb w.next 12288)) [
  | inl e ↦ granted w p e h
  | inr e ↦ absurd (denied w p e h)
]

pub two_only-none : (w : World) → (two_only w).0 ≡ none → (two_only w).1.held ≡ w.held
two_only-none w h = elim (Bool-cases (ltb w.next 12288)) [
  | inl e ↦ absurd (never_null w.next (sym (rw e refl) ∙ h))
  | inr e ↦ rw e refl
]

abbrev pub scarce : Platform World
scarce = record {
  calloc = λ n s w. two_only w;
  malloc = λ s w. two_only w;
  free = take_back;
  live = λ w. w.held;
  live-calloc_some = λ n s w p h. two_only-some w p h;
  live-calloc_none = λ n s w h. two_only-none w h;
  live-malloc_some = λ s w p h. two_only-some w p h;
  live-malloc_none = λ s w h. two_only-none w h;
  live-free = λ p w. refl;
  live-free_null = λ w. refl;
}

-- A host that hands out as many bytes as are asked for, and never takes an address twice.
abbrev hand_out_size : ℕ → World → Option ℕ × World
hand_out_size size w = (some w.next, record { next = w.next + size; held = w.next ∷ w.held })

abbrev pub linear : Platform World
linear = record {
  calloc = λ n s w. hand_out_size (n * s) w;
  malloc = λ s w. hand_out_size s w;
  free = take_back;
  live = λ w. w.held;
  live-calloc_some = λ n s w p h. ap (λ q. q ∷ w.held) (some-injective _ _ h);
  live-calloc_none = λ n s w h. absurd (never_null w.next h);
  live-malloc_some = λ s w p h. ap (λ q. q ∷ w.held) (some-injective _ _ h);
  live-malloc_none = λ s w h. absurd (never_null w.next h);
  live-free = λ p w. refl;
  live-free_null = λ w. refl;
}

pub new_range :
    (n s : ℕ) (w : World) (p : ℕ)
    → (linear.calloc n s w).0 ≡ some p
    → (x : ℕ) → p ≤ x
    → x < p + n * s
    → (ltb x w.next ≡ false) × (ltb x (w.next + n * s) ≡ true)
new_range n s w p h x lo hi =
    let same : w.next ≡ p = some-injective _ _ h in
    (le→ltb_false x w.next (omega arith), lt→ltb x (w.next + n * s) (omega (arith, same)))

-- The addresses below the next one are those that were handed out.
abbrev pub linear_regions : Regions linear
linear_regions = record {
  held = λ w x. ltb x w.next;
  calloc-fresh = new_range;
  calloc-keeps = λ n s w x h. lt→ltb x (w.next + n * s) (omega (arith, ltb→lt x w.next h));
}
