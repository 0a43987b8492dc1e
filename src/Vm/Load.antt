-- ===== src/Vm/Load.antt =====
-- Loads and stores of the interpreter.
use mathlib.Core.Option.{some-injective}
use mathlib.Core.Path.{subst}
use native.Mathlib.Nat.{pow-suc, one-le-pow, mul-add-mod_self_left, mod-eq_of_lt}
use generic_ebpf.Base.{
  ℕ, zero, suc, ◌+◌, ◌*◌, ◌/◌, ◌%◌, ◌^◌, ◌<◌, ◌≤◌, ◌≡◌, ◌⊎◌, inl, sym, ◌∙◌, ap, arith, some,
  get_elem?, bind-eq-some, ==_refl, ne→==_false,
}
use generic_ebpf.Isa.{Inst, Size}
use generic_ebpf.Vm.{Memory, State, load, store, put_byte, width}
use generic_ebpf.Vm.Step.{address, set_reg, exec_ldx, exec_stx}

-- A store changes none of the bytes outside of its own.
pub store_frame :
    (n : ℕ) (m : Memory) (a v : ℕ) (m' : Memory) (q : ℕ)
    → store n m a v ≡ some m'
    → (q < a) ⊎ (a + n ≤ q)
    → m' q ≡ m q
unfolding store
store_frame zero m a v m' q h out = ap (λ (f : Memory). f q) (sym (some-injective _ _ h))
store_frame (suc n) m a v m' q h out =
    let (b, _, h₁) = bind-eq-some (m a) _ h in
    store_frame n (put_byte m a v) (a + 1) (v / 256) m' q h₁ (omega arith)
    ∙ rw (ne→==_false a q (omega arith))

digit_split : (n v : ℕ) → v % 256 ^ suc n ≡ v % 256 + 256 * (v / 256 % 256 ^ n)
digit_split n v =
    let w = v / 256 in
    let t = w % 256 ^ n in
    let q = w / 256 ^ n in
    let pos : 0 < 256 ^ n = one-le-pow n 256 (omega arith) in
    let low : t < 256 ^ n = omega arith in
    let whole : w ≡ 256 ^ n * q + t = omega arith in
    let parts : v ≡ 256 ^ suc n * q + (v % 256 + 256 * t) =
      omega (arith, ap (λ (c : ℕ). c * q) (pow-suc 256 n)) in
    let small : v % 256 + 256 * t < 256 ^ suc n = omega (arith, pow-suc 256 n) in
    ap (λ (c : ℕ). c % 256 ^ suc n) parts
    ∙ mul-add-mod_self_left (256 ^ suc n) q (v % 256 + 256 * t)
    ∙ mod-eq_of_lt small

-- What was stored is loaded again: the low bytes of the value.
load-store :
    (n : ℕ) (m : Memory) (a v : ℕ) (m' : Memory)
    → store n m a v ≡ some m'
    → load n m' a ≡ some (v % 256 ^ n)
unfolding store load
load-store zero m a v m' h = ap some (omega arith)
load-store (suc n) m a v m' h =
    let (b, _, h₁) = bind-eq-some (m a) _ h in
    let first : m' a ≡ some (v % 256) =
      store_frame n (put_byte m a v) (a + 1) (v / 256) m' a h₁ (inl (omega arith))
      ∙ rw (==_refl a) in
    rw (first, load-store n (put_byte m a v) (a + 1) (v / 256) m' h₁)
      (ap some (omega (arith, digit_split n v)))

ldx_at :
    (z : Size) (j : Inst) (s : State) (a v : ℕ)
    → address j.src j s ≡ some a
    → load (width z) s.memory a ≡ some v
    → exec_ldx z j s ≡ set_reg s j.dst v
unfolding exec_ldx set_reg
ldx_at z j s a v e f = rw (exec_ldx, e, f)

-- A register that a store of some size has written to memory comes back by a load of that size
-- from the same address, cut to its low bytes; the load sets that register and nothing else.
pub exec_ldx-exec_stx :
    (z : Size) (i j : Inst) (s s' : State) (v : ℕ)
    → get_elem? s.reg_file i.src ≡ some v
    → exec_stx z i s ≡ some s'
    → address j.src j s' ≡ address i.dst i s
    → exec_ldx z j s' ≡ set_reg s' j.dst (v % 256 ^ width z)
unfolding exec_stx
exec_ldx-exec_stx z i j s s' v source h same =
    let (a, e, h₁) = bind-eq-some (address i.dst i s) _ h in
    let (x, f, h₂) = bind-eq-some (get_elem? s.reg_file i.src) _ h₁ in
    let (m, g, h₃) = bind-eq-some (store (width z) s.memory a x) _ h₂ in
    let x-eq-v : x ≡ v = some-injective _ _ (sym f ∙ source) in
    let memory : m ≡ s'.memory = ap (λ (t : State). t.memory) (some-injective _ _ h₃) in
    let loaded = load-store (width z) s.memory a x m g in
    ldx_at z j s' a (v % 256 ^ width z) (same ∙ e) (
      subst (λ (y : Memory). load (width z) y a ≡ some (v % 256 ^ width z)) memory
        (rw x-eq-v at loaded))
