-- ===== src/Epoch/Thread.antt =====
-- The record of a thread: who registers it, and what is left of it when that fails.
use generic_ebpf.Base.{
  ℕ, ◌≡◌, ◌≢◌, ◌⊎◌, refl, ◌∙◌, ap, inl, inr, ne→==_false, Option, some, none, ◌∷◌, ◌>>=◌,
  Option-cases,
}
use native.Mathlib.Decide.{ℕ_discrete}
use generic_ebpf.Platform.{Platform, remove, remove-head}
use generic_ebpf.Epoch.{EpochHost, ebpf_epoch_get_record, ebpf_epoch_enter, ebpf_epoch_exit}

module _ {W : Type 0} (host : Platform W) (ck : EpochHost host) (size : ℕ) (w : W) where
  open ck use {getspecific, setspecific, register, begin, finish, records}

  abbrev w₁ : W
  w₁ = (host.malloc size w).1

  -- after the registration of a new record `r`
  abbrev stored : ℕ → ℕ × W
  stored r = setspecific r (register r w₁)

  records-stored : (r : ℕ) → records (stored r).1 ≡ r ∷ records w
  records-stored r =
      ck.records-setspecific r (register r w₁)
      ∙ ck.records-register r w₁
      ∙ ap (λ l. r ∷ l) (ck.records-malloc size w)

  live-stored : (r : ℕ) → (host.malloc size w).0 ≡ some r → host.live (stored r).1 ≡ r ∷ host.live w
  live-stored r e =
      ck.live-setspecific r (register r w₁)
      ∙ ck.live-register r w₁
      ∙ host.live-malloc_some size w r e

  get_record_known :
      (r : ℕ) → getspecific w ≡ some r → ebpf_epoch_get_record host ck size w ≡ (some r, w)
  unfolding ebpf_epoch_get_record
  get_record_known r e = rw (ebpf_epoch_get_record, e) refl

  module _ (new : getspecific w ≡ none) where
    get_record_full :
        (host.malloc size w).0 ≡ none → ebpf_epoch_get_record host ck size w ≡ (none, w₁)
    unfolding ebpf_epoch_get_record
    get_record_full e = rw (ebpf_epoch_get_record, new, e) refl

    module _ (r : ℕ) (given : (host.malloc size w).0 ≡ some r) where
      get_record_made :
          (stored r).0 ≡ 0 → ebpf_epoch_get_record host ck size w ≡ (some r, (stored r).1)
      unfolding ebpf_epoch_get_record
      get_record_made e = rw (ebpf_epoch_get_record, new, given, e) refl

      get_record_failed :
          (stored r).0 ≢ 0
          → ebpf_epoch_get_record host ck size w ≡ (none, host.free (some r) (stored r).1)
      unfolding ebpf_epoch_get_record
      get_record_failed ne =
          rw (ebpf_epoch_get_record, new, given, ne→==_false (stored r).0 0 ne) refl

  -- Where a thread has no record and `pthread_setspecific` fails, getting a record fails: the memory
  -- of the new record is free again, but the record is still registered.
  pub ebpf_epoch_get_record-dangling :
      (r : ℕ)
      → getspecific w ≡ none
      → (host.malloc size w).0 ≡ some r
      → (stored r).0 ≢ 0
      → (w' : W) × (ebpf_epoch_get_record host ck size w ≡ (none, w'))
        × (host.live w' ≡ host.live w)
        × (records w' ≡ r ∷ records w)
  ebpf_epoch_get_record-dangling r new given ne = (
    host.free (some r) (stored r).1,
    get_record_failed new r given ne,
    host.live-free r (stored r).1
        ∙ ap (λ l. remove r l) (live-stored r given)
        ∙ remove-head r (host.live w),
    ck.records-free (some r) (stored r).1 ∙ records-stored r,
  )

  -- What entering an epoch ends with: a failed assertion, for a thread without a record that cannot
  -- have one; or a section that the thread's record has begun, which the thread had before or which
  -- is new, and which an exit ends.
  pub data Entered : Option W → Type 0 where
    asserts :
        getspecific w ≡ none
        → ((host.malloc size w).0 ≡ none) ⊎ ((r : ℕ) × ((stored r).0 ≢ 0))
        → Entered none
    known :
        (r : ℕ) (w' : W)
        → getspecific w ≡ some r
        → w' ≡ begin r w
        → ebpf_epoch_exit host ck size w' ≡ some (finish r w')
        → Entered (some w')
    registered :
        (r : ℕ) (w' : W)
        → getspecific w ≡ none
        → (host.malloc size w).0 ≡ some r
        → w' ≡ begin r (stored r).1
        → getspecific w' ≡ some r
        → records w' ≡ r ∷ records w
        → host.live w' ≡ r ∷ host.live w
        → ebpf_epoch_exit host ck size w' ≡ some (finish r w')
        → Entered (some w')

  exits :
      (r : ℕ) (w' : W)
      → getspecific w' ≡ some r
      → ebpf_epoch_exit host ck size w' ≡ some (finish r w')
  unfolding ebpf_epoch_exit
  exits r w' e = rw (ebpf_epoch_exit, e) refl

  enter_as :
      (o : Option ℕ) (v : W)
      → ebpf_epoch_get_record host ck size w ≡ (o, v)
      → ebpf_epoch_enter host ck size w ≡ (o >>= λ r. some (begin r v))
  unfolding ebpf_epoch_enter
  enter_as o v e = ap (λ x. x.0 >>= λ r. some (begin r x.1)) e

  -- Entering an epoch fails an assertion only when the thread has no record and the memory or the
  -- thread-specific value for one is refused. Otherwise it begins a section of the thread's one
  -- record, which is registered and allocated the first time only, and an exit ends a section of the
  -- same record.
  pub ebpf_epoch_enter-Entered : Entered (ebpf_epoch_enter host ck size w)
  ebpf_epoch_enter-Entered = elim (Option-cases (getspecific w)) [
    | inr (r, e) ↦
        rw (enter_as (some r) w (get_record_known r e))
          (known r (begin r w) e refl (exits r (begin r w) (ck.getspecific-begin r w ∙ e)))
    | inl new ↦ elim (Option-cases (host.malloc size w).0) [
      | inl e ↦ rw (enter_as none w₁ (get_record_full new e)) (asserts new (inl e))
      | inr (r, given) ↦ elim (ℕ_discrete (stored r).0 0) [
        | no ne ↦
            rw (enter_as none _ (get_record_failed new r given ne)) (asserts new (inr (r, ne)))
        | yes z ↦
            let v = (stored r).1 in
            let s = ck.getspecific-begin r v ∙ ck.getspecific-setspecific r (register r w₁) z in
            rw (enter_as (some r) v (get_record_made new r given z)) (
              registered r (begin r v) new given refl s (ck.records-begin r v ∙ records-stored r)
                (ck.live-begin r v ∙ live-stored r given) (exits r (begin r v) s))
      ]
    ]
  ]
