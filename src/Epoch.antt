-- ===== src/Epoch.antt =====
-- sys/dev/ebpf/ebpf_epoch.c: the epochs of platforms that have none of their own, one record for each
-- thread. The functions of ck_epoch.h and of pthread.h are a parameter, with what their manuals say
-- as laws; a thread is the current one.
pub mod Thread
use generic_ebpf.Base.{ℕ, ◌≡◌, ◌==◌, Option, some, none, List, [], ◌∷◌, ◌>>=◌, if◌then◌else◌}
use generic_ebpf.Platform.{Platform}

-- `records` are the records that are registered. An error number of pthread.h is not 0.
pub record EpochHost {W : Type 0} (host : Platform W) : Type 0 where
  pub key_create : W → ℕ × W
  pub key_delete : W → ℕ × W
  pub getspecific : W → Option ℕ
  pub setspecific : ℕ → W → ℕ × W
  pub epoch_init : W → W
  pub register : ℕ → W → W
  pub unregister : ℕ → W → W
  pub begin : ℕ → W → W
  pub finish : ℕ → W → W
  pub defer : ℕ → ℕ → ℕ → W → W
  pub synchronize : ℕ → W → W
  pub records : W → List ℕ
  pub getspecific-setspecific :
      (p : ℕ) (w : W) → (setspecific p w).0 ≡ 0 → getspecific (setspecific p w).1 ≡ some p
  pub getspecific-begin : (p : ℕ) (w : W) → getspecific (begin p w) ≡ getspecific w
  pub getspecific-finish : (p : ℕ) (w : W) → getspecific (finish p w) ≡ getspecific w
  pub records-register : (p : ℕ) (w : W) → records (register p w) ≡ p ∷ records w
  pub records-setspecific : (p : ℕ) (w : W) → records (setspecific p w).1 ≡ records w
  pub records-begin : (p : ℕ) (w : W) → records (begin p w) ≡ records w
  pub records-malloc : (s : ℕ) (w : W) → records (host.malloc s w).1 ≡ records w
  pub records-free : (p : Option ℕ) (w : W) → records (host.free p w) ≡ records w
  pub live-register : (p : ℕ) (w : W) → host.live (register p w) ≡ host.live w
  pub live-setspecific : (p : ℕ) (w : W) → host.live (setspecific p w).1 ≡ host.live w
  pub live-begin : (p : ℕ) (w : W) → host.live (begin p w) ≡ host.live w

-- `size` is `sizeof(ck_epoch_record_t)`.
module _ {W : Type 0} (host : Platform W) (ck : EpochHost host) (size : ℕ) where
  open ck use {getspecific, setspecific, register, unregister, begin, finish, defer, synchronize}

  unfoldable pub ebpf_epoch_record_dtor : ℕ → W → W
  ebpf_epoch_record_dtor specific w = unregister specific w

  unfoldable pub ebpf_epoch_init : W → ℕ × W
  ebpf_epoch_init w = ck.key_create (ck.epoch_init w)

  unfoldable pub ebpf_epoch_deinit : W → ℕ × W
  ebpf_epoch_deinit w = ck.key_delete w

  -- `none` is the result -1, and `some` the record with the result 0.
  unfoldable pub ebpf_epoch_get_record : W → Option ℕ × W
  ebpf_epoch_get_record w = elim (getspecific w) [
    | some r ↦ (some r, w)
    | none ↦
        let (p, w₁) = host.malloc size w in
        elim p [
          | none ↦ (none, w₁)
          | some r ↦
              let (error, w₂) = setspecific r (register r w₁) in
              if error == 0 then (some r, w₂) else (none, host.free (some r) w₂)
        ]
  ]

  -- `none` is a failed assertion.
  unfoldable pub ebpf_epoch_enter : W → Option W
  unfolding ebpf_epoch_get_record
  ebpf_epoch_enter w = let (r, w') = ebpf_epoch_get_record w in r >>= λ rec. some (begin rec w')

  unfoldable pub ebpf_epoch_exit : W → Option W
  ebpf_epoch_exit w = getspecific w >>= λ rec. some (finish rec w)

  unfoldable pub ebpf_epoch_call : ℕ → ℕ → W → Option W
  unfolding ebpf_epoch_get_record
  ebpf_epoch_call ctx callback w =
      let (r, w') = ebpf_epoch_get_record w in r >>= λ rec. some (defer rec ctx callback w')

  unfoldable pub ebpf_epoch_wait : W → Option W
  unfolding ebpf_epoch_get_record
  ebpf_epoch_wait w =
      let (r, w') = ebpf_epoch_get_record w in r >>= λ rec. some (synchronize rec w')
