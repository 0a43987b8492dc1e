-- ===== src/Tests/Epochs.antt =====
-- A thread of a host whose memory never runs out, where storing a thread-specific value may fail.
use mathlib.Core.Option.{some-injective}
use generic_ebpf.Base.{
  ℕ, ◌+◌, ◌≡◌, refl, arith, ap, Bool, true, false, if◌then◌else◌, Option, some, none, List, [], ◌∷◌,
}
use generic_ebpf.Platform.{Platform, remove}
use generic_ebpf.Epoch.{EpochHost, ebpf_epoch_get_record, ebpf_epoch_enter}
use generic_ebpf.Epoch.Thread.{Entered, ebpf_epoch_enter-Entered, ebpf_epoch_get_record-dangling}
use generic_ebpf.Tests.Host.{never_null}

record ThreadWorld : Type 0 where
  next : ℕ
  held : List ℕ
  specific : Option ℕ
  registered : List ℕ
  refuses : Bool

abbrev give : ThreadWorld → Option ℕ × ThreadWorld
give w = (some w.next, record w { next = w.next + 4096; held = w.next ∷ w.held })

abbrev give_back : Option ℕ → ThreadWorld → ThreadWorld
give_back none w = w
give_back (some p) w = record w { held = remove p w.held }

abbrev plenty : Platform ThreadWorld
plenty = record {
  calloc = λ n s w. give w;
  malloc = λ s w. give w;
  free = give_back;
  live = λ w. w.held;
  live-calloc_some = λ n s w p h. ap (λ q. q ∷ w.held) (some-injective _ _ h);
  live-calloc_none = λ n s w h. absurd (never_null w.next h);
  live-malloc_some = λ s w p h. ap (λ q. q ∷ w.held) (some-injective _ _ h);
  live-malloc_none = λ s w h. absurd (never_null w.next h);
  live-free = λ p w. refl;
  live-free_null = λ w. refl;
}

registered_back : (p : Option ℕ) (w : ThreadWorld) → (give_back p w).registered ≡ w.registered
registered_back none w = refl
registered_back (some p) w = refl

-- ENOMEM is 12.
abbrev put : ℕ → ThreadWorld → ℕ × ThreadWorld
put p w =
    (if w.refuses then 12 else 0, record w { specific = if w.refuses then w.specific else some p })

put_lem :
    (refuses : Bool) (old : Option ℕ) (p : ℕ)
    → ◌≡◌ {A = ℕ} (if refuses then 12 else 0) 0
    → (if refuses then old else some p) ≡ some p
put_lem true old p h = absurd (omega (arith, h))
put_lem false old p h = refl

abbrev thread_host : EpochHost plenty
thread_host = record {
  key_create = λ w. (0, w);
  key_delete = λ w. (0, w);
  getspecific = λ w. w.specific;
  setspecific = put;
  epoch_init = λ w. w;
  register = λ p w. record w { registered = p ∷ w.registered };
  unregister = λ p w. record w { registered = remove p w.registered };
  begin = λ p w. w;
  finish = λ p w. w;
  defer = λ p c f w. w;
  synchronize = λ p w. w;
  records = λ w. w.registered;
  getspecific-setspecific = λ p w h. put_lem w.refuses w.specific p h;
  getspecific-begin = λ p w. refl;
  getspecific-finish = λ p w. refl;
  records-register = λ p w. refl;
  records-setspecific = λ p w. refl;
  records-begin = λ p w. refl;
  records-malloc = λ s w. refl;
  records-free = λ p w. registered_back p w;
  live-register = λ p w. refl;
  live-setspecific = λ p w. refl;
  live-begin = λ p w. refl;
}

abbrev start : Bool → ThreadWorld
start refuses = record {
  next = 4096;
  held = [];
  specific = none;
  registered = [];
  refuses = refuses;
}

ebpf_epoch_enter-Entered_example :
    Entered plenty thread_host 64
      (start false)
      (ebpf_epoch_enter plenty thread_host 64 (start false))
ebpf_epoch_enter-Entered_example = ebpf_epoch_enter-Entered plenty thread_host 64 (start false)

ebpf_epoch_get_record-dangling_example :
    (w : ThreadWorld) × (ebpf_epoch_get_record plenty thread_host 64 (start true) ≡ (none, w))
    × (w.held ≡ [])
    × (w.registered ≡ 4096 ∷ [])
ebpf_epoch_get_record-dangling_example =
    ebpf_epoch_get_record-dangling plenty thread_host 64 (start true) 4096 refl refl
      (λ h. omega (arith, h))
