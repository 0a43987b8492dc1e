-- ===== src/Hashtable/Once.antt =====
-- No key stands twice in a hash table.
use native.Mathlib.Decide.{ℕ_discrete}
use generic_ebpf.Base.{
  ℕ, zero, suc, ◌+◌, ◌≤◌, ◌<◌, ◌≡◌, ◌≢◌, refl, sym, ◌∙◌, arith, List, Option-cases, inl, inr,
}
use generic_ebpf.Hashtable.{HashTable, HashMap, get_hash_elem}
use generic_ebpf.Hashtable.Ops.{bucket_of}
use generic_ebpf.Hashtable.Chain.{matches, matches-none, get_hash_elem-some, memcmp_eq-take}
use generic_ebpf.Hashtable.Swap.{bucket_of_same}
use generic_ebpf.Hashtable.Invariant.{IsValid}
use generic_ebpf.Hashtable.Links.{matches-append}
use generic_ebpf.Hashtable.First.{chain_from}

module _ (hash : List ℕ → ℕ) (slots : ℕ) (m : HashMap) (v : IsValid hash slots m) where
  abbrev t : HashTable
  t = m.contents

  module _ (key : List ℕ) where
    abbrev b₀ : ℕ
    b₀ = bucket_of hash t m.key_size key

    matches-elsewhere : (b : ℕ) → b₀ ≢ b → matches m.key_size t.heap key (t.buckets b) ≡ 0
    matches-elsewhere b ne =
        elim (Option-cases (get_hash_elem t.heap (t.buckets b) key m.key_size)) [
          | inl e ↦ matches-none m.key_size t.heap (t.buckets b) key e
          | inr (q, e) ↦
              let (c, s) = get_hash_elem-some m.key_size t.heap (t.buckets b) key q e in
              absurd (
                ne (
                  sym (
                    bucket_of_same hash m.key_size t (t.heap q).key key
                      (memcmp_eq-take m.key_size (t.heap q).key key s))
                  ∙ v.indexed.hashed b q c))
        ]

    matches-behind :
        (left i : ℕ) → b₀ < i → matches m.key_size t.heap key (chain_from left i t.buckets) ≡ 0
    unfolding chain_from matches
    matches-behind zero i h = refl
    matches-behind (suc left) i h = omega (
      arith,
      matches-append m.key_size t.heap key (t.buckets i) (chain_from left (i + 1) t.buckets),
      matches-elsewhere i (λ e. absurd (omega (arith, e))),
      matches-behind left (i + 1) (omega arith),
    )

    pub matches-listed :
        (left i : ℕ) → matches m.key_size t.heap key (chain_from left i t.buckets) ≤ 1
    unfolding chain_from matches
    matches-listed zero i = omega arith
    matches-listed (suc left) i =
        let both =
          matches-append m.key_size t.heap key (t.buckets i) (chain_from left (i + 1) t.buckets) in
        elim (ℕ_discrete b₀ i) [
          | yes e ↦ omega (
            arith,
            both,
            v.indexed.keys_once i key,
            matches-behind left (i + 1) (omega (arith, e)),
          )
          | no ne ↦ omega (arith, both, matches-elsewhere i ne, matches-listed left (i + 1))
        ]
