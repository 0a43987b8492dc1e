-- ===== src/Hashtable/Grow.antt =====
-- A new key in a per-CPU hash table: `replace_percpu` takes an element from the pool and writes the
-- key and, by `write`, some of the values.
use generic_ebpf.Base.{
  ℕ, ◌*◌, ◌≤◌, ◌≡◌, ◌≢◌, refl, sym, ◌∙◌, ap, arith, some, none, List, take, length,
}
use native.Mathlib.Decide.{ℕ_discrete}
use generic_ebpf.Map.{ok}
use generic_ebpf.Platform.{count}
use generic_ebpf.Allocator.{Allocator, ebpf_allocator_alloc}
use generic_ebpf.Allocator.Pool.{Taken}
use generic_ebpf.Hashtable.{HashElem, HashTable, HashMap, set_at, new_elem, link, put_key}
use generic_ebpf.Hashtable.Ops.{bucket_of, elem_of, replace_percpu}
use generic_ebpf.Hashtable.Chain.{get_hash_elem-some, set_at_self, set_at_ne, take-copy}
use generic_ebpf.Hashtable.Values.{IsWrite}
use generic_ebpf.Hashtable.Invariant.{IsValid, bucket_of-lt}
use generic_ebpf.Hashtable.Swap.{linking, Links, linked-IsIndexed}
use generic_ebpf.Hashtable.Insert.{drawn, grown-IsOwned, grown-Links}

module _ (hash : List ℕ → ℕ) (slots : ℕ) (m : HashMap) (key : List ℕ) (v : IsValid hash slots m)
    (enough_key : m.key_size ≤ length key) (write : HashElem → HashElem)
    (keeps : IsWrite (slots * m.contents.value_size) write) (absent : elem_of hash m key ≡ none)
    (p : ℕ) (a' : Allocator) (e : ebpf_allocator_alloc m.contents.allocator ≡ some (some p, a'))
    (taken : Taken m.contents.allocator (some (some p, a'))) where
  abbrev t : HashTable
  t = m.contents

  abbrev b : ℕ
  b = bucket_of hash t m.key_size key

  abbrev pub with_new : HashTable
  with_new = drawn t p a' v.owned taken

  abbrev pub elem : HashElem
  elem = write (put_key m.key_size key (t.heap p))

  elem-key : take m.key_size elem.key ≡ take m.key_size key
  unfolding put_key
  elem-key =
      ap (λ k. take m.key_size k) (keeps.key (put_key m.key_size key (t.heap p)))
      ∙ take-copy m.key_size (t.heap p).key key enough_key

  elem-sized : slots * t.value_size ≤ length elem.values
  unfolding put_key
  elem-sized =
      omega (arith, keeps.long (put_key m.key_size key (t.heap p)) (v.sized.1 p), v.sized.1 p)

  pub links : Links hash m.key_size with_new b p elem key (t.buckets b)
  unfolding elem_of
  links = grown-Links hash m.key_size t p a' v.owned taken elem key v.indexed elem-key absent

  -- the map with the new element at the head of its chain
  abbrev pub result : HashMap
  result = record m { contents = linking with_new b p elem (t.buckets b) }

  pub result-IsValid : IsValid hash slots result
  unfolding bucket_of
  result-IsValid = record {
    indexed = linked-IsIndexed hash m.key_size with_new b p elem key (t.buckets b) links;
    owned = grown-IsOwned t p a' v.owned taken b elem (bucket_of-lt hash m.key_size t key v.owned);
    sized = (
      v.sized.0,
      λ q. elim (ℕ_discrete p q) [
        | yes s ↦ rw (sym s, set_at_self t.heap p elem) elem-sized
        | no ne ↦ rw (set_at_ne t.heap p q elem ne) (v.sized.1 q)
      ],
    );
  }

  -- The new element is none that a search found.
  pub not_p : (k : List ℕ) (q : ℕ) → elem_of hash m k ≡ some q → p ≢ q
  unfolding elem_of
  not_p k q f s =
      let c = bucket_of hash t m.key_size k in
      let g = (get_hash_elem-some m.key_size t.heap (t.buckets c) k q f).0 in
      absurd (omega (arith, links.fresh c, g, ap (λ x. count x (t.buckets c)) s))

  pub replace_new : replace_percpu hash m key write none ≡ some (ok, result)
  unfolding replace_percpu new_elem link set_at
  replace_new = rw (replace_percpu, new_elem, e) refl
