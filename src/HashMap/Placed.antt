-- ===== src/HashMap/Placed.antt =====
-- src/xixi_hash_map.hpp: every node stands in the bucket of its hash value, so a search misses nothing.
use mathlib.Core.Path.{subst}
use xixi.HashMap.{
  HashMap, push, rehash_chain, rehash, expand, next_bucket_size, insert, search, find, unchain,
  remove,
}
use xixi.Prelude.{
  ℕ, zero, suc, ◌+◌, ◌%◌, ◌^◌, ◌≡◌, sym, ap, ◌∙◌, ◌≢◌, inl, inr, Bool, false, none, List, [], ◌∷◌,
  arith, ltb, ◌==◌, Bool-cases, Option-cases, update, All,
}

module _ {T : Type 0} where
  -- Every node of every bucket has a hash value of that bucket.
  abbrev pub PlacedIn : ℕ → (ℕ → List (ℕ × T)) → Type 0
  PlacedIn n table = (b : ℕ) → All (λ (node : ℕ × T). node.0 % n ≡ b) (table b)

  abbrev pub IsPlaced : HashMap T → Type 0
  IsPlaced m = PlacedIn m.bucket_size m.hash_table

  push-PlacedIn :
      (n : ℕ) (node : ℕ × T) (table : ℕ → List (ℕ × T))
      → PlacedIn n table
      → PlacedIn n (push n node table)
  unfolding push
  push-PlacedIn n node table v b = elim (Bool-cases (node.0 % n == b)) [
    | inl e ↦
        let same : node.0 % n ≡ b = ground arith in
        rw e (same, subst (λ (c : ℕ). All (λ (d : ℕ × T). d.0 % n ≡ b) (table c)) (sym same) (v b))
    | inr d ↦ rw d (v b)
  ]

  rehash_chain-PlacedIn :
      (n : ℕ) (chain : List (ℕ × T)) (table : ℕ → List (ℕ × T))
      → PlacedIn n table
      → PlacedIn n (rehash_chain n chain table)
  unfolding rehash_chain
  rehash_chain-PlacedIn n [] table v = v
  rehash_chain-PlacedIn n (node ∷ chain) table v =
      rehash_chain-PlacedIn n chain (push n node table) (push-PlacedIn n node table v)

  rehash-PlacedIn :
      (rounds i n : ℕ) (old table : ℕ → List (ℕ × T))
      → PlacedIn n table
      → PlacedIn n (rehash rounds i n old table)
  unfolding rehash
  rehash-PlacedIn zero i n old table v = v
  rehash-PlacedIn (suc rounds) i n old table v =
      rehash-PlacedIn rounds (i + 1) n old (rehash_chain n (old i) table)
        (rehash_chain-PlacedIn n (old i) table v)

  -- An insertion keeps every node in the bucket of its hash value, whether or not the table grows.
  pub insert-IsPlaced :
      (m : HashMap T) (p : T) (hash_value : ℕ) → IsPlaced m → IsPlaced (insert m p hash_value)
  unfolding insert expand
  insert-IsPlaced m p hash_value v = elim (Bool-cases (ltb m.expand_size ((m.size + 1) % 2 ^ 32))) [
    | inl t ↦ rw t (
        rehash-PlacedIn m.bucket_size 0 (next_bucket_size m.bucket_size)
          (push m.bucket_size (hash_value, p) m.hash_table) (λ i. []) (λ b. tt))
    | inr f ↦ rw f (push-PlacedIn m.bucket_size (hash_value, p) m.hash_table v)
  ]

  search-none :
      (is_key : T → Bool) (chain : List (ℕ × T))
      → search is_key chain ≡ none
      → All (λ (node : ℕ × T). is_key node.1 ≡ false) chain
  unfolding search
  search-none is_key [] e = tt
  search-none is_key (node ∷ chain) e = elim (Bool-cases (is_key node.1)) [
    | inl t ↦ absurd (ground (arith, e, t))
    | inr f ↦ (f, search-none is_key chain (ground (arith, e, f)))
  ]

  weaken :
      (is_key : T → Bool) (hash_value : ℕ) (chain : List (ℕ × T))
      → All (λ (node : ℕ × T). is_key node.1 ≡ false) chain
      → All (λ (node : ℕ × T). node.0 ≡ hash_value → is_key node.1 ≡ false) chain
  weaken is_key hash_value [] a = tt
  weaken is_key hash_value (node ∷ chain) (a, rest) = (λ h. a, weaken is_key hash_value chain rest)

  elsewhere :
      (is_key : T → Bool) (hash_value n b : ℕ) (chain : List (ℕ × T))
      → (hash_value % n ≢ b)
      → All (λ (node : ℕ × T). node.0 % n ≡ b) chain
      → All (λ (node : ℕ × T). node.0 ≡ hash_value → is_key node.1 ≡ false) chain
  elsewhere is_key hash_value n b [] d a = tt
  elsewhere is_key hash_value n b (node ∷ chain) d (a, rest) = (
    λ h. absurd (d (ap (λ (x : ℕ). x % n) (sym h) ∙ a)),
    elsewhere is_key hash_value n b chain d rest,
  )

  -- In a table whose nodes are placed, a search that finds nothing has missed nothing: no node of any
  -- bucket has both the hash value and the key.
  pub find_complete :
      (m : HashMap T) (is_key : T → Bool) (hash_value : ℕ)
      → IsPlaced m
      → find m is_key hash_value ≡ none
      → (b : ℕ)
      → All (λ (node : ℕ × T). node.0 ≡ hash_value → is_key node.1 ≡ false) (m.hash_table b)
  unfolding find
  find_complete m is_key hash_value v e b = elim (Bool-cases (hash_value % m.bucket_size == b)) [
    | inl t ↦
        let same : hash_value % m.bucket_size ≡ b = ground arith in
        weaken is_key hash_value (m.hash_table b)
          (search-none is_key (m.hash_table b) (rw same at e))
    | inr f ↦ elsewhere is_key hash_value m.bucket_size b (m.hash_table b) (ground arith) (v b)
  ]

  unchain-All :
      (P : ℕ × T → Type 0) (is_key : T → Bool) (chain : List (ℕ × T))
      → All P chain
      → All P (unchain is_key chain)
  unfolding unchain
  unchain-All P is_key [] a = a
  unchain-All P is_key (node ∷ chain) (a, rest) = elim (Bool-cases (is_key node.1)) [
    | inl t ↦ rw t rest
    | inr f ↦ rw f (a, unchain-All P is_key chain rest)
  ]

  take-PlacedIn :
      (n c : ℕ) (table : ℕ → List (ℕ × T)) (is_key : T → Bool)
      → PlacedIn n table
      → PlacedIn n (update table c (unchain is_key (table c)))
  take-PlacedIn n c table is_key v b = elim (Bool-cases (c == b)) [
    | inl t ↦
        let same : c ≡ b = ground arith in
        rw t (
          unchain-All (λ (d : ℕ × T). d.0 % n ≡ b) is_key (table c)
            (subst (λ (i : ℕ). All (λ (d : ℕ × T). d.0 % n ≡ b) (table i)) (sym same) (v b)))
    | inr f ↦ rw f (v b)
  ]

  -- A removal keeps every node in the bucket of its hash value.
  pub remove-IsPlaced :
      (m : HashMap T) (is_key : T → Bool) (hash_value : ℕ)
      → IsPlaced m
      → IsPlaced (remove m is_key hash_value).1
  unfolding remove
  remove-IsPlaced m is_key hash_value v =
      let b = hash_value % m.bucket_size in
      elim (Option-cases (search is_key (m.hash_table b))) [
        | inl e ↦ rw (e, remove) v
        | inr (t, e) ↦ rw (e, remove) (take-PlacedIn m.bucket_size b m.hash_table is_key v)
      ]
