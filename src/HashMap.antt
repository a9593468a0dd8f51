-- ===== src/HashMap.antt =====
-- src/xixi_hash_map.hpp: the chained hash table. A node is its hash value and its item; the array of
-- chains is a function, read below `bucket_size`. The test `is_key` of an item against a key is the
-- argument `is_key k`. `malloc` of a larger array succeeds.
pub mod Counts
pub mod Placed
use xixi.Prelude.{
  ℕ, zero, suc, ◌+◌, ◌-◌, ◌*◌, ◌/◌, ◌%◌, ◌^◌, Bool, Option, none, some, List, [], ◌∷◌, ltb,
  if◌then◌else◌, update,
}

pub record HashMap (T : Type 0) : Type 0 where
  pub bucket_size : ℕ
  pub expand_size : ℕ
  pub hash_table : ℕ → List (ℕ × T)
  pub size : ℕ

unfoldable pub next_size : List ℕ → ℕ → ℕ
next_size [] size = size * 2 % 2 ^ 32
next_size (s ∷ sizes) size = let rest = next_size sizes size in if ltb size s then s else rest

unfoldable pub next_bucket_size : ℕ → ℕ
next_bucket_size = next_size (
    3 ∷ 7 ∷ 13 ∷ 23 ∷ 53 ∷ 97 ∷ 193 ∷ 389 ∷ 769 ∷ 1543 ∷ 3079 ∷ 6151 ∷ 12289 ∷ 24593 ∷ 49157 ∷ 98317
    ∷ 196613 ∷ 393241 ∷ 786433 ∷ 1572869 ∷ 3145739 ∷ 6291469 ∷ 12582917 ∷ 25165843 ∷ [])

module _ {T : Type 0} where
  -- `p->hash_next_ = table[bucket]; table[bucket] = p`
  unfoldable pub push : ℕ → ℕ × T → (ℕ → List (ℕ × T)) → ℕ → List (ℕ × T)
  push n node table = let b = node.0 % n in update table b (node ∷ table b)

  unfoldable pub rehash_chain : ℕ → List (ℕ × T) → (ℕ → List (ℕ × T)) → ℕ → List (ℕ × T)
  rehash_chain n [] table = table
  rehash_chain n (node ∷ chain) table = rehash_chain n chain (push n node table)

  -- `for (i = 0; i < bucket_size_; ++i)`, with the rounds left.
  unfoldable pub rehash : ℕ → ℕ → ℕ → (ℕ → List (ℕ × T)) → (ℕ → List (ℕ × T)) → ℕ → List (ℕ × T)
  rehash zero i n old table = table
  rehash (suc rounds) i n old table = rehash rounds (i + 1) n old (rehash_chain n (old i) table)

  unfoldable pub expand : HashMap T → HashMap T
  expand m = record m {
    bucket_size = next_bucket_size m.bucket_size;
    expand_size = next_bucket_size m.bucket_size * 3 % 2 ^ 32 / 2;
    hash_table = rehash m.bucket_size 0 (next_bucket_size m.bucket_size) m.hash_table (λ i. []);
  }

  unfoldable pub insert : HashMap T → T → ℕ → HashMap T
  insert m p hash_value =
      let m' = record m {
        hash_table = push m.bucket_size (hash_value, p) m.hash_table;
        size = (m.size + 1) % 2 ^ 32;
      } in
      if ltb m.expand_size ((m.size + 1) % 2 ^ 32) then expand m' else m'

  unfoldable pub search : (T → Bool) → List (ℕ × T) → Option T
  search is_key [] = none
  search is_key (node ∷ chain) = if is_key node.1 then some node.1 else search is_key chain

  unfoldable pub find : HashMap T → (T → Bool) → ℕ → Option T
  find m is_key hash_value = search is_key (m.hash_table (hash_value % m.bucket_size))

  unfoldable pub unchain : (T → Bool) → List (ℕ × T) → List (ℕ × T)
  unchain is_key [] = []
  unchain is_key (node ∷ chain) = if is_key node.1 then chain else node ∷ unchain is_key chain

  -- `remove` by key: the item, if there is one, and the table without it.
  unfoldable pub remove : HashMap T → (T → Bool) → ℕ → Option T × HashMap T
  remove m is_key hash_value =
      let b = hash_value % m.bucket_size in
      elim (search is_key (m.hash_table b)) [
        | none ↦ (none, m)
        | some t ↦ (
          some t,
          record m {
            hash_table = update m.hash_table b (unchain is_key (m.hash_table b));
            size = (m.size + (2 ^ 32 - 1)) % 2 ^ 32;
          },
        )
      ]
