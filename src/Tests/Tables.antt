-- ===== src/Tests/Tables.antt =====
-- The hash table of src/xixi_hash_map.hpp with two nodes in three buckets.
use xixi.HashMap.{HashMap}
use xixi.HashMap as Table
use xixi.HashMap.Counts.{count, count-insert, count-remove}
use xixi.HashMap.Placed.{IsPlaced, insert-IsPlaced, remove-IsPlaced, find_complete}
use xixi.Prelude.{
  ℕ, zero, suc, ◌+◌, ◌≡◌, refl, ◌⊎◌, Bool, true, false, none, some, List, [], ◌∷◌, arith, ltb, ◌==◌,
  if◌then◌else◌, All,
}

abbrev chains : ℕ → List (ℕ × ℕ)
chains zero = []
chains (suc zero) = (4, 40) ∷ (1, 10) ∷ []
chains (suc (suc i)) = []

abbrev table : HashMap ℕ
table = record { bucket_size = 3; expand_size = 2; hash_table = chains; size = 2 }

abbrev is_small : ℕ × ℕ → Bool
is_small node = ltb node.1 30

abbrev is_ten : ℕ → Bool
is_ten t = t == 10

abbrev is_fifty : ℕ → Bool
is_fifty t = t == 50

table-IsPlaced : IsPlaced table
table-IsPlaced zero = tt
table-IsPlaced (suc zero) = (refl, (refl, tt))
table-IsPlaced (suc (suc b)) = tt

count-insert_example : count is_small (Table.insert table 20 7) ≡ 1 + count is_small table
count-insert_example = count-insert is_small table 20 7 (omega arith) (omega arith)

count-remove_example :
    let r = Table.remove table is_ten 1 in
    ((Table.find table is_ten 1 ≡ none) × ((r.0 ≡ none) × (r.1 ≡ table)))
    ⊎ ((t : ℕ) × (g : ℕ) × ((Table.find table is_ten 1 ≡ some t)
          × (r.0 ≡ some t)
          × (is_ten t ≡ true)
          × (count is_small table ≡ (if is_small (g, t) then 1 else 0) + count is_small r.1)))
count-remove_example = count-remove is_small table is_ten 1 (omega arith)

insert-IsPlaced_example : IsPlaced (Table.insert table 20 7)
insert-IsPlaced_example = insert-IsPlaced table 20 7 table-IsPlaced

remove-IsPlaced_example : IsPlaced (Table.remove table is_ten 1).1
remove-IsPlaced_example = remove-IsPlaced table is_ten 1 table-IsPlaced

missed : Table.find table is_fifty 4 ≡ none
unfolding Table.find Table.search
missed = refl

find_complete_example :
    All (λ (node : ℕ × ℕ). node.0 ≡ 4 → is_fifty node.1 ≡ false) ((4, 40) ∷ (1, 10) ∷ [])
find_complete_example = find_complete table is_fifty 4 table-IsPlaced missed 1
