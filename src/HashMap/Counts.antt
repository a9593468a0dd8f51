-- ===== src/HashMap/Counts.antt =====
-- src/xixi_hash_map.hpp: the nodes that the table holds, counted by any test on them.
use native.Mathlib.Nat.{mod-lt}
use xixi.HashMap.{
  HashMap, push, rehash_chain, rehash, expand, next_bucket_size, next_size, insert, search, unchain,
  remove, find,
}
use xixi.Prelude.{
  ℕ, zero, suc, ◌+◌, ◌%◌, ◌^◌, ◌≤◌, ◌<◌, ◌≡◌, refl, sym, ap, ◌∙◌, ◌⊎◌, inl, inr, Bool, true, none,
  some, List, [], ◌∷◌, arith, ltb, ◌==◌, if◌then◌else◌, Bool-cases, Option-cases, update,
}

module _ {T : Type 0} (test : ℕ × T → Bool) where
  abbrev one : ℕ × T → ℕ
  one node = if test node then 1 else 0

  unfoldable pub in_chain : List (ℕ × T) → ℕ
  in_chain [] = 0
  in_chain (node ∷ chain) = one node + in_chain chain

  -- The nodes in the buckets below `n`.
  unfoldable pub in_table : ℕ → (ℕ → List (ℕ × T)) → ℕ
  in_table zero table = 0
  in_table (suc n) table = in_table n table + in_chain (table n)

  unfoldable pub count : HashMap T → ℕ
  count m = in_table m.bucket_size m.hash_table

  in_table-above :
      (n b : ℕ) (table : ℕ → List (ℕ × T)) (chain : List (ℕ × T))
      → n ≤ b
      → in_table n (update table b chain) ≡ in_table n table
  unfolding in_table
  in_table-above zero b table chain h = refl
  in_table-above (suc n) b table chain h =
      ground (arith, in_table-above n b table chain (omega arith))

  in_table-update :
      (n b : ℕ) (table : ℕ → List (ℕ × T)) (chain : List (ℕ × T))
      → b < n
      → in_table n (update table b chain) + in_chain (table b) ≡ in_table n table + in_chain chain
  unfolding in_table
  in_table-update zero b table chain h = absurd (omega arith)
  in_table-update (suc n) b table chain h = elim (Bool-cases (b == n)) [
    | inl e ↦
        let same : b ≡ n = ground arith in
        rw same (ground (arith, in_table-above n n table chain (omega arith)))
    | inr d ↦ ground (arith, in_table-update n b table chain (ground arith))
  ]

  in_table-push :
      (n : ℕ) (node : ℕ × T) (table : ℕ → List (ℕ × T))
      → 0 < n
      → in_table n (push n node table) ≡ one node + in_table n table
  unfolding push in_chain
  in_table-push n node table h =
      let b = node.0 % n in
      omega (arith, in_table-update n b table (node ∷ table b) (mod-lt node.0 h))

  in_table-rehash_chain :
      (n : ℕ) (chain : List (ℕ × T)) (table : ℕ → List (ℕ × T))
      → 0 < n
      → in_table n (rehash_chain n chain table) ≡ in_chain chain + in_table n table
  unfolding rehash_chain in_chain
  in_table-rehash_chain n [] table h = omega arith
  in_table-rehash_chain n (node ∷ chain) table h =
      omega
        (arith, in_table-rehash_chain n chain (push n node table) h, in_table-push n node table h)

  -- The nodes in `rounds` buckets from `i` on.
  unfoldable between : ℕ → ℕ → (ℕ → List (ℕ × T)) → ℕ
  between zero i old = 0
  between (suc rounds) i old = in_chain (old i) + between rounds (i + 1) old

  between-last :
      (rounds i : ℕ) (old : ℕ → List (ℕ × T))
      → between (suc rounds) i old ≡ between rounds i old + in_chain (old (i + rounds))
  unfolding between
  between-last zero i old = let here : i + 0 ≡ i = omega arith in rw here (omega arith)
  between-last (suc rounds) i old =
      let there : i + 1 + rounds ≡ i + suc rounds = omega arith in
      let rest = rw there at (between-last rounds (i + 1) old) in omega (arith, rest)

  between-all : (n : ℕ) (old : ℕ → List (ℕ × T)) → between n 0 old ≡ in_table n old
  unfolding between in_table
  between-all zero old = refl
  between-all (suc n) old =
      let here : 0 + n ≡ n = omega arith in
      let last = rw here at (between-last n 0 old) in omega (arith, last, between-all n old)

  in_table-rehash :
      (rounds i n : ℕ) (old table : ℕ → List (ℕ × T))
      → 0 < n
      → in_table n (rehash rounds i n old table) ≡ between rounds i old + in_table n table
  unfolding rehash between
  in_table-rehash zero i n old table h = omega arith
  in_table-rehash (suc rounds) i n old table h = omega (
    arith,
    in_table-rehash rounds (i + 1) n old (rehash_chain n (old i) table) h,
    in_table-rehash_chain n (old i) table h,
  )

  in_table-empty : (n : ℕ) → in_table n (λ i. []) ≡ 0
  unfolding in_table in_chain
  in_table-empty zero = refl
  in_table-empty (suc n) = omega (arith, in_table-empty n)

  next_size_pos : (sizes : List ℕ) (size : ℕ) → 0 < size → size < 2 ^ 31 → 0 < next_size sizes size
  unfolding next_size
  next_size_pos [] size h k = omega arith
  next_size_pos (s ∷ sizes) size h k = let rest = next_size_pos sizes size h k in ground arith

  count-expand :
      (m : HashMap T) → 0 < m.bucket_size → m.bucket_size < 2 ^ 31 → count (expand m) ≡ count m
  unfolding count expand
  count-expand m h k =
      let n = next_bucket_size m.bucket_size in
      let pos : 0 < n = unfold next_bucket_size in next_size_pos _ m.bucket_size h k in
      omega (
        arith,
        in_table-rehash m.bucket_size 0 n m.hash_table (λ i. []) pos,
        in_table-empty n,
        between-all m.bucket_size m.hash_table,
      )

  -- An insertion adds its node and keeps every other, whether or not the table grows: the number of
  -- nodes that pass any test changes by the node alone.
  pub count-insert :
      (m : HashMap T) (p : T) (hash_value : ℕ)
      → 0 < m.bucket_size
      → m.bucket_size < 2 ^ 31
      → count (insert m p hash_value) ≡ (if test (hash_value, p) then 1 else 0) + count m
  unfolding count insert
  count-insert m p hash_value h k =
      let pushed = in_table-push m.bucket_size (hash_value, p) m.hash_table h in
      let m' : HashMap T = record m {
        hash_table = push m.bucket_size (hash_value, p) m.hash_table;
        size = (m.size + 1) % 2 ^ 32;
      } in
      elim (Bool-cases (ltb m.expand_size ((m.size + 1) % 2 ^ 32))) [
        | inl t ↦ rw t (count-expand m' h k ∙ pushed)
        | inr f ↦ rw f pushed
      ]

  unchain_lem :
      (is_key : T → Bool) (chain : List (ℕ × T)) (t : T)
      → search is_key chain ≡ some t
      → (g : ℕ) × ((is_key t ≡ true)
          × (in_chain chain ≡ one (g, t) + in_chain (unchain is_key chain)))
  unfolding search unchain in_chain
  unchain_lem is_key [] t e = cc
  unchain_lem is_key (node ∷ chain) t e = elim (Bool-cases (is_key node.1)) [
    | inl yes_key ↦
        let same : node.1 ≡ t = ground (arith, e, yes_key) in
        (
          node.0,
          (
            ap is_key (sym same) ∙ yes_key,
            rw yes_key (ap (λ (x : T). one (node.0, x) + in_chain chain) same),
          ),
        )
    | inr no_key ↦
        let found : search is_key chain ≡ some t = ground (arith, e, no_key) in
        let (g, (key, counts)) = unchain_lem is_key chain t found in
        (g, (key, rw no_key (omega (arith, counts))))
  ]

  -- A removal agrees with the search. Where the search finds no node, there is no answer and nothing changes; where it
  -- finds an item, which then has the key, the answer is that item, and exactly one node of it is taken out.
  pub count-remove :
      (m : HashMap T) (is_key : T → Bool) (hash_value : ℕ)
      → 0 < m.bucket_size
      → let r = remove m is_key hash_value in
        ((find m is_key hash_value ≡ none) × ((r.0 ≡ none) × (r.1 ≡ m)))
        ⊎ ((t : T) × (g : ℕ) × ((find m is_key hash_value ≡ some t)
              × (r.0 ≡ some t)
              × (is_key t ≡ true)
              × (count m ≡ (if test (g, t) then 1 else 0) + count r.1)))
  unfolding remove count find
  count-remove m is_key hash_value h =
      let b = hash_value % m.bucket_size in
      elim (Option-cases (search is_key (m.hash_table b))) [
        | inl e ↦ rw (e, remove) (inl (refl, (refl, refl)))
        | inr (t, e) ↦
            let (g, (key, counts)) = unchain_lem is_key (m.hash_table b) t e in
            let moved =
              in_table-update m.bucket_size b m.hash_table (unchain is_key (m.hash_table b))
                (mod-lt hash_value h) in
            rw (e, remove) (inr (t, g, (refl, refl, key, omega (arith, counts, moved))))
      ]
