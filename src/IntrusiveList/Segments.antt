-- ===== src/IntrusiveList/Segments.antt =====
-- src/xixi_list.hpp: what it means that the links of the nodes form a list, and how a change of one
-- link acts on it.
use xixi.Prelude.{ℕ, ◌≡◌, ◌≢◌, Option, none, some, List, [], ◌∷◌, ◌++◌, arith, update, All}

abbrev pub first_or : List ℕ → Option ℕ → Option ℕ
first_or [] after = after
first_or (x ∷ xs) after = some x

abbrev pub last_or : List ℕ → Option ℕ → Option ℕ
last_or [] before = before
last_or (x ∷ xs) before = last_or xs (some x)

-- The address is not in the list.
abbrev pub Absent : ℕ → List ℕ → Type 0
Absent p = All (λ (x : ℕ). p ≢ x)

abbrev pub Distinct : List ℕ → Type 0
Distinct [] = Unit {0}
Distinct (x ∷ xs) = Absent x xs × Distinct xs

-- The nodes `xs`, linked both ways, between the node before and the node after.
abbrev pub Segment : (ℕ → Option ℕ) → (ℕ → Option ℕ) → Option ℕ → List ℕ → Option ℕ → Type 0
Segment next prev before [] after = Unit {0}
Segment next prev before (x ∷ xs) after =
    (prev x ≡ before) × (next x ≡ first_or xs after) × Segment next prev (some x) xs after

pub last-Absent : (p : ℕ) (xs : List ℕ) (q : ℕ) → Absent p xs → last_or xs none ≡ some q → p ≢ q
last-Absent p [] q a e = cc
last-Absent p (x ∷ []) q (ne, a) e = ground (arith, e)
last-Absent p (x ∷ y ∷ xs) q (ne, a) e = last-Absent p (y ∷ xs) q a e

module _ (next prev : ℕ → Option ℕ) where
  -- A link written in a node outside changes nothing.
  pub next-Segment :
      (p : ℕ) (v before : Option ℕ) (xs : List ℕ) (after : Option ℕ)
      → Absent p xs
      → Segment next prev before xs after
      → Segment (update next p v) prev before xs after
  next-Segment p v before [] after a s = tt
  next-Segment p v before (x ∷ xs) after (ne, a) (sp, sn, rest) =
      (sp, ground (arith, sn), next-Segment p v (some x) xs after a rest)

  pub prev-Segment :
      (p : ℕ) (v before : Option ℕ) (xs : List ℕ) (after : Option ℕ)
      → Absent p xs
      → Segment next prev before xs after
      → Segment next (update prev p v) before xs after
  prev-Segment p v before [] after a s = tt
  prev-Segment p v before (x ∷ xs) after (ne, a) (sp, sn, rest) =
      (ground (arith, sp), sn, prev-Segment p v (some x) xs after a rest)

  -- A list in two parts.
  pub Segment-append :
      (before : Option ℕ) (xs ys : List ℕ) (after : Option ℕ)
      → Segment next prev before xs (first_or ys after)
      → Segment next prev (last_or xs before) ys after
      → Segment next prev before (xs ++ ys) after
  Segment-append before [] ys after s t = t
  Segment-append before (x ∷ []) ys after (sp, sn, s) t = (sp, sn, t)
  Segment-append before (x ∷ y ∷ xs) ys after (sp, sn, s) t =
      (sp, sn, Segment-append (some x) (y ∷ xs) ys after s t)

  pub Segment-left :
      (before : Option ℕ) (xs ys : List ℕ) (after : Option ℕ)
      → Segment next prev before (xs ++ ys) after
      → Segment next prev before xs (first_or ys after)
  Segment-left before [] ys after s = tt
  Segment-left before (x ∷ []) ys after (sp, sn, s) = (sp, sn, tt)
  Segment-left before (x ∷ y ∷ xs) ys after (sp, sn, s) =
      (sp, sn, Segment-left (some x) (y ∷ xs) ys after s)

  pub Segment-right :
      (before : Option ℕ) (xs ys : List ℕ) (after : Option ℕ)
      → Segment next prev before (xs ++ ys) after
      → Segment next prev (last_or xs before) ys after
  Segment-right before [] ys after s = s
  Segment-right before (x ∷ xs) ys after (sp, sn, s) = Segment-right (some x) xs ys after s

  -- A new link out of the last node.
  pub relink-last :
      (q : ℕ) (v before : Option ℕ) (xs : List ℕ) (after : Option ℕ)
      → Distinct xs
      → last_or xs none ≡ some q
      → Segment next prev before xs after
      → Segment (update next q v) prev before xs v
  relink-last q v before [] after d e s = cc
  relink-last q v before (x ∷ []) after d e (sp, sn, s) = (sp, ground (arith, e), tt)
  relink-last q v before (x ∷ y ∷ xs) after (a, d) e (sp, sn, s) = (
    sp,
    ground (arith, sn, last-Absent x (y ∷ xs) q a e),
    relink-last q v (some x) (y ∷ xs) after d e s,
  )

  -- A new link back from the first node.
  pub relink-first :
      (q : ℕ) (v before : Option ℕ) (xs : List ℕ) (after : Option ℕ)
      → Distinct (q ∷ xs)
      → Segment next prev before (q ∷ xs) after
      → Segment next (update prev q v) v (q ∷ xs) after
  relink-first q v before xs after (a, d) (sp, sn, s) =
      (ground arith, sn, prev-Segment q v (some q) xs after a s)
