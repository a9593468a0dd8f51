-- ===== src/IntrusiveList/Removes.antt =====
-- src/xixi_list.hpp: `remove` takes a node out of the middle of a list.
use xixi.IntrusiveList.{Links, same, set_next, set_prev, remove}
use xixi.IntrusiveList.Segments.{
  first_or, last_or, Absent, Distinct, Segment, next-Segment, prev-Segment, Segment-append,
  Segment-left, Segment-right, relink-last, relink-first, last-Absent,
}
use xixi.IntrusiveList.Refines.{IsList, last_some}
use xixi.Prelude.{
  ℕ, ◌≡◌, refl, sym, Option, none, some, List, [], ◌∷◌, ◌++◌, append-nil, arith, if◌then◌else◌,
  update, length-append,
}

Distinct-left : (xs ys : List ℕ) → Distinct (xs ++ ys) → Distinct xs
Distinct-left [] ys d = tt
Distinct-left (x ∷ xs) ys (a, d) = (outside xs a, Distinct-left xs ys d)
  where
    outside : (zs : List ℕ) → Absent x (zs ++ ys) → Absent x zs
    outside [] c = tt
    outside (z ∷ zs) (c, cs) = (c, outside zs cs)

Distinct-right : (xs ys : List ℕ) → Distinct (xs ++ ys) → Distinct ys
Distinct-right [] ys d = d
Distinct-right (x ∷ xs) ys (a, d) = Distinct-right xs ys d

Absent-right : (x : ℕ) (xs ys : List ℕ) → Absent x (xs ++ ys) → Absent x ys
Absent-right x [] ys a = a
Absent-right x (y ∷ xs) ys (ne, a) = Absent-right x xs ys a

Absent-left : (p : ℕ) (xs ys : List ℕ) → Distinct (xs ++ p ∷ ys) → Absent p xs
Absent-left p [] ys d = tt
Absent-left p (x ∷ xs) ys (a, d) =
    (λ e. (Absent-right x xs (p ∷ ys) a).0 (sym e), Absent-left p xs ys d)

Distinct-drop : (p : ℕ) (xs ys : List ℕ) → Distinct (xs ++ p ∷ ys) → Distinct (xs ++ ys)
Distinct-drop p [] ys (a, d) = d
Distinct-drop p (x ∷ xs) ys (a, d) = (outside xs a, Distinct-drop p xs ys d)
  where
    outside : (zs : List ℕ) → Absent x (zs ++ p ∷ ys) → Absent x (zs ++ ys)
    outside [] (c, cs) = cs
    outside (z ∷ zs) (c, cs) = (c, outside zs cs)

-- The last node of the first part is not in the second.
last-outside :
    (xs ys : List ℕ) (q : ℕ) → Distinct (xs ++ ys) → last_or xs none ≡ some q → Absent q ys
last-outside [] ys q d e = cc
last-outside (x ∷ []) ys q (a, d) e = let same_node : x ≡ q = ground (arith, e) in rw same_node at a
last-outside (x ∷ y ∷ xs) ys q (a, d) e = last-outside (y ∷ xs) ys q d e

-- The two parts beside a node, up to the node `v` and from the node `b`.
abbrev Parts : Links → List ℕ → Option ℕ → Option ℕ → List ℕ → Type 0
Parts l xs v b ys = Segment l.next l.prev none xs v × Segment l.next l.prev b ys none

back_over :
    (p : ℕ) (l : Links) (xs ys : List ℕ)
    → Distinct (xs ++ p ∷ ys)
    → Parts l xs (some p) (some p) ys
    → Parts (set_prev (first_or ys none) (last_or xs none) l) xs (some p) (last_or xs none) ys
unfolding set_prev
back_over p l xs [] d (s, t) = (s, tt)
back_over p l xs (y ∷ ys) d (s, t) = (
  prev-Segment l.next l.prev y (last_or xs none) none xs (some p)
      (Absent-left y xs ys (Distinct-drop p xs (y ∷ ys) d)) s,
  relink-first l.next l.prev y (last_or xs none) (some p) ys none
      (Distinct-right xs (p ∷ y ∷ ys) d).1 t,
)

forth_by :
    (p : ℕ) (l : Links) (x : ℕ) (xs ys : List ℕ) (o : Option ℕ)
    → last_or (x ∷ xs) none ≡ o
    → Distinct ((x ∷ xs) ++ p ∷ ys)
    → Parts l (x ∷ xs) (some p) o ys
    → Parts (set_next o (first_or ys none) l) (x ∷ xs) (first_or ys none) o ys
unfolding set_next
forth_by p l x xs ys none e d s = let (q, f) = last_some x xs in cc (e, f)
forth_by p l x xs ys (some q) e d (s, t) = (
  relink-last l.next l.prev q (first_or ys none) none (x ∷ xs) (some p)
      (Distinct-left (x ∷ xs) (p ∷ ys) d) e s,
  next-Segment l.next l.prev q (first_or ys none) (some q) ys none
      (last-outside (x ∷ xs) (p ∷ ys) q d e).1 t,
)

forth_over :
    (p : ℕ) (l : Links) (xs ys : List ℕ)
    → Distinct (xs ++ p ∷ ys)
    → Parts l xs (some p) (last_or xs none) ys
    → Parts
        (set_next (last_or xs none) (first_or ys none) l)
        xs
        (first_or ys none)
        (last_or xs none)
        ys
unfolding set_next
forth_over p l [] ys d (s, t) = (tt, t)
forth_over p l (x ∷ xs) ys d s = forth_by p l x xs ys (last_or (x ∷ xs) none) refl d s

bypass_lem :
    (p : ℕ) (l : Links) (xs ys : List ℕ)
    → Distinct (xs ++ p ∷ ys)
    → Parts l xs (some p) (some p) ys
    → let l2 =
        set_next
          (last_or xs none)
          (first_or ys none)
          (set_prev (first_or ys none) (last_or xs none) l) in
      Segment (update l2.next p none) (update l2.prev p none) none (xs ++ ys) none
bypass_lem p l xs ys d s =
    let l1 = set_prev (first_or ys none) (last_or xs none) l in
    let l2 = set_next (last_or xs none) (first_or ys none) l1 in
    let (t, u) = forth_over p l1 xs ys d (back_over p l xs ys d s) in
    let left = Absent-left p xs ys d in
    let right = (Distinct-right xs (p ∷ ys) d).0 in
    let next' = update l2.next p none in
    let prev' = update l2.prev p none in
    Segment-append next' prev' none xs ys none
      (prev-Segment next' l2.prev p none none xs (first_or ys none) left
        (next-Segment l2.next l2.prev p none none xs (first_or ys none) left t))
      (prev-Segment next' l2.prev p none (last_or xs none) ys none right
        (next-Segment l2.next l2.prev p none (last_or xs none) ys none right u))

front_over :
    (p : ℕ) (xs ys : List ℕ) (next : Option ℕ)
    → Distinct (xs ++ p ∷ ys)
    → next ≡ first_or ys none
    → (if same (first_or (xs ++ p ∷ ys) none) (some p) then next else first_or (xs ++ p ∷ ys) none)
      ≡ first_or (xs ++ ys) none
unfolding same
front_over p [] ys next d e = ground (arith, e)
front_over p (x ∷ xs) ys next d e = ground (arith, (Absent-left p (x ∷ xs) ys d).0)

last-append_cons :
    (xs : List ℕ) (y : ℕ) (ys : List ℕ) (b : Option ℕ)
    → last_or (xs ++ y ∷ ys) b ≡ last_or ys (some y)
last-append_cons [] y ys b = refl
last-append_cons (x ∷ xs) y ys b = last-append_cons xs y ys (some x)

back_over_end :
    (p : ℕ) (xs ys : List ℕ) (prev : Option ℕ)
    → Distinct (xs ++ p ∷ ys)
    → prev ≡ last_or xs none
    → (if same (last_or (xs ++ p ∷ ys) none) (some p) then prev else last_or (xs ++ p ∷ ys) none)
      ≡ last_or (xs ++ ys) none
unfolding same
back_over_end p xs [] prev d e =
    rw (last-append_cons xs p [] none, append-nil xs) (ground (arith, e))
back_over_end p xs (y ∷ ys) prev d e =
    let (q, f) = last_some y ys in
    let ne = last-Absent p (y ∷ ys) q (Distinct-right xs (p ∷ y ∷ ys) d).0 f in
    rw (last-append_cons xs p (y ∷ ys) none, last-append_cons xs y ys none, f) (ground (arith, ne))

-- `remove` takes a node out, wherever it stands, and keeps the order of the others.
pub remove-IsList :
    (p : ℕ) (l : Links) (xs ys : List ℕ) → IsList l (xs ++ p ∷ ys) → IsList (remove p l) (xs ++ ys)
unfolding remove
remove-IsList p l xs ys v =
    let d = v.distinct in
    let s = Segment-left l.next l.prev none xs (p ∷ ys) none v.linked in
    let (back, forth, t) = Segment-right l.next l.prev none xs (p ∷ ys) none v.linked in
    let n = length-append {0} xs (p ∷ ys) in
    let n' = length-append {0} xs ys in
    record {
      front = rw v.front (front_over p xs ys (l.next p) d forth);
      back = rw v.back (back_over_end p xs ys (l.prev p) d back);
      linked = rw (back, forth) (bypass_lem p l xs ys d (s, t));
      distinct = Distinct-drop p xs ys d;
      counted = omega (arith, v.counted, n, n');
    }
