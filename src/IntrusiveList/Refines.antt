-- ===== src/IntrusiveList/Refines.antt =====
-- src/xixi_list.hpp: the operations on the ends of a list, against lists of addresses.
use xixi.IntrusiveList.{Links, push_front, push_back, pop_front}
use xixi.IntrusiveList.Segments.{
  first_or, last_or, Absent, Distinct, Segment, next-Segment, prev-Segment, Segment-append,
  relink-last, relink-first, last-Absent,
}
use xixi.Prelude.{
  ℕ, ◌%◌, ◌^◌, ◌≡◌, refl, sym, ◌⊎◌, inl, inr, Option, none, some, List, [], ◌∷◌, ◌++◌, arith,
  update, length, length-append,
}

-- The links hold exactly the nodes `xs`, in this order.
pub record IsList (l : Links) (xs : List ℕ) : Type 0 where
  pub front : l.head ≡ first_or xs none
  pub back : l.tail ≡ last_or xs none
  pub linked : Segment l.next l.prev none xs none
  pub distinct : Distinct xs
  pub counted : l.size ≡ length xs % 2 ^ 32

pub last_some : (x : ℕ) (xs : List ℕ) → (q : ℕ) × (last_or xs (some x) ≡ some q)
last_some x [] = (x, refl)
last_some x (y ∷ xs) = last_some y xs

-- A list is empty or has a last node.
last_cases : (xs : List ℕ) → (xs ≡ []) ⊎ ((q : ℕ) × (last_or xs none ≡ some q))
last_cases [] = inl refl
last_cases (x ∷ xs) = inr (last_some x xs)

Absent-last : (p : ℕ) (xs : List ℕ) → Absent p xs → Distinct xs → Distinct (xs ++ p ∷ [])
Absent-last p [] a d = (tt, tt)
Absent-last p (x ∷ xs) (ne, a) (b, d) = (outside xs b, Absent-last p xs a d)
  where
    outside : (ys : List ℕ) → Absent x ys → Absent x (ys ++ p ∷ [])
    outside [] c = (λ e. ne (sym e), tt)
    outside (y ∷ ys) (c, cs) = (c, outside ys cs)

last-append : (xs : List ℕ) (p : ℕ) (before : Option ℕ) → last_or (xs ++ p ∷ []) before ≡ some p
last-append [] p before = refl
last-append (x ∷ xs) p before = last-append xs p (some x)

first-append : (xs : List ℕ) (p : ℕ) → first_or (xs ++ p ∷ []) none ≡ first_or xs (some p)
first-append [] p = refl
first-append (x ∷ xs) p = refl

-- `push_front` puts a node that is not linked at the front.
pub push_front-IsList :
    (p : ℕ) (l : Links) (xs : List ℕ) → Absent p xs → IsList l xs → IsList (push_front p l) (p ∷ xs)
unfolding push_front
push_front-IsList p l [] a v =
    rw (v.front, v.back)
      (record {
        front = refl;
        back = refl;
        linked = (ground arith, ground arith, tt);
        distinct = (tt, tt);
        counted = omega (arith, v.counted);
      })
push_front-IsList p l (x ∷ xs) a v =
    let (q, e) = last_some x xs in
    rw v.front (record {
      front = refl;
      back = rw (v.back, e) refl;
      linked = (
        ground arith,
        ground arith,
        next-Segment l.next (update (update l.prev x (some p)) p none) p (some x) (some p) (x ∷ xs)
            none a
            (prev-Segment l.next (update l.prev x (some p)) p none (some p) (x ∷ xs) none a
              (relink-first l.next l.prev x (some p) none xs none v.distinct v.linked)),
      );
      distinct = (a, v.distinct);
      counted = omega (arith, v.counted);
    })

-- `push_back` puts a node that is not linked at the back.
pub push_back-IsList :
    (p : ℕ) (l : Links) (xs : List ℕ)
    → Absent p xs
    → IsList l xs
    → IsList (push_back p l) (xs ++ p ∷ [])
unfolding push_back
push_back-IsList p l [] a v =
    rw (v.front, v.back)
      (record {
        front = refl;
        back = refl;
        linked = (ground arith, ground arith, tt);
        distinct = (tt, tt);
        counted = omega (arith, v.counted);
      })
push_back-IsList p l (x ∷ xs) a v =
    let (q, e) = last_some x xs in
    let ne = last-Absent p (x ∷ xs) q a e in
    let relinked =
      prev-Segment (update (update l.next q (some p)) p none) l.prev p (some q) none (x ∷ xs)
        (some p) a
        (next-Segment (update l.next q (some p)) l.prev p none none (x ∷ xs) (some p) a
          (relink-last l.next l.prev q (some p) none (x ∷ xs) none v.distinct e v.linked)) in
    rw (v.front, v.back, e)
      (record {
        front = refl;
        back = sym (last-append xs p (some x));
        linked =
            Segment-append (update (update l.next q (some p)) p none) (update l.prev p (some q))
              none (x ∷ xs) (p ∷ []) none relinked (ground (arith, e), ground arith, tt);
        distinct = Absent-last p (x ∷ xs) a v.distinct;
        counted = omega (arith, v.counted, length-append {0} xs (p ∷ []));
      })

-- `pop_front` answers with the first node, and leaves the others.
pub pop_front-IsList :
    (l : Links) (x : ℕ) (xs : List ℕ)
    → IsList l (x ∷ xs)
    → ((pop_front l).0 ≡ some x) × IsList (pop_front l).1 xs
unfolding pop_front
pop_front-IsList l x [] v =
    rw (v.front, pop_front)
      (
        refl,
        record {
          front = v.linked.1;
          back = rw v.back (ground arith);
          linked = tt;
          distinct = tt;
          counted = omega (arith, v.counted);
        },
      )
pop_front-IsList l x (y ∷ xs) v =
    let (q, e) = last_some y xs in
    let ne = last-Absent x (y ∷ xs) q v.distinct.0 e in
    rw (v.front, pop_front, v.linked.1)
      (
        refl,
        record {
          front = refl;
          back = rw (v.back, e) (ground (arith, ne));
          linked =
              next-Segment l.next (update l.prev y none) x none none (y ∷ xs) none v.distinct.0
                (relink-first l.next l.prev y none (some x) xs none v.distinct.1 v.linked.2);
          distinct = v.distinct.1;
          counted = omega (arith, v.counted);
        },
      )
