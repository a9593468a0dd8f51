-- ===== src/CacheMgr/Entries.antt =====
-- src/xixi_hash_map.hpp as Cache_Mgr uses it: the list of entries under `find` and `remove`.
use mathlib.Core.Path.{subst}
use xixi.Prelude.{
  ℕ, ◌≡◌, refl, sym, ◌∙◌, ◌≢◌, inl, inr, true, false, none, some, List, [], ◌∷◌, arith,
  if◌then◌else◌, Bool-cases, All,
}
use xixi.CacheMgr.State.{Key, key_eq, key_eq_sound, find, remove}

-- The entries' addresses and keys are pairwise different.
abbrev pub Apart : List (Key × ℕ) → Type 0
Apart [] = Unit {0}
Apart (e ∷ l) = All (λ (d : Key × ℕ). (e.1 ≢ d.1) × (key_eq e.0 d.0 ≡ false)) l × Apart l

-- The address of an item that no entry has.
abbrev pub Unlinked : ℕ → List (Key × ℕ) → Type 0
Unlinked a = All (λ (e : Key × ℕ). a ≢ e.1)

pub key_eq_symm : (p q : Key) → key_eq p q ≡ key_eq q p
key_eq_symm p q = elim (Bool-cases (key_eq p q)) [
  | inl e ↦ rw (key_eq_sound p q e)
  | inr e ↦ elim (Bool-cases (key_eq q p)) [ inl f ↦ rw (key_eq_sound q p f) | inr f ↦ e ∙ sym f ]
]

pub some_inj : {a b : ℕ} → some a ≡ some b → a ≡ b
some_inj h = cc

-- The entry that `find` answers with.
pub find-All {ℓ} :
    (P : Key × ℕ → Type ℓ) (k : Key) (l : List (Key × ℕ)) {a : ℕ}
    → All P l
    → find k l ≡ some a
    → P (k, a)
unfolding find
find-All P k [] h e = cc
find-All P k ((q, b) ∷ l) {a} h e = elim (Bool-cases (key_eq k q)) [
  | inl t ↦ subst (λ c. P (k, c)) (some_inj (rw t at e)) (rw (key_eq_sound k q t) h.0)
  | inr t ↦ find-All P k l h.1 (rw t at e)
]

pub find-none :
    (k q : Key) (l : List (Key × ℕ))
    → All (λ (d : Key × ℕ). key_eq k d.0 ≡ false) l
    → key_eq k q ≡ true
    → find q l ≡ none
unfolding find
find-none k q [] h e = refl
find-none k q (d ∷ l) h e = rw (rw (key_eq_sound k q e) at h.0) (find-none k q l h.1 e)

pub All-map {ℓ κ} :
    {P : Key × ℕ → Type ℓ} {Q : Key × ℕ → Type κ} (l : List (Key × ℕ))
    → ((e : Key × ℕ) → P e → Q e)
    → All P l
    → All Q l
All-map [] f h = tt
All-map (e ∷ l) f h = (f e h.0, All-map l f h.1)

-- Keys that are equal compare alike.
key_eq_congr : (k d q : Key) → key_eq k d ≡ true → key_eq q d ≡ key_eq k q
key_eq_congr k d q t = rw (key_eq_sound k d t) (key_eq_symm q d)

key_eq_congr_left : (k q d : Key) → key_eq k q ≡ true → key_eq q d ≡ key_eq k d
key_eq_congr_left k q d t = rw (key_eq_sound k q t)

pub All-remove {ℓ} :
    (P : Key × ℕ → Type ℓ) (k : Key) (l : List (Key × ℕ)) → All P l → All P (remove k l)
unfolding remove
All-remove P k [] h = h
All-remove P k (d ∷ l) h = elim (Bool-cases (key_eq k d.0)) [
  | inl t ↦ rw t h.1
  | inr t ↦ rw t (h.0, All-remove P k l h.1)
]

pub remove-Apart : (k : Key) (l : List (Key × ℕ)) → Apart l → Apart (remove k l)
unfolding remove
remove-Apart k [] h = h
remove-Apart k (d ∷ l) h = elim (Bool-cases (key_eq k d.0)) [
  | inl t ↦ rw t h.1
  | inr t ↦ rw t (
    All-remove (λ (e : Key × ℕ). (d.1 ≢ e.1) × (key_eq d.0 e.0 ≡ false)) k l h.0,
    remove-Apart k l h.1,
  )
]

-- After a removal the key is absent, and every other key is found as before.
pub find-remove :
    (k q : Key) (l : List (Key × ℕ))
    → Apart l
    → find q (remove k l) ≡ (if key_eq k q then none else find q l)
unfolding find remove
find-remove k q [] h = ground arith
find-remove k q (d ∷ l) h = elim (Bool-cases (key_eq k d.0)) [
  | inl t ↦
      let same : k ≡ d.0 = key_eq_sound k d.0 t in
      let others : All (λ (e : Key × ℕ). key_eq k e.0 ≡ false) l =
        rw same (All-map l (λ e p. p.1) h.0) in
      rw t (ground (arith, key_eq_congr k d.0 q t, find-none k q l others))
  | inr t ↦ rw t (ground (arith, find-remove k q l h.1, key_eq_congr_left k q d.0))
]

-- The entry found stands alone: nothing else has its key or its address once it is removed.
pub removed-Unlinked :
    (k : Key) (l : List (Key × ℕ)) {a : ℕ}
    → Apart l
    → find k l ≡ some a
    → Unlinked a (remove k l) × All (λ (e : Key × ℕ). key_eq k e.0 ≡ false) (remove k l)
unfolding find remove
removed-Unlinked k [] h e = cc
removed-Unlinked k (d ∷ l) {a} h e = elim (Bool-cases (key_eq k d.0)) [
  | inl t ↦
      let here : d.1 ≡ a = some_inj (rw t at e) in
      rw (t, ← here, key_eq_sound k d.0 t) (All-map l (λ e p. p.0) h.0, All-map l (λ e p. p.1) h.0)
  | inr t ↦
      let rest = removed-Unlinked k l h.1 (rw t at e) in
      let away =
        find-All (λ (c : Key × ℕ). (d.1 ≢ c.1) × (key_eq d.0 c.0 ≡ false)) k l h.0 (rw t at e) in
      rw t ((λ p. away.0 (sym p), rest.0), (t, rest.1))
]

pub absent-All :
    (k : Key) (l : List (Key × ℕ)) → find k l ≡ none → All (λ (e : Key × ℕ). key_eq k e.0 ≡ false) l
unfolding find
absent-All k [] e = tt
absent-All k (d ∷ l) e = elim (Bool-cases (key_eq k d.0)) [
  | inl t ↦ absurd (cc (rw t at e))
  | inr t ↦ (t, absent-All k l (rw t at e))
]

pub All-of {ℓ} : {P : Key × ℕ → Type ℓ} (l : List (Key × ℕ)) → ((e : Key × ℕ) → P e) → All P l
All-of [] f = tt
All-of (e ∷ l) f = (f e, All-of l f)
