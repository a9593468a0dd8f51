-- ===== src/CacheMgr/Changing.antt =====
-- src/cache.cpp: changes to the content of one entry, and references that are taken and kept.
use mathlib.Core.Path.{subst}
use native.Mathlib.Decide.{ℕ_discrete}
use xixi.Prelude.{
  ℕ, ◌+◌, ◌%◌, ◌^◌, ◌≤◌, ◌<◌, ◌≡◌, sym, ap, ◌∙◌, ◌≢◌, inl, inr, true, false, some, List, [], ◌∷◌,
  arith, Bool-cases, Option-cases, update, All,
}
use xixi.CacheMgr.Effects.{Stores, linked_at, release_kept}
use xixi.CacheMgr.Items.{inc_ref, do_release_reference}
use xixi.CacheMgr.State.{Key, Mgr, key_of, key_eq, key_eq_sound, key_eq_refl, find}
use xixi.CacheMgr.Storing.{held}
use xixi.CacheMgr.View.{Content, content, read, entry, Holds, IsLinked}
use xixi.Stats.{StatsCall}

-- A change to the item of one entry that keeps its key and its count of references.
pub record Changes (a : ℕ) (c : Content) (m n : Mgr) : Type 0 where
  pub entries : n.cache_hash_map ≡ m.cache_hash_map
  pub others : (b : ℕ) → a ≢ b → n.items b ≡ m.items b
  pub contents : content (n.items a) ≡ c
  pub keys : key_of (n.items a) ≡ key_of (m.items a)
  pub refs : (n.items a).ref_count ≡ (m.items a).ref_count

Changes-Holds :
    {a : ℕ} {c : Content} (m n : Mgr) (l : List (Key × ℕ))
    → Changes a c m n
    → All (Holds m.items) l
    → All (Holds n.items) l
Changes-Holds m n [] h v = tt
Changes-Holds {a} m n (e ∷ l) h v = (
  elim (ℕ_discrete a e.1) [
    | yes p ↦
        let keys : key_of (n.items e.1) ≡ key_of (m.items e.1) =
          subst (λ b. key_of (n.items b) ≡ key_of (m.items b)) p h.keys in
        let refs : (n.items e.1).ref_count ≡ (m.items e.1).ref_count =
          subst (λ b. (n.items b).ref_count ≡ (m.items b).ref_count) p h.refs in
        (keys ∙ v.0.0, rw refs v.0.1, rw refs v.0.2)
    | no p ↦ rw (h.others e.1 p) v.0
  ],
  Changes-Holds m n l h v.1,
)

-- An address has one key.
one_key :
    (m : Mgr) (k q : Key) {a : ℕ}
    → IsLinked m
    → find k m.cache_hash_map ≡ some a
    → find q m.cache_hash_map ≡ some a
    → k ≡ q
one_key m k q v e f = sym (linked_at k v e).0 ∙ (linked_at q v f).0

distinct : (k q : Key) → key_eq k q ≡ false → k ≡ q → ⊥
distinct k q t e = let same : key_eq k q ≡ true = rw e (key_eq_refl q) in cc

pub Changes-Stores :
    {a : ℕ} {c : Content} (m n : Mgr) (k : Key)
    → IsLinked m
    → find k m.cache_hash_map ≡ some a
    → Changes a c m n
    → Stores k (some c) m n
unfolding entry read
Changes-Stores {a} {c} m n k v e h = record {
  at_key = λ q. elim (Bool-cases (key_eq k q)) [
    | inl t ↦ rw (t, h.entries, ← key_eq_sound k q t, e) (ap some h.contents)
    | inr t ↦
        rw (t, h.entries)
          (elim (Option-cases (find q m.cache_hash_map)) [
            | inl f ↦ rw f
            | inr (b, f) ↦
                rw (f, h.others b (λ p. distinct k q t (one_key m k q v e (f ∙ ap some (sym p)))))
          ])
  ];
  linked = record {
    holds = rw h.entries (Changes-Holds m n m.cache_hash_map h v.holds);
    apart = rw h.entries v.apart;
  };
}

-- The reference that `do_get` took is given back, after changes to the item.
pub give_back :
    {a : ℕ} {c : Content} (m n : Mgr)
    → 1 ≤ (m.items a).ref_count
    → (m.items a).ref_count < 2 ^ 16
    → n.cache_hash_map ≡ m.cache_hash_map
    → ((b : ℕ) → a ≢ b → n.items b ≡ m.items b)
    → content (n.items a) ≡ c
    → key_of (n.items a) ≡ key_of (m.items a)
    → (n.items a).ref_count ≡ ((m.items a).ref_count + 1) % 2 ^ 16
    → Changes a c m (do_release_reference n a)
give_back {a} m n lo hi entries others contents keys refs =
    rw (release_kept n a (rw refs (omega arith))) (record {
      entries = entries;
      others = λ b h. ground (arith, others b h);
      contents = ground (arith, contents);
      keys = ground (arith, keys);
      refs = ground (arith, refs);
    })

-- Every entry's item can take one more reference.
abbrev pub HasRoom : Mgr → Type 0
HasRoom m = All (λ (e : Key × ℕ). (m.items e.1).ref_count + 1 < 2 ^ 16) m.cache_hash_map

held-Holds :
    (m : Mgr) (a : ℕ) (l : List (Key × ℕ))
    → All (λ (e : Key × ℕ). (m.items e.1).ref_count + 1 < 2 ^ 16) l
    → All (Holds m.items) l
    → All (Holds (update m.items a (inc_ref (m.items a)))) l
held-Holds m a [] r v = tt
held-Holds m a (e ∷ l) r v =
    ((ground (arith, v.0.0), ground arith, ground arith), held-Holds m a l r.1 v.1)

-- A reference that stays changes nothing that a client sees.
pub held-IsLinked :
    (m : Mgr) (a : ℕ) (s : List StatsCall) → HasRoom m → IsLinked m → IsLinked (held m a s)
held-IsLinked m a s r v = record {
  holds = held-Holds m a m.cache_hash_map r v.holds;
  apart = v.apart;
}

pub held-entry : (m : Mgr) (a : ℕ) (s : List StatsCall) (q : Key) → entry (held m a s) q ≡ entry m q
unfolding entry read
held-entry m a s q = ground arith
