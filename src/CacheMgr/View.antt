-- ===== src/CacheMgr/View.antt =====
-- The cache as a client sees it: a partial map from keys to contents. Here are the invariant that ties
-- the hash map to the items, and what the private operations of src/cache.cpp do to the view.
use xixi.Prelude.{
  ℕ, ◌^◌, ◌≤◌, ◌<◌, ◌≡◌, refl, ap, ◌∙◌, ◌≢◌, inl, inr, Option, none, some, List, [], ◌∷◌, arith,
  Option-cases, All,
}
use xixi.CacheMgr.Entries.{Apart, Unlinked, find-All, All-map, All-of}
use xixi.CacheMgr.Items.{notify_watch, add_watch, free_item, do_release_reference}
use xixi.CacheMgr.State.{Key, Item, Mgr, key_of, find}

pub record Content : Type 0 where
  pub cache_id : ℕ
  pub flags : ℕ
  pub expire_time : ℕ
  pub value : List ℕ
  pub ext : List ℕ

abbrev pub content : Item → Content
content it = record {
  cache_id = it.cache_id;
  flags = it.flags;
  expire_time = it.expire_time;
  value = it.value;
  ext = it.ext;
}

unfoldable pub read : (ℕ → Item) → Option ℕ → Option Content
read items none = none
read items (some a) = some (content (items a))

-- What is stored under a key.
unfoldable pub entry : Mgr → Key → Option Content
unfolding read
entry m k = read m.items (find k m.cache_hash_map)

-- An entry's item has the entry's key and at least one reference.
abbrev pub Holds : (ℕ → Item) → Key × ℕ → Type 0
Holds items e =
    (key_of (items e.1) ≡ e.0) × (1 ≤ (items e.1).ref_count) × ((items e.1).ref_count < 2 ^ 16)

pub record IsLinked (m : Mgr) : Type 0 where
  pub holds : All (Holds m.items) m.cache_hash_map
  pub apart : Apart m.cache_hash_map

-- Two states of an item that a client cannot tell apart.
pub record SameStored (i j : Item) : Type 0 where
  pub contents : content j ≡ content i
  pub keys : key_of j ≡ key_of i
  pub refs : j.ref_count ≡ i.ref_count

-- A change of state that leaves the hash map, its items' contents and the last cache id alone.
pub record Keeps (m n : Mgr) : Type 0 where
  pub entries : n.cache_hash_map ≡ m.cache_hash_map
  pub items : All (λ (e : Key × ℕ). SameStored (m.items e.1) (n.items e.1)) m.cache_hash_map
  pub ids : n.last_cache_id ≡ m.last_cache_id

read-same :
    (f g : ℕ → Item) (l : List (Key × ℕ)) (q : Key)
    → All (λ (e : Key × ℕ). SameStored (f e.1) (g e.1)) l
    → read g (find q l) ≡ read f (find q l)
unfolding read
read-same f g l q h = elim (Option-cases (find q l)) [
  | inl e ↦ rw e
  | inr (a, e) ↦
      rw e (ap some (find-All (λ (c : Key × ℕ). SameStored (f c.1) (g c.1)) q l h e).contents)
]

pub Keeps-entry : {m n : Mgr} → Keeps m n → (q : Key) → entry n q ≡ entry m q
unfolding entry
Keeps-entry {m} {n} h q = rw h.entries (read-same m.items n.items m.cache_hash_map q h.items)

Holds-same :
    (f g : ℕ → Item) (l : List (Key × ℕ))
    → All (λ (e : Key × ℕ). SameStored (f e.1) (g e.1)) l
    → All (Holds f) l
    → All (Holds g) l
Holds-same f g [] h k = tt
Holds-same f g (e ∷ l) h k =
    ((h.0.keys ∙ k.0.0, rw h.0.refs k.0.1, rw h.0.refs k.0.2), Holds-same f g l h.1 k.1)

pub Keeps-IsLinked : {m n : Mgr} → Keeps m n → IsLinked m → IsLinked n
Keeps-IsLinked {m} {n} h v = record {
  holds = rw h.entries (Holds-same m.items n.items m.cache_hash_map h.items v.holds);
  apart = rw h.entries v.apart;
}

SameStored-refl : (i : Item) → SameStored i i
SameStored-refl i = record { contents = refl; keys = refl; refs = refl }

-- A write to an item that no entry has.
pub away-Keeps :
    (a : ℕ) (m n : Mgr)
    → n.cache_hash_map ≡ m.cache_hash_map
    → n.last_cache_id ≡ m.last_cache_id
    → ((b : ℕ) → a ≢ b → n.items b ≡ m.items b)
    → Unlinked a m.cache_hash_map
    → Keeps m n
away-Keeps a m n c i f u = record {
  entries = c;
  items = All-map m.cache_hash_map (λ e p. rw (f e.1 p) (SameStored-refl (m.items e.1))) u;
  ids = i;
}

-- Writes that leave what is stored.
pub stored-Keeps :
    (m n : Mgr)
    → n.cache_hash_map ≡ m.cache_hash_map
    → n.last_cache_id ≡ m.last_cache_id
    → ((b : ℕ) → SameStored (m.items b) (n.items b))
    → Keeps m n
stored-Keeps m n c i f = record {
  entries = c;
  items = All-of m.cache_hash_map (λ e. f e.1);
  ids = i;
}

pub notify_watch_same :
    (m : Mgr) (a type b : ℕ) → SameStored (m.items b) ((notify_watch m a type).items b)
unfolding notify_watch
notify_watch_same m a type b = ground arith

pub add_watch_same : (m : Mgr) (a id b : ℕ) → SameStored (m.items b) ((add_watch m a id).items b)
unfolding add_watch
add_watch_same m a id b = ground arith

pub add_watch-Keeps : (m : Mgr) (a id : ℕ) → Keeps m (add_watch m a id)
unfolding add_watch
add_watch-Keeps m a id = stored-Keeps m (add_watch m a id) refl refl (add_watch_same m a id)

pub release_others : (m : Mgr) (a b : ℕ) → a ≢ b → (do_release_reference m a).items b ≡ m.items b
unfolding do_release_reference free_item
release_others m a b h = ground arith

pub release_rest :
    (m : Mgr) (a : ℕ)
    → ((do_release_reference m a).cache_hash_map ≡ m.cache_hash_map)
      × ((do_release_reference m a).last_cache_id ≡ m.last_cache_id)
unfolding do_release_reference free_item
release_rest m a = ground arith

-- A reference to an item that has left the map.
pub release-Keeps :
    (m : Mgr) (a : ℕ) → Unlinked a m.cache_hash_map → Keeps m (do_release_reference m a)
release-Keeps m a u =
    away-Keeps a m (do_release_reference m a) (release_rest m a).0 (release_rest m a).1
      (release_others m a) u
