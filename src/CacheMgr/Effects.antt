-- ===== src/CacheMgr/Effects.antt =====
-- src/cache.cpp: what do_link, do_unlink and the reference counts do to the cache as a client sees it.
use mathlib.Core.Path.{ap₂}
use xixi.Prelude.{
  ℕ, ◌+◌, ◌%◌, ◌^◌, ◌≤◌, ◌<◌, ◌≡◌, refl, ◌∙◌, ◌≢◌, inl, inr, Bool, true, false, Option, none, some,
  List, [], ◌∷◌, arith, ◌==◌, if◌then◌else◌, ==_iff, Bool-cases, Option-cases, update, All,
}
use xixi.CacheMgr.Entries.{
  Unlinked, find-All, All-remove, remove-Apart, find-remove, removed-Unlinked, key_eq_symm,
}
use xixi.CacheMgr.Items.{
  notify_watch, next_cache_id, dec_ref, inc_ref, do_release_reference, do_link, take_out,
  drop_watches, do_unlink,
}
use xixi.CacheMgr.State.{Key, Item, Mgr, key_of, key_eq, write, find, remove}
use xixi.CacheMgr.View.{
  Content, content, read, entry, Holds, IsLinked, Keeps, Keeps-entry, Keeps-IsLinked, stored-Keeps,
  release_others, release_rest,
}

-- A change of state that stores `v` under one key, and nothing else.
pub record Stores (k : Key) (v : Option Content) (m n : Mgr) : Type 0 where
  pub at_key : (q : Key) → entry n q ≡ (if key_eq k q then v else entry m q)
  pub linked : IsLinked n

-- A reference given back that is not the last one.
pub release_kept :
    (n : Mgr) (a : ℕ)
    → ((n.items a).ref_count + 0xffff) % 2 ^ 16 ≢ 0
    → do_release_reference n a ≡ write a (dec_ref (n.items a)) n
unfolding do_release_reference
release_kept n a h = elim (Bool-cases (((n.items a).ref_count + 0xffff) % 2 ^ 16 == 0)) [
  | inl e ↦ absurd (h ((==_iff _ _).0 e))
  | inr e ↦ rw e
]

-- A reference taken and given back, with reports in between.
pub bounce-Keeps :
    (m n : Mgr) (a : ℕ)
    → n.cache_hash_map ≡ m.cache_hash_map
    → n.last_cache_id ≡ m.last_cache_id
    → ((b : ℕ) → n.items b ≡ update m.items a (inc_ref (m.items a)) b)
    → 1 ≤ (m.items a).ref_count
    → (m.items a).ref_count < 2 ^ 16
    → Keeps m (do_release_reference n a)
bounce-Keeps m n a c i f lo hi =
    let here : n.items a ≡ inc_ref (m.items a) = ground (arith, f a) in
    let kept = release_kept n a (rw here (omega arith)) in
    rw kept (stored-Keeps m (write a (dec_ref (n.items a)) n) c i (λ b. ground (arith, f b, here)))

take_out_lem :
    (m : Mgr) (a : ℕ)
    → ((take_out m a).cache_hash_map ≡ remove (key_of (m.items a)) m.cache_hash_map)
      × ((take_out m a).last_cache_id ≡ m.last_cache_id)
      × ((b : ℕ) → (take_out m a).items b ≡ m.items b)
unfolding take_out
take_out_lem m a = (refl, refl, λ b. refl)

pub notify_watch_rest :
    (m : Mgr) (a type : ℕ)
    → ((notify_watch m a type).cache_hash_map ≡ m.cache_hash_map)
      × ((notify_watch m a type).last_cache_id ≡ m.last_cache_id)
      × ((b : ℕ) → a ≢ b → (notify_watch m a type).items b ≡ m.items b)
unfolding notify_watch
notify_watch_rest m a type = (ground arith, ground arith, λ b h. ground arith)

drop_watches_rest :
    (m : Mgr) (a type : ℕ)
    → ((drop_watches m a type).cache_hash_map ≡ m.cache_hash_map)
      × ((drop_watches m a type).last_cache_id ≡ m.last_cache_id)
      × ((b : ℕ) → a ≢ b → (drop_watches m a type).items b ≡ m.items b)
unfolding drop_watches
drop_watches_rest m a type =
    let r = notify_watch_rest m a type in (r.0, r.1, λ b h. ground (arith, r.2 b h))

-- Unlinking touches one item, and takes its key out of the map.
pub do_unlink_lem :
    (m : Mgr) (a type : ℕ)
    → ((do_unlink m a type).cache_hash_map ≡ remove (key_of (m.items a)) m.cache_hash_map)
      × ((do_unlink m a type).last_cache_id ≡ m.last_cache_id)
      × ((b : ℕ) → a ≢ b → (do_unlink m a type).items b ≡ m.items b)
unfolding do_unlink
do_unlink_lem m a type =
    let t = take_out_lem m a in
    let d = drop_watches_rest (take_out m a) a type in
    let r = release_rest (drop_watches (take_out m a) a type) a in
    (
      r.0 ∙ d.0 ∙ t.0,
      r.1 ∙ d.1 ∙ t.1,
      λ b h. release_others (drop_watches (take_out m a) a type) a b h ∙ d.2 b h ∙ t.2 b,
    )

-- The entry of a key and its item.
pub linked_at :
    {m : Mgr} {a : ℕ} (k : Key)
    → IsLinked m
    → find k m.cache_hash_map ≡ some a
    → Holds m.items (k, a)
linked_at {m} k v e = find-All (Holds m.items) k m.cache_hash_map v.holds e

Holds-away :
    (f g : ℕ → Item) (a : ℕ) (l : List (Key × ℕ))
    → ((b : ℕ) → a ≢ b → g b ≡ f b)
    → Unlinked a l
    → All (Holds f) l
    → All (Holds g) l
Holds-away f g a [] h u v = tt
Holds-away f g a (e ∷ l) h u v = (rw (h e.1 u.0) v.0, Holds-away f g a l h u.1 v.1)

read-away :
    (f g : ℕ → Item) (a : ℕ) (l : List (Key × ℕ)) (q : Key)
    → ((b : ℕ) → a ≢ b → g b ≡ f b)
    → Unlinked a l
    → read g (find q l) ≡ read f (find q l)
unfolding read
read-away f g a l q h u = elim (Option-cases (find q l)) [
  | inl e ↦ rw e
  | inr (b, e) ↦ rw (e, h b (find-All (λ (c : Key × ℕ). a ≢ c.1) q l u e))
]

read_if :
    (f : ℕ → Item) (b : Bool) (o : Option ℕ)
    → read f (if b then none else o) ≡ (if b then none else read f o)
unfolding read
read_if f true o = refl
read_if f false o = refl

both :
    (a : ℕ) (k : Key) (l : List (Key × ℕ))
    → Unlinked a l
    → All (λ (e : Key × ℕ). key_eq k e.0 ≡ false) l
    → All (λ (e : Key × ℕ). (a ≢ e.1) × (key_eq k e.0 ≡ false)) l
both a k [] u h = tt
both a k (e ∷ l) u h = ((u.0, h.0), both a k l u.1 h.1)

-- A change that keeps the map and the last cache id, and of the items changes one, but not its key.
pub record Touches (a : ℕ) (m n : Mgr) : Type 0 where
  pub entries : n.cache_hash_map ≡ m.cache_hash_map
  pub ids : n.last_cache_id ≡ m.last_cache_id
  pub others : (b : ℕ) → a ≢ b → n.items b ≡ m.items b
  pub keys : key_of (n.items a) ≡ key_of (m.items a)

-- The state after the entry of a key is gone: nothing has its key or its item's address.
pub record Unlinks (k : Key) (a : ℕ) (m n : Mgr) : Type 0 where
  pub stores : Stores k none m n
  pub away : Unlinked a n.cache_hash_map
  pub absent : All (λ (d : Key × ℕ). key_eq k d.0 ≡ false) n.cache_hash_map
  pub ids : n.last_cache_id ≡ m.last_cache_id
  pub others : (b : ℕ) → a ≢ b → n.items b ≡ m.items b
  pub fewer : (b : ℕ) → Unlinked b m.cache_hash_map → Unlinked b n.cache_hash_map

-- Unlinking the item of a key removes the key, and nothing else. The item may have been touched since.
pub do_unlink-Unlinks :
    (m n : Mgr) (k : Key) (a type : ℕ)
    → IsLinked m
    → find k m.cache_hash_map ≡ some a
    → Touches a m n
    → Unlinks k a m (do_unlink n a type)
unfolding entry
do_unlink-Unlinks m n k a type v e t =
    let p = do_unlink n a type in
    let (c, ids, f) = do_unlink_lem n a type in
    let here : key_of (n.items a) ≡ k = t.keys ∙ (linked_at k v e).0 in
    let (u, absent) = removed-Unlinked k m.cache_hash_map v.apart e in
    let c' : p.cache_hash_map ≡ remove k m.cache_hash_map = c ∙ ap₂ remove here t.entries in
    let g : (b : ℕ) → a ≢ b → p.items b ≡ m.items b = λ b h. f b h ∙ t.others b h in
    record {
      stores = record {
        at_key = λ q.
            rw
              (
                c',
                read-away m.items p.items a (remove k m.cache_hash_map) q g u,
                find-remove k q m.cache_hash_map v.apart,
              )
              (read_if m.items (key_eq k q) (find q m.cache_hash_map));
        linked = record {
          holds = rw c' (
              Holds-away m.items p.items a (remove k m.cache_hash_map) g u
                (All-remove (Holds m.items) k m.cache_hash_map v.holds));
          apart = rw c' (remove-Apart k m.cache_hash_map v.apart);
        };
      };
      away = rw c' u;
      absent = rw c' absent;
      ids = ids ∙ t.ids;
      others = g;
      fewer = λ b h. rw c' (All-remove (λ (d : Key × ℕ). b ≢ d.1) k m.cache_hash_map h);
    }

-- Linking an item stores its content, with a new cache id, under its key.
pub do_link-Stores :
    (m : Mgr) (a : ℕ)
    → IsLinked m
    → Unlinked a m.cache_hash_map
    → All (λ (e : Key × ℕ). key_eq (key_of (m.items a)) e.0 ≡ false) m.cache_hash_map
    → (m.items a).ref_count + 1 < 2 ^ 16
    → Stores
        (key_of (m.items a))
        (some (record (content (m.items a)) { cache_id = next_cache_id m }))
        m
        (do_link m a)
unfolding entry do_link read find
do_link-Stores m a v u others room =
    let k = key_of (m.items a) in
    let f : (b : ℕ) → a ≢ b → (do_link m a).items b ≡ m.items b = λ b h. ground arith in
    record {
      at_key = λ q. elim (Bool-cases (key_eq k q)) [
        | inl t ↦ rw (key_eq_symm q k, t) (ground arith)
        | inr t ↦
            rw (key_eq_symm q k, t) (read-away m.items (do_link m a).items a m.cache_hash_map q f u)
      ];
      linked = record {
        holds = (
          (ground arith, ground arith, ground arith),
          Holds-away m.items (do_link m a).items a m.cache_hash_map f u v.holds,
        );
        apart = (both a k m.cache_hash_map u others, v.apart);
      };
    }

-- Changes in a row.
pub Keeps-Stores :
    {k : Key} {v : Option Content} {m n p : Mgr} → Keeps m n → Stores k v n p → Stores k v m p
Keeps-Stores {k} h s = record { at_key = λ q. rw (s.at_key q, Keeps-entry h q); linked = s.linked }

pub Stores-Keeps :
    {k : Key} {v : Option Content} {m n p : Mgr} → Stores k v m n → Keeps n p → Stores k v m p
Stores-Keeps s h = record {
  at_key = λ q. rw (Keeps-entry h q) (s.at_key q);
  linked = Keeps-IsLinked h s.linked;
}

pub Stores-Stores :
    {k : Key} {v w : Option Content} {m n p : Mgr}
    → Stores k v m n
    → Stores k w n p
    → Stores k w m p
Stores-Stores {k} s s' = record {
  at_key = λ q. elim (Bool-cases (key_eq k q)) [
    | inl t ↦ s'.at_key q ∙ rw t
    | inr t ↦ s'.at_key q ∙ rw t (s.at_key q ∙ rw t)
  ];
  linked = s'.linked;
}
