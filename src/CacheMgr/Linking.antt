-- ===== src/CacheMgr/Linking.antt =====
-- src/cache.cpp: the parts that add, set and replace share: the watch test, and linking an item for a
-- key that is absent or in the place of another item.
use mathlib.Core.Path.{ap₂, subst₂}
use xixi.Prelude.{
  ℕ, ◌+◌, ◌^◌, ◌<◌, ◌≡◌, refl, sym, ap, ◌∙◌, ◌≢◌, inl, inr, Bool, true, false, ◌||◌, none, some,
  List, ◌∷◌, arith, ◌==◌, if◌then◌else◌, Bool-cases, All,
}
use xixi.CacheMgr.Effects.{
  Stores, Touches, Unlinks, do_unlink-Unlinks, do_link-Stores, Keeps-Stores, Stores-Keeps,
  Stores-Stores,
}
use xixi.CacheMgr.Entries.{Unlinked, find-All, absent-All}
use xixi.CacheMgr.Items.{
  is_valid_watch_id, add_watch, next_cache_id, inc_ref, do_get, do_link, do_unlink, do_replace,
  do_release_reference,
}
use xixi.CacheMgr.State.{
  Key, Mgr, Reason, success, watch_not_found, key_of, key_eq, find, data_updated, write,
}
use xixi.CacheMgr.Store.{admit, watch_item, link_new, link_over}
use xixi.CacheMgr.View.{
  Content, content, IsLinked, SameStored, Keeps, Keeps-IsLinked, release-Keeps, stored-Keeps,
}
use xixi.Stats.{StatsCall}

-- A watch id of 0 asks for no watch; any other has to be known.
abbrev pub watch_ok : Mgr → ℕ → Bool
watch_ok m watch_id = watch_id == 0 || is_valid_watch_id m watch_id

abbrev pub watch_reason : Bool → Reason
watch_reason true = success
watch_reason false = watch_not_found

-- The report that the watch test makes.
pub admit_stats : Mgr → ℕ → StatsCall → StatsCall → StatsCall → List StatsCall
admit_stats m watch_id plain watched missed =
    (if watch_id == 0 then plain else if is_valid_watch_id m watch_id then watched else missed)
    ∷ m.stats

-- The watch test changes the statistics alone.
pub admit_lem :
    (m : Mgr) (watch_id : ℕ) (plain watched missed : StatsCall)
    → admit m watch_id plain watched missed ≡ (
      watch_reason (watch_ok m watch_id),
      record m { stats = admit_stats m watch_id plain watched missed },
    )
unfolding admit admit_stats
admit_lem m watch_id plain watched missed = elim (Bool-cases (watch_id == 0)) [
  | inl z ↦ rw z
  | inr nz ↦ elim (Bool-cases (is_valid_watch_id m watch_id)) [
    | inl t ↦ rw (nz, t)
    | inr t ↦ rw (nz, t)
  ]
]

-- What `do_get` answers.
pub do_get-none : (m : Mgr) (k : Key) → find k m.cache_hash_map ≡ none → do_get m k ≡ (none, m)
unfolding do_get
do_get-none m k e = rw (e, do_get)

pub do_get-some :
    (m : Mgr) (k : Key) {a : ℕ}
    → find k m.cache_hash_map ≡ some a
    → do_get m k ≡ (some a, write a (inc_ref (m.items a)) m)
unfolding do_get
do_get-some m k e = rw (e, do_get)

-- An item that may be linked: no entry has it, and its count of references has room.
pub record IsReady (m : Mgr) (a : ℕ) : Type 0 where
  pub away : Unlinked a m.cache_hash_map
  pub room : (m.items a).ref_count + 1 < 2 ^ 16

-- The item's content under the next cache id.
abbrev pub stamped : Mgr → ℕ → Content
stamped m a = record (content (m.items a)) { cache_id = next_cache_id m }

pub record Links (m : Mgr) (k : Key) (a : ℕ) (r : Reason × ℕ × Mgr) : Type 0 where
  pub answer : r.0 ≡ success
  pub issued : r.1 ≡ next_cache_id m
  pub stores : Stores k (some (stamped m a)) m r.2

-- What a watch does to its item.
watch_item_lem :
    (m : Mgr) (a watch_id b : ℕ) → SameStored (m.items b) ((watch_item m a watch_id).items b)
unfolding watch_item add_watch
watch_item_lem m a watch_id b = ground arith

watch_item_rest :
    (m : Mgr) (a watch_id : ℕ)
    → ((watch_item m a watch_id).cache_hash_map ≡ m.cache_hash_map)
      × ((watch_item m a watch_id).last_cache_id ≡ m.last_cache_id)
unfolding watch_item add_watch
watch_item_rest m a watch_id = ground arith

watch_item-Keeps : (m : Mgr) (a watch_id : ℕ) → Keeps m (watch_item m a watch_id)
watch_item-Keeps m a watch_id =
    stored-Keeps m (watch_item m a watch_id) (watch_item_rest m a watch_id).0
      (watch_item_rest m a watch_id).1 (watch_item_lem m a watch_id)

next_same : (m n : Mgr) → n.last_cache_id ≡ m.last_cache_id → next_cache_id n ≡ next_cache_id m
unfolding next_cache_id
next_same m n h = rw h

do_link_id : (m : Mgr) (a : ℕ) → ((do_link m a).items a).cache_id ≡ next_cache_id m
unfolding do_link
do_link_id m a = ground arith

do_link_entries :
    (m : Mgr) (a : ℕ) → (do_link m a).cache_hash_map ≡ (key_of (m.items a), a) ∷ m.cache_hash_map
unfolding do_link
do_link_entries m a = refl

-- The item with its watch, before it is linked.
watched-Keeps :
    (m : Mgr) (s : List StatsCall) (a watch_id : ℕ)
    → Keeps m (watch_item (record m { stats = s }) a watch_id)
watched-Keeps m s a watch_id =
    let n = record m { stats = s } in
    let r = watch_item_rest n a watch_id in
    stored-Keeps m (watch_item n a watch_id) r.0 r.1 (watch_item_lem n a watch_id)

-- `add_watch` as the item's key, content and count of references see it.
do_link-Links :
    (m n : Mgr) (a : ℕ)
    → SameStored (m.items a) (n.items a)
    → next_cache_id n ≡ next_cache_id m
    → IsLinked n
    → Unlinked a n.cache_hash_map
    → All (λ (d : Key × ℕ). key_eq (key_of (m.items a)) d.0 ≡ false) n.cache_hash_map
    → (m.items a).ref_count + 1 < 2 ^ 16
    → Stores (key_of (m.items a)) (some (stamped m a)) n (do_link n a)
do_link-Links m n a same next v u others room =
    let stored = do_link-Stores n a v u (rw same.keys others) (rw same.refs room) in
    subst₂ (λ k c. Stores k (some c) n (do_link n a)) same.keys
      (ap₂ (λ (c : Content) (i : ℕ). record c { cache_id = i }) same.contents next) stored

-- Linking an item for a key that is absent stores its content there, under the next cache id.
pub link_new-Links :
    (m : Mgr) (s : List StatsCall) (a watch_id cache_id : ℕ)
    → IsLinked m
    → IsReady m a
    → find (key_of (m.items a)) m.cache_hash_map ≡ none
    → Links m
        (key_of (m.items a))
        a
        (link_new (success, record m { stats = s }) a watch_id cache_id)
unfolding link_new
link_new-Links m s a watch_id cache_id v ready absent =
    let n = record m { stats = s } in
    let w = watch_item n a watch_id in
    let kept : Keeps m w = watched-Keeps m s a watch_id in
    let next = next_same m w kept.ids in
    record {
      answer = refl;
      issued = do_link_id w a ∙ next;
      stores = Keeps-Stores kept (
          do_link-Links m w a (watch_item_lem n a watch_id a) next (Keeps-IsLinked kept v)
            (rw kept.entries ready.away)
            (rw kept.entries (absent-All (key_of (m.items a)) m.cache_hash_map absent)) ready.room);
    }

-- The old item has no part in the map once it is unlinked and another is linked.
old_away :
    (p : Mgr) (a watch_id : ℕ) {old : ℕ}
    → Unlinked old p.cache_hash_map
    → old ≢ a
    → Unlinked old (watch_item (do_link p a) a watch_id).cache_hash_map
old_away p a watch_id u h =
    rw (((watch_item_rest (do_link p a) a watch_id).0) ∙ do_link_entries p a) (h, u)

link_over_state :
    (n : Mgr) (old a watch_id cache_id : ℕ)
    → (link_over (success, n) old a watch_id cache_id).2
      ≡ do_release_reference (watch_item (do_link (do_unlink n old data_updated) a) a watch_id) old
unfolding link_over do_replace
link_over_state n old a watch_id cache_id = refl

link_over_issued :
    (n : Mgr) (old a watch_id cache_id : ℕ)
    → (link_over (success, n) old a watch_id cache_id).1
      ≡ ((watch_item (do_link (do_unlink n old data_updated) a) a watch_id).items a).cache_id
unfolding link_over do_replace
link_over_issued n old a watch_id cache_id = refl

link_over_answer :
    (n : Mgr) (old a watch_id cache_id : ℕ)
    → (link_over (success, n) old a watch_id cache_id).0 ≡ success
unfolding link_over
link_over_answer n old a watch_id cache_id = refl

-- An entry's item is not the unlinked one.
entry-ne :
    (m : Mgr) {a old : ℕ} (k : Key)
    → Unlinked a m.cache_hash_map
    → find k m.cache_hash_map ≡ some old
    → old ≢ a
entry-ne m {a} k u e h = find-All (λ (d : Key × ℕ). a ≢ d.1) k m.cache_hash_map u e (sym h)

-- Linking an item in the place of another replaces the content, under the next cache id.
pub link_over-Links :
    (m n : Mgr) (old a watch_id cache_id : ℕ)
    → IsLinked m
    → IsReady m a
    → find (key_of (m.items a)) m.cache_hash_map ≡ some old
    → Touches old m n
    → Links m (key_of (m.items a)) a (link_over (success, n) old a watch_id cache_id)
link_over-Links m n old a watch_id cache_id v ready e t =
    let k = key_of (m.items a) in
    let p = do_unlink n old data_updated in
    let un : Unlinks k old m p = do_unlink-Unlinks m n k old data_updated v e t in
    let ne = entry-ne m k ready.away e in
    let at_a : p.items a ≡ m.items a = un.others a ne in
    let next = next_same m p un.ids in
    let w = watch_item (do_link p a) a watch_id in
    let kept : Keeps (do_link p a) w = watch_item-Keeps (do_link p a) a watch_id in
    let same : SameStored (m.items a) (p.items a) = record {
      contents = ap content at_a;
      keys = ap key_of at_a;
      refs = rw at_a;
    } in
    let linked =
      do_link-Links m p a same next un.stores.linked (un.fewer a ready.away) un.absent ready.room in
    let id = (watch_item_lem (do_link p a) a watch_id a).contents in
    record {
      answer = link_over_answer n old a watch_id cache_id;
      issued =
          link_over_issued n old a watch_id cache_id
          ∙ ap (λ (c : Content). c.cache_id) id
          ∙ do_link_id p a
          ∙ next;
      stores = rw (link_over_state n old a watch_id cache_id) (
          Stores-Keeps (Stores-Stores un.stores (Stores-Keeps linked kept))
            (release-Keeps w old (old_away p a watch_id un.away ne)));
    }

-- A replacement that fails the watch test gives the reference to the old item back.
pub link_over_fails :
    (n : Mgr) (old a watch_id cache_id : ℕ)
    → link_over (watch_not_found, n) old a watch_id cache_id
      ≡ (watch_not_found, cache_id, do_release_reference n old)
unfolding link_over
link_over_fails n old a watch_id cache_id = refl

pub link_new_fails :
    (n : Mgr) (a watch_id cache_id : ℕ)
    → link_new (watch_not_found, n) a watch_id cache_id ≡ (watch_not_found, cache_id, n)
unfolding link_new
link_new_fails n a watch_id cache_id = refl
