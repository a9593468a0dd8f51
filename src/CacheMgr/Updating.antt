-- ===== src/CacheMgr/Updating.antt =====
-- src/cache.cpp: update_flags and update_expiration change the content of one entry, and leave a
-- reference behind when the cache id does not agree.
use xixi.Prelude.{
  ℕ, ◌+◌, ◌%◌, ◌^◌, ◌≡◌, refl, ap, ◌∙◌, ◌≢◌, inl, inr, Bool, true, false, ◌&&◌, Option, none, some,
  List, arith, if◌then◌else◌, Bool-cases, Option-cases,
}
use xixi.CacheMgr.Access.{
  update_flags, update_flags_found, update_expiration, update_expiration_found, move_item,
  write_flags,
}
use xixi.CacheMgr.Changing.{Changes-Stores, give_back, HasRoom, held-IsLinked, held-entry}
use xixi.CacheMgr.Effects.{linked_at, notify_watch_rest}
use xixi.CacheMgr.Items.{next_cache_id, inc_ref, do_release_reference}
use xixi.CacheMgr.Linking.{do_get-none, do_get-some}
use xixi.CacheMgr.State.{Key, Item, Mgr, key_of, key_eq, find, report, write, base_info_updated}
use xixi.CacheMgr.Store.{agrees}
use xixi.CacheMgr.Storing.{held, held_id, report-Keeps}
use xixi.CacheMgr.View.{
  Content, content, read, entry, IsLinked, Keeps-entry, Keeps-IsLinked, notify_watch_same,
}
use xixi.CurrTime.{realtime}
use xixi.Stats.{StatsCall}

write_flags_lem :
    (n : Mgr) (a flags : ℕ)
    → ((write_flags n a flags).cache_hash_map ≡ n.cache_hash_map)
      × ((b : ℕ) → a ≢ b → (write_flags n a flags).items b ≡ n.items b)
      × (content ((write_flags n a flags).items a)
          ≡ record (content (n.items a)) { flags = flags; cache_id = next_cache_id n })
      × (key_of ((write_flags n a flags).items a) ≡ key_of (n.items a))
      × (((write_flags n a flags).items a).ref_count ≡ (n.items a).ref_count)
unfolding write_flags next_cache_id
write_flags_lem n a flags =
    let n' = write a (record (n.items a) { flags = flags }) n in
    let r = notify_watch_rest n' a base_info_updated in
    let same = notify_watch_same n' a base_info_updated a in
    (
      r.0,
      λ b h. ground (arith, r.2 b h),
      ground (arith, same.contents, r.1),
      ground (arith, same.keys),
      ground (arith, same.refs),
    )

-- The key is there, and the caller wants its cache id or none.
abbrev pub update_ok : Option Content → ℕ → Bool
update_ok none wanted = false
update_ok (some c) wanted = agrees wanted c.cache_id

abbrev pub with_flags : ℕ → ℕ → Option Content → Option Content
with_flags flags cache_id none = none
with_flags flags cache_id (some c) = some (record c { flags = flags; cache_id = cache_id })

-- What an update of an entry returns and leaves: success exactly if `ok`, and then `v` under the key.
pub record Updates (m : Mgr) (k : Key) (v : Option Content) (ok : Bool) (r : Bool × ℕ × Mgr)
    : Type 0 where
  pub answer : r.0 ≡ ok
  pub stored : (q : Key) → entry r.2 q ≡ (if ok && key_eq k q then v else entry m q)
  pub linked : IsLinked r.2

flags_Updates :
    (m : Mgr) (k : Key) {a : ℕ} (flags id : ℕ) (c : StatsCall)
    → IsLinked m
    → find k m.cache_hash_map ≡ some a
    → Updates m k
        (some (record (content (m.items a)) { flags = flags; cache_id = next_cache_id m }))
        true
        (true, id, do_release_reference (report c (write_flags (held m a m.stats) a flags)) a)
unfolding next_cache_id
flags_Updates m k {a} flags id r v e =
    let h = linked_at k v e in
    let n = held m a m.stats in
    let f = write_flags_lem n a flags in
    let here : n.items a ≡ inc_ref (m.items a) = ground arith in
    let c =
      give_back m (report r (write_flags n a flags)) h.1 h.2 f.0 (λ b p. f.1 b p ∙ ground arith)
        (f.2 ∙ ground arith) (f.3 ∙ ap key_of here) (f.4 ∙ ap (λ (i : Item). i.ref_count) here) in
    let st = Changes-Stores m _ k v e c in
    record { answer = refl; stored = st.at_key; linked = st.linked }

mismatch_Updates :
    (m : Mgr) (k : Key) (v : Option Content) (a id : ℕ) (s : List StatsCall)
    → HasRoom m
    → IsLinked m
    → Updates m k v false (false, id, held m a s)
mismatch_Updates m k v a id s room linked = record {
  answer = refl;
  stored = λ q. held-entry m a s q;
  linked = held-IsLinked m a s room linked;
}

miss_Updates :
    (m : Mgr) (k : Key) (v : Option Content) (id : ℕ) (s : List StatsCall)
    → IsLinked m
    → Updates m k v false (false, id, record m { stats = s })
miss_Updates m k v id s linked = record {
  answer = refl;
  stored = λ q. Keeps-entry (report-Keeps m s) q;
  linked = Keeps-IsLinked (report-Keeps m s) linked;
}

-- `update_flags` sets the flags of the entry under its key, under the next cache id, exactly if the key
-- is there and the caller wants its cache id or none; otherwise no entry has changed.
pub update_flags-Updates :
    (m : Mgr) (k : Key) (cache_id flags : ℕ)
    → HasRoom m
    → IsLinked m
    → Updates m k
        (with_flags flags (next_cache_id m) (entry m k))
        (update_ok (entry m k) cache_id)
        (update_flags m k cache_id flags)
unfolding update_flags update_flags_found entry read
update_flags-Updates m k cache_id flags room v = elim (Option-cases (find k m.cache_hash_map)) [
  | inl e ↦ rw (e, do_get-none m k e) (miss_Updates m k none 0 _ v)
  | inr (a, e) ↦
      rw (e, do_get-some m k e, held_id m a m.stats)
        (elim (Bool-cases (agrees cache_id (m.items a).cache_id)) [
          | inl t ↦ rw t (flags_Updates m k flags _ _ v e)
          | inr t ↦ rw t (mismatch_Updates m k _ a _ _ room v)
        ])
]

move_item_lem :
    (n : Mgr) (a expire_time : ℕ)
    → ((move_item n a expire_time).cache_hash_map ≡ n.cache_hash_map)
      × ((b : ℕ) → a ≢ b → (move_item n a expire_time).items b ≡ n.items b)
      × (content ((move_item n a expire_time).items a)
          ≡ record (content (n.items a)) { expire_time = expire_time })
      × (key_of ((move_item n a expire_time).items a) ≡ key_of (n.items a))
      × (((move_item n a expire_time).items a).ref_count ≡ (n.items a).ref_count)
unfolding move_item
move_item_lem n a expire_time =
    (ground arith, λ b h. ground arith, ground arith, ground arith, ground arith)

abbrev pub with_expire_time : ℕ → Option Content → Option Content
with_expire_time expire_time none = none
with_expire_time expire_time (some c) = some (record c { expire_time = expire_time })

expiration_Updates :
    (m : Mgr) (k : Key) {a : ℕ} (expire_time id : ℕ) (c : StatsCall)
    → IsLinked m
    → find k m.cache_hash_map ≡ some a
    → Updates m k
        (some (record (content (m.items a)) { expire_time = expire_time }))
        true
        (true, id, do_release_reference (report c (move_item (held m a m.stats) a expire_time)) a)
expiration_Updates m k {a} expire_time id c v e =
    let h = linked_at k v e in
    let n = held m a m.stats in
    let f = move_item_lem n a expire_time in
    let here : n.items a ≡ inc_ref (m.items a) = ground arith in
    let ch =
      give_back m (report c (move_item n a expire_time)) h.1 h.2 f.0 (λ b p. f.1 b p ∙ ground arith)
        (f.2 ∙ ground arith) (f.3 ∙ ap key_of here) (f.4 ∙ ap (λ (i : Item). i.ref_count) here) in
    let st = Changes-Stores m _ k v e ch in
    record { answer = refl; stored = st.at_key; linked = st.linked }

-- `update_expiration` sets the deadline of the entry under its key, on the same condition, and keeps
-- its cache id.
pub update_expiration-Updates :
    (m : Mgr) (k : Key) (cache_id expiration : ℕ)
    → HasRoom m
    → IsLinked m
    → Updates m k
        (with_expire_time (realtime m.current_time expiration) (entry m k))
        (update_ok (entry m k) cache_id)
        (update_expiration m k cache_id expiration)
unfolding update_expiration update_expiration_found entry read
update_expiration-Updates m k cache_id expiration room v =
    elim (Option-cases (find k m.cache_hash_map)) [
      | inl e ↦ rw (e, do_get-none m k e) (miss_Updates m k none 0 _ v)
      | inr (a, e) ↦
          rw (e, do_get-some m k e, held_id m a m.stats)
            (elim (Bool-cases (agrees cache_id (m.items a).cache_id)) [
              | inl t ↦ rw t (expiration_Updates m k _ _ _ v e)
              | inr t ↦ rw t (mismatch_Updates m k _ a _ _ room v)
            ])
    ]

-- An update whose cache id does not agree leaves the item with one reference more than before, which
-- no caller holds: `update_flags` and `update_expiration` return without giving it back.
pub mismatch_leaks :
    (m : Mgr) (k : Key) (a cache_id flags expiration : ℕ)
    → find k m.cache_hash_map ≡ some a
    → agrees cache_id (m.items a).cache_id ≡ false
    → (((update_flags m k cache_id flags).2.items a).ref_count
        ≡ ((m.items a).ref_count + 1) % 2 ^ 16)
      × (((update_expiration m k cache_id expiration).2.items a).ref_count
          ≡ ((m.items a).ref_count + 1) % 2 ^ 16)
unfolding update_flags update_flags_found update_expiration update_expiration_found
mismatch_leaks m k a cache_id flags expiration e t =
    rw (do_get-some m k e, held_id m a m.stats, t) (ground arith, ground arith)
