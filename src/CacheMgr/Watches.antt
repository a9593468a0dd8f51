-- ===== src/CacheMgr/Watches.antt =====
-- src/cache.cpp: Cache_Mgr::get_watch_id, create_watch and the two checks of a watch.
use xixi.Prelude.{
  ℕ, zero, suc, ◌+◌, ◌%◌, ◌^◌, ◌<◌, ◌≡◌, refl, ◌⊎◌, inl, inr, Bool, true, false, Option, none, some,
  List, [], ◌∷◌, ◌++◌, arith, ◌==◌, if◌then◌else◌, Option-cases,
}
use xixi.CacheMgr.Items.{find_watch, put_watch}
use xixi.CacheMgr.State.{Mgr, report}
use xixi.CurrTime.{realtime}
use xixi.Stats.{StatsCall}
use xixi.Watch
use xixi.Watch.{Watch, Out}

-- `++last_watch_id_`, past 0.
unfoldable pub next_watch_id : ℕ → ℕ
next_watch_id last = let id = (last + 1) % 2 ^ 32 in if id == 0 then 1 else id

-- The loop of `get_watch_id`, with the rounds left: the id found or 0, and the new `last_watch_id_`.
unfoldable pub pick_watch_id : ℕ → List (ℕ × Watch) → ℕ → ℕ × ℕ
pick_watch_id zero watches last = (0, last)
pick_watch_id (suc rounds) watches last =
    let rest = pick_watch_id rounds watches (next_watch_id last) in
    elim (find_watch (next_watch_id last) watches) [
      | none ↦ (next_watch_id last, next_watch_id last)
      | some w ↦ rest
    ]

unfoldable pub create_watch : Mgr → ℕ → ℕ → ℕ × Mgr
create_watch m group_id max_next_check_interval =
    let (id, last) = pick_watch_id 100 m.watch_map m.last_watch_id in
    let m' = record m { last_watch_id = last } in
    if id == 0 then (0, m') else (
      id,
      report (StatsCall.create_watch group_id) (record m' {
        watch_map =
            put_watch id (Watch.new id (realtime m.current_time max_next_check_interval))
              m.watch_map;
      }),
    )

-- A check of a watch: whether it is known, and what it returns through the reference parameters.
unfoldable pub check_watch_and_set_callback : Mgr → ℕ → ℕ → ℕ → ℕ → ℕ → Out → Bool × Out × Mgr
check_watch_and_set_callback m sp group_id watch_id ack_sequence max_next_check_interval out =
    elim (find_watch watch_id m.watch_map) [
      | none ↦ (false, out, report (StatsCall.check_watch_miss group_id) m)
      | some w ↦
          let (w', out', calls) =
            Watch.check_and_set_callback m.live w sp ack_sequence
              (realtime m.current_time max_next_check_interval) out in
          (
            true,
            out',
            report (StatsCall.check_watch group_id) (record m {
              watch_map = put_watch watch_id w' m.watch_map;
              sink_calls = m.sink_calls ++ calls;
            }),
          )
    ]

unfoldable pub check_watch_and_clear_callback : Mgr → Option ℕ → ℕ → Out → Bool × Out × Mgr
check_watch_and_clear_callback m sp watch_id out = elim (find_watch watch_id m.watch_map) [
  | none ↦ (false, out, m)
  | some w ↦
      let (w', out') = Watch.check_and_clear_callback m.live w sp out in
      (true, out', record m { watch_map = put_watch watch_id w' m.watch_map })
]

find-put :
    (j id : ℕ) (w : Watch) (l : List (ℕ × Watch))
    → find_watch j (put_watch id w l) ≡ (if id == j then some w else find_watch j l)
unfolding find_watch put_watch
find-put j id w [] = refl
find-put j id w ((i, v) ∷ l) = ground (arith, find-put j id w l)

next_pos : (last : ℕ) → 0 < next_watch_id last
unfolding next_watch_id
next_pos last = ground arith

pick_watch_id_lem :
    (rounds : ℕ) (watches : List (ℕ × Watch)) (last : ℕ)
    → ((pick_watch_id rounds watches last).0 ≡ 0)
      ⊎ ((0 < (pick_watch_id rounds watches last).0)
          × (find_watch (pick_watch_id rounds watches last).0 watches ≡ none))
unfolding pick_watch_id
pick_watch_id_lem zero watches last = inl refl
pick_watch_id_lem (suc rounds) watches last =
    elim (Option-cases (find_watch (next_watch_id last) watches)) [
      | inl e ↦ rw (e, pick_watch_id) (inr (next_pos last, e))
      | inr (w, e) ↦ rw (e, pick_watch_id) (pick_watch_id_lem rounds watches (next_watch_id last))
    ]

-- `create_watch` either fails with the id 0 and leaves the watches as they were, or returns an id that
-- no watch had, under which it puts a new watch, and keeps every other watch.
pub create_watch_lem :
    (m : Mgr) (group_id interval : ℕ)
    → let r = create_watch m group_id interval in
      ((r.0 ≡ 0) × (r.1.watch_map ≡ m.watch_map))
      ⊎ ((0 < r.0)
          × (find_watch r.0 m.watch_map ≡ none)
          × ((j : ℕ)
              → find_watch j r.1.watch_map ≡ (
                  if r.0 == j
                  then some (Watch.new r.0 (realtime m.current_time interval))
                  else find_watch j m.watch_map)))
unfolding create_watch
create_watch_lem m group_id interval =
    let p = pick_watch_id 100 m.watch_map m.last_watch_id in
    elim (pick_watch_id_lem 100 m.watch_map m.last_watch_id) [
      | inl z ↦ let zero_id : (p.0 == 0) ≡ true = ground (arith, z) in rw zero_id (inl (refl, refl))
      | inr (pos, fresh) ↦
          let some_id : (p.0 == 0) ≡ false = ground (arith, pos) in
          rw some_id (inr (pos, fresh, λ j. find-put j p.0 _ m.watch_map))
    ]
