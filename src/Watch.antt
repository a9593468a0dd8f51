-- ===== src/Watch.antt =====
-- src/cache.h and src/cache.cpp: Cache_Watch, the pending notifications of one watch.
-- A sink (a connection's callback) is a number, and the weak pointer to it an optional number; `live`
-- says which sinks still exist, as `weak_ptr::lock` finds out. A call of `on_cache_watch_notify` is an
-- entry (sink, watch id) of the list of calls that an operation returns.
pub mod Delivery
use xixi.Prelude.{
  ℕ, ◌+◌, ◌%◌, ◌^◌, Bool, true, false, not, ◌&&◌, Option, none, some, List, [], ◌∷◌, ◌++◌, ◌==◌,
  leb, if◌then◌else◌, is_empty,
}

pub record Watch : Type 0 where
  pub watch_id : ℕ
  pub expire_time : ℕ
  pub sequence : ℕ
  pub updated_list : List ℕ
  pub updated_type_list : List ℕ
  pub wait_updated_list : List ℕ
  pub wait_updated_type_list : List ℕ
  pub wp : Option ℕ

unfoldable pub new : ℕ → ℕ → Watch
new watch_id expire_time = record {
  watch_id = watch_id;
  expire_time = expire_time;
  sequence = 0;
  updated_list = [];
  updated_type_list = [];
  wait_updated_list = [];
  wait_updated_type_list = [];
  wp = none;
}

unfoldable pub is_expired : Watch → ℕ → Bool
is_expired w current_time = leb w.expire_time current_time

-- The counter wraps past 0 to 1.
unfoldable pub next_sequence : Watch → ℕ
next_sequence w = let s = (w.sequence + 1) % 2 ^ 32 in if s == 0 then 1 else s

-- The reference parameters through which a check returns.
pub record Out : Type 0 where
  pub sequence : ℕ
  pub updated_list : List ℕ
  pub updated_type_list : List ℕ

-- `wp_.lock()`
unfoldable pub lock : (ℕ → Bool) → Option ℕ → Option ℕ
lock live none = none
lock live (some s) = if live s then some s else none

-- `p->on_cache_watch_notify(watch_id_)` where `p` is not null.
unfoldable pub call_sink : Option ℕ → ℕ → List (ℕ × ℕ)
call_sink none watch_id = []
call_sink (some s) watch_id = (s, watch_id) ∷ []

-- The swap of the two pairs of lists, with the next sequence number.
unfoldable pub rotate : Watch → Watch
unfolding next_sequence
rotate w = record w {
  sequence = next_sequence w;
  updated_list = w.wait_updated_list;
  updated_type_list = w.wait_updated_type_list;
  wait_updated_list = w.updated_list;
  wait_updated_type_list = w.updated_type_list;
}

-- The second half of `check_and_set_callback`, when nothing waits for an acknowledgement.
unfoldable pub deliver_or_wait : (ℕ → Bool) → Watch → ℕ → Out → Watch × Out × List (ℕ × ℕ)
unfolding rotate lock call_sink
deliver_or_wait live w sp out =
    if is_empty w.updated_list
    then (
      record w { wp = some sp },
      record out { sequence = 0 },
      call_sink (lock live w.wp) w.watch_id,
    )
    else (
      rotate w,
      record {
        sequence = (rotate w).sequence;
        updated_list = out.updated_list ++ w.updated_list;
        updated_type_list = out.updated_type_list ++ w.updated_type_list;
      },
      [],
    )

unfoldable pub check_and_set_callback :
    (ℕ → Bool) → Watch → ℕ → ℕ → ℕ → Out → Watch × Out × List (ℕ × ℕ)
unfolding deliver_or_wait
check_and_set_callback live w0 sp ack_sequence expire_time out =
    let w = record w0 { expire_time = expire_time } in
    if is_empty w.wait_updated_list
    then deliver_or_wait live w sp out
    else if ack_sequence == w.sequence
    then deliver_or_wait live (record w { wait_updated_list = []; wait_updated_type_list = [] }) sp
        out
    else (
      w,
      record {
        sequence = w.sequence;
        updated_list = out.updated_list ++ w.wait_updated_list;
        updated_type_list = out.updated_type_list ++ w.wait_updated_type_list;
      },
      [],
    )

-- `sp == p`, for two pointers that may be null.
unfoldable pub same_sink : Option ℕ → Option ℕ → Bool
same_sink none none = true
same_sink none (some q) = false
same_sink (some p) none = false
same_sink (some p) (some q) = p == q

unfoldable pub check_and_clear_callback : (ℕ → Bool) → Watch → Option ℕ → Out → Watch × Out
unfolding rotate lock same_sink
check_and_clear_callback live w sp out =
    if same_sink sp (lock live w.wp)
    then (if not (is_empty w.updated_list) && is_empty w.wait_updated_list
        then (
          record (rotate w) { wp = none },
          record {
            sequence = (rotate w).sequence;
            updated_list = out.updated_list ++ w.updated_list;
            updated_type_list = out.updated_type_list ++ w.updated_type_list;
          },
        )
        else (record w { wp = none }, out))
    else (w, out)

unfoldable pub notify_watch : (ℕ → Bool) → Watch → ℕ → ℕ → Watch × List (ℕ × ℕ)
unfolding lock call_sink
notify_watch live w cache_id type =
    let w' = record w {
      updated_list = w.updated_list ++ cache_id ∷ [];
      updated_type_list = w.updated_type_list ++ type ∷ [];
    } in
    elim (lock live w.wp) [
      | none ↦ (w', [])
      | some p ↦ (record w' { wp = none }, call_sink (some p) w.watch_id)
    ]
