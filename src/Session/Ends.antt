-- ===== src/Session/Ends.antt =====
-- src/peer_cache.cpp: the handlers of Peer_Cache leave the received bytes alone, and end in the state in
-- which the answer is written.
use xixi.Prelude.{
  ℕ, ◌≡◌, refl, inl, inr, Bool, true, false, Option, none, some, List, [], ◌∷◌, ◌++◌, ltb, ◌==◌,
  Bool-cases,
}
use xixi.CacheBuffer.{CacheBuffer, prepare}
use xixi.CacheMgr.State.{
  Mgr, Reason, success, not_found, exists, too_large, mismatch, out_of_memory, watch_not_found,
}
use xixi.Pdu.Response.{Response, simple_res, error_res, get_res, calc_encode_size}
use xixi.ReceiveBuffer.{ReceiveBuffer}
use xixi.Session.Peer.{
  Peer, write, base_size, encoded, written, write_res, finish, write_simple_res, write_error,
  reject, tried, try_res, reason_code,
}
use xixi.Session.Requests.{
  send_item, got, got_touch, got_base, updated, removed, counted, delete_res_choice,
}
use xixi.Session.Updates.{answer_update, refuse}

-- The bytes received, and those still to come.
pub record Keeps (b : ReceiveBuffer) (pieces : List (List ℕ)) (q : Peer) : Type 0 where
  pub buffer : q.read_buffer ≡ b
  pub arrivals : q.arrivals ≡ pieces

abbrev pub Ends : ReceiveBuffer → List (List ℕ) → Peer → Type 0
Ends b pieces q = (q.state ≡ write) × Keeps b pieces q

abbrev pub EndsFrom : Peer → Peer → Type 0
EndsFrom p q = Ends p.read_buffer p.arrivals q

written-Keeps :
    (r : Response) (p : Peer) (at : Option (ℕ × ℕ) × CacheBuffer)
    → Keeps p.read_buffer p.arrivals (written r p at)
unfolding written encoded
written-Keeps r p (none, b) = record { buffer = refl; arrivals = refl }
written-Keeps r p (some at, b) = record { buffer = refl; arrivals = refl }

pub finish-write_res-Ends : (r : Response) (p : Peer) → EndsFrom p (finish (write_res r p))
unfolding write_res
finish-write_res-Ends r p =
    let k = written-Keeps r p (prepare base_size (calc_encode_size r) p.cache_buf) in
    (refl, record { buffer = k.buffer; arrivals = k.arrivals })

pub write_error-Ends : (code size : ℕ) (p : Peer) → EndsFrom p (write_error code size true p)
unfolding write_error
write_error-Ends code size p =
    let e = finish-write_res-Ends (error_res code) p in
    elim (Bool-cases (ltb 0 size)) [
      | inl t ↦ rw t (refl, record { buffer = e.1.buffer; arrivals = e.1.arrivals })
      | inr f ↦ rw f e
    ]

pub reject-Ends : (p : Peer) → EndsFrom p (reject p)
unfolding reject
reject-Ends p =
    let e = write_error-Ends 8 0 p in (e.0, record { buffer = e.1.buffer; arrivals = e.1.arrivals })

tried-Ends :
    (r : Response) (p : Peer) (at : Option (ℕ × ℕ) × CacheBuffer) → EndsFrom p (tried r p at)
unfolding tried encoded
tried-Ends r p (none, b) = write_error-Ends 9 0 (record p { cache_buf = b })
tried-Ends r p (some at, b) = (refl, record { buffer = refl; arrivals = refl })

pub try_res-Ends : (r : Response) (p : Peer) → EndsFrom p (try_res r p)
unfolding try_res
try_res-Ends r p = tried-Ends r p (prepare base_size (calc_encode_size r) p.cache_buf)

send_item-Ends : (a expiration : ℕ) (p : Peer) → EndsFrom p (send_item a expiration p)
unfolding send_item
send_item-Ends a expiration p =
    let it = p.mgr.items a in
    let p' = record p { cache_item = some a; cache_items = p.cache_items ++ a ∷ [] } in
    let e = finish-write_res-Ends (get_res it.cache_id it.flags expiration it.data_size) p' in
    (refl, record { buffer = e.1.buffer; arrivals = e.1.arrivals })

pub got-Ends : (p : Peer) (r : Option ℕ × ℕ × Reason × Mgr) → EndsFrom p (got p r)
unfolding got
got-Ends p (none, expiration, reason, m) =
    write_error-Ends (reason_code reason) 0 (record p { mgr = m })
got-Ends p (some a, expiration, reason, m) = send_item-Ends a expiration (record p { mgr = m })

pub got_touch-Ends :
    (expiration : ℕ) (p : Peer) (r : Option ℕ × Reason × Mgr)
    → EndsFrom p (got_touch expiration p r)
unfolding got_touch
got_touch-Ends expiration p (none, reason, m) =
    write_error-Ends (reason_code reason) 0 (record p { mgr = m })
got_touch-Ends expiration p (some a, reason, m) = send_item-Ends a expiration (record p { mgr = m })

pub got_base-Ends : (p : Peer) (r : Option ℕ × ℕ × Reason × Mgr) → EndsFrom p (got_base p r)
unfolding got_base
got_base-Ends p (none, expiration, reason, m) = write_error-Ends 1 0 (record p { mgr = m })
got_base-Ends p (some a, expiration, reason, m) = finish-write_res-Ends _ (record p { mgr = _ })

pub updated-Ends :
    (response : ℕ → Response) (p : Peer) (r : Bool × ℕ × Mgr) → EndsFrom p (updated response p r)
unfolding updated
updated-Ends response p (true, cache_id, m) =
    finish-write_res-Ends (response cache_id) (record p { mgr = m })
updated-Ends response p (false, cache_id, m) = elim (Bool-cases (cache_id == 0)) [
  | inl t ↦ rw t (write_error-Ends 1 0 (record p { mgr = m }))
  | inr f ↦ rw f (write_error-Ends 6 0 (record p { mgr = m }))
]

pub removed-Ends : (p : Peer) (r : Reason × Mgr) → EndsFrom p (removed p r)
unfolding removed write_simple_res
removed-Ends p (success, m) =
    finish-write_res-Ends (simple_res delete_res_choice) (record p { mgr = m })
removed-Ends p (not_found, m) = write_error-Ends 1 0 (record p { mgr = m })
removed-Ends p (exists, m) = write_error-Ends 2 0 (record p { mgr = m })
removed-Ends p (too_large, m) = write_error-Ends 3 0 (record p { mgr = m })
removed-Ends p (mismatch, m) = write_error-Ends 6 0 (record p { mgr = m })
removed-Ends p (out_of_memory, m) = write_error-Ends 9 0 (record p { mgr = m })
removed-Ends p (watch_not_found, m) = write_error-Ends 12 0 (record p { mgr = m })

pub counted-Ends : (p : Peer) (r : Reason × ℕ × ℕ × Mgr) → EndsFrom p (counted p r)
unfolding counted
counted-Ends p (success, cache_id, value, m) = finish-write_res-Ends _ (record p { mgr = m })
counted-Ends p (not_found, cache_id, value, m) = write_error-Ends 1 0 (record p { mgr = m })
counted-Ends p (exists, cache_id, value, m) = write_error-Ends 2 0 (record p { mgr = m })
counted-Ends p (too_large, cache_id, value, m) = write_error-Ends 3 0 (record p { mgr = m })
counted-Ends p (mismatch, cache_id, value, m) = write_error-Ends 6 0 (record p { mgr = m })
counted-Ends p (out_of_memory, cache_id, value, m) = write_error-Ends 9 0 (record p { mgr = m })
counted-Ends p (watch_not_found, cache_id, value, m) = write_error-Ends 12 0 (record p { mgr = m })

pub answer_update-Ends : (p : Peer) (r : ℕ × ℕ × Mgr) → EndsFrom p (answer_update p r)
unfolding answer_update
answer_update-Ends p (reason, cache_id, m) = elim (Bool-cases (reason == 0)) [
  | inl t ↦ rw t (finish-write_res-Ends _ (record p { mgr = m }))
  | inr f ↦ rw f (write_error-Ends reason 0 (record p { mgr = m }))
]

pub refuse-Ends : (size : ℕ) (p : Peer) (r : Bool × Mgr) → EndsFrom p (refuse size p r)
unfolding refuse
refuse-Ends size p (true, m) = write_error-Ends 9 size (record p { mgr = m; cache_item = none })
refuse-Ends size p (false, m) = write_error-Ends 3 size (record p { mgr = m; cache_item = none })
