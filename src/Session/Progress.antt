-- ===== src/Session/Progress.antt =====
-- src/peer_cache.cpp: the turns of the loop of Peer_Cache after a header.
use xixi.Prelude.{
  ℕ, ◌+◌, ◌*◌, ◌%◌, ◌^◌, ◌<◌, ◌≡◌, refl, ap, ◌∙◌, inl, inr, Bool, true, false, Option, none, some,
  List, arith, leb, Bool-cases, length, is_empty, length-drop,
}
use xixi.CacheMgr.Access.{alloc_item, item_size_ok}
use xixi.CacheMgr.State.{Mgr}
use xixi.CacheMgr.Sweep.{flush}
use xixi.CacheMgr.Watches.{create_watch, check_watch_and_set_callback}
use xixi.Pdu.Decode
use xixi.Pdu.Request.{
  Request, get_req, get_touch_req, get_base_req, update_req, update_flags_req,
  update_expiration_req, delete_req, auth_req, delta_req, flush_req, stats_req, hello_req,
  create_watch_req, check_watch_req,
}
use xixi.Pdu.Response.{flush_res, create_watch_res, stats_res}
use xixi.ReceiveBuffer.{ReceiveBuffer, consume}
use xixi.Session.Ends.{
  EndsFrom, finish-write_res-Ends, write_error-Ends, reject-Ends, try_res-Ends, answer_update-Ends,
  refuse-Ends,
}
use xixi.Session.Framing.{trailing}
use xixi.Session.Loop.{take_bytes, decoded, fixed_turn}
use xixi.Session.Peer.{Env, Peer, read_body_fixed, read_body_extras2}
use xixi.Session.Process.{process_pdu_fixed, process_pdu_extras}
use xixi.Session.Updates.{
  allocated, process_update_req_pdu_fixed, copied, release_item, store_item,
  process_update_req_pdu_extras,
}
use xixi.Session.Watching.{
  watch_created, process_create_watch_req_pdu_fixed, start_timer, watch_checked, updates_res,
  no_updates, process_check_watch_req_pdu_fixed, flushed_all, process_flush_req_pdu_fixed,
  process_stats_req_pdu_fixed,
}
use xixi.Watch.{Out}
use xixi.Session.Turns.{
  total, left, rank, measure, is_body, IsFramed, Good, Progress, ended, read_more-Progress, Leaves,
  Ends-Leaves,
}

allocated-Leaves :
    (key_length data_length size : ℕ) (p : Peer) (r : Option ℕ × Mgr)
    → Leaves p 3 (allocated key_length data_length size p r)
unfolding allocated copied
allocated-Leaves key_length data_length size p (none, m) =
    Ends-Leaves p 3 _ (refuse-Ends size p (item_size_ok m key_length data_length 0)) (omega arith)
allocated-Leaves key_length data_length size p (some a, m) = record {
  keeps = record { buffer = refl; arrivals = refl };
  low = omega arith;
  framed = tt;
}

watch_created-Ends : (p : Peer) (r : ℕ × Mgr) → EndsFrom p (watch_created p r)
unfolding watch_created
watch_created-Ends p (id, m) = finish-write_res-Ends (create_watch_res id) (record p { mgr = m })

flushed_all-Ends : (p : Peer) (r : Mgr × ℕ × ℕ) → EndsFrom p (flushed_all p r)
unfolding flushed_all
flushed_all-Ends p (m, count, size) =
    finish-write_res-Ends (flush_res count size) (record p { mgr = m })

watch_checked-Leaves :
    (timeout id : ℕ) (p : Peer) (r : Bool × Out × Mgr) → Leaves p 3 (watch_checked timeout id p r)
unfolding watch_checked start_timer
watch_checked-Leaves timeout id p (false, out, m) =
    Ends-Leaves p 3 _ (write_error-Ends 12 0 (record p { mgr = m })) (omega arith)
watch_checked-Leaves timeout id p (true, out, m) = elim (Bool-cases (is_empty out.updated_list)) [
  | inl t ↦ rw t (elim (Bool-cases p.timer_flag) [
    | inl on ↦ rw on (record {
      keeps = record { buffer = refl; arrivals = refl };
      low = omega arith;
      framed = tt;
    })
    | inr off ↦ rw off (record {
      keeps = record { buffer = refl; arrivals = refl };
      low = omega arith;
      framed = tt;
    })
  ])
  | inr f ↦
      rw f (Ends-Leaves p 3 _ (try_res-Ends (updates_res out) (record p { mgr = m })) (omega arith))
]

-- The same bytes, in a session that differs elsewhere.
moved :
    (p p' q : Peer)
    → p'.read_buffer ≡ p.read_buffer
    → p'.arrivals ≡ p.arrivals
    → Leaves p' 3 q
    → Leaves p 3 q
moved p p' q b a l = record {
  keeps = record { buffer = l.keeps.buffer ∙ b; arrivals = l.keeps.arrivals ∙ a };
  low = l.low;
  framed = l.framed;
}

-- A request that reads its key or login next.
reads :
    (p : Peer) (r : Request)
    → is_body r ≡ true
    → Leaves p 3 (record p { pdu = some r; next_data_len = trailing r; state = read_body_extras2 })
reads p r e = record {
  keeps = record { buffer = refl; arrivals = refl };
  low = omega arith;
  framed = (refl, e);
}

process_pdu_fixed-Leaves :
    (env : Env) (p : Peer) (r : Request)
    → Leaves p 3 (process_pdu_fixed env (record p { pdu = some r }) r)
unfolding process_pdu_fixed process_update_req_pdu_fixed process_create_watch_req_pdu_fixed
    process_check_watch_req_pdu_fixed process_flush_req_pdu_fixed process_stats_req_pdu_fixed
process_pdu_fixed-Leaves env p (get_req g w k) = reads p (get_req g w k) refl
process_pdu_fixed-Leaves env p (get_touch_req g w x k) = reads p (get_touch_req g w x k) refl
process_pdu_fixed-Leaves env p (get_base_req g k) = reads p (get_base_req g k) refl
process_pdu_fixed-Leaves env p (update_req o c g f x w k d) =
    let p' = record p { pdu = some (update_req o c g f x w k d) } in
    moved p p' _ refl refl
      (allocated-Leaves k d ((k + d) % 2 ^ 32) p' (alloc_item p.mgr g k f x d 0))
process_pdu_fixed-Leaves env p (update_flags_req o c g f k) =
    reads p (update_flags_req o c g f k) refl
process_pdu_fixed-Leaves env p (update_expiration_req o c g x k) =
    reads p (update_expiration_req o c g x k) refl
process_pdu_fixed-Leaves env p (delete_req o c g k) = reads p (delete_req o c g k) refl
process_pdu_fixed-Leaves env p (auth_req b) = reads p (auth_req b) refl
process_pdu_fixed-Leaves env p (delta_req o c g d k) = reads p (delta_req o c g d k) refl
process_pdu_fixed-Leaves env p (flush_req g) =
    Ends-Leaves p 3 _ (flushed_all-Ends (record p { pdu = some (flush_req g) }) (flush p.mgr g))
      (omega arith)
process_pdu_fixed-Leaves env p (stats_req o c g) =
    Ends-Leaves p 3 _
      (try_res-Ends (stats_res (env.stats_text (stats_req o c g) p.mgr))
        (record p { pdu = some (stats_req o c g) }))
      (omega arith)
process_pdu_fixed-Leaves env p hello_req =
    Ends-Leaves p 3 _ (reject-Ends (record p { pdu = some hello_req })) (omega arith)
process_pdu_fixed-Leaves env p (create_watch_req g i) =
    Ends-Leaves p 3 _
      (watch_created-Ends (record p { pdu = some (create_watch_req g i) }) (create_watch p.mgr g i))
      (omega arith)
process_pdu_fixed-Leaves env p (check_watch_req g w t i a) =
    let p' = record p { timer_flag = false; pdu = some (check_watch_req g w t i a) } in
    moved p p' _ refl refl
      (watch_checked-Leaves t w p' (check_watch_and_set_callback p.mgr p.self g w a i no_updates))

decoded-Leaves :
    (env : Env) (p : Peer) (r : Option (Request × List ℕ)) → Leaves p 3 (decoded env p r)
unfolding decoded
decoded-Leaves env p none = Ends-Leaves p 3 _ (reject-Ends p) (omega arith)
decoded-Leaves env p (some (r, rest)) = process_pdu_fixed-Leaves env p r

-- What a handler leaves, where its state is lower than the bound.
left-Good :
    (bound : ℕ) (p q : Peer)
    → Leaves p 3 q
    → 8 * left p.read_buffer p.arrivals + 3 < bound
    → Good bound q
left-Good bound p q l h = inr (
  omega (
    arith,
    h,
    l.low,
    ap (λ (b : ReceiveBuffer). length b.read_data) l.keeps.buffer,
    ap (λ l. total l) l.keeps.arrivals,
  ),
  l.framed,
)

pub fixed_turn-Progress :
    (env : Env) (count : ℕ) (p : Peer)
    → p.state ≡ read_body_fixed
    → IsFramed p
    → Progress (measure p) (fixed_turn env count p)
unfolding fixed_turn consume
fixed_turn-Progress env count p s v =
    let p' = take_bytes (p.next_data_len, p) in
    elim (Bool-cases (leb p.next_data_len (length p.read_buffer.read_data))) [
      | inl t ↦ rw t (
          left-Good (measure p) p' _
            (decoded-Leaves env p' (Decode.decode_pdu p.choice p.read_buffer.read_data))
            (omega
              (arith, length-drop p.next_data_len p.read_buffer.read_data, ap (λ s. rank s) s)))
      | inr f ↦ rw f (read_more-Progress count p v)
    ]

pub copied-Good :
    (bound : ℕ) (bytes : List ℕ) (p : Peer) (item : Option ℕ)
    → measure p < bound
    → IsFramed p
    → Good bound (copied bytes p item)
unfolding copied
copied-Good bound bytes p none h v = inl refl
copied-Good bound bytes p (some a) h v = inr (h, v)

ended_release :
    (bound : ℕ) (p q : Peer) (a : ℕ)
    → EndsFrom p q
    → 8 * left p.read_buffer p.arrivals + 2 < bound
    → Good bound (release_item a q)
unfolding release_item
ended_release bound p q a e h = ended bound p q e h

store_item-Good :
    (env : Env) (o c w : ℕ) (p : Peer) (item : Option ℕ) (bound : ℕ)
    → 8 * left p.read_buffer p.arrivals + 2 < bound
    → Good bound (store_item env o c w p item)
unfolding store_item
store_item-Good env o c w p none bound h = inl refl
store_item-Good env o c w p (some a) bound h = ended_release bound p _ a (answer_update-Ends p _) h

pub process_pdu_extras-Good :
    (env : Env) (p : Peer) (r : Request) (bound : ℕ)
    → 8 * left p.read_buffer p.arrivals + 2 < bound
    → Good bound (process_pdu_extras env p r)
unfolding process_pdu_extras process_update_req_pdu_extras
process_pdu_extras-Good env p (update_req o c g f x w k d) bound h =
    store_item-Good env o c w p p.cache_item bound h
process_pdu_extras-Good env p (get_req g w k) bound h = ended bound p _ (reject-Ends p) h
process_pdu_extras-Good env p (get_touch_req g w x k) bound h = ended bound p _ (reject-Ends p) h
process_pdu_extras-Good env p (get_base_req g k) bound h = ended bound p _ (reject-Ends p) h
process_pdu_extras-Good env p (update_flags_req o c g f k) bound h =
    ended bound p _ (reject-Ends p) h
process_pdu_extras-Good env p (update_expiration_req o c g x k) bound h =
    ended bound p _ (reject-Ends p) h
process_pdu_extras-Good env p (delete_req o c g k) bound h = ended bound p _ (reject-Ends p) h
process_pdu_extras-Good env p (auth_req b) bound h = ended bound p _ (reject-Ends p) h
process_pdu_extras-Good env p (delta_req o c g d k) bound h = ended bound p _ (reject-Ends p) h
process_pdu_extras-Good env p (flush_req g) bound h = ended bound p _ (reject-Ends p) h
process_pdu_extras-Good env p (stats_req o c g) bound h = ended bound p _ (reject-Ends p) h
process_pdu_extras-Good env p hello_req bound h = ended bound p _ (reject-Ends p) h
process_pdu_extras-Good env p (create_watch_req g i) bound h = ended bound p _ (reject-Ends p) h
process_pdu_extras-Good env p (check_watch_req g w t i a) bound h =
    ended bound p _ (reject-Ends p) h
