-- ===== src/Http/WatchReplies.antt =====
-- src/peer_http.cpp: `encode_update_list` replies with the list or with an error, and `process_watch` replies
-- or waits for its timer.
use xixi.Prelude.{
  ℕ, zero, suc, ◌+◌, ◌-◌, ◌%◌, ◌^◌, ◌≤◌, ◌<◌, ◌≡◌, refl, sym, ap, ◌∙◌, ◌≢◌, ◌⊎◌, inl, inr, Bool,
  true, false, Option, none, some, List, [], ◌∷◌, ◌++◌, arith, ltb, if◌then◌else◌, Bool-cases,
  length, is_empty, length-append, length-take, get_elem?, get_elem?-append, get_elem?-take,
}
use xixi.CacheMgr.State.{Mgr, out_of_memory, watch_not_found}
use xixi.CacheMgr.Watches.{check_watch_and_set_callback}
use xixi.CacheBuffer.{put}
use mathlib.Core.Path.{subst}
use xixi.Http.Answering.{Ahead, Stays, Kept, Replies, Kept-refl, write_error-Replies, either}
use xixi.Http.Replies.{
  write_error, by_keepalive, default_res_200_keep_alive, default_res_200_close, reason_code,
}
use xixi.Http.State.{
  PeerHttp, Chunk, literal, prepare_buf, print_into, printed, add_write_buf, chunk_at,
}
use xixi.Http.Watching.{
  put_chunk, update_write_buf, pop_write_buf, add_numbers, header_put, total_text, list_ended,
  next_buffer, listed, encode_from, list_begun, encode_update_list, start_timer, watch_checked,
  process_watch, timer_checked,
}
use xixi.Session.Peer.{PeerState, TimerCall, cancel}
use xixi.Session.Watching.{no_updates}
use xixi.Watch.{Out}

-- So many chunks stand behind those of the session.
abbrev Grown : PeerHttp → ℕ → PeerHttp → Type 0
Grown p n q =
    (q.read_buffer ≡ p.read_buffer)
    × ((q.arrivals ≡ p.arrivals)
        × ((length q.write_buf ≡ length p.write_buf + n) × Stays p.write_buf q.write_buf))

Grown-Kept : (p : PeerHttp) (n : ℕ) (q : PeerHttp) → Grown p n q → Kept p q
Grown-Kept p n q (h1, (h2, (l, h3))) = (h1, (h2, (omega (arith, l), inl h3)))

length-put_chunk :
    (index : ℕ) (chunk : Chunk) (chunks : List Chunk)
    → length (put_chunk index chunk chunks) ≡ length chunks
unfolding put_chunk
length-put_chunk index chunk [] = refl
length-put_chunk zero chunk (c ∷ chunks) = refl
length-put_chunk (suc index) chunk (c ∷ chunks) = omega (arith, length-put_chunk index chunk chunks)

-- Only the chunk of the index changes.
get_elem?-put_chunk :
    (index : ℕ) (chunk : Chunk) (chunks : List Chunk) (i : ℕ)
    → index ≢ i
    → get_elem? (put_chunk index chunk chunks) i ≡ get_elem? chunks i
unfolding put_chunk get_elem?
get_elem?-put_chunk index chunk [] i h = refl
get_elem?-put_chunk zero chunk (c ∷ chunks) zero h = absurd (h refl)
get_elem?-put_chunk zero chunk (c ∷ chunks) (suc i) h = refl
get_elem?-put_chunk (suc index) chunk (c ∷ chunks) zero h = refl
get_elem?-put_chunk (suc index) chunk (c ∷ chunks) (suc i) h =
    get_elem?-put_chunk index chunk chunks i (λ e. h (omega (arith, e)))

-- Outside the list nothing changes.
put_chunk_outside :
    (index : ℕ) (chunk : Chunk) (chunks : List Chunk)
    → length chunks ≤ index
    → chunks ≡ put_chunk index chunk chunks
unfolding put_chunk
put_chunk_outside index chunk [] h = refl
put_chunk_outside zero chunk (c ∷ chunks) h = absurd (omega (arith, h))
put_chunk_outside (suc index) chunk (c ∷ chunks) h =
    ap (λ l. c ∷ l) (put_chunk_outside index chunk chunks (omega (arith, h)))

put_chunk_head :
    (chunk : Chunk) (chunks : List Chunk)
    → 0 < length chunks
    → get_elem? (put_chunk 0 chunk chunks) 0 ≡ some chunk
unfolding put_chunk get_elem?
put_chunk_head chunk [] h = absurd (omega (arith, h))
put_chunk_head chunk (c ∷ chunks) h = refl

abbrev Puts : ℕ → Chunk → PeerHttp → PeerHttp → Type 0
Puts index chunk q r =
    (r.read_buffer ≡ q.read_buffer)
    × ((r.arrivals ≡ q.arrivals) × (r.write_buf ≡ put_chunk index chunk q.write_buf))

update_write_buf-Puts :
    (index : ℕ) (chunk : Chunk) (size : ℕ) (q : PeerHttp)
    → Puts index chunk q (update_write_buf index chunk size q)
unfolding update_write_buf
update_write_buf-Puts index chunk size q = elim (Bool-cases (ltb index (length q.write_buf))) [
  | inl t ↦ rw t (refl, (refl, refl))
  | inr f ↦ rw f (refl, (refl, put_chunk_outside index chunk q.write_buf (ground (arith, f))))
]

-- The head and the size of the list are put over the first two chunks.
headed-Ahead :
    (xs chunks : List Chunk) (keepalive : Bool) (size : Chunk)
    → 0 < length chunks
    → length xs ≤ length chunks
    → Stays xs chunks
    → Ahead xs (
        put_chunk 1 size (
          put_chunk 0
            (literal (if keepalive then default_res_200_keep_alive else default_res_200_close))
            chunks))
headed-Ahead xs chunks keepalive size some_chunk l h =
    let status =
      literal (if keepalive then default_res_200_keep_alive else default_res_200_close) in
    let inner = put_chunk 0 status chunks in
    (
      omega (arith, l, length-put_chunk 1 size inner, length-put_chunk 0 status chunks),
      inr (
        λ i two here.
            get_elem?-put_chunk 1 size inner i (λ e. omega (arith, e, two))
            ∙ get_elem?-put_chunk 0 status chunks i (λ e. omega (arith, e, two))
            ∙ h i here,
        (
          keepalive,
          get_elem?-put_chunk 1 size inner 0 (λ e. omega (arith, e))
              ∙ put_chunk_head status chunks some_chunk,
        ),
      ),
    )

added-Grown :
    (p : PeerHttp) (n : ℕ) (chunk : Chunk) (size : ℕ) (q : PeerHttp)
    → Grown p n q
    → Grown p (n + 1) (add_write_buf chunk size q)
added-Grown p n chunk size q (h1, (h2, (l, h3))) = (
  h1,
  (
    h2,
    (
      omega (arith, l, length-append q.write_buf (chunk ∷ [])),
      λ i h. get_elem?-append q.write_buf (chunk ∷ []) i (omega (arith, l, h)) ∙ h3 i h,
    ),
  ),
)

add_numbers-Grown :
    (p : PeerHttp) (n : ℕ) (text : List ℕ) (at : ℕ × ℕ) (q : PeerHttp)
    → Grown p n q
    → Grown p (n + 1) (add_numbers text at q)
add_numbers-Grown p n text (block, offset) q h =
    added-Grown p n (Chunk.region block offset (length text)) (length text)
      (record q { request_buf = put block offset (text ++ 0 ∷ []) q.request_buf }) h

-- A call that takes a region, or prints into it, leaves the rest.
abbrev Same : PeerHttp → PeerHttp → Type 0
Same q r =
    (r.read_buffer ≡ q.read_buffer) × ((r.arrivals ≡ q.arrivals) × (r.write_buf ≡ q.write_buf))

Same-Grown : (p q r : PeerHttp) (n : ℕ) → Grown p n q → Same q r → Grown p n r
Same-Grown p q r n (h1, (h2, (l, h3))) (k1, (k2, k3)) = (
  k1 ∙ h1,
  (
    k2 ∙ h2,
    (ap (λ chunks. length chunks) k3 ∙ l, λ i h. ap (λ chunks. get_elem? chunks i) k3 ∙ h3 i h),
  ),
)

prepare-Same : (size : ℕ) (q : PeerHttp) → Same q (prepare_buf size q).1
unfolding prepare_buf
prepare-Same size q = (refl, (refl, refl))

-- Where there is no region, the session crashed.
abbrev Prints : PeerHttp → Option (ℕ × ℕ) × PeerHttp → Type 0
Prints q (none, r) = Same q r × (r.crashed ≡ true)
Prints q (some at, r) = Same q r

print_into-Prints :
    (room : ℕ) (text : List ℕ) (q : PeerHttp) (r : Option (ℕ × ℕ) × PeerHttp)
    → Same q r.1
    → Prints q (print_into room text r)
print_into-Prints room text q (none, r) h = (h, refl)
print_into-Prints room text q (some (block, offset), r) h = h

printed-Prints : (room : ℕ) (text : List ℕ) (q : PeerHttp) → Prints q (printed room text q)
unfolding printed
printed-Prints room text q =
    print_into-Prints room text q (prepare_buf room q) (prepare-Same room q)

header_put-Replies :
    (p q : PeerHttp) (n : ℕ) (text : List ℕ) (r : Option (ℕ × ℕ) × PeerHttp)
    → 1 ≤ n
    → Grown p n q
    → Prints q r
    → Replies p (header_put text r)
header_put-Replies p q n text (none, r) pos h (k, crashed) =
    (Grown-Kept p n r (Same-Grown p q r n h k), inl crashed)
header_put-Replies p q n text (some at, r) pos h k =
    let status = by_keepalive default_res_200_keep_alive default_res_200_close r in
    let r1 = update_write_buf 0 (literal status) (length status) r in
    let (g1, (g2, (l, g3))) = Same-Grown p q r n h k in
    let (a1, (a2, a3)) = update_write_buf-Puts 0 (literal status) (length status) r in
    let (b1, (b2, b3)) = update_write_buf-Puts 1 (chunk_at text at) (length text) r1 in
    let chunks = b3 ∙ ap (λ l. put_chunk 1 (chunk_at text at) l) a3 in
    let ahead =
      headed-Ahead p.write_buf r.write_buf r.http_request.keepalive (chunk_at text at)
        (omega (arith, l, pos)) (omega (arith, l)) g3 in
    (
      (b1 ∙ a1 ∙ g1, (b2 ∙ a2 ∙ g2, subst (Ahead p.write_buf) (sym chunks) ahead)),
      inr (
        refl,
        (
          refl,
          omega (
            arith,
            pos,
            l,
            ap (λ l. length l) chunks,
            length-put_chunk 1 (chunk_at text at) (put_chunk 0 (literal status) r.write_buf),
            length-put_chunk 0 (literal status) r.write_buf,
          ),
        ),
      ),
    )

abbrev More : PeerHttp → PeerHttp → Type 0
More p q = (n : ℕ) × ((1 ≤ n) × Grown p n q)

More-if : (p q r : PeerHttp) (b : Bool) → More p q → More p r → More p (if b then q else r)
More-if p q r true h k = h
More-if p q r false h k = k

printed-Replies :
    (p q : PeerHttp) (total_size : ℕ)
    → More p q
    → Replies p (header_put (total_text total_size) (printed 50 (total_text total_size) q))
printed-Replies p q total_size (n, (pos, h)) =
    header_put-Replies p q n (total_text total_size) (printed 50 (total_text total_size) q) pos h
      (printed-Prints 50 (total_text total_size) q)

list_ended-Replies :
    (p q : PeerHttp) (n : ℕ) (text : List ℕ) (total_size : ℕ) (at : ℕ × ℕ)
    → 1 ≤ n
    → Grown p n q
    → Replies p (list_ended text total_size at q)
list_ended-Replies p q n text total_size at pos h =
    printed-Replies p (if ltb 0 (length text) then add_numbers text at q else q) total_size (
      More-if p (add_numbers text at q) q (ltb 0 (length text))
        (n + 1, (omega arith, add_numbers-Grown p n text at q h)) (n, (pos, h)))

-- Without a buffer the chunks of the list go, and an error takes their place.
popped-Replies :
    (p q : PeerHttp) (n error_code : ℕ)
    → Grown p n q
    → Replies p (write_error error_code (pop_write_buf n q))
unfolding pop_write_buf
popped-Replies p q n error_code (h1, (h2, (l, h3))) =
    let count = length q.write_buf - n in
    write_error-Replies p error_code (pop_write_buf n q) (
      h1,
      (
        h2,
        (
          omega (arith, l, length-take count q.write_buf (omega arith)),
          inl λ i h. get_elem?-take count q.write_buf i (omega (arith, l, h)) ∙ h3 i h,
        ),
      ),
    )

next_buffer-Replies :
    (p : PeerHttp) (n : ℕ) (r : Option (ℕ × ℕ) × PeerHttp) (next : ℕ × ℕ → PeerHttp → PeerHttp)
    → Grown p n r.1
    → ((at : ℕ × ℕ) (q : PeerHttp) → Grown p n q → Replies p (next at q))
    → Replies p (next_buffer n r next)
next_buffer-Replies p n (none, q) next h k = popped-Replies p q n (reason_code out_of_memory) h
next_buffer-Replies p n (some at, q) next h k = k at q h

encode_from-Replies :
    (updated_list : List ℕ) (is_begin : Bool) (at : ℕ × ℕ) (text : List ℕ) (total_size n : ℕ)
    (p q : PeerHttp)
    → 1 ≤ n
    → Grown p n q
    → Replies p (encode_from updated_list is_begin at text total_size n q)
unfolding encode_from
encode_from-Replies [] is_begin at text total_size n p q pos h =
    list_ended-Replies p q n text total_size at pos h
encode_from-Replies (cache_id ∷ updated_list) is_begin at text total_size n p q pos h =
    let text' = text ++ listed is_begin cache_id in
    let total_size' = (total_size + length (listed is_begin cache_id)) % 2 ^ 32 in
    let q1 = add_numbers text' at q in
    let full : ℕ × ℕ → PeerHttp → PeerHttp =
      λ at' r. encode_from updated_list false at' [] total_size' (n + 1) r in
    either p (next_buffer (n + 1) (prepare_buf 2000 q1) full)
      (encode_from updated_list false at text' total_size' n q) (ltb 2000 (length text' + 30))
      (next_buffer-Replies p (n + 1) (prepare_buf 2000 q1) full
        (Same-Grown p q1 (prepare_buf 2000 q1).1 (n + 1) (add_numbers-Grown p n text' at q h)
          (prepare-Same 2000 q1))
        (λ at' r g.
          encode_from-Replies updated_list false at' [] total_size' (n + 1) p r (omega arith) g))
      (encode_from-Replies updated_list false at text' total_size' n p q pos h)

Grown-refl : (p : PeerHttp) → Grown p 0 p
Grown-refl p = (refl, (refl, (omega arith, λ i h. refl)))

list_begun-Replies :
    (p : PeerHttp) (updated_list : List ℕ) (r : Option (ℕ × ℕ) × PeerHttp)
    → Same p r.1
    → Replies p (list_begun updated_list r)
list_begun-Replies p updated_list (none, q) h =
    write_error-Replies p (reason_code out_of_memory) q
      (Grown-Kept p 0 q (Same-Grown p p q 0 (Grown-refl p) h))
list_begun-Replies p updated_list (some at, q) h =
    let q1 = add_write_buf (literal []) 0 q in
    encode_from-Replies updated_list true at [] 0 2 p (add_write_buf (literal []) 0 q1)
      (omega arith)
      (added-Grown p 1 (literal []) 0 q1
        (added-Grown p 0 (literal []) 0 q (Same-Grown p p q 0 (Grown-refl p) h)))

pub encode_update_list-Replies :
    (updated_list : List ℕ) (p : PeerHttp) → Replies p (encode_update_list updated_list p)
unfolding encode_update_list
encode_update_list-Replies updated_list p =
    list_begun-Replies p updated_list (prepare_buf 2000 p) (prepare-Same 2000 p)

-- The session has replied, or it waits for its timer.
abbrev pub Answers : PeerHttp → PeerHttp → Type 0
Answers p q = Replies p q ⊎ (Kept p q × (q.state ≡ PeerState.async_wait))

Answers-if :
    (p q r : PeerHttp) (b : Bool) → Answers p q → Answers p r → Answers p (if b then q else r)
Answers-if p q r true h k = h
Answers-if p q r false h k = k

start_timer-Answers : (p : PeerHttp) → Answers p (start_timer p)
unfolding start_timer
start_timer-Answers p =
    let calls = p.timer_calls ++ TimerCall.async_wait p.timeout p.watch_id ∷ [] in
    let q = record p { state = PeerState.async_wait } in
    Answers-if p (record q { timer_calls = calls ++ cancel ∷ [] })
      (record q { timer_calls = calls; timer_flag = true }) p.timer_flag (inr (Kept-refl p, refl))
      (inr (Kept-refl p, refl))

watch_checked-Answers : (p : PeerHttp) (r : Bool × Out × Mgr) → Answers p (watch_checked p r)
unfolding watch_checked
watch_checked-Answers p (false, out, m) =
    inl (write_error-Replies p (reason_code watch_not_found) (record p { mgr = m }) (Kept-refl p))
watch_checked-Answers p (true, out, m) =
    let q = record p { mgr = m } in
    Answers-if p (start_timer q) (encode_update_list out.updated_list q) (is_empty out.updated_list)
      (start_timer-Answers q) (inl (encode_update_list-Replies out.updated_list q))

pub process_watch-Answers : (p : PeerHttp) → Answers p (process_watch p)
unfolding process_watch
process_watch-Answers p0 =
    let p = record p0 { timer_flag = false } in
    watch_checked-Answers p (
      check_watch_and_set_callback p.mgr p.self p.group_id p.watch_id p.ack_sequence p.interval
        no_updates)

pub timer_checked-Replies : (p : PeerHttp) (r : Bool × Out × Mgr) → Replies p (timer_checked p r)
unfolding timer_checked
timer_checked-Replies p (false, out, m) =
    write_error-Replies p (reason_code watch_not_found) (record p { mgr = m }) (Kept-refl p)
timer_checked-Replies p (true, out, m) =
    encode_update_list-Replies out.updated_list (record p { mgr = m })
