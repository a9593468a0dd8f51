-- ===== src/Http/HeadTaken.antt =====
-- src/peer_http.cpp: how many bytes `try_read_command` takes, and how it leaves the session.
use xixi.Prelude.{
  ℕ, ◌+◌, ◌≤◌, ◌<◌, ◌≡◌, refl, ◌⊎◌, inl, inr, Bool, true, false, Option, none, some, List, [], ◌∷◌,
  ◌++◌, arith, leb, if◌then◌else◌, leb→le, length, take, codes,
}
use xixi.CacheMgr.State.{too_large}
use xixi.Http.HeadRead.{HeadEnds, process_request_header-Ends}
use xixi.Http.Header.{header_found, try_read_command}
use xixi.Http.Replies.{write_error, error_res, reason_code}
use xixi.Http.State.{Env, PeerHttp, literal}
use xixi.Session.Peer.{PeerState}
use xixi.Util.{memfind}
use xixi.Util.Search.{IsFirst, memfind-IsFirst}

-- The text of a 413 stands behind the chunks that were there, the session is to write it, and it did not crash.
abbrev pub TooLarge : PeerHttp → PeerHttp → Type 0
TooLarge p q =
    (q.write_buf
      ≡ p.write_buf ++ literal (error_res (reason_code too_large) p.http_request.keepalive) ∷ [])
    × ((q.state ≡ PeerState.write)
        × ((q.next_state ≡ PeerState.new_cmd)
            × ((q.crashed ≡ p.crashed)
                × ((q.read_buffer ≡ p.read_buffer) × (q.arrivals ≡ p.arrivals)))))

-- What is taken of the bytes, for where the end of the head stands: all of the head with the empty line; all
-- bytes, where there are too many without one; or none, and more bytes are waited for.
unfoldable pub Takes : Option ℕ → List ℕ → PeerHttp → ℕ × PeerHttp → Type 0
Takes (some i) bytes p (n, q) = (n ≡ i + 4) × HeadEnds p q
Takes none bytes p (n, q) =
    ((8192 ≤ length bytes) × ((n ≡ length bytes) × TooLarge p q))
    ⊎ ((length bytes < 8192) × ((n ≡ 0) × (q ≡ record p { state = PeerState.read_header })))

write_error-TooLarge : (p : PeerHttp) → TooLarge p (write_error (reason_code too_large) p)
unfolding write_error
write_error-TooLarge p = (refl, (refl, (refl, (refl, (refl, refl)))))

not_found-Takes :
    (bytes : List ℕ) (p : PeerHttp) (b : Bool)
    → leb 8192 (length bytes) ≡ b
    → Takes none bytes p (
        if b
        then (length bytes, write_error (reason_code too_large) p)
        else (0, record p { state = PeerState.read_header }))
unfolding Takes
not_found-Takes bytes p true e = inl (leb→le 8192 (length bytes) e, (refl, write_error-TooLarge p))
not_found-Takes bytes p false e = inr (ground (arith, e), (refl, refl))

pub header_found-Takes :
    (env : Env) (bytes : List ℕ) (o : Option ℕ) (p : PeerHttp)
    → Takes o bytes p (header_found env bytes o p)
unfolding Takes
header_found-Takes env bytes (some i) p = (refl, process_request_header-Ends env (take i bytes) p)
header_found-Takes env bytes none p = not_found-Takes bytes p (leb 8192 (length bytes)) refl

-- The head of a request ends at the first empty line. With one, the head is taken with the line, and the request has a
-- reply in line, or its body or the timer of a watch is waited for, or the session wrote through a null pointer. Without
-- one, 8192 bytes or more are all taken and answered with the text of a 413, behind the replies that were there, and
-- fewer are left for the next call.
pub try_read_command-Takes :
    (env : Env) (bytes : List ℕ) (p : PeerHttp)
    → (o : Option ℕ) × (IsFirst bytes (codes "\r\n\r\n") o
        × Takes o bytes p (try_read_command env bytes p))
unfolding try_read_command
try_read_command-Takes env bytes p =
    let o = memfind bytes (codes "\r\n\r\n") in
    (o, (memfind-IsFirst bytes (codes "\r\n\r\n"), header_found-Takes env bytes o p))
