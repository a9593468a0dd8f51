-- ===== src/Session/Replies.antt =====
-- src/peer_cache.cpp: which handlers of Peer_Cache put an answer in line.
use xixi.Prelude.{
  ℕ, ◌+◌, ◌%◌, ◌^◌, ◌<◌, ◌≡◌, refl, ◌⊎◌, inl, inr, Bool, true, false, Option, none, some, List, [],
  ◌∷◌, arith, ltb, leb, if◌then◌else◌, Bool-cases, length, length-append, grants,
}
use xixi.CacheBuffer.{CacheBuffer, extend, extended, prepare}
use xixi.Pdu.Response.{Response, simple_res, error_res, calc_encode_size}
use xixi.Session.Peer.{
  Peer, write, base_size, encoded, written, write_res, finish, write_simple_res, write_error,
  reject, tried, try_res,
}

-- Without a region, `malloc` refused one.
abbrev Granted : CacheBuffer → Option (ℕ × ℕ) × CacheBuffer → Type 0
Granted b (none, b') = grants b.mallocs ≡ false
Granted b (some at, b') = Unit

Granted-if :
    (b : CacheBuffer) (test : Bool) (r s : Option (ℕ × ℕ) × CacheBuffer)
    → Granted b r
    → Granted b s
    → Granted b (if test then r else s)
Granted-if b true r s h k = h
Granted-if b false r s h k = k

extend-Granted : (room size : ℕ) (b : CacheBuffer) → Granted b (extend room size b)
unfolding extend
extend-Granted room size b = answered b.mallocs
  where
    answered :
        (mallocs : List Bool)
        → Granted
            (record b { mallocs = mallocs })
            (extend room size (record b { mallocs = mallocs }))
    answered [] = refl
    answered (true ∷ rest) = tt
    answered (false ∷ rest) = refl

extended-Granted :
    (room size : ℕ) (blocks : List (ℕ × ℕ)) (b : CacheBuffer)
    → Granted b (extended room size blocks b)
unfolding extended
extended-Granted room size [] b = extend-Granted room size b
extended-Granted room size ((block, buf_size) ∷ older) b =
    Granted-if b (ltb buf_size ((size + b.offset) % 2 ^ 32)) _ _ (extend-Granted room size b) tt

prepare-Granted : (room size : ℕ) (b : CacheBuffer) → Granted b (prepare room size b)
unfolding prepare
prepare-Granted room size b =
    Granted-if b (leb ((size + b.total_size) % 2 ^ 32) room) _ _ tt
      (extended-Granted room size b.extends b)

-- One more reply in line, the state in which it is written, and no new crash; or a null pointer written through,
-- where `malloc` refused the memory of the reply.
abbrev pub Answers : Peer → Peer → Type 0
Answers p q =
    ((q.crashed ≡ true) × (grants p.cache_buf.mallocs ≡ false))
    ⊎ ((q.state ≡ write) × ((length p.write_buf < length q.write_buf) × (q.crashed ≡ p.crashed)))

abbrev pub Lines : Peer → Peer → Type 0
Lines p q =
    ((q.crashed ≡ true) × (grants p.cache_buf.mallocs ≡ false))
    ⊎ ((length p.write_buf < length q.write_buf) × (q.crashed ≡ p.crashed))

written-Lines :
    (r : Response) (p : Peer) (at : Option (ℕ × ℕ) × CacheBuffer)
    → Granted p.cache_buf at
    → Lines p (written r p at)
unfolding written encoded
written-Lines r p (none, b) h = inl (refl, h)
written-Lines r p (some at, b) h = inr (rw length-append (omega arith), refl)

-- The cache is not touched by an answer.
written_mgr :
    (r : Response) (p : Peer) (at : Option (ℕ × ℕ) × CacheBuffer) → (written r p at).mgr ≡ p.mgr
unfolding written encoded
written_mgr r p (none, b) = refl
written_mgr r p (some at, b) = refl

module _ (p : Peer) where
  pub write_res-Lines : (r : Response) → Lines p (write_res r p)
  unfolding write_res
  write_res-Lines r =
      written-Lines r p (prepare base_size (calc_encode_size r) p.cache_buf)
        (prepare-Granted base_size (calc_encode_size r) p.cache_buf)

  pub write_res_mgr : (r : Response) → (write_res r p).mgr ≡ p.mgr
  unfolding write_res
  write_res_mgr r = written_mgr r p (prepare base_size (calc_encode_size r) p.cache_buf)

  pub finish-write_res-Answers : (r : Response) → Answers p (finish (write_res r p))
  finish-write_res-Answers r = elim (write_res-Lines r) [ inl c ↦ inl c | inr l ↦ inr (refl, l) ]

  pub write_simple_res-Answers : (choice : ℕ) → Answers p (write_simple_res choice p)
  unfolding write_simple_res
  write_simple_res-Answers choice = finish-write_res-Answers (simple_res choice)

  -- An error that is to be told always is.
  pub write_error-Answers : (code swallow : ℕ) → Answers p (write_error code swallow true p)
  unfolding write_error
  write_error-Answers code swallow = elim (Bool-cases (ltb 0 swallow)) [
    | inl t ↦ rw t (finish-write_res-Answers (error_res code))
    | inr f ↦ rw f (finish-write_res-Answers (error_res code))
  ]

  pub write_error_mgr : (code : ℕ) → (write_error code 0 true p).mgr ≡ p.mgr
  unfolding write_error
  write_error_mgr code = write_res_mgr (error_res code)

  pub reject-Answers : Answers p (reject p)
  unfolding reject
  reject-Answers = write_error-Answers 8 0

-- A reply without a region makes place for an error, which needs one in its turn.
tried-Answers :
    (p : Peer) (r : Response) (at : Option (ℕ × ℕ) × CacheBuffer)
    → Granted p.cache_buf at
    → Answers p (tried r p at)
unfolding tried encoded
tried-Answers p r (none, b) h = elim (write_error-Answers (record p { cache_buf = b }) 9 0) [
  | inl (c, refused) ↦ inl (c, h)
  | inr l ↦ inr l
]
tried-Answers p r (some at, b) h = inr (refl, (rw length-append (omega arith), refl))

pub try_res-Answers : (p : Peer) (r : Response) → Answers p (try_res r p)
unfolding try_res
try_res-Answers p r =
    tried-Answers p r (prepare base_size (calc_encode_size r) p.cache_buf)
      (prepare-Granted base_size (calc_encode_size r) p.cache_buf)
