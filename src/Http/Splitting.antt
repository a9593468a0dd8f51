-- ===== src/Http/Splitting.antt =====
-- src/peer_http.cpp: the loop over the arguments of a request, against the list of the texts between the
-- ampersands.
use xixi.Prelude.{
  ℕ, zero, suc, ◌≤◌, ◌<◌, ◌≡◌, refl, sym, ap, ◌∙◌, inl, inr, Bool, true, false, Option, none, some,
  List, [], ◌∷◌, arith, ◌==◌, if◌then◌else◌, Option-cases, length,
}
use mathlib.Core.Path.{subst}
use xixi.Http.Args.{args_round, unless_refused, handle_arg, args_from, process_request_arg}
use xixi.Http.State.{PeerHttp}
use xixi.Http.Text.{arg_or_all, get_arg}
use xixi.Util.Text.{memchr, c_string}

abbrev extended_by : ℕ → List (List ℕ) → List (List ℕ)
extended_by c [] = (c ∷ []) ∷ []
extended_by c (arg ∷ args) = (c ∷ arg) ∷ args

-- The texts between the ampersands; the last one only where it is not empty.
unfoldable pub split_args : List ℕ → List (List ℕ)
split_args [] = []
split_args (c ∷ args) = if c == 38 then [] ∷ split_args args else extended_by c (split_args args)

-- Each argument in turn, up to the first that is answered with an error.
unfoldable pub handle_all : List (List ℕ) → PeerHttp → Bool × PeerHttp
unfolding unless_refused handle_arg
handle_all [] p = (true, p)
handle_all (arg ∷ args) p = unless_refused (handle_arg arg p) (λ q. handle_all args q)

abbrev as_list : Option (List ℕ × List ℕ) → List (List ℕ)
as_list none = []
as_list (some (arg, rest)) = arg ∷ split_args rest

abbrev found_or : List ℕ → Option (List ℕ × List ℕ) → List (List ℕ)
found_or args none = args ∷ []
found_or args (some (arg, rest)) = arg ∷ split_args rest

abbrev with_front : ℕ → Option (List ℕ × List ℕ) → Option (List ℕ × List ℕ)
with_front c none = none
with_front c (some (before, after)) = some (c ∷ before, after)

found_or-with_front :
    (c : ℕ) (args : List ℕ) (o : Option (List ℕ × List ℕ))
    → found_or (c ∷ args) (with_front c o) ≡ extended_by c (found_or args o)
found_or-with_front c args none = refl
found_or-with_front c args (some (arg, rest)) = refl

memchr-cons :
    (sought c : ℕ) (args : List ℕ)
    → memchr sought (c ∷ args)
      ≡ (if c == sought then some ([], args) else with_front c (memchr sought args))
unfolding memchr
memchr-cons sought c args = elim (Option-cases (memchr sought args)) [
  | inl e ↦ simp e
  | inr (a, e) ↦ simp e
]

split_args-memchr_last : (c : ℕ) → split_args (c ∷ []) ≡ found_or (c ∷ []) (memchr 38 (c ∷ []))
unfolding split_args memchr
split_args-memchr_last c = ground arith

split_args-memchr :
    (c : ℕ) (args : List ℕ) → split_args (c ∷ args) ≡ found_or (c ∷ args) (memchr 38 (c ∷ args))
unfolding split_args
split_args-memchr c [] = split_args-memchr_last c
split_args-memchr c (d ∷ args) = ground (
  arith,
  memchr-cons 38 c (d ∷ args),
  found_or-with_front c (d ∷ args) (memchr 38 (d ∷ args)),
  split_args-memchr d args,
)

abbrev Below : ℕ → Option (List ℕ × List ℕ) → Type 0
Below n none = Unit
Below n (some (before, after)) = length after < n

with_front-Below :
    (b : Bool) (c : ℕ) (text : List ℕ) (o : Option (List ℕ × List ℕ))
    → Below (length text) o
    → Below (suc (length text)) (if b then some ([], text) else with_front c o)
with_front-Below true c text o h = omega arith
with_front-Below false c text none h = tt
with_front-Below false c text (some (before, after)) h = omega (arith, h)

memchr-empty_Below : (c : ℕ) → Below 0 (memchr c [])
unfolding memchr
memchr-empty_Below c = tt

-- What is left behind a byte that was found is shorter than the text.
memchr-Below : (c : ℕ) (text : List ℕ) → Below (length text) (memchr c text)
memchr-Below c [] = memchr-empty_Below c
memchr-Below c (x ∷ text) =
    subst (Below (suc (length text))) (sym (memchr-cons c x text))
      (with_front-Below (x == c) x text (memchr c text) (memchr-Below c text))

next_cong :
    (r : Bool × PeerHttp) (f g : PeerHttp → Bool × PeerHttp)
    → ((q : PeerHttp) → f q ≡ g q)
    → unless_refused r f ≡ unless_refused r g
unfolding unless_refused
next_cong (false, p) f g h = refl
next_cong (true, p) f g h = h p

args_from-empty : (rounds : ℕ) (p : PeerHttp) → args_from rounds [] p ≡ (true, p)
unfolding args_from
args_from-empty zero p = refl
args_from-empty (suc rounds) p = refl

handle_none : (rounds : ℕ) (p : PeerHttp) → args_from rounds [] p ≡ handle_all (split_args []) p
unfolding handle_all split_args
handle_none rounds p = args_from-empty rounds p

abbrev Handles : ℕ → Type 0
Handles rounds =
    (rest : List ℕ) (q : PeerHttp)
    → length rest ≤ rounds
    → args_from rounds rest q ≡ handle_all (split_args rest) q

-- One round, for what `memchr` finds.
abbrev round : ℕ → List ℕ → Option (List ℕ × List ℕ) → PeerHttp → Bool × PeerHttp
round rounds args o p = args_round (arg_or_all args o) p (λ rest q. args_from rounds rest q)

args_from-round :
    (rounds c : ℕ) (args : List ℕ) (p : PeerHttp)
    → args_from (suc rounds) (c ∷ args) p ≡ round rounds (c ∷ args) (memchr 38 (c ∷ args)) p
unfolding args_from get_arg
args_from-round rounds c args p = refl

round-handle_all :
    (rounds c : ℕ) (args : List ℕ) (o : Option (List ℕ × List ℕ)) (p : PeerHttp)
    → Handles rounds
    → length args ≤ rounds
    → Below (suc (length args)) o
    → round rounds (c ∷ args) o p ≡ handle_all (found_or (c ∷ args) o) p
unfolding handle_all
round-handle_all rounds c args none p later h below =
    next_cong (handle_arg (c ∷ args) p) (λ q. args_from rounds [] q) (λ q. (true, q))
      (args_from-empty rounds)
round-handle_all rounds c args (some (arg, rest)) p later h below =
    next_cong (handle_arg arg p) (λ q. args_from rounds rest q)
      (λ q. handle_all (split_args rest) q) (λ q. later rest q (omega (arith, h, below)))

args_from-handle_all : (rounds : ℕ) → Handles rounds
args_from-handle_all zero [] q h = handle_none zero q
args_from-handle_all zero (c ∷ rest) q h = absurd (omega (arith, h))
args_from-handle_all (suc rounds) [] q h = handle_none (suc rounds) q
args_from-handle_all (suc rounds) (c ∷ rest) q h =
    args_from-round rounds c rest q
    ∙ round-handle_all rounds c rest (memchr 38 (c ∷ rest)) q (args_from-handle_all rounds)
        (omega (arith, h)) (memchr-Below 38 (c ∷ rest))
    ∙ ap (λ args. handle_all args q) (sym (split_args-memchr c rest))

-- The loop over the arguments handles the texts between the ampersands one by one, and stops at the first
-- that is answered with an error.
pub process_request_arg-handle_all :
    (args : List ℕ) (p : PeerHttp)
    → process_request_arg args p ≡ handle_all (split_args (c_string args)) p
unfolding process_request_arg
process_request_arg-handle_all args p =
    args_from-handle_all (length (c_string args)) (c_string args) p (omega arith)
