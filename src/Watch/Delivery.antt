-- ===== src/Watch/Delivery.antt =====
-- src/cache.cpp, Cache_Watch: no notification is lost, repeated or reordered, over any history of
-- notifications, checks and timeouts of checks.
use mathlib.Core.Path.{◌≡⟨◌⟩◌, ◌∎}
use xixi.Prelude.{
  ℕ, ◌≡◌, refl, sym, ap, ◌∙◌, Bool, Option, List, [], ◌∷◌, ◌++◌, append-nil, append_assoc, arith,
  ◌==◌, if◌then◌else◌, length, length-append, is_empty,
}
use xixi.Watch.{
  Watch, Out, deliver_or_wait, check_and_set_callback, check_and_clear_callback, notify_watch,
}

-- What happens to a watch. Each event says which sinks exist at that time.
pub data Event : Type 0 where
  notify : (ℕ → Bool) → ℕ → ℕ → Event
  check : (ℕ → Bool) → ℕ → ℕ → ℕ → Event
  clear : (ℕ → Bool) → Option ℕ → Event

abbrev pub no_out : Out
no_out = record { sequence = 0; updated_list = []; updated_type_list = [] }

pub step : Watch → Event → Watch
step w (notify live cache_id type) = (notify_watch live w cache_id type).0
step w (check live sp ack expire) = (check_and_set_callback live w sp ack expire no_out).0
step w (clear live sp) = (check_and_clear_callback live w sp no_out).0

-- The ids that an event acknowledges: those of the last delivery, at a check that cites its number.
pub acked_by : Watch → Event → List ℕ
acked_by w (notify live cache_id type) = []
acked_by w (check live sp ack expire) =
    if is_empty w.wait_updated_list
    then []
    else if ack == w.sequence
    then w.wait_updated_list
    else []
acked_by w (clear live sp) = []

pub notified_by : Event → List ℕ
notified_by (notify live cache_id type) = cache_id ∷ []
notified_by (check live sp ack expire) = []
notified_by (clear live sp) = []

pub run : Watch → List Event → Watch
run w [] = w
run w (e ∷ es) = run (step w e) es

pub acked : Watch → List Event → List ℕ
acked w [] = []
acked w (e ∷ es) = acked_by w e ++ acked (step w e) es

pub notified : List Event → List ℕ
notified [] = []
notified (e ∷ es) = notified_by e ++ notified es

abbrev pub pending : Watch → List ℕ
pending w = w.wait_updated_list ++ w.updated_list

notify-pending :
    (live : ℕ → Bool) (w : Watch) (cache_id type : ℕ)
    → pending (notify_watch live w cache_id type).0 ≡ pending w ++ cache_id ∷ []
unfolding notify_watch
notify-pending live w cache_id type =
    ground (arith, append_assoc w.wait_updated_list w.updated_list (cache_id ∷ []))

deliver-pending :
    (live : ℕ → Bool) (w : Watch) (sp : ℕ) (out : Out)
    → w.wait_updated_list ≡ []
    → pending (deliver_or_wait live w sp out).0 ≡ w.updated_list
unfolding deliver_or_wait
deliver-pending live w sp out h = ground (arith, append-nil w.updated_list)

check-pending :
    (live : ℕ → Bool) (w : Watch) (sp ack expire : ℕ)
    → acked_by w (check live sp ack expire) ++ pending (step w (check live sp ack expire))
      ≡ pending w
unfolding step acked_by check_and_set_callback
check-pending live w sp ack expire = ground (
  arith,
  deliver-pending live (record w { expire_time = expire }) sp no_out,
  deliver-pending live
      (record w { expire_time = expire; wait_updated_list = []; wait_updated_type_list = [] }) sp
      no_out,
)

clear-pending :
    (live : ℕ → Bool) (w : Watch) (sp : Option ℕ)
    → pending (check_and_clear_callback live w sp no_out).0 ≡ pending w
unfolding check_and_clear_callback
clear-pending live w sp = ground (arith, append-nil w.updated_list)

step-pending :
    (w : Watch) (e : Event) → acked_by w e ++ pending (step w e) ≡ pending w ++ notified_by e
unfolding step notified_by acked_by
step-pending w (notify live cache_id type) = notify-pending live w cache_id type
step-pending w (check live sp ack expire) =
    check-pending live w sp ack expire ∙ sym (append-nil (pending w))
step-pending w (clear live sp) = clear-pending live w sp ∙ sym (append-nil (pending w))

-- Over any history, what was acknowledged, followed by what waits for an acknowledgement and what
-- has not been delivered yet, is what was pending at first followed by all that was notified.
pub pending-run :
    (w : Watch) (es : List Event) → acked w es ++ pending (run w es) ≡ pending w ++ notified es
unfolding run acked notified
pending-run w [] = sym (append-nil (pending w))
pending-run w (e ∷ es) =
    (acked_by w e ++ acked (step w e) es) ++ pending (run (step w e) es)
    ≡⟨ append_assoc (acked_by w e) (acked (step w e) es) (pending (run (step w e) es)) ⟩
      acked_by w e ++ (acked (step w e) es ++ pending (run (step w e) es))
    ≡⟨ ap (◌++◌ (acked_by w e)) (pending-run (step w e) es) ⟩
      acked_by w e ++ (pending (step w e) ++ notified es)
    ≡⟨ sym (append_assoc (acked_by w e) (pending (step w e)) (notified es)) ⟩
      (acked_by w e ++ pending (step w e)) ++ notified es
    ≡⟨ ap (λ l. l ++ notified es) (step-pending w e) ⟩ (pending w ++ notified_by e) ++ notified es
    ≡⟨ append_assoc (pending w) (notified_by e) (notified es) ⟩
      pending w ++ (notified_by e ++ notified es) ∎

-- The list of types goes with the list of ids.
pub record IsPaired (w : Watch) : Type 0 where
  pub updated : length w.updated_type_list ≡ length w.updated_list
  pub waiting : length w.wait_updated_type_list ≡ length w.wait_updated_list

-- Every event keeps a type for each id, among those that wait and among those to deliver.
pub step-IsPaired : (w : Watch) (e : Event) → IsPaired w → IsPaired (step w e)
unfolding step notify_watch check_and_set_callback check_and_clear_callback
step-IsPaired w (notify live cache_id type) v = ground (
  arith,
  length-append w.updated_list (cache_id ∷ []),
  length-append w.updated_type_list (type ∷ []),
)
step-IsPaired w (check live sp ack expire) v = ground arith
step-IsPaired w (clear live sp) v = ground arith

empty_of_length {ℓ} : {A : Type ℓ} (xs : List A) → length xs ≡ 0 → xs ≡ []
empty_of_length [] h = refl
empty_of_length (x ∷ xs) h = absurd (omega arith)

-- A check returns exactly the batch that then waits for an acknowledgement, ids and types, under the
-- watch's number, and the number 0 exactly if the batch is empty.
pub check_and_set_callback-delivers :
    (live : ℕ → Bool) (w : Watch) (sp ack expire : ℕ)
    → IsPaired w
    → let r = check_and_set_callback live w sp ack expire no_out in
      (r.1.updated_list ≡ r.0.wait_updated_list)
      × (r.1.updated_type_list ≡ r.0.wait_updated_type_list)
      × (r.1.sequence ≡ (if is_empty r.0.wait_updated_list then 0 else r.0.sequence))
unfolding check_and_set_callback
check_and_set_callback-delivers live w sp ack expire v =
    ground (arith, empty_of_length w.wait_updated_type_list, empty_of_length w.wait_updated_list)
