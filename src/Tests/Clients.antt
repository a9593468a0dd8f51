-- ===== src/Tests/Clients.antt =====
-- Watches, messages and texts: src/cache.cpp, src/peer_cache_pdu.h, src/util.h and src/util.cpp.
use xixi.Watch.{Watch, check_and_set_callback}
use xixi.Watch.Delivery.{
  Event, notify, check, clear, no_out, run, acked, notified, pending, pending-run, IsPaired,
  check_and_set_callback-delivers,
}
use xixi.Wire.{store, encode_uint8, encode_uint16, encode_uint32, encode_uint64}
use xixi.Pdu.Request.{Request, delta_req}
use xixi.Pdu.Decode.{decode_pdu, process_header}
use xixi.Pdu.Layout.{request_fields, choice_of, frame, Fits, decode_pdu-frame}
use xixi.Pdu.Response.{Response, check_watch_res, encode, encode_updates, calc_encode_size}
use xixi.Pdu.Room.{length-encode}
use xixi.Util.{safe_toui64, memfind, digits_from, unsigned_from, skip_spaces}
use xixi.Util.Decimal.{decimal}
use xixi.Util.Search.{IsFirst, memfind-IsFirst}
use xixi.Prelude.{
  ℕ, ◌^◌, ◌<◌, ◌≡◌, refl, Bool, false, none, some, List, [], ◌∷◌, ◌++◌, arith, if◌then◌else◌,
  length, is_empty, All,
}

abbrev nobody : ℕ → Bool
nobody s = false

abbrev watch : Watch
watch = record {
  watch_id = 1;
  expire_time = 100;
  sequence = 4;
  updated_list = 12 ∷ [];
  updated_type_list = 2 ∷ [];
  wait_updated_list = 10 ∷ 11 ∷ [];
  wait_updated_type_list = 2 ∷ 3 ∷ [];
  wp = none;
}

abbrev history : List Event
history = notify nobody 13 2 ∷ check nobody 0 4 200 ∷ clear nobody none ∷ []

watch-IsPaired : IsPaired watch
watch-IsPaired = record { updated = refl; waiting = refl }

pending-run_example :
    acked watch history ++ pending (run watch history) ≡ pending watch ++ notified history
pending-run_example = pending-run watch history

check_and_set_callback-delivers_example :
    let r = check_and_set_callback nobody watch 0 4 200 no_out in
    (r.1.updated_list ≡ r.0.wait_updated_list)
    × (r.1.updated_type_list ≡ r.0.wait_updated_type_list)
    × (r.1.sequence ≡ (if is_empty r.0.wait_updated_list then 0 else r.0.sequence))
check_and_set_callback-delivers_example =
    check_and_set_callback-delivers nobody watch 0 4 200 watch-IsPaired

abbrev increment : Request
increment = delta_req 128 5 1 3 2

increment-Fits : All Fits (request_fields increment)
unfolding request_fields Fits
increment-Fits = (omega arith, (omega arith, (omega arith, (omega arith, (omega arith, tt)))))

decode_pdu-frame_example :
    (decode_pdu (choice_of increment) (frame (request_fields increment) (97 ∷ 98 ∷ []))
      ≡ some (increment, 97 ∷ 98 ∷ []))
    × (process_header (choice_of increment) ≡ some (length (frame (request_fields increment) [])))
decode_pdu-frame_example = decode_pdu-frame increment (97 ∷ 98 ∷ []) increment-Fits

abbrev news : Response
news = check_watch_res 4 ((10, 2) ∷ (11, 3) ∷ [])

news_fits : length (encode news) < 2 ^ 32
unfolding encode encode_updates encode_uint8 encode_uint16 encode_uint32 encode_uint64 store
news_fits = omega arith

length-encode_example : length (encode news) ≡ calc_encode_size news
length-encode_example = length-encode news news_fits

answer_fits : decimal 0 (52 ∷ 50 ∷ []) < 2 ^ 64
unfolding decimal
answer_fits = omega arith

memfind-IsFirst_example :
    IsFirst
      (97 ∷ 13 ∷ 10 ∷ 98 ∷ [])
      (13 ∷ 10 ∷ [])
      (memfind (97 ∷ 13 ∷ 10 ∷ 98 ∷ []) (13 ∷ 10 ∷ []))
memfind-IsFirst_example = memfind-IsFirst (97 ∷ 13 ∷ 10 ∷ 98 ∷ []) (13 ∷ 10 ∷ [])

-- 30000000000000000000 needs more than 64 bits and is read as another number.
overflow_passes :
    safe_toui64 (
      51 ∷ 48 ∷ 48 ∷ 48 ∷ 48 ∷ 48 ∷ 48 ∷ 48 ∷ 48 ∷ 48 ∷ 48 ∷ 48 ∷ 48 ∷ 48 ∷ 48 ∷ 48 ∷ 48 ∷ 48 ∷ 48
      ∷ 48 ∷ [])
    ≡ some 11553255926290448384
unfolding safe_toui64 unsigned_from skip_spaces digits_from
overflow_passes = refl
