-- ===== src/Pdu/Room.antt =====
-- That a response of src/peer_cache_pdu.h fills exactly the room that is asked for it.
use xixi.Wire.{store, encode_uint8, encode_uint16, encode_uint32, encode_uint64}
use xixi.Pdu.Response.{
  Response, get_res, get_base_res, update_res, update_flags_res, update_expiration_res, delta_res,
  flush_res, auth_res, stats_res, create_watch_res, check_watch_res, simple_res, error_res,
  simple_res_with_reqid, error_res_with_reqid, encode_updates, encode, calc_encode_size,
}
use xixi.Prelude.{ℕ, ◌+◌, ◌*◌, ◌^◌, ◌<◌, ◌≡◌, refl, List, [], ◌∷◌, ◌++◌, arith, length}

length-encode_uint8-append :
    (x : ℕ) (rest : List ℕ) → length (encode_uint8 x ++ rest) ≡ 1 + length rest
unfolding encode_uint8 store
length-encode_uint8-append x rest = omega arith

length-encode_uint16-append :
    (x : ℕ) (rest : List ℕ) → length (encode_uint16 x ++ rest) ≡ 2 + length rest
unfolding encode_uint16 store
length-encode_uint16-append x rest = omega arith

length-encode_uint32-append :
    (x : ℕ) (rest : List ℕ) → length (encode_uint32 x ++ rest) ≡ 4 + length rest
unfolding encode_uint32 store
length-encode_uint32-append x rest = omega arith

length-encode_uint64-append :
    (x : ℕ) (rest : List ℕ) → length (encode_uint64 x ++ rest) ≡ 8 + length rest
unfolding encode_uint64 store
length-encode_uint64-append x rest = omega arith

length-encode_uint16 : (x : ℕ) → length (encode_uint16 x) ≡ 2
unfolding encode_uint16 store
length-encode_uint16 x = refl

length-encode_uint32 : (x : ℕ) → length (encode_uint32 x) ≡ 4
unfolding encode_uint32 store
length-encode_uint32 x = refl

length-encode_uint64 : (x : ℕ) → length (encode_uint64 x) ≡ 8
unfolding encode_uint64 store
length-encode_uint64 x = refl

ruleset lengths = (
  length-encode_uint8-append, length-encode_uint16-append, length-encode_uint32-append,
  length-encode_uint64-append, length-encode_uint16, length-encode_uint32, length-encode_uint64,
)

length-encode_updates :
    (updates : List (ℕ × ℕ)) → length (encode_updates updates) ≡ length updates * 9
unfolding encode_updates
length-encode_updates [] = refl
length-encode_updates ((cache_id, update_type) ∷ updates) =
    simp lengths (omega (arith, length-encode_updates updates))

-- The bytes written are as many as `calc_encode_size` answers, for every response whose length is a
-- 32-bit number.
pub length-encode :
    (r : Response) → length (encode r) < 2 ^ 32 → length (encode r) ≡ calc_encode_size r
unfolding encode calc_encode_size
length-encode (get_res cache_id flags expiration data_length) h = simp lengths
length-encode (get_base_res cache_id flags expiration data_length) h = simp lengths
length-encode (update_res cache_id) h = simp lengths
length-encode (update_flags_res cache_id) h = simp lengths
length-encode (update_expiration_res cache_id) h = simp lengths
length-encode (delta_res value cache_id) h = simp lengths
length-encode (flush_res flush_count flush_size) h = simp lengths
length-encode (auth_res base64_length) h = simp lengths
length-encode (stats_res result) h = omega (
  arith,
  length-encode_uint16-append (512 + 21) (encode_uint32 (length result) ++ result),
  length-encode_uint32-append (length result) result,
)
length-encode (create_watch_res watch_id) h = simp lengths
length-encode (check_watch_res sequence updates) h =
    let count = length updates in
    omega (
      arith,
      length-encode_uint16-append (512 + 25)
          (encode_uint32 sequence ++ (encode_uint32 count ++ encode_updates updates)),
      length-encode_uint32-append sequence (encode_uint32 count ++ encode_updates updates),
      length-encode_uint32-append count (encode_updates updates),
      length-encode_updates updates,
    )
length-encode (simple_res choice) h = simp lengths
length-encode (error_res reason) h = simp lengths
length-encode (simple_res_with_reqid request_id choice) h = simp lengths
length-encode (error_res_with_reqid request_id reason) h = simp lengths
