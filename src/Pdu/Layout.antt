-- ===== src/Pdu/Layout.antt =====
-- The layout of every request, and that the decoders of src/peer_cache_pdu.h read it.
use xixi.Wire.{Decoder, ◌>>=◌, decode_uint8, decode_uint16, decode_uint32, decode_uint64}
use xixi.Wire.RoundTrip.{
  big_endian, bind_some, decode_uint8_lem, decode_uint16_lem, decode_uint32_lem, decode_uint64_lem,
  length-big_endian,
}
use xixi.Pdu.Request.{
  Request, get_req, get_req_choice, get_touch_req, get_touch_req_choice, get_base_req,
  get_base_req_choice, update_req, update_req_choice, update_flags_req, update_flags_req_choice,
  update_expiration_req, update_expiration_req_choice, delete_req, delete_req_choice, auth_req,
  auth_req_choice, delta_req, delta_req_choice, flush_req, flush_req_choice, stats_req,
  stats_req_choice, hello_req, hello_req_choice, create_watch_req, create_watch_req_choice,
  check_watch_req, check_watch_req_choice,
}
use xixi.Pdu.Decode.{
  decode_pdu, process_header, decode_get_req, decode_get_touch_req, decode_get_base_req,
  decode_update_req, decode_update_flags_req, decode_update_expiration_req, decode_delete_req,
  decode_auth_req, decode_delta_req, decode_flush_req, decode_stats_req, decode_create_watch_req,
  decode_check_watch_req,
}
use xixi.Prelude.{
  ℕ, ◌+◌, ◌^◌, ◌<◌, ◌≡◌, refl, sym, ap, ◌∙◌, some, List, [], ◌∷◌, ◌++◌, arith, length,
  length-append, All,
}

-- The fields of a request in the order of the wire, each with its number of bytes.
unfoldable pub request_fields : Request → List (ℕ × ℕ)
request_fields (get_req group_id watch_id key_length) =
    (4, group_id) ∷ (4, watch_id) ∷ (2, key_length) ∷ []
request_fields (get_touch_req group_id watch_id expiration key_length) =
    (4, group_id) ∷ (4, watch_id) ∷ (4, expiration) ∷ (2, key_length) ∷ []
request_fields (get_base_req group_id key_length) = (4, group_id) ∷ (2, key_length) ∷ []
request_fields
      (update_req op_flag cache_id group_id flags expiration watch_id key_length data_length) =
    (1, op_flag)
    ∷ (8, cache_id)
    ∷ (4, group_id)
    ∷ (4, flags)
    ∷ (4, expiration)
    ∷ (4, watch_id)
    ∷ (2, key_length)
    ∷ (4, data_length)
    ∷ []
request_fields (update_flags_req op_flag cache_id group_id flags key_length) =
    (1, op_flag) ∷ (8, cache_id) ∷ (4, group_id) ∷ (4, flags) ∷ (2, key_length) ∷ []
request_fields (update_expiration_req op_flag cache_id group_id expiration key_length) =
    (1, op_flag) ∷ (8, cache_id) ∷ (4, group_id) ∷ (4, expiration) ∷ (2, key_length) ∷ []
request_fields (delete_req op_flag cache_id group_id key_length) =
    (1, op_flag) ∷ (8, cache_id) ∷ (4, group_id) ∷ (2, key_length) ∷ []
request_fields (auth_req base64_length) = (4, base64_length) ∷ []
request_fields (delta_req op_flag cache_id group_id delta key_length) =
    (1, op_flag) ∷ (8, cache_id) ∷ (4, group_id) ∷ (8, delta) ∷ (2, key_length) ∷ []
request_fields (flush_req group_id) = (4, group_id) ∷ []
request_fields (stats_req op_flag class_id group_id) =
    (1, op_flag) ∷ (1, class_id) ∷ (4, group_id) ∷ []
request_fields (create_watch_req group_id max_next_check_interval) =
    (4, group_id) ∷ (4, max_next_check_interval) ∷ []
request_fields
      (check_watch_req group_id watch_id check_timeout max_next_check_interval ack_sequence) =
    (4, group_id)
    ∷ (4, watch_id)
    ∷ (4, check_timeout)
    ∷ (4, max_next_check_interval)
    ∷ (4, ack_sequence)
    ∷ []
request_fields hello_req = []

unfoldable pub choice_of : Request → ℕ
choice_of (get_req group_id watch_id key_length) = get_req_choice
choice_of (get_touch_req group_id watch_id expiration key_length) = get_touch_req_choice
choice_of (get_base_req group_id key_length) = get_base_req_choice
choice_of (update_req op_flag cache_id group_id flags expiration watch_id key_length data_length) =
    update_req_choice
choice_of (update_flags_req op_flag cache_id group_id flags key_length) = update_flags_req_choice
choice_of (update_expiration_req op_flag cache_id group_id expiration key_length) =
    update_expiration_req_choice
choice_of (delete_req op_flag cache_id group_id key_length) = delete_req_choice
choice_of (auth_req base64_length) = auth_req_choice
choice_of (delta_req op_flag cache_id group_id delta key_length) = delta_req_choice
choice_of (flush_req group_id) = flush_req_choice
choice_of (stats_req op_flag class_id group_id) = stats_req_choice
choice_of (create_watch_req group_id max_next_check_interval) = create_watch_req_choice
choice_of (check_watch_req group_id watch_id check_timeout max_next_check_interval ack_sequence) =
    check_watch_req_choice
choice_of hello_req = hello_req_choice

-- Fields in big-endian bytes, one after the other, then the bytes that follow.
unfoldable pub frame : List (ℕ × ℕ) → List ℕ → List ℕ
frame [] rest = rest
frame ((width, x) ∷ fields) rest = big_endian width x ++ frame fields rest

unfoldable pub Fits : ℕ × ℕ → Type 0
Fits (width, x) = x < 256 ^ width

read8 :
    {A : Type 0} (f : ℕ → Decoder A) (x : ℕ) (rest : List ℕ)
    → x < 2 ^ 8
    → (decode_uint8 >>= f) (big_endian 1 x ++ rest) ≡ f x rest
read8 f x rest h =
    bind_some decode_uint8 f (big_endian 1 x ++ rest) x rest (decode_uint8_lem x rest h)

read16 :
    {A : Type 0} (f : ℕ → Decoder A) (x : ℕ) (rest : List ℕ)
    → x < 2 ^ 16
    → (decode_uint16 >>= f) (big_endian 2 x ++ rest) ≡ f x rest
read16 f x rest h =
    bind_some decode_uint16 f (big_endian 2 x ++ rest) x rest (decode_uint16_lem x rest h)

read32 :
    {A : Type 0} (f : ℕ → Decoder A) (x : ℕ) (rest : List ℕ)
    → x < 2 ^ 32
    → (decode_uint32 >>= f) (big_endian 4 x ++ rest) ≡ f x rest
read32 f x rest h =
    bind_some decode_uint32 f (big_endian 4 x ++ rest) x rest (decode_uint32_lem x rest h)

read64 :
    {A : Type 0} (f : ℕ → Decoder A) (x : ℕ) (rest : List ℕ)
    → x < 2 ^ 64
    → (decode_uint64 >>= f) (big_endian 8 x ++ rest) ≡ f x rest
read64 f x rest h =
    bind_some decode_uint64 f (big_endian 8 x ++ rest) x rest (decode_uint64_lem x rest h)

unfoldable pub width : List (ℕ × ℕ) → ℕ
width [] = 0
width ((n, x) ∷ fields) = n + width fields

length-frame : (fields : List (ℕ × ℕ)) → length (frame fields []) ≡ width fields
unfolding frame width
length-frame [] = refl
length-frame ((n, x) ∷ fields) = omega (
  arith,
  length-append (big_endian n x) (frame fields []),
  length-big_endian n x,
  length-frame fields,
)

decode_get_req_lem :
    (group_id watch_id key_length : ℕ) (rest : List ℕ)
    → All Fits (request_fields (get_req group_id watch_id key_length))
    → decode_get_req (frame (request_fields (get_req group_id watch_id key_length)) rest)
      ≡ some (get_req group_id watch_id key_length, rest)
unfolding decode_get_req frame request_fields Fits
decode_get_req_lem group_id watch_id key_length rest (h_group_id, (h_watch_id, (h_key_length, _))) =
    read32 _ group_id _ h_group_id
    ∙ read32 _ watch_id _ h_watch_id
    ∙ read16 _ key_length _ h_key_length

decode_get_touch_req_lem :
    (group_id watch_id expiration key_length : ℕ) (rest : List ℕ)
    → All Fits (request_fields (get_touch_req group_id watch_id expiration key_length))
    → decode_get_touch_req
        (frame (request_fields (get_touch_req group_id watch_id expiration key_length)) rest)
      ≡ some (get_touch_req group_id watch_id expiration key_length, rest)
unfolding decode_get_touch_req frame request_fields Fits
decode_get_touch_req_lem group_id watch_id expiration key_length rest
      (h_group_id, (h_watch_id, (h_expiration, (h_key_length, _)))) =
    read32 _ group_id _ h_group_id
    ∙ read32 _ watch_id _ h_watch_id
    ∙ read32 _ expiration _ h_expiration
    ∙ read16 _ key_length _ h_key_length

decode_get_base_req_lem :
    (group_id key_length : ℕ) (rest : List ℕ)
    → All Fits (request_fields (get_base_req group_id key_length))
    → decode_get_base_req (frame (request_fields (get_base_req group_id key_length)) rest)
      ≡ some (get_base_req group_id key_length, rest)
unfolding decode_get_base_req frame request_fields Fits
decode_get_base_req_lem group_id key_length rest (h_group_id, (h_key_length, _)) =
    read32 _ group_id _ h_group_id ∙ read16 _ key_length _ h_key_length

decode_update_req_lem :
    (op_flag cache_id group_id flags expiration watch_id key_length data_length : ℕ) (rest : List ℕ)
    → All Fits (
        request_fields
          (update_req op_flag cache_id group_id flags expiration watch_id key_length data_length))
    → decode_update_req (
        frame
          (request_fields
            (update_req op_flag cache_id group_id flags expiration watch_id key_length data_length))
          rest)
      ≡ some (
        update_req op_flag cache_id group_id flags expiration watch_id key_length data_length,
        rest,
      )
unfolding decode_update_req frame request_fields Fits
decode_update_req_lem op_flag cache_id group_id flags expiration watch_id key_length data_length
      rest
      (
        h_op_flag,
        (
          h_cache_id,
          (h_group_id, (h_flags, (h_expiration, (h_watch_id, (h_key_length, (h_data_length, _)))))),
        ),
      ) =
    read8 _ op_flag _ h_op_flag
    ∙ read64 _ cache_id _ h_cache_id
    ∙ read32 _ group_id _ h_group_id
    ∙ read32 _ flags _ h_flags
    ∙ read32 _ expiration _ h_expiration
    ∙ read32 _ watch_id _ h_watch_id
    ∙ read16 _ key_length _ h_key_length
    ∙ read32 _ data_length _ h_data_length

decode_update_flags_req_lem :
    (op_flag cache_id group_id flags key_length : ℕ) (rest : List ℕ)
    → All Fits (request_fields (update_flags_req op_flag cache_id group_id flags key_length))
    → decode_update_flags_req
        (frame (request_fields (update_flags_req op_flag cache_id group_id flags key_length)) rest)
      ≡ some (update_flags_req op_flag cache_id group_id flags key_length, rest)
unfolding decode_update_flags_req frame request_fields Fits
decode_update_flags_req_lem op_flag cache_id group_id flags key_length rest
      (h_op_flag, (h_cache_id, (h_group_id, (h_flags, (h_key_length, _))))) =
    read8 _ op_flag _ h_op_flag
    ∙ read64 _ cache_id _ h_cache_id
    ∙ read32 _ group_id _ h_group_id
    ∙ read32 _ flags _ h_flags
    ∙ read16 _ key_length _ h_key_length

decode_update_expiration_req_lem :
    (op_flag cache_id group_id expiration key_length : ℕ) (rest : List ℕ)
    → All Fits
        (request_fields (update_expiration_req op_flag cache_id group_id expiration key_length))
    → decode_update_expiration_req (
        frame
          (request_fields (update_expiration_req op_flag cache_id group_id expiration key_length))
          rest)
      ≡ some (update_expiration_req op_flag cache_id group_id expiration key_length, rest)
unfolding decode_update_expiration_req frame request_fields Fits
decode_update_expiration_req_lem op_flag cache_id group_id expiration key_length rest
      (h_op_flag, (h_cache_id, (h_group_id, (h_expiration, (h_key_length, _))))) =
    read8 _ op_flag _ h_op_flag
    ∙ read64 _ cache_id _ h_cache_id
    ∙ read32 _ group_id _ h_group_id
    ∙ read32 _ expiration _ h_expiration
    ∙ read16 _ key_length _ h_key_length

decode_delete_req_lem :
    (op_flag cache_id group_id key_length : ℕ) (rest : List ℕ)
    → All Fits (request_fields (delete_req op_flag cache_id group_id key_length))
    → decode_delete_req
        (frame (request_fields (delete_req op_flag cache_id group_id key_length)) rest)
      ≡ some (delete_req op_flag cache_id group_id key_length, rest)
unfolding decode_delete_req frame request_fields Fits
decode_delete_req_lem op_flag cache_id group_id key_length rest
      (h_op_flag, (h_cache_id, (h_group_id, (h_key_length, _)))) =
    read8 _ op_flag _ h_op_flag
    ∙ read64 _ cache_id _ h_cache_id
    ∙ read32 _ group_id _ h_group_id
    ∙ read16 _ key_length _ h_key_length

decode_auth_req_lem :
    (base64_length : ℕ) (rest : List ℕ)
    → All Fits (request_fields (auth_req base64_length))
    → decode_auth_req (frame (request_fields (auth_req base64_length)) rest)
      ≡ some (auth_req base64_length, rest)
unfolding decode_auth_req frame request_fields Fits
decode_auth_req_lem base64_length rest (h_base64_length, _) =
    read32 _ base64_length _ h_base64_length

decode_delta_req_lem :
    (op_flag cache_id group_id delta key_length : ℕ) (rest : List ℕ)
    → All Fits (request_fields (delta_req op_flag cache_id group_id delta key_length))
    → decode_delta_req
        (frame (request_fields (delta_req op_flag cache_id group_id delta key_length)) rest)
      ≡ some (delta_req op_flag cache_id group_id delta key_length, rest)
unfolding decode_delta_req frame request_fields Fits
decode_delta_req_lem op_flag cache_id group_id delta key_length rest
      (h_op_flag, (h_cache_id, (h_group_id, (h_delta, (h_key_length, _))))) =
    read8 _ op_flag _ h_op_flag
    ∙ read64 _ cache_id _ h_cache_id
    ∙ read32 _ group_id _ h_group_id
    ∙ read64 _ delta _ h_delta
    ∙ read16 _ key_length _ h_key_length

decode_flush_req_lem :
    (group_id : ℕ) (rest : List ℕ)
    → All Fits (request_fields (flush_req group_id))
    → decode_flush_req (frame (request_fields (flush_req group_id)) rest)
      ≡ some (flush_req group_id, rest)
unfolding decode_flush_req frame request_fields Fits
decode_flush_req_lem group_id rest (h_group_id, _) = read32 _ group_id _ h_group_id

decode_stats_req_lem :
    (op_flag class_id group_id : ℕ) (rest : List ℕ)
    → All Fits (request_fields (stats_req op_flag class_id group_id))
    → decode_stats_req (frame (request_fields (stats_req op_flag class_id group_id)) rest)
      ≡ some (stats_req op_flag class_id group_id, rest)
unfolding decode_stats_req frame request_fields Fits
decode_stats_req_lem op_flag class_id group_id rest (h_op_flag, (h_class_id, (h_group_id, _))) =
    read8 _ op_flag _ h_op_flag ∙ read8 _ class_id _ h_class_id ∙ read32 _ group_id _ h_group_id

decode_create_watch_req_lem :
    (group_id max_next_check_interval : ℕ) (rest : List ℕ)
    → All Fits (request_fields (create_watch_req group_id max_next_check_interval))
    → decode_create_watch_req
        (frame (request_fields (create_watch_req group_id max_next_check_interval)) rest)
      ≡ some (create_watch_req group_id max_next_check_interval, rest)
unfolding decode_create_watch_req frame request_fields Fits
decode_create_watch_req_lem group_id max_next_check_interval rest
      (h_group_id, (h_max_next_check_interval, _)) =
    read32 _ group_id _ h_group_id ∙ read32 _ max_next_check_interval _ h_max_next_check_interval

decode_check_watch_req_lem :
    (group_id watch_id check_timeout max_next_check_interval ack_sequence : ℕ) (rest : List ℕ)
    → All Fits (
        request_fields
          (check_watch_req group_id watch_id check_timeout max_next_check_interval ack_sequence))
    → decode_check_watch_req (
        frame
          (request_fields
            (check_watch_req group_id watch_id check_timeout max_next_check_interval ack_sequence))
          rest)
      ≡ some (
        check_watch_req group_id watch_id check_timeout max_next_check_interval ack_sequence,
        rest,
      )
unfolding decode_check_watch_req frame request_fields Fits
decode_check_watch_req_lem group_id watch_id check_timeout max_next_check_interval ack_sequence rest
      (
        h_group_id,
        (h_watch_id, (h_check_timeout, (h_max_next_check_interval, (h_ack_sequence, _)))),
      ) =
    read32 _ group_id _ h_group_id
    ∙ read32 _ watch_id _ h_watch_id
    ∙ read32 _ check_timeout _ h_check_timeout
    ∙ read32 _ max_next_check_interval _ h_max_next_check_interval
    ∙ read32 _ ack_sequence _ h_ack_sequence

-- A request with fields that fit their widths, framed in big-endian bytes, is decoded under its
-- choice to the same request, with the bytes that follow it left; its frame has exactly the bytes
-- that the switch on the header asks for.
pub decode_pdu-frame :
    (r : Request) (rest : List ℕ)
    → All Fits (request_fields r)
    → (decode_pdu (choice_of r) (frame (request_fields r) rest) ≡ some (r, rest))
      × (process_header (choice_of r) ≡ some (length (frame (request_fields r) [])))
unfolding decode_pdu choice_of process_header frame request_fields width
decode_pdu-frame (get_req group_id watch_id key_length) rest h = (
  decode_get_req_lem group_id watch_id key_length rest h,
  ap some (sym (length-frame (request_fields (get_req group_id watch_id key_length)))),
)
decode_pdu-frame (get_touch_req group_id watch_id expiration key_length) rest h = (
  decode_get_touch_req_lem group_id watch_id expiration key_length rest h,
  ap some
      (sym (length-frame (request_fields (get_touch_req group_id watch_id expiration key_length)))),
)
decode_pdu-frame (get_base_req group_id key_length) rest h = (
  decode_get_base_req_lem group_id key_length rest h,
  ap some (sym (length-frame (request_fields (get_base_req group_id key_length)))),
)
decode_pdu-frame
      (update_req op_flag cache_id group_id flags expiration watch_id key_length data_length) rest
      h =
    (
      decode_update_req_lem op_flag cache_id group_id flags expiration watch_id key_length
          data_length rest h,
      ap some (
          sym (
            length-frame (
              request_fields (
                update_req op_flag cache_id group_id flags expiration watch_id key_length
                  data_length)))),
    )
decode_pdu-frame (update_flags_req op_flag cache_id group_id flags key_length) rest h = (
  decode_update_flags_req_lem op_flag cache_id group_id flags key_length rest h,
  ap some (
      sym (
        length-frame
          (request_fields (update_flags_req op_flag cache_id group_id flags key_length)))),
)
decode_pdu-frame (update_expiration_req op_flag cache_id group_id expiration key_length) rest h = (
  decode_update_expiration_req_lem op_flag cache_id group_id expiration key_length rest h,
  ap some (
      sym (
        length-frame (
          request_fields (update_expiration_req op_flag cache_id group_id expiration key_length)))),
)
decode_pdu-frame (delete_req op_flag cache_id group_id key_length) rest h = (
  decode_delete_req_lem op_flag cache_id group_id key_length rest h,
  ap some (sym (length-frame (request_fields (delete_req op_flag cache_id group_id key_length)))),
)
decode_pdu-frame (auth_req base64_length) rest h = (
  decode_auth_req_lem base64_length rest h,
  ap some (sym (length-frame (request_fields (auth_req base64_length)))),
)
decode_pdu-frame (delta_req op_flag cache_id group_id delta key_length) rest h = (
  decode_delta_req_lem op_flag cache_id group_id delta key_length rest h,
  ap some
      (sym (length-frame (request_fields (delta_req op_flag cache_id group_id delta key_length)))),
)
decode_pdu-frame (flush_req group_id) rest h = (
  decode_flush_req_lem group_id rest h,
  ap some (sym (length-frame (request_fields (flush_req group_id)))),
)
decode_pdu-frame (stats_req op_flag class_id group_id) rest h = (
  decode_stats_req_lem op_flag class_id group_id rest h,
  ap some (sym (length-frame (request_fields (stats_req op_flag class_id group_id)))),
)
decode_pdu-frame (create_watch_req group_id max_next_check_interval) rest h = (
  decode_create_watch_req_lem group_id max_next_check_interval rest h,
  ap some (sym (length-frame (request_fields (create_watch_req group_id max_next_check_interval)))),
)
decode_pdu-frame
      (check_watch_req group_id watch_id check_timeout max_next_check_interval ack_sequence) rest
      h =
    (
      decode_check_watch_req_lem group_id watch_id check_timeout max_next_check_interval
          ack_sequence rest h,
      ap some (
          sym (
            length-frame (
              request_fields (
                check_watch_req group_id watch_id check_timeout max_next_check_interval
                  ack_sequence)))),
    )
decode_pdu-frame hello_req rest h = (refl, refl)
