-- ===== src/Tests/Sessions.antt =====
-- Examples of the theorems on sessions, buffers and linked lists.
use xixi.Prelude.{
  ℕ, ◌≡◌, refl, ◌⊎◌, true, false, Option, none, some, List, [], ◌∷◌, arith, ◌==◌, if◌then◌else◌,
  bytes_eq,
}
use xixi.CacheBuffer.{CacheBuffer, prepare, load_bytes}
use xixi.CacheBuffer.Regions.{Prepares, prepare-Prepares}
use xixi.CacheMgr.Allocating.{AllocatesAll, IsHeap, do_alloc-Allocates}
use xixi.CacheMgr.Items.{do_alloc, do_get}
use xixi.IntrusiveList.{Links, remove}
use xixi.IntrusiveList.Refines.{IsList}
use xixi.IntrusiveList.Removes.{remove-IsList}
use xixi.Pdu.Request.{get_req, update_req, auth_req}
use xixi.ReceiveBuffer.{ReceiveBuffer, handle_processed}
use xixi.ReceiveBuffer.Room.{Puts, handle_processed-Puts}
use xixi.Session.Framing.{Frames, process_pdu_fixed-Frames}
use xixi.Session.Keyed.{process_pdu_extras2-Answers}
use xixi.Session.Loop.{process}
use xixi.Session.Outcome.{Spins, here, process-Outcome, process-Spins}
use xixi.Session.Peer.{Env, Peer, new_cmd, read_body_extras2, Chunk, reply, item_data}
use xixi.Session.Process.{process_pdu_fixed, process_pdu_extras2}
use xixi.Session.Replies.{Answers}
use xixi.CacheMgr.State.{key_eq}
use xixi.CacheMgr.Store.{remove_found}
use xixi.Pdu.Decode.{decode_delete_req}
use xixi.Pdu.Response.{calc_encode_size, encode}
use xixi.Wire.{load, swap16, swap32, encode_uint16, store}
use xixi.Tests.Sample.{sample, sample-HasClasses}

abbrev pub no_reply : CacheBuffer
no_reply = record {
  total_size = 0;
  offset = 0;
  extends = [];
  next_block = 1;
  contents = λ k i. 0;
  mallocs = true ∷ [];
}

abbrev pub received_bytes : List ℕ → ReceiveBuffer
received_bytes bytes = record {
  read_offset = 0;
  read_data = bytes;
  read_buf_size = 2048;
  reallocs = true ∷ [];
}

-- A new session with some bytes in its buffer.
abbrev session : List ℕ → Peer
session bytes = record {
  mgr = sample;
  self = 7;
  op_count = 0;
  state = new_cmd;
  next_state = new_cmd;
  next_data_len = 2;
  choice = 0;
  pdu = none;
  write_buf_total = 0;
  item_bytes = [];
  cache_item = none;
  cache_items = [];
  swallow_size = 0;
  cache_buf = no_reply;
  read_buffer = received_bytes bytes;
  write_buf = [];
  timer_flag = false;
  timer_calls = [];
  arrivals = [];
  crashed = false;
}

abbrev env : Env
env = record { hash32 = λ key group_id. 0; stats_text = λ pdu m. 111 ∷ 107 ∷ [] }

process_pdu_extras2-Answers_example :
    ((process_pdu_extras2 (session []) (98 ∷ 0 ∷ []) (get_req 1 0 1)).0 ≡ 1)
    × Answers (session []) (process_pdu_extras2 (session []) (98 ∷ 0 ∷ []) (get_req 1 0 1)).1
process_pdu_extras2-Answers_example =
    process_pdu_extras2-Answers (session []) (98 ∷ 0 ∷ []) (get_req 1 0 1) 1 refl (omega arith)

-- An item that no class holds.
process_pdu_fixed-Frames_example :
    Frames (session []) 3000 (process_pdu_fixed env (session []) (update_req 0 0 1 0 0 0 1 2999))
process_pdu_fixed-Frames_example =
    process_pdu_fixed-Frames env (session []) (update_req 0 0 1 0 0 0 1 2999)

abbrev storing : Peer
storing = record (session []) { cache_item = some 3 }

-- A hello.
process-Outcome_example :
    ((q : Peer) × (process env 20 (session (0 ∷ 1 ∷ [])) ≡ some q))
    ⊎ Spins env (true, 0, session (0 ∷ 1 ∷ []))
process-Outcome_example = process-Outcome env 20 (session (0 ∷ 1 ∷ [])) tt (omega arith)

-- A session that has the fixed part of a login of no bytes.
abbrev logging_in : Peer
logging_in = record (session (0 ∷ 1 ∷ [])) {
  state = read_body_extras2;
  pdu = some (auth_req 0);
  next_data_len = 0;
}

process-Spins_example : process env 1000 logging_in ≡ none
process-Spins_example =
    process-Spins env 1000 logging_in
      (here 0 logging_in (record { reading = refl; login = refl; empty = refl; sound = refl }))

prepare-Prepares_example : Prepares 330 400 no_reply (prepare 330 400 no_reply)
prepare-Prepares_example =
    prepare-Prepares 330 400 no_reply (refl, omega arith, omega arith) (omega arith)

abbrev few_bytes : ReceiveBuffer
few_bytes = record (received_bytes (1 ∷ 2 ∷ [])) { read_offset = 4 }

handle_processed-Puts_example : Puts 2048 few_bytes (handle_processed 2048 8192 few_bytes)
handle_processed-Puts_example =
    handle_processed-Puts 2048 8192 few_bytes
      (record { inside = omega arith; large = omega arith; small = omega arith }) (omega arith)

sample-IsHeap : IsHeap sample
sample-IsHeap = record { below = (omega arith, (omega arith, tt)); spare = λ c. tt }

do_alloc-Allocates_example : AllocatesAll sample 90 (do_alloc sample 1 4 0 0 6 0)
do_alloc-Allocates_example =
    do_alloc-Allocates sample 1 4 0 0 6 0 sample-HasClasses sample-IsHeap (omega arith)
      (omega arith)

-- The nodes 1, 2 and 3.
abbrev three : Links
three = record {
  next = λ a. if a == 1 then some 2 else if a == 2 then some 3 else none;
  prev = λ a. if a == 2 then some 1 else if a == 3 then some 2 else none;
  head = some 1;
  tail = some 3;
  size = 3;
}

three-IsList : IsList three (1 ∷ 2 ∷ 3 ∷ [])
three-IsList = record {
  front = refl;
  back = refl;
  linked = (refl, refl, (refl, refl, (refl, refl, tt)));
  distinct = ((omega arith, (omega arith, tt)), ((omega arith, tt), (tt, tt)));
  counted = refl;
}

remove-IsList_example : IsList (remove 2 three) (1 ∷ 3 ∷ [])
remove-IsList_example = remove-IsList 2 three (1 ∷ []) (3 ∷ []) three-IsList

-- The bytes of the replies in line, in the order in which they will be written.
abbrev reply_bytes : CacheBuffer → List Chunk → List (List ℕ)
reply_bytes b [] = []
reply_bytes b (reply block offset size ∷ chunks) =
    load_bytes offset size (b.contents block) ∷ reply_bytes b chunks
reply_bytes b (item_data item size ∷ chunks) = reply_bytes b chunks

abbrev answers : Option Peer → List (List ℕ)
answers none = []
answers (some p) = reply_bytes p.cache_buf p.write_buf

-- A hello, a delete of a key that is not there and a hello, answered in this order.
three_answers :
    answers (
      process env 60 (
        session (
          0 ∷ 1 ∷ 2 ∷ 12 ∷ 0 ∷ 0 ∷ 0 ∷ 0 ∷ 0 ∷ 0 ∷ 0 ∷ 0 ∷ 0 ∷ 0 ∷ 0 ∷ 0 ∷ 1 ∷ 0 ∷ 1 ∷ 120 ∷ 0 ∷ 1
          ∷ [])))
    ≡ (0 ∷ 2 ∷ []) ∷ (0 ∷ 0 ∷ 0 ∷ 1 ∷ []) ∷ (0 ∷ 2 ∷ []) ∷ []
unfolding process load_bytes load swap16 prepare calc_encode_size decode_delete_req remove_found
    do_get key_eq swap32 bytes_eq encode encode_uint16 store
three_answers = refl
