-- ===== src/ReceiveBuffer.antt =====
-- Receive_Buffer of src/util.h: the bytes that a connection has received and not processed yet. The two
-- template parameters are the first two arguments. What lies outside the unprocessed bytes is never read,
-- so the buffer is its size, the place of those bytes, and the bytes themselves.
pub mod Room
use xixi.Prelude.{
  ℕ, ◌+◌, ◌-◌, ◌*◌, ◌%◌, ◌^◌, Bool, true, false, ◌&&◌, List, [], ◌∷◌, ◌++◌, ltb, if◌then◌else◌,
  length, drop,
}

-- `read_offset` is `read_curr_ - read_buf_`, and the length of `read_data` is `read_data_size_`.
-- `reallocs` holds whether the coming calls of `realloc` succeed.
pub record ReceiveBuffer : Type 0 where
  pub read_offset : ℕ
  pub read_data : List ℕ
  pub read_buf_size : ℕ
  pub reallocs : List Bool

-- Unsigned, as in the source.
unfoldable pub get_read_buf_size : ReceiveBuffer → ℕ
get_read_buf_size b =
    (b.read_buf_size + 2 ^ 32 - (b.read_offset + length b.read_data) % 2 ^ 32) % 2 ^ 32

-- One call of `realloc` to a new size.
unfoldable pub realloc : ℕ → ReceiveBuffer → Bool × ReceiveBuffer
realloc size b = elim b.reallocs [
  | [] ↦ (false, b)
  | answer ∷ rest ↦
      if answer
      then (true, record b { reallocs = rest; read_buf_size = size })
      else (false, record b { reallocs = rest })
]

-- The unprocessed bytes move to the front.
abbrev pub move_front : ReceiveBuffer → ReceiveBuffer
move_front b = record b { read_offset = 0 }

unfoldable pub shrink : ℕ → ℕ → ReceiveBuffer → ReceiveBuffer
unfolding realloc
shrink default_size highwat_size b =
    if ltb highwat_size b.read_buf_size && ltb (length b.read_data) default_size
    then (realloc default_size (move_front b)).1
    else b

-- The rest of `handle_processed` after the call of `realloc` that makes the buffer grow.
unfoldable pub grown : ℕ → ℕ → Bool × ReceiveBuffer → ReceiveBuffer
unfolding shrink
grown default_size highwat_size (false, b) = b
grown default_size highwat_size (true, b) = shrink default_size highwat_size b

unfoldable pub handle_processed : ℕ → ℕ → ReceiveBuffer → ReceiveBuffer
unfolding get_read_buf_size realloc grown shrink
handle_processed default_size highwat_size b =
    let b' = move_front b in
    if ltb (get_read_buf_size b') default_size
    then grown default_size highwat_size (realloc (b'.read_buf_size * 2 % 2 ^ 32) b')
    else shrink default_size highwat_size b'

-- `read_curr_ += n; read_data_size_ -= n`
unfoldable pub consume : ℕ → ReceiveBuffer → ReceiveBuffer
consume n b = record b { read_offset = b.read_offset + n; read_data = drop n b.read_data }

-- Bytes that a read has put behind the ones that are there.
unfoldable pub received : List ℕ → ReceiveBuffer → ReceiveBuffer
received bytes b = record b { read_data = b.read_data ++ bytes }
