-- ===== src/ReceiveBuffer/Room.antt =====
-- Receive_Buffer of src/util.h: the bytes stay, and there is room to read into.
use xixi.Prelude.{
  ℕ, ◌+◌, ◌*◌, ◌%◌, ◌^◌, ◌≤◌, ◌<◌, ◌≡◌, refl, ap, ◌∙◌, ◌⊎◌, inl, inr, Bool, true, false, ◌&&◌, List,
  [], ◌∷◌, arith, ltb, ltb→lt, Bool-cases, length,
}
use xixi.ReceiveBuffer.{
  ReceiveBuffer, get_read_buf_size, realloc, move_front, shrink, grown, handle_processed,
}

-- The unprocessed bytes stand in the buffer, which is never below its default size.
pub record IsSound (default_size : ℕ) (b : ReceiveBuffer) : Type 0 where
  pub inside : b.read_offset + length b.read_data ≤ b.read_buf_size
  pub large : default_size ≤ b.read_buf_size
  pub small : b.read_buf_size < 2 ^ 32

-- A buffer with the bytes of another one.
pub record Puts (default_size : ℕ) (b c : ReceiveBuffer) : Type 0 where
  pub bytes : c.read_data ≡ b.read_data
  pub sound : IsSound default_size c

-- What a call of `realloc` to a size does.
record Resizes (size : ℕ) (b c : ReceiveBuffer) : Type 0 where
  bytes : c.read_data ≡ b.read_data
  place : c.read_offset ≡ b.read_offset
  now : c.read_buf_size ≡ size

abbrev Reallocates : ℕ → ReceiveBuffer → Bool × ReceiveBuffer → Type 0
Reallocates size b (false, c) = Resizes b.read_buf_size b c
Reallocates size b (true, c) = Resizes size b c

realloc-Reallocates : (size : ℕ) (b : ReceiveBuffer) → Reallocates size b (realloc size b)
unfolding realloc
realloc-Reallocates size b = go b.reallocs
  where
    go :
        (answers : List Bool)
        → Reallocates size
            (record b { reallocs = answers })
            (realloc size (record b { reallocs = answers }))
    go [] = record { bytes = refl; place = refl; now = refl }
    go (false ∷ rest) = record { bytes = refl; place = refl; now = refl }
    go (true ∷ rest) = record { bytes = refl; place = refl; now = refl }

Reallocates-bytes :
    (size : ℕ) (b : ReceiveBuffer) (r : Bool × ReceiveBuffer)
    → Reallocates size b r
    → r.1.read_data ≡ b.read_data
Reallocates-bytes size b (false, c) r = r.bytes
Reallocates-bytes size b (true, c) r = r.bytes

realloc_bytes : (size : ℕ) (b : ReceiveBuffer) → (realloc size b).1.read_data ≡ b.read_data
realloc_bytes size b = Reallocates-bytes size b (realloc size b) (realloc-Reallocates size b)

-- The last step, from the answer of `realloc`: the bytes fit the default size.
shrunk-Puts :
    (default_size : ℕ) (b : ReceiveBuffer) (r : Bool × ReceiveBuffer)
    → IsSound default_size b
    → length b.read_data < default_size
    → Reallocates default_size (move_front b) r
    → Puts default_size b r.1 × (r.1.read_offset + length r.1.read_data < r.1.read_buf_size)
shrunk-Puts default_size b (false, c) v few r = (
  record {
    bytes = r.bytes;
    sound = record {
      inside = omega (arith, v.inside, ap (λ l. length l) r.bytes, r.place, r.now);
      large = omega (arith, v.large, r.now);
      small = omega (arith, v.small, r.now);
    };
  },
  omega (arith, few, v.large, ap (λ l. length l) r.bytes, r.place, r.now),
)
shrunk-Puts default_size b (true, c) v few r = (
  record {
    bytes = r.bytes;
    sound = record {
      inside = omega (arith, few, ap (λ l. length l) r.bytes, r.place, r.now);
      large = omega (arith, r.now);
      small = omega (arith, v.small, v.large, r.now);
    };
  },
  omega (arith, few, ap (λ l. length l) r.bytes, r.place, r.now),
)

-- The bytes stay, and room that was there is not lost.
record Tidies (default_size : ℕ) (b c : ReceiveBuffer) : Type 0 where
  puts : Puts default_size b c
  room :
      (b.read_offset + length b.read_data ≡ b.read_buf_size)
      ⊎ (c.read_offset + length c.read_data < c.read_buf_size)

shrink-Tidies :
    (default_size highwat_size : ℕ) (b : ReceiveBuffer)
    → IsSound default_size b
    → Tidies default_size b (shrink default_size highwat_size b)
unfolding shrink
shrink-Tidies default_size highwat_size b v = elim (Bool-cases (ltb highwat_size b.read_buf_size)) [
  | inl t ↦ elim (Bool-cases (ltb (length b.read_data) default_size)) [
    | inl few ↦
        let r =
          shrunk-Puts default_size b (realloc default_size (move_front b)) v (ltb→lt _ _ few)
            (realloc-Reallocates default_size (move_front b)) in
        rw (t, few) (record { puts = r.0; room = inr r.1 })
    | inr f ↦ rw (t, f) (kept b v)
  ]
  | inr f ↦ rw f (kept b v)
]
  where
    kept : (b : ReceiveBuffer) → IsSound default_size b → Tidies default_size b b
    kept b v = record {
      puts = record { bytes = refl; sound = v };
      room = elim (Bool-cases (ltb (b.read_offset + length b.read_data) b.read_buf_size)) [
        | inl t ↦ inr (ltb→lt _ _ t)
        | inr f ↦ inl (ground (arith, v.inside))
      ];
    }

-- In a sound buffer the unsigned difference is the room behind the bytes.
room_eq :
    {default_size : ℕ}
    → (b : ReceiveBuffer) → IsSound default_size b
    → get_read_buf_size b + (b.read_offset + length b.read_data) ≡ b.read_buf_size
unfolding get_read_buf_size
room_eq b v = omega (arith, v.inside, v.small)

front-IsSound :
    {default_size : ℕ} (b : ReceiveBuffer)
    → IsSound default_size b
    → IsSound default_size (move_front b)
front-IsSound b v = record { inside = omega (arith, v.inside); large = v.large; small = v.small }

doubled-IsSound :
    {default_size : ℕ}
    → (b c : ReceiveBuffer) → IsSound default_size b
    → b.read_buf_size * 2 < 2 ^ 32
    → Resizes (b.read_buf_size * 2 % 2 ^ 32) b c
    → IsSound default_size c
doubled-IsSound b c v h r = record {
  inside = omega (arith, v.inside, h, ap (λ l. length l) r.bytes, r.place, r.now);
  large = omega (arith, v.large, h, r.now);
  small = omega (arith, r.now);
}

grown-Puts :
    (default_size highwat_size : ℕ) (b : ReceiveBuffer) (r : Bool × ReceiveBuffer)
    → IsSound default_size b
    → b.read_buf_size * 2 < 2 ^ 32
    → Reallocates (b.read_buf_size * 2 % 2 ^ 32) b r
    → Puts default_size b (grown default_size highwat_size r)
unfolding grown
grown-Puts default_size highwat_size b (false, c) v h r = record {
  bytes = r.bytes;
  sound = record {
    inside = omega (arith, v.inside, ap (λ l. length l) r.bytes, r.place, r.now);
    large = omega (arith, v.large, r.now);
    small = omega (arith, v.small, r.now);
  };
}
grown-Puts default_size highwat_size b (true, c) v h r =
    let t = shrink-Tidies default_size highwat_size c (doubled-IsSound b c v h r) in
    record { bytes = t.puts.bytes ∙ r.bytes; sound = t.puts.sound }

from_front :
    {default_size : ℕ} (b c : ReceiveBuffer)
    → Puts default_size (move_front b) c
    → Puts default_size b c
from_front b c h = record { bytes = h.bytes; sound = h.sound }

-- Whatever `realloc` answers, handle_processed keeps the unprocessed bytes, inside a buffer that is at
-- least as large as its default size, as long as the doubled size fits 32 bits.
pub handle_processed-Puts :
    (default_size highwat_size : ℕ) (b : ReceiveBuffer)
    → IsSound default_size b
    → b.read_buf_size * 2 < 2 ^ 32
    → Puts default_size b (handle_processed default_size highwat_size b)
unfolding handle_processed
handle_processed-Puts default_size highwat_size b v h =
    let b' = move_front b in
    let v' = front-IsSound b v in
    elim (Bool-cases (ltb (get_read_buf_size b') default_size)) [
      | inl t ↦ rw t (
          from_front b _ (
            grown-Puts default_size highwat_size b' (realloc (b.read_buf_size * 2 % 2 ^ 32) b') v' h
              (realloc-Reallocates (b.read_buf_size * 2 % 2 ^ 32) b')))
      | inr f ↦ rw f (from_front b _ ((shrink-Tidies default_size highwat_size b' v').puts))
    ]

-- Room that is there is still there after the last step.
shrink_room :
    (default_size highwat_size : ℕ) (b : ReceiveBuffer)
    → IsSound default_size b
    → b.read_offset + length b.read_data < b.read_buf_size
    → 0 < get_read_buf_size (shrink default_size highwat_size b)
shrink_room default_size highwat_size b v h =
    let t = shrink-Tidies default_size highwat_size b v in
    omega (arith, h, t.room, room_eq (shrink default_size highwat_size b) t.puts.sound)

grown_room :
    (default_size highwat_size : ℕ) (b : ReceiveBuffer) (r : Bool × ReceiveBuffer)
    → IsSound default_size b
    → 0 < default_size
    → b.read_offset ≡ 0
    → b.read_buf_size * 2 < 2 ^ 32
    → r.0 ≡ true
    → Reallocates (b.read_buf_size * 2 % 2 ^ 32) b r
    → 0 < get_read_buf_size (grown default_size highwat_size r)
unfolding grown
grown_room default_size highwat_size b (false, c) v pos z h ok r = cc
grown_room default_size highwat_size b (true, c) v pos z h ok r =
    shrink_room default_size highwat_size c (doubled-IsSound b c v h r)
      (omega (arith, v.inside, v.large, pos, z, h, ap (λ l. length l) r.bytes, r.place, r.now))

realloc_ok :
    (size : ℕ) (b : ReceiveBuffer) (rest : List Bool)
    → b.reallocs ≡ true ∷ rest
    → (realloc size b).0 ≡ true
unfolding realloc
realloc_ok size b rest e = rw (e, realloc)

-- If the next call of `realloc` succeeds, there is room to read into after handle_processed, however full the
-- buffer was.
pub handle_processed_room :
    (default_size highwat_size : ℕ) (b : ReceiveBuffer) (rest : List Bool)
    → IsSound default_size b
    → 0 < default_size
    → b.read_buf_size * 2 < 2 ^ 32
    → b.reallocs ≡ true ∷ rest
    → 0 < get_read_buf_size (handle_processed default_size highwat_size b)
unfolding handle_processed
handle_processed_room default_size highwat_size b rest v pos h e =
    let b' = move_front b in
    let v' = front-IsSound b v in
    elim (Bool-cases (ltb (get_read_buf_size b') default_size)) [
      | inl t ↦ rw t (
          grown_room default_size highwat_size b' (realloc (b.read_buf_size * 2 % 2 ^ 32) b') v' pos
            refl h (realloc_ok (b.read_buf_size * 2 % 2 ^ 32) b' rest e)
            (realloc-Reallocates (b.read_buf_size * 2 % 2 ^ 32) b'))
      | inr f ↦
          rw f (shrink_room default_size highwat_size b' v' (ground (arith, f, room_eq b' v', pos)))
    ]

shrink_bytes :
    (default_size highwat_size : ℕ) (b : ReceiveBuffer)
    → (shrink default_size highwat_size b).read_data ≡ b.read_data
unfolding shrink
shrink_bytes default_size highwat_size b =
    elim (Bool-cases (ltb highwat_size b.read_buf_size && ltb (length b.read_data) default_size)) [
      | inl t ↦ rw t (realloc_bytes default_size (move_front b))
      | inr f ↦ rw f
    ]

grown_bytes :
    (default_size highwat_size : ℕ) (r : Bool × ReceiveBuffer)
    → (grown default_size highwat_size r).read_data ≡ r.1.read_data
unfolding grown
grown_bytes default_size highwat_size (false, c) = refl
grown_bytes default_size highwat_size (true, c) = shrink_bytes default_size highwat_size c

-- The unprocessed bytes stay in every buffer.
pub handle_processed_bytes :
    (default_size highwat_size : ℕ) (b : ReceiveBuffer)
    → (handle_processed default_size highwat_size b).read_data ≡ b.read_data
unfolding handle_processed
handle_processed_bytes default_size highwat_size b =
    let b' = move_front b in
    let size = b.read_buf_size * 2 % 2 ^ 32 in
    elim (Bool-cases (ltb (get_read_buf_size b') default_size)) [
      | inl t ↦
          rw t (grown_bytes default_size highwat_size (realloc size b') ∙ realloc_bytes size b')
      | inr f ↦ rw f (shrink_bytes default_size highwat_size b')
    ]
