-- ===== src/IoStream/Content.antt =====
-- libckits/ioStream.c: what the calls return and leave in the buffer, one after the other.
use mcuproxy.Prelude.{
  ℕ, ◌+◌, ◌-◌, ◌%◌, ◌^◌, ◌≤◌, ◌<◌, ◌≡◌, zero, suc, [], refl, ap, leb, false, List, ◌++◌, Option,
  none, some, arith, length, sym, ◌∙◌, take, inl, inr, ◌⊎◌, ◌∷◌,
}
use mcuproxy.Prelude.Int.{ℤ, pos, negsuc, ◌+ℤ◌, pos_part, neg_part, +ℤ_bound}
use mcuproxy.IoStream.Buffer.{stored_at}
use mcuproxy.Prelude.Int32.{to_int, to_int_small, wrap_int, wrap_int_fits}
use mcuproxy.IoStream.Safety.{IsSafe, clamp-le, store, length-printed}
use mcuproxy.IoStream.{
  IoStream, Whence, seek_set, seek_end, seek_cur, other_whence, seek_move, move_to, clamp,
  io_stream_seek, io_stream_tell, io_stream_print, used, printed,
}

-- `s'` is `s` with its cursor at `at`, wherever the cursor was before.
pub record At (s : IoStream) (at : ℕ) (s' : IoStream) : Type 0 where
  pub kept : s'.buffer ≡ s.buffer
  pub cursor : s'.cursor ≡ at
  pub room : s'.cursor + s'.length ≡ s.size
  pub same_size : s'.size ≡ s.size

used-At : {s s' : IoStream} {at : ℕ} → s.size < 2 ^ 31 → At s at s' → used s' ≡ at
used-At {s} {s'} {at} small there = omega (arith, there.cursor, there.room, there.same_size)

move_to-At :
    {s : IoStream} (move : Option ℤ)
    → IsSafe s
    → ((move ≡ none) × (move_to s move ≡ (negsuc 0, s)))
      ⊎ ((to : ℤ) × (s' : IoStream) × (move ≡ some to)
          × (move_to s move ≡ (pos (clamp s.size to), s'))
          × (io_stream_tell s' ≡ pos (clamp s.size to))
          × At s (clamp s.size to) s')
unfolding move_to io_stream_tell
move_to-At none safe = inl (refl, refl)
move_to-At {s} (some to) safe =
    let at = clamp s.size to in
    let s' = record s { cursor = at; length = s.size - at } in
    let there : At s at s' = record {
      kept = refl;
      cursor = refl;
      room = omega (arith, clamp-le s.size to);
      same_size = refl;
    } in
    let told : to_int (used s') ≡ pos at =
      rw (used-At safe.small there)
        (to_int_small at (omega (arith, clamp-le s.size to, safe.small))) in
    inr (to, s', refl, ap (λ n. (n, s')) told, told, there)

-- The position that is meant, from the start of the buffer.
abbrev pub meant : IoStream → ℤ → Whence → Option ℤ
meant s offset seek_set = some offset
meant s offset seek_end = some (pos s.size +ℤ offset)
meant s offset seek_cur = some (pos s.cursor +ℤ offset)
meant s offset other_whence = none

-- `at` is the position of the buffer nearest to `to`.
abbrev pub Nearest : ℕ → ℤ → ℕ → Type 0
Nearest size (negsuc n) at = at ≡ 0
Nearest size (pos n) at = ((n ≤ size) × (at ≡ n)) ⊎ ((size < n) × (at ≡ size))

-- An `int` that can be added to a position of the buffer.
abbrev pub FitsInt : ℕ → ℤ → Type 0
FitsInt size offset = (size + pos_part offset < 2 ^ 31) × (neg_part offset ≤ 2 ^ 31)

clamp-Nearest : (size : ℕ) (to : ℤ) → Nearest size to (clamp size to)
unfolding clamp
clamp-Nearest size (pos n) = ground arith
clamp-Nearest size (negsuc n) = ground arith

sum_fits :
    (n size : ℕ) (offset : ℤ)
    → n ≤ size
    → FitsInt size offset
    → wrap_int (pos n +ℤ offset) ≡ pos n +ℤ offset
sum_fits n size offset h (high, low) =
    wrap_int_fits (pos n +ℤ offset) (omega (arith, +ℤ_bound (pos n) offset))
      (omega (arith, +ℤ_bound (pos n) offset))

seek_move-meant :
    {s : IoStream} (offset : ℤ) (whence : Whence)
    → IsSafe s
    → s.cursor + s.length ≡ s.size
    → FitsInt s.size offset
    → seek_move s offset whence ≡ meant s offset whence
unfolding seek_move
seek_move-meant offset seek_set safe room fits = refl
seek_move-meant {s} offset seek_end safe room fits =
    ap some (sum_fits s.size s.size offset (omega arith) fits)
seek_move-meant {s} offset seek_cur safe room fits =
    let here : used s ≡ s.cursor = omega (arith, room, safe.small) in
    rw here (ap some (sum_fits s.cursor s.size offset (omega (arith, room)) fits))
seek_move-meant offset other_whence safe room fits = refl

-- On a safe stream that counts its room, a seek by an offset that added to the size is an `int`
-- goes to the position that is meant from the start, the end or the cursor: it puts the cursor at
-- the nearest position of the buffer and returns that, as `ioStreamTell` does afterwards; the bytes
-- are kept. With any other `whence` it changes nothing and returns -1.
pub seek-tell :
    {s : IoStream} (offset : ℤ) (whence : Whence)
    → IsSafe s
    → s.cursor + s.length ≡ s.size
    → FitsInt s.size offset
    → ((meant s offset whence ≡ none) × (io_stream_seek s offset whence ≡ (negsuc 0, s)))
      ⊎ ((to : ℤ) × (at : ℕ) × (s' : IoStream) × (meant s offset whence ≡ some to)
          × Nearest s.size to at
          × (io_stream_seek s offset whence ≡ (pos at, s'))
          × (io_stream_tell s' ≡ pos at)
          × At s at s')
unfolding io_stream_seek
seek-tell {s} offset whence safe room fits =
    let same = seek_move-meant offset whence safe room fits in
    elim (move_to-At (seek_move s offset whence) safe) [
      | inl (nothing, kept) ↦ inl (sym same ∙ nothing, kept)
      | inr (to, s', asked, run, told, there) ↦
          inr (to, clamp s.size to, s', sym same ∙ asked, clamp-Nearest s.size to, run, told, there)
    ]

take_all : (n : ℕ) (xs : List ℕ) → length xs ≤ n → take n xs ≡ xs
take_all zero [] h = refl
take_all zero (x ∷ xs) h = absurd (omega arith)
take_all (suc n) [] h = refl
take_all (suc n) (x ∷ xs) h = ap (λ r. x ∷ r) (take_all n xs (omega arith))

printed_whole : (room : ℕ) (text : List ℕ) → length text < room → printed room text ≡ text ++ 0 ∷ []
unfolding printed
printed_whole zero text h = absurd (omega arith)
printed_whole (suc room) text h =
    let fewer : suc room - 1 ≡ room = omega arith in
    rw fewer (ground (arith, take_all room text (omega arith)))

-- Inside the buffer, a print moves the cursor by the length of the whole text.
print-moves :
    {s : IoStream} (text : List ℕ)
    → IsSafe s
    → s.cursor < s.size
    → (s' : IoStream) × (io_stream_print s (some text) ≡ some (pos (length text), s'))
      × (s'.cursor ≡ s.cursor + length text)
      × (s'.length ≡ (s.length + 2 ^ 32 - length text) % 2 ^ 32)
      × (s'.size ≡ s.size)
      × (s'.buffer ≡ stored_at s.buffer s.cursor (printed s.length text))
unfolding io_stream_print
print-moves {s} text safe inside =
    let is_in : leb s.size s.cursor ≡ false = ground arith in
    let (run, width) =
      store (printed s.length text) safe
        (omega (arith, length-printed s.length text, safe.room inside)) in
    (_, rw (is_in, run), refl, refl, refl, refl)

-- Inside a safe stream, a text shorter than the room that is left is printed whole, with a zero
-- after it, and leaves the cursor on that zero with `length` the room behind it.
pub print-fits :
    {s : IoStream} (text : List ℕ)
    → IsSafe s
    → s.cursor < s.size
    → length text < s.length
    → (s' : IoStream) × (io_stream_print s (some text) ≡ some (pos (length text), s'))
      × (s'.buffer ≡ stored_at s.buffer s.cursor (text ++ 0 ∷ []))
      × (s'.cursor ≡ s.cursor + length text)
      × (s'.cursor + s'.length ≡ s.size)
print-fits {s} text safe inside fits =
    let (s', run, moved, left, same, bytes) = print-moves text safe inside in
    (
      s',
      run,
      rw (bytes, printed_whole s.length text fits) refl,
      moved,
      omega (arith, moved, left, safe.room inside, safe.small),
    )
