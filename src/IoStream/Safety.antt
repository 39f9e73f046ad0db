-- ===== src/IoStream/Safety.antt =====
-- libckits/ioStream.c: the writing calls stay inside the buffer.
use mcuproxy.Prelude.{
  ℕ, zero, suc, ◌+◌, ◌-◌, ◌%◌, ◌^◌, ◌≤◌, ◌<◌, ◌≡◌, refl, ap, sym, ◌∙◌, List, [], ◌∷◌, Option, none,
  some, arith, ltb, leb, if◌then◌else◌, length, take, length-append, inl, inr, false, Bool-cases,
}
use mcuproxy.Prelude.Int.{ℤ, pos, negsuc}
use mcuproxy.IoStream.Buffer.{
  write_at, byte_of, char_to_int, stored_at, write_at-stored_at, length-stored_at, length-take,
  length-take_le, take-append-drop,
}
use mcuproxy.Prelude.Int32.{to_int_small}
use mcuproxy.IoStream.{
  IoStream, clamp, printed, io_stream_print, copy_in, io_stream_write, io_stream_putc,
}

-- The buffer has its size, and while the cursor is inside it, `length` is what is left.
pub record IsSafe (s : IoStream) : Type 0 where
  pub width : length s.buffer ≡ s.size
  pub small : s.size < 2 ^ 31
  pub room : s.cursor < s.size → s.cursor + s.length ≡ s.size

abbrev pub Safely : IoStream → Option (ℤ × IoStream) → Type 0
Safely s r = (ret : ℤ) × (s' : IoStream) × (r ≡ some (ret, s')) × IsSafe s' × (s'.size ≡ s.size)

-- A store of what fits.
pub store :
    {s : IoStream} (bs : List ℕ)
    → IsSafe s
    → s.cursor + length bs ≤ s.size
    → (write_at s.buffer s.cursor bs ≡ some (stored_at s.buffer s.cursor bs))
      × (length (stored_at s.buffer s.cursor bs) ≡ s.size)
store {s} bs safe fits = (
  write_at-stored_at s.buffer s.cursor bs (rw safe.width fits),
  length-stored_at s.buffer s.cursor bs (rw safe.width fits) ∙ safe.width,
)

pub length-printed : (room : ℕ) (text : List ℕ) → length (printed room text) ≤ room
unfolding printed
length-printed zero text = omega arith
length-printed (suc room) text =
    let fewer : suc room - 1 ≡ room = omega arith in
    rw fewer (ground (arith, length-append (take room text) (0 ∷ []), length-take_le room text))

pub clamp-le : (size : ℕ) (move : ℤ) → clamp size move ≤ size
unfolding clamp
clamp-le size move = ground arith

pub print-Safely :
    {s : IoStream} (text : Option (List ℕ)) → IsSafe s → Safely s (io_stream_print s text)
unfolding io_stream_print
print-Safely {s} none safe = (negsuc 0, s, refl, safe, refl)
print-Safely {s} (some text) safe = elim (Bool-cases (leb s.size s.cursor)) [
  | inl end ↦ (negsuc 0, s, rw end, safe, refl)
  | inr inside ↦
      let rest : s.cursor + s.length ≡ s.size = safe.room (ground arith) in
      let (run, width) =
        store (printed s.length text) safe (omega (arith, length-printed s.length text)) in
      (
        pos (length text),
        record s {
          buffer = stored_at s.buffer s.cursor (printed s.length text);
          cursor = s.cursor + length text;
          length = (s.length + 2 ^ 32 - length text) % 2 ^ 32;
        },
        rw (inside, run),
        record { width = width; small = safe.small; room = λ h. omega arith },
        refl,
      )
]

-- How many bytes `ioStreamWrite` copies.
abbrev pub copied : IoStream → ℕ → ℕ
copied s count = if ltb count s.length then count else s.length

-- `s'` is `s` after the bytes `bs` were put at the cursor.
pub record Advanced (s : IoStream) (bs : List ℕ) (s' : IoStream) : Type 0 where
  pub bytes : s'.buffer ≡ stored_at s.buffer s.cursor bs
  pub moved : s'.cursor ≡ s.cursor + length bs
  pub left : s'.length + length bs ≡ s.length
  pub same_size : s'.size ≡ s.size

Advanced-IsSafe :
    {s s' : IoStream} (bs : List ℕ)
    → IsSafe s
    → s.cursor < s.size
    → length bs ≤ s.length
    → Advanced s bs s'
    → IsSafe s'
Advanced-IsSafe {s} bs safe inside fits a = record {
  width =
      ap length a.bytes
      ∙ (length-stored_at s.buffer s.cursor bs (rw safe.width (omega (arith, safe.room inside)))
          ∙ (safe.width ∙ sym a.same_size));
  small = rw a.same_size safe.small;
  room = λ h. omega (arith, safe.room inside, a.moved, a.left, a.same_size);
}

copy_in-Advanced :
    {s : IoStream} (buf : List ℕ) (n : ℕ)
    → IsSafe s
    → s.cursor < s.size
    → n ≤ length buf
    → n ≤ s.length
    → (s' : IoStream) × (copy_in s buf (pos n) ≡ some (pos n, s')) × Advanced s (take n buf) s'
unfolding copy_in
copy_in-Advanced {s} buf zero safe inside few fits = (
  s,
  refl,
  record {
    bytes = sym (take-append-drop s.cursor s.buffer);
    moved = omega arith;
    left = omega arith;
    same_size = refl;
  },
)
copy_in-Advanced {s} buf (suc n) safe inside few fits =
    let count = length-take (suc n) buf few in
    let (run, width) = store (take (suc n) buf) safe (omega (arith, count, safe.room inside)) in
    (
      record s {
        buffer = stored_at s.buffer s.cursor (take (suc n) buf);
        cursor = s.cursor + suc n;
        length = s.length - suc n;
      },
      ground (arith, run),
      record { bytes = refl; moved = rw count; left = omega (arith, count); same_size = refl },
    )

-- With the cursor inside the buffer of a safe stream, `ioStreamWrite` of all of `buf` copies as
-- many bytes as fit, returns how many, and steps over them.
pub write-Advanced :
    {s : IoStream} (buf : List ℕ)
    → IsSafe s
    → s.cursor < s.size
    → (s' : IoStream) × (io_stream_write s buf (length buf)
        ≡ some (pos (copied s (length buf)), s'))
      × Advanced s (take (copied s (length buf)) buf) s'
unfolding io_stream_write
write-Advanced {s} buf safe inside =
    let n = copied s (length buf) in
    let is_in : leb s.size s.cursor ≡ false = ground arith in
    let fits : n ≤ s.length = ground arith in
    let (s', run, a) = copy_in-Advanced buf n safe inside (ground arith) fits in
    (s', rw (is_in, to_int_small n (omega (arith, safe.room inside))) run, a)

pub write-Safely :
    {s : IoStream} (buf : List ℕ) → IsSafe s → Safely s (io_stream_write s buf (length buf))
write-Safely {s} buf safe = elim (Bool-cases (leb s.size s.cursor)) [
  | inl end ↦ (negsuc 0, s, unfold io_stream_write in rw end, safe, refl)
  | inr inside ↦
      let (s', run, a) = write-Advanced buf safe (ground arith) in
      (
        _,
        s',
        run,
        Advanced-IsSafe _ safe (ground arith)
            (ground (arith, length-take_le (copied s (length buf)) buf)) a,
        a.same_size,
      )
]

-- On a safe stream with two bytes left or more, `ioStreamPutc` stores the low byte of the
-- character, returns it as a `char`, and steps over it.
pub putc-Advanced :
    {s : IoStream} (c : ℤ)
    → IsSafe s
    → s.cursor + 1 < s.size
    → (s' : IoStream) × (io_stream_putc c s ≡ some (char_to_int (byte_of c), s'))
      × Advanced s (byte_of c ∷ []) s'
unfolding io_stream_putc
putc-Advanced {s} c safe inside =
    let rest = safe.room (omega arith) in
    let (run, width) = store (byte_of c ∷ []) safe (omega arith) in
    (
      record s {
        buffer = stored_at s.buffer s.cursor (byte_of c ∷ []);
        cursor = s.cursor + 1;
        length = s.length - 1;
      },
      ground (arith, run),
      record { bytes = refl; moved = refl; left = omega arith; same_size = refl },
    )

pub putc_last :
    {s : IoStream} (c : ℤ)
    → IsSafe s
    → s.size ≤ s.cursor + 1
    → io_stream_putc c s ≡ some (negsuc 0, s)
unfolding io_stream_putc
putc_last {s} c safe end = ground (arith, safe.room)

pub putc-Safely : {s : IoStream} (c : ℤ) → IsSafe s → Safely s (io_stream_putc c s)
putc-Safely {s} c safe = elim (Bool-cases (ltb (s.cursor + 1) s.size)) [
  | inl inside ↦
      let (s', run, a) = putc-Advanced c safe (ground arith) in
      (_, s', run, Advanced-IsSafe _ safe (ground arith) (omega (arith, safe.room)) a, a.same_size)
  | inr end ↦ (negsuc 0, s, putc_last c safe (ground arith), safe, refl)
]
