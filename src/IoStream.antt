-- ===== src/IoStream.antt =====
-- libckits/ioStream.c: a cursor over a buffer of fixed size. `size_t` and `int` have 32 bits; the
-- cursor is its offset from the buffer, so it never lies before it; `ASSERT` is empty. A write that
-- would touch memory outside the buffer is a fault, `none`.
pub mod Buffer
pub mod Safety
pub mod AnyCall
pub mod Content
mod Tests
use mcuproxy.Prelude.{
  ℕ, ◌+◌, ◌-◌, ◌%◌, ◌^◌, Bool, List, [], ◌∷◌, ◌++◌, Option, none, some, ltb, leb, not, ◌==◌,
  if◌then◌else◌, length, take, replicate,
}
use mcuproxy.Prelude.Int.{ℤ, pos, negsuc, ◌+ℤ◌, ltb_ℤ, eqb_ℤ, pos_part}
use Buffer.{write_at, byte_of, char_to_int}
use mcuproxy.Prelude.Int32.{to_int, wrap_int}

pub record IoStream : Type 0 where
  pub buffer : List ℕ
  pub size : ℕ
  pub cursor : ℕ
  pub length : ℕ

unfoldable pub io_stream_rewind : IoStream → ℤ × IoStream
io_stream_rewind s = (pos 0, record s { cursor = 0; length = s.size })

unfoldable pub io_stream_open : IoStream → Option (ℤ × IoStream)
io_stream_open s =
    let (ret, s') = io_stream_rewind s in
    if not (eqb_ℤ ret (pos 0))
    then some (ret, s')
    else elim (write_at s'.buffer 0 (replicate s'.size 0)) [
      | none ↦ none
      | some buffer ↦ some (pos 0, record s' { buffer = buffer })
    ]

-- `size - length` as a `size_t`.
abbrev pub used : IoStream → ℕ
used s = (s.size + 2 ^ 32 - s.length) % 2 ^ 32

unfoldable pub io_stream_tell : IoStream → ℤ
io_stream_tell s = to_int (used s)

pub data Whence : Type 0 where
  seek_set seek_end seek_cur : Whence
  other_whence : Whence

-- The position asked for, before it is clamped.
unfoldable pub seek_move : IoStream → ℤ → Whence → Option ℤ
seek_move s offset seek_set = some offset
seek_move s offset seek_end = some (wrap_int (pos s.size +ℤ offset))
seek_move s offset seek_cur = some (wrap_int (pos (used s) +ℤ offset))
seek_move s offset other_whence = none

unfoldable pub clamp : ℕ → ℤ → ℕ
clamp size move =
    if ltb_ℤ move (pos 0) then 0 else if ltb_ℤ (pos size) move then size else pos_part move

-- The cursor moved there, if a position is asked for in a valid way.
unfoldable pub move_to : IoStream → Option ℤ → ℤ × IoStream
move_to s none = (negsuc 0, s)
move_to s (some move) =
    let s' = record s { cursor = clamp s.size move; length = s.size - clamp s.size move } in
    (to_int (used s'), s')

unfoldable pub io_stream_seek : IoStream → ℤ → Whence → ℤ × IoStream
io_stream_seek s offset whence = move_to s (seek_move s offset whence)

-- The cursor is not inside the buffer.
abbrev pub is_end : IoStream → Bool
is_end s = leb s.size s.cursor

-- What `vsnprintf` puts at the cursor for the formatted text, given the room that is left.
unfoldable pub printed : ℕ → List ℕ → List ℕ
printed room text = if room == 0 then [] else take (room - 1) text ++ 0 ∷ []

-- `text` is what the format and its arguments stand for, `none` if `vsnprintf` reports an error.
unfoldable pub io_stream_print : IoStream → Option (List ℕ) → Option (ℤ × IoStream)
io_stream_print s none = some (negsuc 0, s)
io_stream_print s (some text) =
    if is_end s
    then some (negsuc 0, s)
    else elim (write_at s.buffer s.cursor (printed s.length text)) [
      | none ↦ none
      | some buffer ↦ some (
        pos (length text),
        record s {
          buffer = buffer;
          cursor = s.cursor + length text;
          length = (s.length + 2 ^ 32 - length text) % 2 ^ 32;
        },
      )
    ]

-- The copy of `ret` bytes, and the step of the cursor.
unfoldable pub copy_in : IoStream → List ℕ → ℤ → Option (ℤ × IoStream)
copy_in s buf ret =
    if ltb_ℤ (pos 0) ret
    then elim (write_at s.buffer s.cursor (take (pos_part ret) buf)) [
      | none ↦ none
      | some buffer ↦ some (
        ret,
        record s {
          buffer = buffer;
          cursor = s.cursor + pos_part ret;
          length = s.length - pos_part ret;
        },
      )
    ]
    else some (ret, s)

-- `count` bytes are read from `buf`.
unfoldable pub io_stream_write : IoStream → List ℕ → ℕ → Option (ℤ × IoStream)
io_stream_write s buf count =
    if is_end s
    then some (negsuc 0, s)
    else copy_in s buf (to_int (if ltb count s.length then count else s.length))

unfoldable pub io_stream_putc : ℤ → IoStream → Option (ℤ × IoStream)
io_stream_putc c s =
    if is_end s
    then some (negsuc 0, s)
    else if ltb 1 s.length
    then elim (write_at s.buffer s.cursor (byte_of c ∷ [])) [
      | none ↦ none
      | some buffer ↦ some (
        char_to_int (byte_of c),
        record s { buffer = buffer; cursor = s.cursor + 1; length = s.length - 1 },
      )
    ]
    else some (negsuc 0, s)

unfoldable pub io_stream_is_end : IoStream → ℕ
io_stream_is_end s = if is_end s then 1 else 0
