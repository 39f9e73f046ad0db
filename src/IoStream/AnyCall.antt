-- ===== src/IoStream/AnyCall.antt =====
-- libckits/ioStream.c: no call writes outside the buffer.
use mcuproxy.Prelude.{
  ℕ, ◌+◌, ◌-◌, ◌≤◌, refl, ap, ◌∙◌, List, Option, none, some, arith, length, replicate,
  length-replicate,
}
use mcuproxy.Prelude.Int.{ℤ, pos, negsuc}
use mcuproxy.IoStream.Buffer.{stored_at, write_at-stored_at, length-stored_at}
use mcuproxy.IoStream.{
  IoStream, io_stream_rewind, io_stream_open, Whence, seek_move, clamp, io_stream_seek, move_to,
  io_stream_print, io_stream_write, io_stream_putc,
}
use mcuproxy.IoStream.Safety.{IsSafe, Safely, clamp-le, print-Safely, write-Safely, putc-Safely}

-- One call, with the text that `vsnprintf` makes (`none` for an error), or the bytes to be written.
pub data Op : Type 0 where
  open_stream rewind : Op
  seek : ℤ → Whence → Op
  print : Option (List ℕ) → Op
  write : List ℕ → Op
  putc : ℤ → Op

unfoldable pub perform : Op → IoStream → Option (ℤ × IoStream)
perform open_stream s = io_stream_open s
perform rewind s = some (io_stream_rewind s)
perform (seek offset whence) s = some (io_stream_seek s offset whence)
perform (print text) s = io_stream_print s text
perform (write buf) s = io_stream_write s buf (length buf)
perform (putc c) s = io_stream_putc c s

open-Safely : {s : IoStream} → IsSafe s → Safely s (io_stream_open s)
unfolding io_stream_open io_stream_rewind
open-Safely {s} safe =
    let zeros = length-replicate {A = ℕ} s.size 0 in
    let fits : 0 + length (replicate s.size 0) ≤ length s.buffer =
      omega (arith, zeros, safe.width) in
    (
      pos 0,
      record s { buffer = stored_at s.buffer 0 (replicate s.size 0); cursor = 0; length = s.size },
      ap
          (λ r. elim r [
            | none ↦ none
            | some buffer ↦
                some (pos 0, record { buffer = buffer; size = s.size; cursor = 0; length = s.size })
          ])
          (write_at-stored_at s.buffer 0 (replicate s.size 0) fits),
      record {
        width = length-stored_at s.buffer 0 (replicate s.size 0) fits ∙ safe.width;
        small = safe.small;
        room = λ h. omega arith;
      },
      refl,
    )

move_to-Safely : {s : IoStream} (move : Option ℤ) → IsSafe s → Safely s (some (move_to s move))
unfolding move_to
move_to-Safely {s} none safe = (negsuc 0, s, refl, safe, refl)
move_to-Safely {s} (some move) safe = (
  _,
  record s { cursor = clamp s.size move; length = s.size - clamp s.size move },
  refl,
  record {
    width = safe.width;
    small = safe.small;
    room = λ h. omega (arith, clamp-le s.size move);
  },
  refl,
)

-- On a safe stream no call writes outside the buffer, whatever it is given; the stream is safe
-- afterwards, and of the same size. That holds even after a print of more text than fits.
pub perform-Safely : {s : IoStream} (op : Op) → IsSafe s → Safely s (perform op s)
unfolding perform
perform-Safely {s} open_stream safe = open-Safely safe
perform-Safely {s} rewind safe = (
  pos 0,
  record s { cursor = 0; length = s.size },
  (unfold io_stream_rewind in refl),
  record { width = safe.width; small = safe.small; room = λ h. omega arith },
  refl,
)
perform-Safely {s} (seek offset whence) safe =
    unfold io_stream_seek in move_to-Safely (seek_move s offset whence) safe
perform-Safely (print text) safe = print-Safely text safe
perform-Safely (write buf) safe = write-Safely buf safe
perform-Safely (putc c) safe = putc-Safely c safe
