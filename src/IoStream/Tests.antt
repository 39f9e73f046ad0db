-- ===== src/IoStream/Tests.antt =====
-- Runs of the stream of libckits/ioStream.c over a buffer of four bytes, and the theorems applied.
use mcuproxy.Prelude.{ℕ, ◌+◌, ◌≡◌, refl, [], ◌∷◌, none, some, ◌⊎◌, arith, length}
use mcuproxy.Prelude.Int.{ℤ, pos, negsuc, ◌+ℤ◌}
use mcuproxy.IoStream.Buffer.{write_at, byte_of, char_to_int}
use mcuproxy.Prelude.Int32.{to_int, wrap_int}
use mcuproxy.IoStream.Safety.{IsSafe, Safely}
use mcuproxy.IoStream.AnyCall.{print, perform, perform-Safely}
use mcuproxy.IoStream.Content.{At, meant, Nearest, seek-tell, print-fits}
use mcuproxy.IoStream.{
  IoStream, seek_end, seek_cur, io_stream_seek, io_stream_tell, io_stream_print, io_stream_write,
  io_stream_putc, io_stream_is_end, io_stream_open, seek_move, move_to, clamp, printed, copy_in,
}

code : Unit {0}
unfolding ◌+ℤ◌ write_at to_int wrap_int byte_of char_to_int io_stream_seek io_stream_tell
    io_stream_print io_stream_write io_stream_putc io_stream_is_end io_stream_open seek_move move_to
    clamp printed copy_in perform
code = tt

abbrev four : IoStream
four = record { buffer = 7 ∷ 7 ∷ 7 ∷ 7 ∷ []; size = 4; cursor = 1; length = 3 }

four-IsSafe : IsSafe four
four-IsSafe = record { width = refl; small = omega arith; room = λ h. refl }

perform-Safely_example : Safely four (perform (print (some (1 ∷ 2 ∷ 3 ∷ 4 ∷ 5 ∷ []))) four)
perform-Safely_example = perform-Safely (print (some (1 ∷ 2 ∷ 3 ∷ 4 ∷ 5 ∷ []))) four-IsSafe

seek-tell_example :
    ((meant four (negsuc 0) seek_cur ≡ none)
      × (io_stream_seek four (negsuc 0) seek_cur ≡ (negsuc 0, four)))
    ⊎ ((to : ℤ) × (at : ℕ) × (s' : IoStream) × (meant four (negsuc 0) seek_cur ≡ some to)
        × Nearest 4 to at
        × (io_stream_seek four (negsuc 0) seek_cur ≡ (pos at, s'))
        × (io_stream_tell s' ≡ pos at)
        × At four at s')
seek-tell_example = seek-tell (negsuc 0) seek_cur four-IsSafe refl (omega arith, omega arith)

print-fits_example :
    (s' : IoStream) × (io_stream_print four (some (1 ∷ 2 ∷ [])) ≡ some (pos 2, s'))
    × (s'.buffer ≡ 7 ∷ 1 ∷ 2 ∷ 0 ∷ [])
    × (s'.cursor ≡ 3)
    × (s'.cursor + s'.length ≡ 4)
print-fits_example = print-fits (1 ∷ 2 ∷ []) four-IsSafe (omega arith) (omega arith)

seek_before_end :
    io_stream_seek four (negsuc 0) seek_end ≡ (pos 3, record four { cursor = 3; length = 1 })
unfolding code
seek_before_end = refl

-- A stored byte of 200 is returned as the `char` it is.
putc_negative :
    io_stream_putc (pos 200) four
    ≡ some (negsuc 55, record four { buffer = 7 ∷ 200 ∷ 7 ∷ 7 ∷ []; cursor = 2; length = 2 })
unfolding code
putc_negative = refl
