-- ===== src/RtpTransport/Rtcp.antt =====
-- libnet/RTPTransport.cpp: `parseRTCP` and the packet that `handleTimeout` sends. A comparison of the
-- loop's size is on numbers that do not wrap, since they are sizes of one packet.
use mcuproxy.Prelude.{
  ℕ, zero, suc, ◌+◌, ◌-◌, ◌*◌, ◌/◌, ◌%◌, ◌^◌, ◌||◌, List, [], ◌∷◌, ◌++◌, Option, none, some, length,
  take, drop, ltb, ◌==◌, if◌then◌else◌, ◌>>=◌,
}
use mcuproxy.Prelude.Int.{ℤ, pos, negsuc}
use mcuproxy.RtpTransport.{
  Notice, rtcp_first_packet, end_of_stream, time_update, RtpTransport, byte, u16at, u32at, u64at,
  Parse, fault, refused, parsed, then_parse, reading, break_if, strip_padding, four_bytes,
}

-- What a packet tells, and the time that is kept of the last report of a sender.
abbrev pub Told : Type 0
Told = List Notice × ℕ

-- `now` is what `getWholeNTPNow` gives. A report that is too short still sets the time.
unfoldable pub parse_sr : ℕ → List ℕ → ℕ → Option Told
parse_sr now data' size = do
  first ← byte data' 0
  if ltb size ((7 + first % 2 ^ 5 * 6) * 4) then some ([], now) else (do
    id ← u32at data' 4
    ntp_time ← u64at data' 8
    rtp_time ← u32at data' 16
    some (time_update ntp_time rtp_time ∷ [], now))

unfoldable pub parse_bye : List ℕ → ℕ → Option (List Notice)
parse_bye data' size = do
  first ← byte data' 0
  if (first % 2 ^ 6 == 0) || ltb size (4 + first % 2 ^ 6 * 4)
      then some []
      else (do id ← u32at data' 4; some (end_of_stream ∷ []))

-- The `switch` on the type of the packet.
unfoldable pub parse_packet : ℕ → ℕ → ℕ → List ℕ → ℕ → Option Told
parse_packet now last_sr kind data' header_length =
    if kind == 200
    then parse_sr now data' header_length
    else if kind == 203
    then (do told ← parse_bye data' header_length; some (told, last_sr))
    else some ([], last_sr)

-- The size without the padding and the length of the first packet.
unfoldable pub packet_size : List ℕ → ℕ → Parse (ℕ × ℕ)
packet_size data' size = break_if (ltb size 8) (
    reading (byte data' 0) (λ first.
      if first / 2 ^ 6 == 2
      then then_parse (strip_padding 8 data' size first) (λ size'.
        reading (u16at data' 2)
          (λ words. break_if (ltb size' (4 * words + 4)) (parsed (size', 4 * words + 4))))
      else refused))

-- What `parseRTCP` returns, and all that its packets tell.
abbrev pub Result : Type 0
Result = ℤ × Told

-- The `while` loop: `none` if it reads outside the packet, or has rounds left when `fuel` is used up.
unfoldable pub parse_packets : ℕ → ℕ → ℕ → List ℕ → ℕ → Option Result
parse_packets now last_sr zero data' size = if size == 0 then some (pos 0, ([], last_sr)) else none
parse_packets now last_sr (suc fuel) data' size =
    if size == 0 then some (pos 0, ([], last_sr)) else elim (packet_size data' size) [
      | fault ↦ none
      | refused ↦ some (negsuc 0, ([], last_sr))
      | parsed sizes ↦ do
        kind ← byte data' 1
        told ← parse_packet now last_sr kind data' sizes.1
        rest ← parse_packets now told.1 fuel (drop sizes.1 data') (sizes.0 - sizes.1)
        some (rest.0, (told.0 ++ rest.1.0, rest.1.1))
    ]

-- A round takes four bytes or more.
unfoldable pub parse_rtcp : RtpTransport → ℕ → List ℕ → Option (ℤ × RtpTransport × List Notice)
parse_rtcp rtp now data' = do
  result ← parse_packets now rtp.last_sr (length data') data' (length data')
  some (
    result.0,
    record rtp { rcvd_rtcp = (rtp.rcvd_rtcp + 1) % 2 ^ 32; last_sr = result.1.1 },
    (if rtp.rcvd_rtcp == 0 then rtcp_first_packet ∷ [] else []) ++ result.1.0,
  )

-- The counts of lost packets, each cut off at what its field holds.
abbrev pub count_lost : RtpTransport → RtpTransport
count_lost rtp =
    let total = (rtp.total_rcvd_lost + rtp.n_rcvd_lost) % 2 ^ 32 in
    record rtp {
      total_rcvd_lost = if ltb 0x00FFFFFF total then 0x00FFFFFF else total;
      n_rcvd_lost = if ltb 255 rtp.n_rcvd_lost then 255 else rtp.n_rcvd_lost;
    }

-- The report block; `delay` is what `minusNTPDelay` gives.
abbrev pub report : RtpTransport → ℕ → List ℕ
report rtp delay =
    four_bytes rtp.rcvd_source_id
    ++ four_bytes (rtp.n_rcvd_lost * 2 ^ 24 + rtp.total_rcvd_lost)
    ++ four_bytes rtp.rcvd_max_seq_num
    ++ four_bytes 0
    ++ (if rtp.last_sr == 0
        then four_bytes 0 ++ four_bytes 0
        else four_bytes (rtp.last_sr / 2 ^ 16 % 2 ^ 32) ++ four_bytes delay)

abbrev pub sender_info : RtpTransport → List ℕ
sender_info rtp =
    four_bytes rtp.last_ntp_sec
    ++ four_bytes rtp.last_ntp_usec
    ++ four_bytes rtp.last_rtp_time
    ++ four_bytes rtp.n_rtp_sent
    ++ four_bytes rtp.n_rtp_octets_sent

-- The 80 bytes that are sent; `host` is the text that is printed into 16 bytes of them, and `stack`
-- what was in the buffer behind the text.
unfoldable pub handle_timeout : RtpTransport → ℕ → List ℕ → List ℕ → List ℕ × RtpTransport
handle_timeout rtp delay host stack =
    let rtp' = count_lost rtp in
    (
      (0x81 ∷ 200 ∷ 0 ∷ 12 ∷ four_bytes rtp.source_id)
          ++ sender_info rtp'
          ++ report rtp' delay
          ++ ((0x81 ∷ 202 ∷ 0 ∷ 6 ∷ four_bytes rtp.source_id)
              ++ 1 ∷ 16 ∷ (take 16 (host ++ 0 ∷ stack) ++ 0 ∷ 0 ∷ [])),
      record rtp' { n_rcvd_lost = 0 },
    )
