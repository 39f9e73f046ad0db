-- ===== src/RtpTransport/Report.antt =====
-- libnet/RTPTransport.cpp: `parseRTCP` reads the reports that `handleTimeout` sends.
use mcuproxy.Prelude.{
  ℕ, zero, suc, ◌+◌, ◌-◌, ◌*◌, ◌%◌, ◌^◌, ◌≤◌, ◌<◌, ◌≡◌, refl, ap, false, List, [], ◌∷◌, ◌++◌, some,
  arith, length, length-append, take, drop, ltb, ◌==◌, if◌then◌else◌, ◌>>=◌, Bool-cases, inl, inr,
}
use mcuproxy.Prelude.Int.{pos}
use mcuproxy.RtpTransport.{
  rtcp_first_packet, time_update, RtpTransport, byte, u16at, u32at, u64at, strip_padding,
  four_bytes,
}
use mcuproxy.RtpTransport.Sent.{four_bytes_word}
use mcuproxy.RtpTransport.Rtcp.{
  parse_sr, parse_packet, packet_size, parse_packets, parse_rtcp, count_lost, report,
  handle_timeout,
}

drop-append : (xs ys : List ℕ) (n : ℕ) → length xs ≡ n → drop n (xs ++ ys) ≡ ys
drop-append [] ys zero h = refl
drop-append [] ys (suc n) h = absurd (omega arith)
drop-append (x ∷ xs) ys zero h = absurd (omega arith)
drop-append (x ∷ xs) ys (suc n) h = drop-append xs ys n (omega arith)

-- The first report of the packet and what is behind it.
sender_report :
    (now last_sr fuel ssrc sec usec time sent octets : ℕ) (block rest : List ℕ)
    → length block ≡ 24
    → sec < 2 ^ 32
    → usec < 2 ^ 32
    → time < 2 ^ 32
    → let ds =
        (0x81 ∷ 200 ∷ 0 ∷ 12 ∷ four_bytes ssrc)
        ++ (four_bytes sec
            ++ four_bytes usec
            ++ four_bytes time
            ++ four_bytes sent
            ++ four_bytes octets)
        ++ block
        ++ rest in
      (parse_packets now last_sr (suc fuel) ds (52 + length rest)) ≡ do
        r ← parse_packets now now fuel rest (length rest)
        some (r.0, (time_update (sec * 2 ^ 32 + usec) time ∷ r.1.0, r.1.1))
unfolding parse_packets packet_size parse_packet parse_sr strip_padding byte u16at u32at u64at
sender_report now last_sr fuel ssrc sec usec time sent octets block rest long sec_small usec_small
      time_small =
    let some_size : 52 + length rest == 0 ≡ false = ground arith in
    let header : ltb (52 + length rest) 8 ≡ false = ground arith in
    let whole : ltb (52 + length rest) 52 ≡ false = ground arith in
    let behind : drop 24 (block ++ rest) ≡ rest = drop-append block rest 24 long in
    let left : 52 + length rest - 52 ≡ length rest = omega arith in
    rw
      (
        some_size,
        header,
        whole,
        behind,
        left,
        four_bytes_word sec sec_small,
        four_bytes_word usec usec_small,
        four_bytes_word time time_small,
      )
      refl

at_end :
    (now last_sr fuel : ℕ) (ds : List ℕ)
    → parse_packets now last_sr fuel ds 0 ≡ some (pos 0, ([], last_sr))
unfolding parse_packets
at_end now last_sr zero ds = refl
at_end now last_sr (suc fuel) ds = refl

-- The description of the source, which is skipped.
description :
    (now last_sr fuel ssrc : ℕ) (text : List ℕ)
    → length text ≡ 18
    → parse_packets now last_sr
        (suc fuel)
        ((0x81 ∷ 202 ∷ 0 ∷ 6 ∷ four_bytes ssrc) ++ 1 ∷ 16 ∷ text)
        28
      ≡ some (pos 0, ([], last_sr))
unfolding parse_packets packet_size parse_packet strip_padding byte u16at
description now last_sr fuel ssrc text long = rw (at_end now last_sr fuel (drop 18 text)) refl

length-take : (n : ℕ) (xs : List ℕ) → n ≤ length xs → length (take n xs) ≡ n
length-take zero xs h = refl
length-take (suc n) [] h = absurd (omega arith)
length-take (suc n) (x ∷ xs) h = ap suc (length-take n xs (omega arith))

report-length : (rtp : RtpTransport) (delay : ℕ) → length (report rtp delay) ≡ 24
report-length rtp delay = elim (Bool-cases (rtp.last_sr == 0)) [
  | inl never ↦ rw never refl
  | inr once ↦ rw once refl
]

-- A transport whose last clock and time fit into 32 bits sends 80 bytes. Any transport that receives
-- them at the time `now` returns 0; it tells the clock in 64 bits and the time of the sender, after
-- the first packet if it is the first, and keeps `now` as the time of the last report.
pub handle_timeout-parse_rtcp :
    (rtp receiver : RtpTransport) (delay now : ℕ) (host stack : List ℕ)
    → 15 ≤ length stack
    → rtp.last_ntp_sec < 2 ^ 32
    → rtp.last_ntp_usec < 2 ^ 32
    → rtp.last_rtp_time < 2 ^ 32
    → let packet = (handle_timeout rtp delay host stack).0 in
      (length packet ≡ 80)
      × (parse_rtcp receiver now packet
          ≡ some (
            pos 0,
            record receiver { rcvd_rtcp = (receiver.rcvd_rtcp + 1) % 2 ^ 32; last_sr = now },
            (if receiver.rcvd_rtcp == 0 then rtcp_first_packet ∷ [] else [])
                ++ time_update (rtp.last_ntp_sec * 2 ^ 32 + rtp.last_ntp_usec) rtp.last_rtp_time
                  ∷ [],
          ))
unfolding handle_timeout parse_rtcp
handle_timeout-parse_rtcp rtp receiver delay now host stack room sec usec time =
    let rtp' = count_lost rtp in
    let text : List ℕ = take 16 (host ++ 0 ∷ stack) ++ 0 ∷ 0 ∷ [] in
    let kept = length-take 16 (host ++ 0 ∷ stack) (omega (arith, length-append host (0 ∷ stack))) in
    let long : length text ≡ 18 =
      omega (arith, kept, length-append (take 16 (host ++ 0 ∷ stack)) (0 ∷ 0 ∷ [])) in
    let source : List ℕ = (0x81 ∷ 202 ∷ 0 ∷ 6 ∷ four_bytes rtp.source_id) ++ 1 ∷ 16 ∷ text in
    let block = report-length rtp' delay in
    let size : length (handle_timeout rtp delay host stack).0 ≡ 80 =
      omega (arith, long, block, length-append (report rtp' delay) source) in
    let rest : length source ≡ 28 = omega (arith, long) in
    let first =
      sender_report now receiver.last_sr 79 rtp.source_id rtp.last_ntp_sec rtp.last_ntp_usec
        rtp.last_rtp_time rtp.n_rtp_sent rtp.n_rtp_octets_sent (report rtp' delay) source block sec
        usec time in
    let second = description now now 78 rtp.source_id text long in
    (size, rw (size, rw (rest, second) at first) refl)
