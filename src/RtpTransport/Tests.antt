-- ===== src/RtpTransport/Tests.antt =====
-- Tests of the packets of RTP and RTCP.
use mcuproxy.Prelude.{
  ℕ, ◌+◌, ◌*◌, ◌%◌, ◌^◌, ◌≡◌, refl, true, false, List, [], ◌∷◌, ◌++◌, Option, some, arith, length,
  drop, ◌==◌, if◌then◌else◌,
}
use mcuproxy.Prelude.Int.{ℤ, pos}
use mcuproxy.RtpTransport.{
  Notice, rtcp_first_packet, time_update, RtpTransport, Received, parse_rtp, do_send, rtp_time_of,
  parse_header, refused, byte, u16at, u32at, strip_padding, skip_extension, read_fields, parsed,
}
use mcuproxy.RtpTransport.Header.{WhenSome, IsInside, parse_rtp-IsInside}
use mcuproxy.RtpTransport.Sent.{received, do_send-parse_rtp}
use mcuproxy.RtpTransport.Rtcp.{parse_rtcp, handle_timeout}
use mcuproxy.RtpTransport.Walked.{parse_rtcp_returns}
use mcuproxy.RtpTransport.Report.{handle_timeout-parse_rtcp}

abbrev rtp : RtpTransport
rtp = record {
  first_rtp = true;
  n_rtp_sent = 0;
  n_rtp_octets_sent = 0;
  n_rcvd_lost = 300;
  rcvd_source_id = 5;
  rcvd_max_seq_num = 9;
  rcvd_rtp = 0;
  rcvd_rtcp = 0;
  total_rcvd_lost = 7;
  last_sr = 0;
  source_id = 0x01020304;
  seq_no = 65537;
  rtp_time_base = 0;
  last_rtp_time = 160;
  last_ntp_sec = 3900000000;
  last_ntp_usec = 17;
  p_type = 8;
}

-- Two bytes of padding, one source and an extension of one word.
abbrev packet : List ℕ
packet =
    0xB1 ∷ 0x88 ∷ 0 ∷ 1 ∷ 0 ∷ 0 ∷ 0 ∷ 160 ∷ 1 ∷ 2 ∷ 3 ∷ 4 ∷ 0 ∷ 0 ∷ 0 ∷ 0 ∷ 0 ∷ 0 ∷ 0 ∷ 1 ∷ 0 ∷ 0
    ∷ 0 ∷ 0 ∷ 77 ∷ 78 ∷ 0 ∷ 2 ∷ []

extended :
    parse_header packet
    ≡ parsed (record {
      ssrc = 0x01020304;
      rtp_time = 160;
      payload_type = 8;
      marker = 1;
      quick_data = 1;
      offset = 24;
      range = 2;
    })
unfolding parse_header byte u16at u32at strip_padding skip_extension read_fields
extended = refl

too_short : parse_header (0x80 ∷ 8 ∷ 0 ∷ 1 ∷ []) ≡ refused
unfolding parse_header
too_short = refl

parse_rtp-IsInside_example :
    (it : Option Received) × (rtp' : RtpTransport) × (told : List Notice) × (parse_rtp rtp packet
      ≡ some (it, rtp', told))
    × WhenSome (IsInside 28) it
parse_rtp-IsInside_example = parse_rtp-IsInside rtp packet

abbrev old : List ℕ
old = 1 ∷ 2 ∷ 3 ∷ 4 ∷ 5 ∷ 6 ∷ 7 ∷ 8 ∷ 9 ∷ 10 ∷ 11 ∷ 12 ∷ []

do_send-parse_rtp_example :
    (sent : List ℕ) × (rtp' receiver' : RtpTransport) × (told : List Notice) × (do_send rtp
        (old ++ 77 ∷ 78 ∷ [])
        1664
        14
        (pos 160)
        false
        true
        (0, 0)
      ≡ some (some sent, rtp'))
    × (parse_rtp rtp sent
        ≡ some (some (received rtp (rtp_time_of rtp (pos 160) false) true 2), receiver', told))
    × (drop 12 sent ≡ 77 ∷ 78 ∷ [])
    × (rtp'.seq_no ≡ (rtp.seq_no + 1) % 2 ^ 32)
do_send-parse_rtp_example =
    do_send-parse_rtp rtp rtp old (77 ∷ 78 ∷ []) 1664 (pos 160) false true (0, 0) refl (omega arith)
      (omega arith) (omega arith)

parse_rtcp-returns_example :
    (ret : ℤ) × (rtp' : RtpTransport) × (told : List Notice) × (parse_rtcp rtp 33 packet
      ≡ some (ret, rtp', told))
    × (rtp'.rcvd_rtcp ≡ (rtp.rcvd_rtcp + 1) % 2 ^ 32)
parse_rtcp-returns_example = parse_rtcp_returns rtp 33 packet

-- "10.0.0.1@"
abbrev host : List ℕ
host = 49 ∷ 48 ∷ 46 ∷ 48 ∷ 46 ∷ 48 ∷ 46 ∷ 49 ∷ 64 ∷ []

abbrev stack : List ℕ
stack = old ++ old

handle_timeout-parse_rtcp_example :
    let sent = (handle_timeout rtp 3 host stack).0 in
    (length sent ≡ 80)
    × (parse_rtcp rtp 33 sent
        ≡ some (
          pos 0,
          record rtp { rcvd_rtcp = (rtp.rcvd_rtcp + 1) % 2 ^ 32; last_sr = 33 },
          (if rtp.rcvd_rtcp == 0 then rtcp_first_packet ∷ [] else [])
              ++ time_update (rtp.last_ntp_sec * 2 ^ 32 + rtp.last_ntp_usec) rtp.last_rtp_time ∷ [],
        ))
handle_timeout-parse_rtcp_example =
    handle_timeout-parse_rtcp rtp rtp 3 33 host stack (omega arith) (omega arith) (omega arith)
      (omega arith)
