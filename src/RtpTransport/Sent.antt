-- ===== src/RtpTransport/Sent.antt =====
-- libnet/RTPTransport.cpp: what `doSend` sends, `parseRTP` reads.
use mcuproxy.Prelude.{
  ℕ, zero, suc, ◌+◌, ◌-◌, ◌*◌, ◌/◌, ◌%◌, ◌^◌, ◌≤◌, ◌<◌, ◌≡◌, refl, ap, Bool, true, false, List, [],
  ◌∷◌, ◌++◌, some, arith, length, take, drop, ltb, leb, if◌then◌else◌,
}
use mcuproxy.Prelude.Int.{ℤ, pos, negsuc}
use mcuproxy.RtpTransport.{
  Notice, first_packet, RtpTransport, Received, parsed, byte, u16at, u32at, parse_header,
  strip_padding, skip_extension, read_fields, accept, parse_rtp, to_u32, second_byte, rtp_time_of,
  rtp_header, put_header, do_send,
}

put_header-append :
    (header old payload : List ℕ)
    → length old ≡ length header
    → put_header header (old ++ payload) ≡ some (header ++ payload)
unfolding put_header
put_header-append [] [] payload h = refl
put_header-append [] (o ∷ old) payload h = absurd (omega arith)
put_header-append (b ∷ header) [] payload h = absurd (omega arith)
put_header-append (b ∷ header) (o ∷ old) payload h =
    rw (put_header-append header old payload (omega arith)) refl

take_all : (xs : List ℕ) (n : ℕ) → n ≡ length xs → take n xs ≡ xs
take_all [] zero h = refl
take_all [] (suc n) h = refl
take_all (x ∷ xs) zero h = absurd (omega arith)
take_all (x ∷ xs) (suc n) h = ap (λ r. x ∷ r) (take_all xs n (omega arith))

-- The four bytes of a word make the word.
pub four_bytes_word :
    (n : ℕ)
    → n < 2 ^ 32
    → (n / 2 ^ 24 % 2 ^ 8 * 2 ^ 8 + n / 2 ^ 16 % 2 ^ 8) * 2 ^ 16
        + (n / 2 ^ 8 % 2 ^ 8 * 2 ^ 8 + n % 2 ^ 8)
      ≡ n
four_bytes_word n h = omega arith

two_bytes : (n : ℕ) → n / 2 ^ 8 % 2 ^ 8 * 2 ^ 8 + n % 2 ^ 8 ≡ n % 2 ^ 16
two_bytes n = omega arith

to_u32_small : (z : ℤ) → to_u32 z < 2 ^ 32
unfolding to_u32
to_u32_small (pos n) = omega arith
to_u32_small (negsuc n) = omega arith

rtp_time_of_small :
    (rtp : RtpTransport) (time_us : ℤ) (video : Bool) → rtp_time_of rtp time_us video < 2 ^ 32
unfolding rtp_time_of
rtp_time_of_small rtp time_us true = to_u32_small _
rtp_time_of_small rtp time_us false = to_u32_small _

marked : (marker : Bool) (p_type : ℕ) → p_type < 128 → second_byte marker p_type % 2 ^ 7 ≡ p_type
marked true p_type h = ground arith
marked false p_type h = omega arith

mark :
    (marker : Bool) (p_type : ℕ)
    → p_type < 128
    → second_byte marker p_type / 2 ^ 7 ≡ (if marker then 1 else 0)
mark true p_type h = ground arith
mark false p_type h = omega arith

-- What the receiver makes of a packet of the transport.
abbrev pub received : RtpTransport → ℕ → Bool → ℕ → Received
received rtp rtp_time marker size = record {
  ssrc = rtp.source_id;
  rtp_time = rtp_time;
  payload_type = rtp.p_type;
  marker = if marker then 1 else 0;
  quick_data = rtp.seq_no % 2 ^ 16;
  offset = 12;
  range = size;
}

parse_header-rtp_header :
    (rtp : RtpTransport) (rtp_time : ℕ) (marker : Bool) (payload : List ℕ)
    → rtp.p_type < 128
    → rtp.source_id < 2 ^ 32
    → rtp_time < 2 ^ 32
    → parse_header (rtp_header rtp rtp_time marker ++ payload)
      ≡ parsed (received rtp rtp_time marker (length payload))
unfolding parse_header byte u16at u32at strip_padding skip_extension read_fields
parse_header-rtp_header rtp rtp_time marker payload type source time =
    let enough : ltb (length (rtp_header rtp rtp_time marker ++ payload)) 12 ≡ false =
      ground arith in
    let rest : length (rtp_header rtp rtp_time marker ++ payload) - 12 ≡ length payload =
      omega arith in
    rw
      (
        enough,
        four_bytes_word rtp.source_id source,
        four_bytes_word rtp_time time,
        marked marker rtp.p_type type,
        mark marker rtp.p_type type,
        two_bytes rtp.seq_no,
        rest,
      )
      refl

-- A transport whose payload type has 7 bits writes its header over the first twelve bytes of a buffer
-- with room for them and sends the buffer. Any transport that receives the packet accepts it: it
-- reads the source, the time, the payload type, the mark and the low 16 bits of the sequence number
-- that were sent, and its range is the payload, which has not changed.
pub do_send-parse_rtp :
    (rtp receiver : RtpTransport) (old payload : List ℕ) (capacity : ℕ) (time_us : ℤ)
    → (video marker : Bool) (ntp : ℕ × ℕ) → length old ≡ 12
    → 12 ≤ capacity
    → rtp.p_type < 128
    → rtp.source_id < 2 ^ 32
    → (packet : List ℕ) × (rtp' receiver' : RtpTransport) × (told : List Notice) × (do_send rtp
          (old ++ payload)
          capacity
          (12 + length payload)
          time_us
          video
          marker
          ntp
        ≡ some (some packet, rtp'))
      × (parse_rtp receiver packet
          ≡ some (
            some (received rtp (rtp_time_of rtp time_us video) marker (length payload)),
            receiver',
            told,
          ))
      × (drop 12 packet ≡ payload)
      × (rtp'.seq_no ≡ (rtp.seq_no + 1) % 2 ^ 32)
unfolding do_send parse_rtp accept
do_send-parse_rtp rtp receiver old payload capacity time_us video marker ntp long room type source =
    let time = rtp_time_of rtp time_us video in
    let header = rtp_header rtp time marker in
    let put = put_header-append header old payload (omega (arith, long)) in
    let whole = take_all (header ++ payload) (12 + length payload) (omega arith) in
    let wide : leb 12 capacity ≡ true = ground arith in
    let read =
      parse_header-rtp_header rtp time marker payload type source
        (rtp_time_of_small rtp time_us video) in
    (
      header ++ payload,
      record rtp {
        last_rtp_time = time;
        last_ntp_sec = ntp.0;
        last_ntp_usec = ntp.1;
        seq_no = (rtp.seq_no + 1) % 2 ^ 32;
        n_rtp_sent = (rtp.n_rtp_sent + 1) % 2 ^ 32;
        n_rtp_octets_sent =
            (rtp.n_rtp_octets_sent + (12 + length payload + (2 ^ 32 - 12))) % 2 ^ 32;
      },
      record receiver {
        rcvd_rtp = (receiver.rcvd_rtp + 1) % 2 ^ 32;
        rcvd_source_id = rtp.source_id;
        first_rtp = false;
      },
      if receiver.first_rtp then first_packet time ∷ [] else [],
      rw (wide, put, whole) refl,
      rw read refl,
      refl,
      refl,
    )
