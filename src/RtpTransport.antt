-- ===== src/RtpTransport.antt =====
-- libnet/RTPTransport.cpp and libnet/include/RTPTransport.h: the packets of RTP and RTCP. A packet is
-- its bytes from `data()` on; to read or write behind them is a fault, `none`. The clock, the sockets
-- and the observer are outside: times are arguments, and what the observer is told is a list.
pub mod Bytes
pub mod Header
pub mod Sent
pub mod Rtcp
pub mod Walked
pub mod Report
mod Tests
use mcuproxy.Prelude.{
  ℕ, zero, suc, ◌+◌, ◌-◌, ◌*◌, ◌/◌, ◌%◌, ◌^◌, Bool, true, false, List, [], ◌∷◌, ◌++◌, Option, none,
  some, length, take, ltb, leb, ◌==◌, if◌then◌else◌, ◌>>=◌,
}
use mcuproxy.Prelude.Int.{ℤ, pos, negsuc, ◌+ℤ◌, ◌*ℤ◌}

-- The byte at a place.
unfoldable pub byte : List ℕ → ℕ → Option ℕ
byte [] i = none
byte (b ∷ data') zero = some b
byte (b ∷ data') (suc i) = byte data' i

unfoldable pub u16at : List ℕ → ℕ → Option ℕ
u16at data' i = do high ← byte data' i; low ← byte data' (i + 1); some (high * 2 ^ 8 + low)

unfoldable pub u32at : List ℕ → ℕ → Option ℕ
u32at data' i = do high ← u16at data' i; low ← u16at data' (i + 2); some (high * 2 ^ 16 + low)

unfoldable pub u64at : List ℕ → ℕ → Option ℕ
u64at data' i = do high ← u32at data' i; low ← u32at data' (i + 4); some (high * 2 ^ 32 + low)

-- What the observer is told.
pub data Notice : Type 0 where
  first_packet : ℕ → Notice
  rtcp_first_packet end_of_stream : Notice
  time_update : ℕ → ℕ → Notice

-- The fields that packets are made of and go to.
pub record RtpTransport : Type 0 where
  pub first_rtp : Bool
  pub n_rtp_sent : ℕ
  pub n_rtp_octets_sent : ℕ
  pub n_rcvd_lost : ℕ
  pub rcvd_source_id : ℕ
  pub rcvd_max_seq_num : ℕ
  pub rcvd_rtp : ℕ
  pub rcvd_rtcp : ℕ
  pub total_rcvd_lost : ℕ
  pub last_sr : ℕ
  pub source_id : ℕ
  pub seq_no : ℕ
  pub rtp_time_base : ℕ
  pub last_rtp_time : ℕ
  pub last_ntp_sec : ℕ
  pub last_ntp_usec : ℕ
  pub p_type : ℕ

-- What `parseRTP` stores in the buffer: the items, the quick data and the range.
pub record Received : Type 0 where
  pub ssrc : ℕ
  pub rtp_time : ℕ
  pub payload_type : ℕ
  pub marker : ℕ
  pub quick_data : ℕ
  pub offset : ℕ
  pub range : ℕ

-- The steps of a parser: a fault, a packet that is refused, or a value.
pub data Parse {ℓ} (A : Type ℓ) : Type ℓ where
  fault refused : Parse A
  parsed : A → Parse A

abbrev pub then_parse {ℓ κ} : {A : Type ℓ} {B : Type κ} → Parse A → (A → Parse B) → Parse B
then_parse fault f = fault
then_parse refused f = refused
then_parse (parsed a) f = f a

abbrev pub reading {ℓ κ} : {A : Type ℓ} {B : Type κ} → Option A → (A → Parse B) → Parse B
reading none f = fault
reading (some a) f = f a

-- BREAK_IF
abbrev pub break_if {ℓ} : {A : Type ℓ} → Bool → Parse A → Parse A
break_if c p = if c then refused else p

-- The size without the padding; at least `low` bytes stay.
unfoldable pub strip_padding : ℕ → List ℕ → ℕ → ℕ → Parse ℕ
strip_padding low data' size first =
    if first / 2 ^ 5 % 2 == 1
    then reading (byte data' (size - 1)) (λ padding_length.
      break_if (ltb size (padding_length + low)) (parsed (size - padding_length)))
    else parsed size

-- The offset behind the header extension, if there is one.
unfoldable pub skip_extension : List ℕ → ℕ → ℕ → ℕ → Parse ℕ
skip_extension data' size first payload_offset =
    if first / 2 ^ 4 % 2 == 1
    then break_if (ltb size (payload_offset + 4)) (
        reading (u16at data' (payload_offset + 2)) (λ words.
          break_if (ltb size (payload_offset + 4 + 4 * words))
            (parsed (payload_offset + (4 + 4 * words)))))
    else parsed payload_offset

-- The fields of the fixed header.
unfoldable pub read_fields : List ℕ → ℕ → ℕ → Parse Received
read_fields data' offset size = reading (u32at data' 8) (λ ssrc.
    reading (u32at data' 4) (λ rtp_time. reading (byte data' 1) (λ second.
      reading (u16at data' 2) (λ seq. parsed (record {
        ssrc = ssrc;
        rtp_time = rtp_time;
        payload_type = second % 2 ^ 7;
        marker = second / 2 ^ 7;
        quick_data = seq;
        offset = offset;
        range = size - offset;
      })))))

unfoldable pub parse_header : List ℕ → Parse Received
parse_header data' = break_if (ltb (length data') 12) (
    reading (byte data' 0) (λ first.
      if first / 2 ^ 6 == 2
      then then_parse (strip_padding 12 data' (length data') first) (λ size.
        break_if (ltb size (12 + 4 * (first % 2 ^ 4))) (
          then_parse (skip_extension data' size first (12 + 4 * (first % 2 ^ 4)))
            (λ offset. read_fields data' offset size)))
      else refused))

-- What `parseRTP` does to the transport, and whom it tells.
unfoldable pub accept :
    RtpTransport → Parse Received → Option (Option Received × RtpTransport × List Notice)
accept rtp fault = none
accept rtp refused = some (none, rtp, [])
accept rtp (parsed packet) = some (
  some packet,
  record rtp { rcvd_source_id = packet.ssrc; first_rtp = false },
  if rtp.first_rtp then first_packet packet.rtp_time ∷ [] else [],
)

unfoldable pub parse_rtp :
    RtpTransport → List ℕ → Option (Option Received × RtpTransport × List Notice)
parse_rtp rtp data' =
    accept (record rtp { rcvd_rtp = (rtp.rcvd_rtp + 1) % 2 ^ 32 }) (parse_header data')

-- `(uint32_t)` of an `int64_t`.
unfoldable pub to_u32 : ℤ → ℕ
to_u32 (pos n) = n % 2 ^ 32
to_u32 (negsuc n) = 2 ^ 32 - 1 - n % 2 ^ 32

-- The four bytes of a word, the highest first.
abbrev pub four_bytes : ℕ → List ℕ
four_bytes n = n / 2 ^ 24 % 2 ^ 8 ∷ n / 2 ^ 16 % 2 ^ 8 ∷ n / 2 ^ 8 % 2 ^ 8 ∷ n % 2 ^ 8 ∷ []

-- `(marker ? 0x80 : 0x00) | mPType`
abbrev pub second_byte : Bool → ℕ → ℕ
second_byte marker p_type =
    if marker then (if ltb p_type 128 then 128 + p_type else p_type) else p_type

unfoldable pub rtp_time_of : RtpTransport → ℤ → Bool → ℕ
rtp_time_of rtp time_us video =
    if video then to_u32 (pos rtp.rtp_time_base +ℤ time_us *ℤ pos 90) else to_u32 time_us

-- The first twelve bytes are overwritten.
unfoldable pub put_header : List ℕ → List ℕ → Option (List ℕ)
put_header [] data' = some data'
put_header (b ∷ header) [] = none
put_header (b ∷ header) (_ ∷ data') = do rest ← put_header header data'; some (b ∷ rest)

abbrev pub rtp_header : RtpTransport → ℕ → Bool → List ℕ
rtp_header rtp rtp_time marker =
    0x80
      ∷ second_byte marker rtp.p_type
      ∷ rtp.seq_no / 2 ^ 8 % 2 ^ 8
      ∷ rtp.seq_no % 2 ^ 8
      ∷ four_bytes rtp_time
    ++ four_bytes rtp.source_id

-- The memory from `data()` on, of which `size` bytes are the packet; `ntp` is the clock in seconds and
-- parts of a second. What is returned is the packet that is sent, if any.
unfoldable pub do_send :
    RtpTransport
    → List ℕ
    → ℕ
    → ℕ
    → ℤ
    → Bool
    → Bool
    → ℕ × ℕ
    → Option (Option (List ℕ) × RtpTransport)
do_send rtp memory capacity size time_us video marker ntp =
    let rtp_time = rtp_time_of rtp time_us video in
    let stamped = record rtp {
      last_rtp_time = rtp_time;
      last_ntp_sec = ntp.0;
      last_ntp_usec = ntp.1;
    } in
    if leb 12 capacity
    then (do
      packet ← put_header (rtp_header rtp rtp_time marker) memory
      some (
        some (take size packet),
        record stamped {
          seq_no = (rtp.seq_no + 1) % 2 ^ 32;
          n_rtp_sent = (rtp.n_rtp_sent + 1) % 2 ^ 32;
          n_rtp_octets_sent = (rtp.n_rtp_octets_sent + (size + (2 ^ 32 - 12))) % 2 ^ 32;
        },
      ))
    else some (none, stamped)
