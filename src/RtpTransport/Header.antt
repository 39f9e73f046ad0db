-- ===== src/RtpTransport/Header.antt =====
-- libnet/RTPTransport.cpp: `parseRTP` on any packet.
use mcuproxy.Prelude.{
  ℕ, ◌+◌, ◌-◌, ◌*◌, ◌/◌, ◌%◌, ◌^◌, ◌≤◌, ◌<◌, ◌≡◌, refl, false, List, [], ◌∷◌, Option, none, some,
  arith, length, ltb, ◌==◌, if◌then◌else◌, Bool-cases, inl, inr,
}
use mcuproxy.RtpTransport.{
  Notice, first_packet, RtpTransport, Received, Parse, fault, refused, parsed, then_parse,
  strip_padding, skip_extension, read_fields, parse_header, accept, parse_rtp,
}
use mcuproxy.RtpTransport.Bytes.{byte-some, u16at-some, u32at-some}

-- No fault, and what is parsed has the property.
abbrev pub Gives : {A : Type 0} → (A → Type 0) → Parse A → Type 0
Gives P fault = ⊥
Gives P refused = Unit
Gives P (parsed a) = P a

pub then-Gives :
    {A B : Type 0} (P : A → Type 0) (Q : B → Type 0) (p : Parse A) (f : A → Parse B)
    → Gives P p
    → ((a : A) → P a → Gives Q (f a))
    → Gives Q (then_parse p f)
then-Gives P Q fault f h k = absurd h
then-Gives P Q refused f h k = tt
then-Gives P Q (parsed a) f h k = k a h

-- The size that stays is at least `low`, and no greater.
pub strip_padding-Gives :
    (low : ℕ) (ds : List ℕ) (size first : ℕ)
    → size ≤ length ds
    → 0 < size
    → low ≤ size
    → Gives (λ n. (low ≤ n) × (n ≤ size)) (strip_padding low ds size first)
unfolding strip_padding
strip_padding-Gives low ds size first le some_size enough =
    elim (Bool-cases (first / 2 ^ 5 % 2 == 1)) [
      | inr bare ↦ rw bare (enough, omega arith)
      | inl padded ↦
          let (padding, read) = byte-some ds (size - 1) (omega arith) in
          elim (Bool-cases (ltb size (padding + low))) [
            | inl long ↦ rw (padded, read, long) tt
            | inr fits ↦ rw (padded, read, fits) (ground (arith, fits), ground (arith, fits))
          ]
    ]

skip_extension-Gives :
    (ds : List ℕ) (size first offset : ℕ)
    → size ≤ length ds
    → offset ≤ size
    → Gives (λ n. (offset ≤ n) × (n ≤ size)) (skip_extension ds size first offset)
unfolding skip_extension
skip_extension-Gives ds size first offset le inside = elim (Bool-cases (first / 2 ^ 4 % 2 == 1)) [
  | inr bare ↦ rw bare (omega arith, inside)
  | inl more ↦ elim (Bool-cases (ltb size (offset + 4))) [
    | inl short ↦ rw (more, short) tt
    | inr room ↦
        let four : offset + 4 ≤ size = ground (arith, room) in
        let (words, read) = u16at-some ds (offset + 2) (omega arith) in
        elim (Bool-cases (ltb size (offset + 4 + 4 * words))) [
          | inl short ↦ rw (more, room, read, short) tt
          | inr fits ↦ rw (more, room, read, fits) (omega arith, ground (arith, fits))
        ]
  ]
]

-- The payload lies behind the fixed header and inside the packet.
abbrev pub IsInside : ℕ → Received → Type 0
IsInside size packet = (12 ≤ packet.offset) × (packet.offset + packet.range ≤ size)

read_fields-Gives :
    (ds : List ℕ) (offset size : ℕ)
    → 12 ≤ length ds
    → 12 ≤ offset
    → offset ≤ size
    → size ≤ length ds
    → Gives (IsInside (length ds)) (read_fields ds offset size)
unfolding read_fields
read_fields-Gives ds offset size enough low inside le =
    let (ssrc, a) = u32at-some ds 8 (omega arith) in
    let (time, b) = u32at-some ds 4 (omega arith) in
    let (second, c) = byte-some ds 1 (omega arith) in
    let (seq, d) = u16at-some ds 2 (omega arith) in rw (a, b, c, d) (low, omega arith)

parse_header-Gives : (ds : List ℕ) → Gives (IsInside (length ds)) (parse_header ds)
unfolding parse_header
parse_header-Gives ds = elim (Bool-cases (ltb (length ds) 12)) [
  | inl short ↦ rw short tt
  | inr enough ↦
      let long : 12 ≤ length ds = ground (arith, enough) in
      let (first, read) = byte-some ds 0 (omega arith) in
      elim (Bool-cases (first / 2 ^ 6 == 2)) [
        | inr other ↦ rw (enough, read, other) tt
        | inl version ↦
            rw (enough, read, version)
              (then-Gives (λ n. (12 ≤ n) × (n ≤ length ds)) (IsInside (length ds))
                (strip_padding 12 ds (length ds) first) _
                (strip_padding-Gives 12 ds (length ds) first (omega arith) (omega arith) long)
                (λ size sized. elim (Bool-cases (ltb size (12 + 4 * (first % 2 ^ 4)))) [
                  | inl few ↦ rw few tt
                  | inr sources ↦
                      let inside : 12 + 4 * (first % 2 ^ 4) ≤ size = ground (arith, sources) in
                      rw sources (
                        then-Gives (λ n. (12 + 4 * (first % 2 ^ 4) ≤ n) × (n ≤ size))
                          (IsInside (length ds))
                          (skip_extension ds size first (12 + 4 * (first % 2 ^ 4))) _
                          (skip_extension-Gives ds size first (12 + 4 * (first % 2 ^ 4)) sized.1
                            inside)
                          (λ offset behind.
                            read_fields-Gives ds offset size long (omega (arith, behind.0)) behind.1
                              sized.1))
                ]))
      ]
]

abbrev pub WhenSome : {A : Type 0} → (A → Type 0) → Option A → Type 0
WhenSome P none = Unit
WhenSome P (some a) = P a

accept-Gives :
    (n : ℕ) (rtp : RtpTransport) (p : Parse Received)
    → Gives (IsInside n) p
    → (packet : Option Received) × (rtp' : RtpTransport) × (told : List Notice) × (accept rtp p
        ≡ some (packet, rtp', told))
      × WhenSome (IsInside n) packet
unfolding accept
accept-Gives n rtp fault h = absurd h
accept-Gives n rtp refused h = (none, rtp, [], refl, tt)
accept-Gives n rtp (parsed packet) h = (
  some packet,
  record rtp { rcvd_source_id = packet.ssrc; first_rtp = false },
  if rtp.first_rtp then first_packet packet.rtp_time ∷ [] else [],
  refl,
  h,
)

-- On any packet, of any length and with any bytes, `parseRTP` returns and reads nothing outside it.
-- If it accepts the packet, the payload lies behind the fixed header and inside the packet.
pub parse_rtp-IsInside :
    (rtp : RtpTransport) (ds : List ℕ)
    → (packet : Option Received) × (rtp' : RtpTransport) × (told : List Notice) × (parse_rtp rtp ds
        ≡ some (packet, rtp', told))
      × WhenSome (IsInside (length ds)) packet
unfolding parse_rtp
parse_rtp-IsInside rtp ds = accept-Gives (length ds) _ (parse_header ds) (parse_header-Gives ds)
