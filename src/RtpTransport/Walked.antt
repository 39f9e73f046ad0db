-- ===== src/RtpTransport/Walked.antt =====
-- libnet/RTPTransport.cpp: `parseRTCP` returns on any packet.
use mcuproxy.Prelude.{
  ℕ, zero, suc, ◌+◌, ◌-◌, ◌*◌, ◌/◌, ◌%◌, ◌^◌, ◌≤◌, ◌≡◌, ◌⊎◌, refl, true, ◌||◌, List, [], ◌∷◌, ◌++◌,
  some, arith, length, drop, ltb, ◌==◌, if◌then◌else◌, Bool-cases, inl, inr,
}
use mcuproxy.Prelude.Int.{ℤ, pos, negsuc}
use mcuproxy.RtpTransport.{
  Notice, rtcp_first_packet, end_of_stream, time_update, RtpTransport, Parse, fault, refused,
  parsed, strip_padding,
}
use mcuproxy.RtpTransport.Bytes.{byte-some, u16at-some, u32at-some, u64at-some}
use mcuproxy.RtpTransport.Header.{Gives, then-Gives, strip_padding-Gives}
use mcuproxy.RtpTransport.Rtcp.{
  Told, Result, parse_sr, parse_bye, parse_packet, packet_size, parse_packets, parse_rtcp,
}

length-drop : (n : ℕ) (xs : List ℕ) → length (drop n xs) ≡ length xs - n
length-drop zero xs = omega arith
length-drop (suc n) [] = omega arith
length-drop (suc n) (x ∷ xs) = omega (arith, length-drop n xs)

parse_sr-some :
    (now : ℕ) (ds : List ℕ) (size : ℕ)
    → 4 ≤ size
    → size ≤ length ds
    → (told : Told) × (parse_sr now ds size ≡ some told)
unfolding parse_sr
parse_sr-some now ds size low le =
    let (first, a) = byte-some ds 0 (omega arith) in
    elim (Bool-cases (ltb size ((7 + first % 2 ^ 5 * 6) * 4))) [
      | inl short ↦ (([], now), rw (a, short) refl)
      | inr whole ↦
          let long : 28 ≤ size = ground (arith, whole) in
          let (id, b) = u32at-some ds 4 (omega arith) in
          let (ntp, c) = u64at-some ds 8 (omega arith) in
          let (time, d) = u32at-some ds 16 (omega arith) in
          ((time_update ntp time ∷ [], now), rw (a, whole, b, c, d) refl)
    ]

parse_bye-some :
    (ds : List ℕ) (size : ℕ)
    → 4 ≤ size
    → size ≤ length ds
    → (told : List Notice) × (parse_bye ds size ≡ some told)
unfolding parse_bye
parse_bye-some ds size low le =
    let (first, a) = byte-some ds 0 (omega arith) in
    elim (Bool-cases ((first % 2 ^ 6 == 0) || ltb size (4 + first % 2 ^ 6 * 4))) [
      | inl short ↦ ([], rw (a, short) refl)
      | inr whole ↦
          let long : 8 ≤ size = ground (arith, whole) in
          let (id, b) = u32at-some ds 4 (omega arith) in (end_of_stream ∷ [], rw (a, whole, b) refl)
    ]

parse_packet-some :
    (now last_sr kind : ℕ) (ds : List ℕ) (size : ℕ)
    → 4 ≤ size
    → size ≤ length ds
    → (told : Told) × (parse_packet now last_sr kind ds size ≡ some told)
unfolding parse_packet
parse_packet-some now last_sr kind ds size low le = elim (Bool-cases (kind == 200)) [
  | inl sr ↦ rw sr (parse_sr-some now ds size low le)
  | inr other ↦ elim (Bool-cases (kind == 203)) [
    | inl bye ↦
        let (told, run) = parse_bye-some ds size low le in
        ((told, last_sr), rw (other, bye, run) refl)
    | inr last ↦ (([], last_sr), rw (other, last) refl)
  ]
]

-- The first packet takes four bytes or more, and no more than there are.
abbrev Sized : ℕ → ℕ × ℕ → Type 0
Sized size (left, header_length) = (left ≤ size) × (4 ≤ header_length) × (header_length ≤ left)

packet_size-Gives :
    (ds : List ℕ) (size : ℕ) → size ≤ length ds → Gives (Sized size) (packet_size ds size)
unfolding packet_size
packet_size-Gives ds size le = elim (Bool-cases (ltb size 8)) [
  | inl short ↦ rw short tt
  | inr enough ↦
      let long : 8 ≤ size = ground (arith, enough) in
      let (first, a) = byte-some ds 0 (omega arith) in
      let (words, b) = u16at-some ds 2 (omega arith) in
      elim (Bool-cases (first / 2 ^ 6 == 2)) [
        | inr other ↦ rw (enough, a, other) tt
        | inl version ↦
            rw (enough, a, version)
              (then-Gives (λ n. (8 ≤ n) × (n ≤ size)) (Sized size) (strip_padding 8 ds size first) _
                (strip_padding-Gives 8 ds size first le (omega arith) long)
                (λ left sized. rw b (elim (Bool-cases (ltb left (4 * words + 4))) [
                  | inl few ↦ rw few tt
                  | inr whole ↦ rw whole (sized.1, omega arith, ground (arith, whole))
                ])))
      ]
]

Gives-cases :
    {A : Type 0} (P : A → Type 0) (p : Parse A)
    → Gives P p
    → (p ≡ refused) ⊎ ((a : A) × (p ≡ parsed a) × P a)
Gives-cases P fault h = absurd h
Gives-cases P refused h = inl refl
Gives-cases P (parsed a) h = inr (a, refl, h)

parse_packets-some :
    (fuel now last_sr : ℕ) (ds : List ℕ) (size : ℕ)
    → size ≤ length ds
    → size ≤ fuel
    → (result : Result) × (parse_packets now last_sr fuel ds size ≡ some result)
unfolding parse_packets
parse_packets-some zero now last_sr ds size le enough =
    let done : size == 0 ≡ true = ground arith in ((pos 0, ([], last_sr)), rw done refl)
parse_packets-some (suc fuel) now last_sr ds size le enough = elim (Bool-cases (size == 0)) [
  | inl done ↦ ((pos 0, ([], last_sr)), rw done refl)
  | inr more ↦
      elim (Gives-cases (Sized size) (packet_size ds size) (packet_size-Gives ds size le)) [
        | inl bad ↦ ((negsuc 0, ([], last_sr)), rw (more, bad) refl)
        | inr ((left, header_length), good, sized) ↦
            let (kind, a) = byte-some ds 1 (omega (arith, sized.0, sized.1, sized.2)) in
            let (told, b) =
              parse_packet-some now last_sr kind ds header_length sized.1
                (omega (arith, sized.0, sized.2)) in
            let (rest, c) =
              parse_packets-some fuel now told.1 (drop header_length ds) (left - header_length)
                (omega (arith, sized.0, sized.2, length-drop header_length ds))
                (omega (arith, sized.0, sized.1)) in
            ((rest.0, (told.0 ++ rest.1.0, rest.1.1)), rw (more, good, a, b, c) refl)
      ]
]

-- On any packet, of any length and with any bytes, the loop of `parseRTCP` ends after at most as many
-- rounds as the packet has bytes, and nothing outside the packet is read: the call returns.
pub parse_rtcp_returns :
    (rtp : RtpTransport) (now : ℕ) (ds : List ℕ)
    → (ret : ℤ) × (rtp' : RtpTransport) × (told : List Notice) × (parse_rtcp rtp now ds
        ≡ some (ret, rtp', told))
      × (rtp'.rcvd_rtcp ≡ (rtp.rcvd_rtcp + 1) % 2 ^ 32)
unfolding parse_rtcp
parse_rtcp_returns rtp now ds =
    let (result, run) =
      parse_packets-some (length ds) now rtp.last_sr ds (length ds) (omega arith) (omega arith) in
    (
      result.0,
      record rtp { rcvd_rtcp = (rtp.rcvd_rtcp + 1) % 2 ^ 32; last_sr = result.1.1 },
      (if rtp.rcvd_rtcp == 0 then rtcp_first_packet ∷ [] else []) ++ result.1.0,
      rw run refl,
      refl,
    )
