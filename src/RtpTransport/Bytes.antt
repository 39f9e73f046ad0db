-- ===== src/RtpTransport/Bytes.antt =====
-- libnet/RTPTransport.cpp: reads inside a packet.
use mcuproxy.Prelude.{
  ℕ, zero, suc, ◌+◌, ◌*◌, ◌≤◌, ◌<◌, ◌≡◌, refl, List, [], ◌∷◌, some, arith, length,
}
use mcuproxy.RtpTransport.{byte, u16at, u32at, u64at}

pub byte-some : (ds : List ℕ) (i : ℕ) → i < length ds → (b : ℕ) × (byte ds i ≡ some b)
unfolding byte
byte-some [] i h = absurd (omega arith)
byte-some (b ∷ ds) zero h = (b, refl)
byte-some (b ∷ ds) (suc i) h = byte-some ds i (omega arith)

pub u16at-some : (ds : List ℕ) (i : ℕ) → i + 2 ≤ length ds → (n : ℕ) × (u16at ds i ≡ some n)
unfolding u16at
u16at-some ds i h =
    let (high, first) = byte-some ds i (omega arith) in
    let (low, second) = byte-some ds (i + 1) (omega arith) in
    (high * 256 + low, rw (first, second) refl)

pub u32at-some : (ds : List ℕ) (i : ℕ) → i + 4 ≤ length ds → (n : ℕ) × (u32at ds i ≡ some n)
unfolding u32at
u32at-some ds i h =
    let (high, first) = u16at-some ds i (omega arith) in
    let (low, second) = u16at-some ds (i + 2) (omega arith) in
    (high * 65536 + low, rw (first, second) refl)

pub u64at-some : (ds : List ℕ) (i : ℕ) → i + 8 ≤ length ds → (n : ℕ) × (u64at ds i ≡ some n)
unfolding u64at
u64at-some ds i h =
    let (high, first) = u32at-some ds i (omega arith) in
    let (low, second) = u32at-some ds (i + 4) (omega arith) in
    (high * 4294967296 + low, rw (first, second) refl)
