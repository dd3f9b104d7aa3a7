-- ===== src/Host/Packet/RoundTrip.antt =====
-- Datagrams and packets determine one another.
use arpanet_redux.Prelude.{
  ℕ, zero, suc, ◌+◌, ◌*◌, ◌-◌, ◌/◌, ◌%◌, ◌^◌, ◌<◌, ◌≡◌, refl, sym, ap, ◌∙◌, true, List, [], ◌∷◌,
  ◌++◌, ok, length, drop, get_or, All, arith,
}
use mathlib.Core.Path.{ap₂}
use arpanet_redux.Host.Packet.{
  HostInterfacePacket, magic, all_words, host_interface_packet, pack_u16, pack_u32, pack_words,
  to_bytes, unpack_words, from_bytes,
}

pub record IsPacket (p : HostInterfacePacket) : Type 0 where
  pub sequence_fits : p.sequence < 2 ^ 32
  pub flags_fit : p.flags < 2 ^ 16
  pub words_fit : All (λ w. w < 2 ^ 16) p.words

pub length-pack_words : (ws : List ℕ) → length (pack_words ws) ≡ length ws * 2
unfolding pack_words
length-pack_words [] = refl
length-pack_words (w ∷ ws) = omega (arith, length-pack_words ws)

unpack_words-pack_words :
    (ws : List ℕ) → All (λ w. w < 2 ^ 16) ws → unpack_words (length ws) (pack_words ws) ≡ ws
unfolding pack_words unpack_words
unpack_words-pack_words [] h = refl
unpack_words-pack_words (w ∷ ws) h = ground (arith, h.0, unpack_words-pack_words ws h.1)

all_words-fit : (ws : List ℕ) → All (λ w. w < 2 ^ 16) ws → all_words ws ≡ true
all_words-fit [] h = refl
all_words-fit (w ∷ ws) h = ground (arith, h.0, all_words-fit ws h.1)

-- The bytes of a packet.
abbrev pub datagram : HostInterfacePacket → List ℕ
datagram p =
    magic
    ++ (pack_u32 p.sequence
        ++ (pack_u16 (1 + length p.words) ++ (pack_u16 p.flags ++ pack_words p.words)))

to_bytes→datagram :
    (p : HostInterfacePacket) (bytes : List ℕ)
    → to_bytes p ≡ ok bytes
    → (length p.words < 65535) × (bytes ≡ datagram p)
unfolding to_bytes
to_bytes→datagram p bytes h = ground arith

-- A datagram whose header fits its body, up to the checks of the packet's fields.
from_bytes-header :
    (s₃ s₂ s₁ s₀ c₁ c₀ k : ℕ) (rest : List ℕ)
    → c₁ * 256 + c₀ ≡ suc k
    → length rest ≡ suc k * 2
    → from_bytes (magic ++ (s₃ ∷ s₂ ∷ s₁ ∷ s₀ ∷ c₁ ∷ c₀ ∷ rest))
      ≡ host_interface_packet
          ((s₃ * 256 + s₂) * 65536 + (s₁ * 256 + s₀))
          (get_or (unpack_words (suc k) rest) 0 0)
          (drop 1 (unpack_words (suc k) rest))
unfolding from_bytes
from_bytes-header s₃ s₂ s₁ s₀ c₁ c₀ k rest hc hl = ground arith

packet-fits :
    (s f : ℕ) (ws : List ℕ)
    → s < 2 ^ 32
    → f < 2 ^ 16
    → All (λ w. w < 2 ^ 16) ws
    → host_interface_packet s f ws ≡ ok (record { sequence = s; flags = f; words = ws })
unfolding host_interface_packet
packet-fits s f ws hs hf hw = ground (arith, all_words-fit ws hw)

u16_bytes : (n : ℕ) → n < 2 ^ 16 → n / 256 % 256 * 256 + n % 256 ≡ n
u16_bytes n h = omega arith

u32_bytes :
    (n : ℕ)
    → n < 2 ^ 32
    → (n / 2 ^ 24 % 256 * 256 + n / 2 ^ 16 % 256) * 65536 + (n / 2 ^ 8 % 256 * 256 + n % 256) ≡ n
u32_bytes n h = omega arith

from_bytes-datagram :
    (p : HostInterfacePacket) → IsPacket p → length p.words < 65535 → from_bytes (datagram p) ≡ ok p
unfolding unpack_words
from_bytes-datagram p v h =
    from_bytes-header (p.sequence / 2 ^ 24 % 256) (p.sequence / 2 ^ 16 % 256)
      (p.sequence / 2 ^ 8 % 256) (p.sequence % 256) ((1 + length p.words) / 256 % 256)
      ((1 + length p.words) % 256) (length p.words) (pack_u16 p.flags ++ pack_words p.words)
      (omega (arith, v)) (omega (arith, length-pack_words p.words))
    ∙ rw
        (
          u32_bytes p.sequence v.sequence_fits,
          u16_bytes p.flags v.flags_fit,
          unpack_words-pack_words p.words v.words_fit,
        )
        (packet-fits p.sequence p.flags p.words v.sequence_fits v.flags_fit v.words_fit)

-- A well-formed packet that the transport can send at all is read back from its datagram.
pub from_bytes-to_bytes :
    (p : HostInterfacePacket) (bytes : List ℕ)
    → IsPacket p
    → to_bytes p ≡ ok bytes
    → from_bytes bytes ≡ ok p
from_bytes-to_bytes p bytes v h =
    let (fits, e) = to_bytes→datagram p bytes h in ap from_bytes e ∙ from_bytes-datagram p v fits

abbrev pub IsByte : ℕ → Type 0
IsByte b = b < 256

pack_words-unpack_words :
    (n : ℕ) (bs : List ℕ)
    → All IsByte bs
    → length bs ≡ n * 2
    → (pack_words (unpack_words n bs) ≡ bs) × (length (unpack_words n bs) ≡ n)
unfolding pack_words unpack_words
pack_words-unpack_words zero [] h e = (refl, refl)
pack_words-unpack_words zero (b ∷ bs) h e = absurd (omega arith)
pack_words-unpack_words (suc n) [] h e = absurd (omega arith)
pack_words-unpack_words (suc n) (a ∷ []) h e = absurd (omega arith)
pack_words-unpack_words (suc n) (a ∷ b ∷ bs) (ha, (hb, hs)) e =
    ground (arith, pack_words-unpack_words n bs hs)

-- What a datagram that is accepted looks like.
record Accepts (s₃ s₂ s₁ s₀ c₁ c₀ : ℕ) (rest : List ℕ) (p : HostInterfacePacket) : Type 0 where
  counted : 0 < c₁ * 256 + c₀
  sized : length rest ≡ (c₁ * 256 + c₀) * 2
  sequence : p.sequence ≡ (s₃ * 256 + s₂) * 65536 + (s₁ * 256 + s₀)
  flags : p.flags ≡ get_or (unpack_words (c₁ * 256 + c₀) rest) 0 0
  words : p.words ≡ drop 1 (unpack_words (c₁ * 256 + c₀) rest)

accepted_packet :
    (s f : ℕ) (ws : List ℕ) (p : HostInterfacePacket)
    → host_interface_packet s f ws ≡ ok p
    → (p.sequence ≡ s) × (p.flags ≡ f) × (p.words ≡ ws)
unfolding host_interface_packet
accepted_packet s f ws p h = ground arith

from_bytes-Accepts :
    (m₀ m₁ m₂ m₃ s₃ s₂ s₁ s₀ c₁ c₀ : ℕ) (rest : List ℕ) (p : HostInterfacePacket)
    → from_bytes (m₀ ∷ m₁ ∷ m₂ ∷ m₃ ∷ s₃ ∷ s₂ ∷ s₁ ∷ s₀ ∷ c₁ ∷ c₀ ∷ rest) ≡ ok p
    → (m₀ ∷ m₁ ∷ m₂ ∷ m₃ ∷ [] ≡ magic) × Accepts s₃ s₂ s₁ s₀ c₁ c₀ rest p
unfolding from_bytes
from_bytes-Accepts m₀ m₁ m₂ m₃ s₃ s₂ s₁ s₀ c₁ c₀ rest p h = ground (
  arith,
  accepted_packet ((s₃ * 256 + s₂) * 65536 + (s₁ * 256 + s₀))
      (get_or (unpack_words (c₁ * 256 + c₀) rest) 0 0) (drop 1 (unpack_words (c₁ * 256 + c₀) rest))
      p,
)

datagram→to_bytes :
    (p : HostInterfacePacket) → length p.words < 65535 → to_bytes p ≡ ok (datagram p)
unfolding to_bytes
datagram→to_bytes p h = ground arith

pack_u16-bytes : (a b : ℕ) → IsByte a → IsByte b → pack_u16 (a * 256 + b) ≡ a ∷ b ∷ []
pack_u16-bytes a b ha hb = ground arith

pack_u32-bytes :
    (a b c d : ℕ)
    → IsByte a
    → IsByte b
    → IsByte c
    → IsByte d
    → pack_u32 ((a * 256 + b) * 65536 + (c * 256 + d)) ≡ a ∷ b ∷ c ∷ d ∷ []
pack_u32-bytes a b c d ha hb hc hd = ground arith

body-IsByte :
    (s₃ s₂ s₁ s₀ c₁ c₀ f₁ f₀ : ℕ) (body : List ℕ)
    → All IsByte (s₃ ∷ s₂ ∷ s₁ ∷ s₀ ∷ c₁ ∷ c₀ ∷ f₁ ∷ f₀ ∷ body)
    → All IsByte body
body-IsByte s₃ s₂ s₁ s₀ c₁ c₀ f₁ f₀ body h = h.1.1.1.1.1.1.1.1

to_bytes-accepted :
    (s₃ s₂ s₁ s₀ c₁ c₀ f₁ f₀ k : ℕ) (body : List ℕ) (p : HostInterfacePacket)
    → All IsByte (s₃ ∷ s₂ ∷ s₁ ∷ s₀ ∷ c₁ ∷ c₀ ∷ f₁ ∷ f₀ ∷ body)
    → c₁ * 256 + c₀ ≡ suc k
    → Accepts s₃ s₂ s₁ s₀ c₁ c₀ (f₁ ∷ f₀ ∷ body) p
    → to_bytes p ≡ ok (magic ++ (s₃ ∷ s₂ ∷ s₁ ∷ s₀ ∷ c₁ ∷ c₀ ∷ f₁ ∷ f₀ ∷ body))
unfolding unpack_words
to_bytes-accepted s₃ s₂ s₁ s₀ c₁ c₀ f₁ f₀ k body p h e a =
    let words : p.words ≡ unpack_words k body =
      a.words ∙ ap (λ (n : ℕ). drop 1 (unpack_words n (f₁ ∷ f₀ ∷ body))) e in
    let flags : p.flags ≡ f₁ * 256 + f₀ =
      a.flags ∙ ap (λ (n : ℕ). get_or (unpack_words n (f₁ ∷ f₀ ∷ body)) 0 0) e in
    let (packed, counted) =
      pack_words-unpack_words k body (body-IsByte s₃ s₂ s₁ s₀ c₁ c₀ f₁ f₀ body h)
        (omega (arith, a.sized)) in
    let size : length p.words ≡ k = ap length words ∙ counted in
    datagram→to_bytes p (omega (arith, size, h))
    ∙ ap₂ (λ (bs : List ℕ) (cs : List ℕ). ok (magic ++ (bs ++ cs)))
        (ap (λ (n : ℕ). pack_u32 n) a.sequence
          ∙ pack_u32-bytes s₃ s₂ s₁ s₀ h.0 h.1.0 h.1.1.0 h.1.1.1.0)
        (ap₂ (λ (bs : List ℕ) (cs : List ℕ). bs ++ cs)
          (ap (λ (n : ℕ). pack_u16 n) (omega (arith, size, e))
            ∙ pack_u16-bytes c₁ c₀ h.1.1.1.1.0 h.1.1.1.1.1.0)
          (ap₂ (λ (bs : List ℕ) (cs : List ℕ). bs ++ cs)
            (ap (λ (n : ℕ). pack_u16 n) flags
              ∙ pack_u16-bytes f₁ f₀ h.1.1.1.1.1.1.0 h.1.1.1.1.1.1.1.0)
            (ap pack_words words ∙ packed)))

-- A sequence of bytes that is accepted is the datagram of the packet that it was read as.
pub to_bytes-from_bytes :
    (bytes : List ℕ) (p : HostInterfacePacket)
    → All IsByte bytes
    → from_bytes bytes ≡ ok p
    → to_bytes p ≡ ok bytes
to_bytes-from_bytes (m₀ ∷ m₁ ∷ m₂ ∷ m₃ ∷ s₃ ∷ s₂ ∷ s₁ ∷ s₀ ∷ c₁ ∷ c₀ ∷ f₁ ∷ f₀ ∷ body) p v h =
    let (m, a) = from_bytes-Accepts m₀ m₁ m₂ m₃ s₃ s₂ s₁ s₀ c₁ c₀ (f₁ ∷ f₀ ∷ body) p h in
    to_bytes-accepted s₃ s₂ s₁ s₀ c₁ c₀ f₁ f₀ (c₁ * 256 + c₀ - 1) body p v.1.1.1.1
      (omega (arith, a.counted)) a
    ∙ ap (λ (bs : List ℕ). ok (bs ++ (s₃ ∷ s₂ ∷ s₁ ∷ s₀ ∷ c₁ ∷ c₀ ∷ f₁ ∷ f₀ ∷ body))) (sym m)
to_bytes-from_bytes (m₀ ∷ m₁ ∷ m₂ ∷ m₃ ∷ s₃ ∷ s₂ ∷ s₁ ∷ s₀ ∷ c₁ ∷ c₀ ∷ rest) p v h =
    let (m, a) = from_bytes-Accepts m₀ m₁ m₂ m₃ s₃ s₂ s₁ s₀ c₁ c₀ rest p h in
    absurd (omega (arith, a.counted, a.sized))
to_bytes-from_bytes _ p v h = unfold from_bytes in cc
