-- ===== src/Trace/Ka10/Leader/Canonical.antt =====
-- The canonical long leader of a short one, and that `ka10_message_as_nosc_words` inverts it.
use arpanet_redux.Prelude.{
  ℕ, zero, suc, ◌+◌, ◌-◌, ◌*◌, ◌/◌, ◌%◌, ◌≤◌, ◌<◌, ◌≡◌, ◌≢◌, refl, ap, Bool, true, false, List, [],
  ◌∷◌, ◌++◌, bit_and, ltb, leb, ◌==◌, ==_iff, ==-refl, le→leb, if◌then◌else◌, length, drop, take,
  ok, arith,
}
use arpanet_redux.Prelude.Bits.{bit_and-15, bit_and-255, bit_and-shift}
use arpanet_redux.Trace.Ka10.Leader.{
  all_zero, new_format_flag, new_for_imp, flag, short_type, short_subtype, short_leader, short_host,
  check_leader, data_words, nosc_words,
}
use arpanet_redux.Trace.Ka10.Leader.Bounds.{bit_and-65520}

-- A short leader, field by field.
pub record ShortLeader : Type 0 where
  pub priority : Bool
  pub for_imp : Bool
  pub trace : Bool
  pub octal : Bool
  pub message_type : ℕ
  pub host : ℕ
  pub imp : ℕ
  pub identifier : ℕ
  pub subtype : ℕ

-- The fields fit their bits, and the subtype is one that the long form does not fold: 0 in an
-- uncontrolled message (type 3) and in a NOP (type 4), and not 3 in a regular one (type 0).
pub record IsCanonical (s : ShortLeader) : Type 0 where
  pub type_fits : s.message_type < 16
  pub host_fits : s.host < 4
  pub imp_fits : s.imp < 64
  pub identifier_fits : s.identifier < 4096
  pub subtype_fits : s.subtype < 16
  pub uncontrolled : s.message_type ≡ 3 → s.subtype ≡ 0
  pub nop : s.message_type ≡ 4 → s.subtype ≡ 0
  pub regular : s.message_type ≡ 0 → s.subtype ≢ 3

abbrev pub bit : Bool → ℕ
bit true = 1
bit false = 0

abbrev pub short_words : ShortLeader → ℕ × ℕ
short_words s = (
  (bit s.priority * 8 + bit s.for_imp * 4 + bit s.trace * 2 + bit s.octal) * 4096
      + s.message_type * 256
      + s.host * 64
      + s.imp,
  s.identifier * 16 + s.subtype,
)

abbrev pub zeros : ℕ → List ℕ
zeros zero = []
zeros (suc n) = 0 ∷ zeros n

abbrev pub long_type : ℕ → ℕ
long_type t = if t == 3 then 0 else t

abbrev pub long_subtype : ℕ → ℕ → ℕ
long_subtype t s = if t == 3 then 3 else s

-- The words of the long form, with `padding` words of zeros between the leader and the data.
abbrev pub long_words : ShortLeader → ℕ → List ℕ → List ℕ
long_words s padding after =
    new_format_flag
    ∷ (bit s.trace * 2048 + bit s.octal * 1024 + long_type s.message_type)
    ∷ (bit s.priority * 32768 + 7 * 256 + bit s.for_imp * 252 + s.host)
    ∷ s.imp
    ∷ (s.identifier * 16 + long_subtype s.message_type s.subtype)
    ∷ (length after * 16)
    ∷ (zeros padding ++ after)

long_type-lt : (t : ℕ) → t < 16 → long_type t < 16
long_type-lt t h = ground arith

long_subtype-lt : (t s : ℕ) → s < 16 → long_subtype t s < 16
long_subtype-lt t s h = ground arith

bit-le : (b : Bool) → bit b ≤ 1
bit-le true = omega arith
bit-le false = omega arith

zeros_lem :
    (n : ℕ) (after : List ℕ)
    → (all_zero (take n (zeros n ++ after)) ≡ true) × (drop n (zeros n ++ after) ≡ after)
zeros_lem zero after = (refl, refl)
zeros_lem (suc n) after = zeros_lem n after

data_words_lem :
    (padding : ℕ) (after : List ℕ)
    → data_words
        (96 + padding * 16 + length after * 16)
        (length after * 16)
        (zeros padding ++ after)
      ≡ ok after
unfolding data_words
data_words_lem padding after =
    let count : (96 + padding * 16 + length after * 16 - 96 - length after * 16) / 16 ≡ padding =
      omega arith in
    let (a, b) = zeros_lem padding after in
    let bits = 96 + padding * 16 + length after * 16 in
    let whole : (length after * 16 % 16 == 0) ≡ true = (==_iff _ _).1 (omega arith) in
    let within : ltb (bits - 96) (length after * 16) ≡ false = ground arith in
    let padded : ((bits - 96 - length after * 16) % 16 == 0) ≡ true =
      (==_iff _ _).1 (omega arith) in
    rw (whole, within, padded, count, a, b, ==-refl (length after * 16))

flag-trace : (t o : Bool) → flag (bit t * 8 + bit o * 4) 8 2 ≡ bit t * 2
flag-trace true true = refl
flag-trace true false = refl
flag-trace false true = refl
flag-trace false false = refl

flag-octal : (t o : Bool) → flag (bit t * 8 + bit o * 4) 4 1 ≡ bit o
flag-octal true true = refl
flag-octal true false = refl
flag-octal false true = refl
flag-octal false false = refl

flag-rest : (t o : Bool) → bit_and (bit t * 8 + bit o * 4) 3 ≡ 0
flag-rest true true = refl
flag-rest true false = refl
flag-rest false true = refl
flag-rest false false = refl

flag-priority : (p : Bool) → flag (bit p * 128 + 7) 128 8 ≡ bit p * 8
flag-priority true = refl
flag-priority false = refl

address_lem : (p : Bool) → bit_and (bit p * 128 + 7) 127 ≡ 7
address_lem true = refl
address_lem false = refl

for_imp_lem :
    (f : Bool) (host : ℕ)
    → host < 4
    → ((if leb new_for_imp (bit f * 252 + host) then 4 else 0) ≡ bit f * 4)
      × (short_host (bit f * 252 + host) ≡ host)
for_imp_lem true host h = ground arith
for_imp_lem false host h = ground arith

module _ (s : ShortLeader) (c : IsCanonical s) where
  abbrev w1 : ℕ
  w1 = bit s.trace * 2048 + bit s.octal * 1024 + long_type s.message_type

  abbrev w2 : ℕ
  w2 = bit s.priority * 32768 + 7 * 256 + bit s.for_imp * 252 + s.host

  flags_lem : bit_and (w1 / 256) 15 ≡ bit s.trace * 8 + bit s.octal * 4
  flags_lem = omega (
    arith,
    bit_and-15 (w1 / 256),
    bit-le s.trace,
    bit-le s.octal,
    long_type-lt s.message_type c.type_fits,
  )

  type_lem : bit_and w1 255 ≡ long_type s.message_type
  type_lem = omega (
    arith,
    bit_and-255 w1,
    bit-le s.trace,
    bit-le s.octal,
    long_type-lt s.message_type c.type_fits,
  )

  top_lem : bit_and w1 61440 ≡ 0
  top_lem = omega (
    arith,
    bit_and-shift 12 w1 15,
    bit_and-15 (w1 / 4096),
    bit-le s.trace,
    bit-le s.octal,
    long_type-lt s.message_type c.type_fits,
  )

  host_type_lem : bit_and (w2 / 256) 255 ≡ bit s.priority * 128 + 7
  host_type_lem =
      omega (arith, bit_and-255 (w2 / 256), bit-le s.priority, bit-le s.for_imp, c.host_fits)

  host_lem : bit_and w2 255 ≡ bit s.for_imp * 252 + s.host
  host_lem = omega (arith, bit_and-255 w2, bit-le s.priority, bit-le s.for_imp, c.host_fits)

  subtype_lem :
      bit_and (s.identifier * 16 + long_subtype s.message_type s.subtype) 15
      ≡ long_subtype s.message_type s.subtype
  subtype_lem = omega (
    arith,
    bit_and-15 (s.identifier * 16 + long_subtype s.message_type s.subtype),
    long_subtype-lt s.message_type s.subtype c.subtype_fits,
  )

  identifier_lem :
      bit_and (s.identifier * 16 + long_subtype s.message_type s.subtype) 65520 ≡ s.identifier * 16
  identifier_lem = omega (
    arith,
    bit_and-65520 (s.identifier * 16 + long_subtype s.message_type s.subtype),
    long_subtype-lt s.message_type s.subtype c.subtype_fits,
    c.identifier_fits,
  )

  folded :
      (short_type (long_type s.message_type) (long_subtype s.message_type s.subtype)
        ≡ s.message_type)
      × (short_subtype (long_type s.message_type) (long_subtype s.message_type s.subtype)
          ≡ s.subtype)
  folded = ground (arith, c.uncontrolled, c.nop, c.regular)

  check_lem : check_leader w1 w2 s.imp ≡ ok tt
  unfolding check_leader
  check_lem =
      let a : ltb 63 s.imp ≡ false = ground (arith, c.imp_fits) in
      let b : ltb 15 (long_type s.message_type) ≡ false =
        ground (arith, long_type-lt s.message_type c.type_fits) in
      rw (
        top_lem,
        flags_lem,
        flag-rest s.trace s.octal,
        host_type_lem,
        address_lem s.priority,
        type_lem,
        a,
        b,
      )

  leader_lem :
      short_leader w1 w2 s.imp (s.identifier * 16 + long_subtype s.message_type s.subtype)
      ≡ short_words s
  leader_lem =
      let (f, g) = for_imp_lem s.for_imp s.host c.host_fits in
      let (t, u) = folded in
      rw
        (
          flags_lem,
          type_lem,
          host_type_lem,
          host_lem,
          subtype_lem,
          identifier_lem,
          t,
          u,
          f,
          g,
          flag-trace s.trace s.octal,
          flag-octal s.trace s.octal,
          flag-priority s.priority,
        )
        (ground arith)

-- The canonical long form of a short leader, of its data and of any padding is turned back into the
-- words of that leader and the data.
pub nosc_words-long_words :
    (s : ShortLeader) (padding : ℕ) (after : List ℕ)
    → IsCanonical s
    → nosc_words (96 + padding * 16 + length after * 16) (long_words s padding after)
      ≡ ok ((short_words s).0 ∷ (short_words s).1 ∷ after)
unfolding nosc_words
nosc_words-long_words s padding after c =
    let (_, g) = for_imp_lem s.for_imp s.host c.host_fits in
    let k : leb (short_host (bit_and (w2 s c) 255)) 3 ≡ true =
      rw (host_lem s c, g) (le→leb s.host 3 (omega (arith, c.host_fits))) in
    rw (check_lem s c, data_words_lem padding after, k)
      (ap (λ l. ok (l.0 ∷ l.1 ∷ after)) (leader_lem s c))
