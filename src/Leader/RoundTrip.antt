-- ===== src/Leader/RoundTrip.antt =====
-- The leader and its two words determine one another.
use arpanet_redux.Prelude.{
  ℕ, ◌+◌, ◌*◌, ◌/◌, ◌%◌, ◌^◌, ◌≤◌, ◌<◌, ◌≡◌, refl, sym, ap, ◌∙◌, bit_and, Bool, true, false, List,
  [], ◌∷◌, ◌==◌, if◌then◌else◌, ok, ◌>>=◌, ◌↔◌, >>=-eq-ok, ok-injective, arith,
}
use mathlib.Core.Path.{ap₂}
use arpanet_redux.Prelude.Bits.{
  bit_and-bit, bit_and-shift, bit_and-3, bit_and-15, bit_and-63, bit_and-4095,
}
use arpanet_redux.Report.Checksum.{Value, nat}
use arpanet_redux.Report.Checksum.Laws.{IsWord}
use arpanet_redux.Leader.{
  OldStyleImpToHostLeader, masked, leader_words, decode_old_style_imp_to_host_leader,
}

abbrev pub flag : Bool → ℕ
flag b = if b then 1 else 0

-- The two words of a leader, field by field.
abbrev pub first_word : OldStyleImpToHostLeader → ℕ
first_word l =
    flag l.priority * 32768
    + flag l.from_imp * 16384
    + flag l.trace * 8192
    + flag l.octal * 4096
    + l.message_type * 256
    + l.source_host_field * 64
    + l.source_imp

abbrev pub second_word : OldStyleImpToHostLeader → ℕ
second_word l = l.message_id * 16 + l.subtype

-- The fields fit their places.
pub record IsLeader (l : OldStyleImpToHostLeader) : Type 0 where
  pub type_fits : l.message_type < 16
  pub host_fits : l.source_host_field < 4
  pub imp_fits : l.source_imp < 64
  pub id_fits : l.message_id < 4096
  pub subtype_fits : l.subtype < 16

-- The fields of two words in plain arithmetic.
abbrev fields_of : ℕ → ℕ → OldStyleImpToHostLeader
fields_of a b = record {
  priority = a / 32768 % 2 == 1;
  from_imp = a / 16384 % 2 == 1;
  trace = a / 8192 % 2 == 1;
  octal = a / 4096 % 2 == 1;
  message_type = a / 256 % 16;
  source_host_field = a / 64 % 4;
  source_imp = a % 64;
  message_id = b / 16 % 4096;
  subtype = b % 16;
}

masked-bits :
    (a : ℕ)
    → (masked a 0x8000 ≡ (a / 32768 % 2 == 1))
      × (masked a 0x4000 ≡ (a / 16384 % 2 == 1))
      × (masked a 0x2000 ≡ (a / 8192 % 2 == 1))
      × (masked a 0x1000 ≡ (a / 4096 % 2 == 1))
masked-bits a = (
  ground (arith, bit_and-bit 15 a),
  ground (arith, bit_and-bit 14 a),
  ground (arith, bit_and-bit 13 a),
  ground (arith, bit_and-bit 12 a),
)

masked-fields :
    (a b : ℕ)
    → (bit_and a 0x0F00 / 2 ^ 8 ≡ a / 256 % 16)
      × (bit_and a 0x00C0 / 2 ^ 6 ≡ a / 64 % 4)
      × (bit_and b 0xFFF0 / 2 ^ 4 ≡ b / 16 % 4096)
masked-fields a b = (
  omega (arith, bit_and-shift 8 a 15, bit_and-15 (a / 256)),
  omega (arith, bit_and-shift 6 a 3, bit_and-3 (a / 64)),
  omega (arith, bit_and-shift 4 b 4095, bit_and-4095 (b / 16)),
)

-- The leader that the code builds from two words.
abbrev built : ℕ → ℕ → OldStyleImpToHostLeader
built a b = record {
  priority = masked a 0x8000;
  from_imp = masked a 0x4000;
  trace = masked a 0x2000;
  octal = masked a 0x1000;
  message_type = bit_and a 0x0F00 / 2 ^ 8;
  source_host_field = bit_and a 0x00C0 / 2 ^ 6;
  source_imp = bit_and a 0x003F;
  message_id = bit_and b 0xFFF0 / 2 ^ 4;
  subtype = bit_and b 0x000F;
}

built-fields : (a b : ℕ) → built a b ≡ fields_of a b
built-fields a b =
    let (p, f, t, o) = masked-bits a in
    let (m, h, d) = masked-fields a b in
    λ i. record {
      priority = p i;
      from_imp = f i;
      trace = t i;
      octal = o i;
      message_type = m i;
      source_host_field = h i;
      source_imp = bit_and-63 a i;
      message_id = d i;
      subtype = bit_and-15 b i;
    }

leader_words-nat : (a b : ℕ) → IsWord a → IsWord b → leader_words (nat a ∷ nat b ∷ []) ≡ ok (a, b)
unfolding leader_words
leader_words-nat a b ha hb = ground arith

leader-bind :
    (vs : List Value)
    → decode_old_style_imp_to_host_leader vs ≡ (leader_words vs >>= λ p. ok (built p.0 p.1))
unfolding decode_old_style_imp_to_host_leader
leader-bind vs = refl

decode-built :
    (a b : ℕ)
    → leader_words (nat a ∷ nat b ∷ []) ≡ ok (a, b)
    → decode_old_style_imp_to_host_leader (nat a ∷ nat b ∷ []) ≡ ok (built a b)
decode-built a b h = leader-bind (nat a ∷ nat b ∷ []) ∙ ap (λ r. r >>= λ p. ok (built p.0 p.1)) h

decode-fields :
    (a b : ℕ)
    → IsWord a
    → IsWord b
    → decode_old_style_imp_to_host_leader (nat a ∷ nat b ∷ []) ≡ ok (fields_of a b)
decode-fields a b ha hb = decode-built a b (leader_words-nat a b ha hb) ∙ ap ok (built-fields a b)

flag-bit : (n : ℕ) → flag (n % 2 == 1) ≡ n % 2
flag-bit n = ground arith

words-fields :
    (a b : ℕ)
    → IsWord a
    → IsWord b
    → IsLeader (fields_of a b)
      × (first_word (fields_of a b) ≡ a)
      × (second_word (fields_of a b) ≡ b)
words-fields a b ha hb = (
  omega arith,
  omega
      (arith, flag-bit (a / 32768), flag-bit (a / 16384), flag-bit (a / 8192), flag-bit (a / 4096)),
  omega arith,
)

flag-le : (b : Bool) → flag b ≤ 1
flag-le true = omega arith
flag-le false = omega arith

flag-== : (b : Bool) → (flag b == 1) ≡ b
flag-== true = refl
flag-== false = refl

-- The digits of a first word.
first_digits :
    (p f t o m h n : ℕ)
    → p ≤ 1
    → f ≤ 1
    → t ≤ 1
    → o ≤ 1
    → m < 16
    → h < 4
    → n < 64
    → let a = p * 32768 + f * 16384 + t * 8192 + o * 4096 + m * 256 + h * 64 + n in
      (a < 65536)
      × (a / 32768 % 2 ≡ p)
      × (a / 16384 % 2 ≡ f)
      × (a / 8192 % 2 ≡ t)
      × (a / 4096 % 2 ≡ o)
      × (a / 256 % 16 ≡ m)
      × (a / 64 % 4 ≡ h)
      × (a % 64 ≡ n)
first_digits p f t o m h n hp hf ht ho hm hh hn = omega arith

fields-words :
    (l : OldStyleImpToHostLeader)
    → IsLeader l
    → IsWord (first_word l)
      × IsWord (second_word l)
      × (fields_of (first_word l) (second_word l) ≡ l)
fields-words l v =
    let (w, p, f, t, o, m, h, n) =
      first_digits (flag l.priority) (flag l.from_imp) (flag l.trace) (flag l.octal) l.message_type
        l.source_host_field l.source_imp (flag-le l.priority) (flag-le l.from_imp) (flag-le l.trace)
        (flag-le l.octal) v.type_fits v.host_fits v.imp_fits in
    let one = λ (x y : ℕ) (e : x ≡ y). ap (λ (n : ℕ). n == 1) e in
    (
      w,
      omega (arith, v),
      λ i. record {
        priority = (one _ _ p ∙ flag-== l.priority) i;
        from_imp = (one _ _ f ∙ flag-== l.from_imp) i;
        trace = (one _ _ t ∙ flag-== l.trace) i;
        octal = (one _ _ o ∙ flag-== l.octal) i;
        message_type = m i;
        source_host_field = h i;
        source_imp = n i;
        message_id = id_digit i;
        subtype = subtype_digit i;
      },
    )
  where
    id_digit : (l.message_id * 16 + l.subtype) / 16 % 4096 ≡ l.message_id
    id_digit = omega (arith, v)

    subtype_digit : (l.message_id * 16 + l.subtype) % 16 ≡ l.subtype
    subtype_digit = omega (arith, v)

-- A leader whose fields fit is read back from its two words.
pub decode-leader :
    (l : OldStyleImpToHostLeader)
    → IsLeader l
    → decode_old_style_imp_to_host_leader (nat (first_word l) ∷ nat (second_word l) ∷ []) ≡ ok l
decode-leader l v =
    let (ha, hb, e) = fields-words l v in
    decode-fields (first_word l) (second_word l) ha hb ∙ ap ok e

-- Two words always give a leader; its fields fit, and it has these two words.
pub decode-words :
    (a b : ℕ)
    → IsWord a
    → IsWord b
    → (l : OldStyleImpToHostLeader) × (decode_old_style_imp_to_host_leader (nat a ∷ nat b ∷ [])
        ≡ ok l)
      × IsLeader l
      × (first_word l ≡ a)
      × (second_word l ≡ b)
decode-words a b ha hb =
    let (v, p, q) = words-fields a b ha hb in (fields_of a b, decode-fields a b ha hb, v, p, q)

leader_words-eq-ok :
    (vs : List Value) (a b : ℕ)
    → leader_words vs ≡ ok (a, b)
    → (vs ≡ nat a ∷ nat b ∷ []) × IsWord a × IsWord b
unfolding leader_words
leader_words-eq-ok [] a b h = cc
leader_words-eq-ok (v ∷ []) a b h = cc
leader_words-eq-ok (v ∷ w ∷ []) a b h = ground arith
leader_words-eq-ok (v ∷ w ∷ x ∷ vs) a b h = cc

input_of_IsLeader :
    (vs : List Value) (l : OldStyleImpToHostLeader)
    → decode_old_style_imp_to_host_leader vs ≡ ok l
    → IsLeader l × (vs ≡ nat (first_word l) ∷ nat (second_word l) ∷ [])
input_of_IsLeader vs l h =
    let (pair, e, h') = >>=-eq-ok (leader_words vs) _ (sym (leader-bind vs) ∙ h) in
    let (p, ha, hb) = leader_words-eq-ok vs pair.0 pair.1 e in
    let (v, pa, pb) = words-fields pair.0 pair.1 ha hb in
    let q : l ≡ fields_of pair.0 pair.1 = sym (ok-injective h') ∙ built-fields pair.0 pair.1 in
    (
      rw q v,
      p
          ∙ ap₂ (λ (a : ℕ) (b : ℕ). nat a ∷ nat b ∷ []) (sym pa ∙ ap first_word (sym q))
              (sym pb ∙ ap second_word (sym q)),
    )

-- The decoder returns a leader exactly on the two words that hold its fields, each field within
-- its bits.
pub decode_old_style_imp_to_host_leader-accepts :
    (vs : List Value) (l : OldStyleImpToHostLeader)
    → (decode_old_style_imp_to_host_leader vs ≡ ok l)
      ↔ (IsLeader l × (vs ≡ nat (first_word l) ∷ nat (second_word l) ∷ []))
decode_old_style_imp_to_host_leader-accepts vs l =
    (input_of_IsLeader vs l, λ d. ap decode_old_style_imp_to_host_leader d.1 ∙ decode-leader l d.0)
