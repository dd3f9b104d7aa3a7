-- ===== src/Trace/Ka10/Format.antt =====
-- The lines that a well-formed list of messages is written as in a KA10 IMP trace, and what the checks
-- of `parse_ka10_imp_trace` say of one line.
use arpanet_redux.Prelude.{
  ℕ, ◌+◌, ◌-◌, ◌%◌, ◌≤◌, ◌<◌, ◌≡◌, ◌↔◌, ◌⊎◌, true, false, Option, none, some, List, [], ◌∷◌, length,
  leb, ok, arith,
}
use arpanet_redux.Trace.Imp11a.Format.{NotBefore, Next}
use arpanet_redux.Trace.Ka10.{
  Line, message, assembly, consume, Assembly, Consumption, Ka10ImpInputWord, Ka10ImpInputMessage,
  PendingMessage, width_of, smaller, check_message, check_assembly, check_consume, input_word,
  reconstruct,
}

abbrev pub assembly_of : ℕ → ℕ → Ka10ImpInputWord → Assembly
assembly_of sequence bits w = record {
  tick = w.assembly_tick;
  sequence = sequence;
  word_index = w.word_index;
  message_bits = bits;
  start_bit = w.start_bit;
  width = w.width;
  valid_bits = w.valid_bits;
  last = w.last;
  value = w.value;
}

abbrev pub consumption_of : ℕ → Ka10ImpInputWord → Consumption
consumption_of sequence w = record {
  tick = w.consume_tick;
  sequence = sequence;
  word_index = w.word_index;
  width = w.width;
  valid_bits = w.valid_bits;
  last = w.last;
  value = w.value;
  program_counter = w.program_counter;
}

-- The lines of words, in front of what follows: each is assembled and then consumed.
abbrev pub pairs : ℕ → ℕ → List Ka10ImpInputWord → List Line → List Line
pairs sequence bits [] after = after
pairs sequence bits (w ∷ ws) after =
    assembly (assembly_of sequence bits w)
    ∷ consume (consumption_of sequence w)
    ∷ pairs sequence bits ws after

-- The lines of messages.
abbrev pub written : List Ka10ImpInputMessage → List Line
written [] = []
written (m ∷ ms) =
    message m.receive_tick m.source_local_sequence m.bit_count
    ∷ pairs m.source_local_sequence m.bit_count m.words (written ms)

-- A word of 36 bits, or of 32 with 4 bits of zero below them.
abbrev pub IsAligned : ℕ → ℕ → Type 0
IsAligned width value = ((width ≡ 32) × (value % 16 ≡ 0)) ⊎ (width ≡ 36)

-- The word `i` of a message of `bits` bits, from bit `start` on, with ticks from `t` on.
abbrev pub Fits : ℕ → ℕ → ℕ → ℕ → Ka10ImpInputWord → Type 0
Fits bits i start t w =
    (w.word_index ≡ i)
    × (w.start_bit ≡ start)
    × IsAligned w.width w.value
    × (w.valid_bits ≡ smaller w.width (bits - start))
    × (w.last ≡ leb bits (start + w.width))
    × (t ≤ w.assembly_tick)
    × (w.assembly_tick ≤ w.consume_tick)

-- Words that follow one another up to one that is marked as the last.
abbrev pub Consumed : ℕ → ℕ → ℕ → ℕ → List Ka10ImpInputWord → Type 0
Consumed bits i start t [] = ⊥
Consumed bits i start t (w ∷ ws) =
    Fits bits i start t w
    × (((w.last ≡ true) × (ws ≡ []))
        ⊎ ((w.last ≡ false) × Consumed bits (i + 1) (start + w.width) w.consume_tick ws))

abbrev pub last_tick : ℕ → List Ka10ImpInputWord → ℕ
last_tick t [] = t
last_tick t (w ∷ ws) = last_tick w.consume_tick ws

abbrev pub pending_of : Ka10ImpInputMessage → PendingMessage
pending_of m = record {
  sequence = m.source_local_sequence;
  receive_tick = m.receive_tick;
  bit_count = m.bit_count;
  words = m.words;
}

-- Messages of whole octets, numbered one by one, with ticks that do not decrease, each with the content
-- of its words.
abbrev pub Messages : Option ℕ → Option ℕ → List Ka10ImpInputMessage → Type 0
Messages n t [] = Unit
Messages n t (m ∷ ms) =
    (0 < m.bit_count)
    × (m.bit_count % 8 ≡ 0)
    × Next n m.source_local_sequence
    × NotBefore t m.receive_tick
    × Consumed m.bit_count 0 0 m.receive_tick m.words
    × (reconstruct (pending_of m) ≡ ok m.content)
    × Messages (some m.source_local_sequence) (some (last_tick m.receive_tick m.words)) ms

pub check_message_iff :
    (tick sequence bits : ℕ) (n t : Option ℕ)
    → (check_message tick sequence bits n t ≡ ok tt)
      ↔ ((0 < bits) × (bits % 8 ≡ 0) × Next n sequence × NotBefore t tick)
unfolding check_message
check_message_iff tick sequence bits none none = ground arith
check_message_iff tick sequence bits none (some t) = ground arith
check_message_iff tick sequence bits (some n) none = ground arith
check_message_iff tick sequence bits (some n) (some t) = ground arith

abbrev pub IsAssembled : Assembly → PendingMessage → ℕ → Type 0
IsAssembled a p t =
    (a.sequence ≡ p.sequence)
    × (a.message_bits ≡ p.bit_count)
    × (a.word_index ≡ length p.words)
    × (a.start_bit ≡ width_of p.words)
    × IsAligned a.width a.value
    × (a.valid_bits ≡ smaller a.width (p.bit_count - a.start_bit))
    × (a.last ≡ leb p.bit_count (a.start_bit + a.width))
    × (t ≤ a.tick)

pub check_assembly_iff :
    (a : Assembly) (p : PendingMessage) (t : ℕ)
    → (check_assembly a p (some t) ≡ ok tt) ↔ IsAssembled a p t
unfolding check_assembly
check_assembly_iff a p t = ground arith

abbrev pub IsConsumed : Consumption → Assembly → PendingMessage → ℕ → Type 0
IsConsumed c a p t =
    (c.sequence ≡ p.sequence)
    × (c.word_index ≡ a.word_index)
    × (c.width ≡ a.width)
    × (c.valid_bits ≡ a.valid_bits)
    × (c.last ≡ a.last)
    × (c.value ≡ a.value)
    × (t ≤ c.tick)

pub check_consume_iff :
    (c : Consumption) (a : Assembly) (p : PendingMessage) (t : ℕ)
    → (check_consume c a p (some t) ≡ ok tt) ↔ IsConsumed c a p t
unfolding check_consume
check_consume_iff c a p t = ground arith

-- The two lines of a word, as they are accepted one after the other.
pub accepted_pair :
    (a : Assembly) (c : Consumption) (p : PendingMessage) (t : ℕ)
    → IsAssembled a p t
    → IsConsumed c a p a.tick
    → (a ≡ assembly_of p.sequence p.bit_count (input_word c a))
      × (c ≡ consumption_of p.sequence (input_word c a))
      × Fits p.bit_count (length p.words) (width_of p.words) t (input_word c a)
accepted_pair a c p t h k = ground arith
