-- ===== src/Trace/Imp11a/Format.antt =====
-- The lines that a well-formed list of messages is written as in an IMP11-A trace, and what the checks
-- of `parse_imp11a_trace` say of one line.
use arpanet_redux.Prelude.{
  ℕ, ◌+◌, ◌%◌, ◌≤◌, ◌<◌, ◌≡◌, ◌≢◌, ◌↔◌, Option, none, some, List, [], ◌∷◌, length, ok, arith,
}
use arpanet_redux.Trace.Imp11a.{
  Line, Store, unmarked, malformed, message, dma, complete, Imp11aInputWord, Imp11aInputMessage,
  PendingMessage, pdp11_memory_word, stored_word, check_message, check_complete,
}

-- The lines with the marker.
abbrev pub marked : List Line → List Line
marked [] = []
marked (unmarked ∷ rest) = marked rest
marked (malformed ∷ rest) = malformed ∷ marked rest
marked (message t n ∷ rest) = message t n ∷ marked rest
marked (dma d ∷ rest) = dma d ∷ marked rest
marked (complete t n k ∷ rest) = complete t n k ∷ marked rest

abbrev pub store : ℕ → Imp11aInputWord → Store
store sequence w = record {
  tick = w.store_tick;
  sequence = sequence;
  word_index = w.word_index;
  dma_address = w.dma_address;
  wire_value = w.wire_value;
  guest_value = w.guest_value;
}

-- The stores of words, in front of what follows.
abbrev pub stores : ℕ → List Imp11aInputWord → List Line → List Line
stores sequence [] after = after
stores sequence (w ∷ ws) after = dma (store sequence w) ∷ stores sequence ws after

-- The lines of messages.
abbrev pub written : List Imp11aInputMessage → List Line
written [] = []
written (m ∷ ms) =
    message m.start_tick m.source_local_sequence
    ∷ stores m.source_local_sequence m.words
        (complete m.complete_tick m.source_local_sequence (length m.words) ∷ written ms)

abbrev pub NotBefore : Option ℕ → ℕ → Type 0
NotBefore none t = Unit
NotBefore (some previous) t = previous ≤ t

abbrev pub Next : Option ℕ → ℕ → Type 0
Next none n = Unit
Next (some previous) n = n ≡ previous + 1

-- A word with an even 18-bit address, whose value in memory has the two octets swapped.
abbrev pub IsStored : Imp11aInputWord → Type 0
IsStored w =
    (w.dma_address ≤ 0o777776)
    × (w.dma_address % 2 ≡ 0)
    × (w.wire_value < 65536)
    × (w.guest_value ≡ pdp11_memory_word w.wire_value)

-- Words numbered from `i`, with ticks from `t` on that do not decrease.
abbrev pub Stored : ℕ → ℕ → List Imp11aInputWord → Type 0
Stored i t [] = Unit
Stored i t (w ∷ ws) =
    (w.word_index ≡ i) × IsStored w × (t ≤ w.store_tick) × Stored (i + 1) w.store_tick ws

abbrev pub last_tick : ℕ → List Imp11aInputWord → ℕ
last_tick t [] = t
last_tick t (w ∷ ws) = last_tick w.store_tick ws

-- Messages numbered one by one above 0, none of them empty, with ticks that do not decrease.
abbrev pub Messages : Option ℕ → Option ℕ → List Imp11aInputMessage → Type 0
Messages n t [] = Unit
Messages n t (m ∷ ms) =
    (0 < m.source_local_sequence)
    × Next n m.source_local_sequence
    × NotBefore t m.start_tick
    × (m.words ≢ [])
    × Stored 0 m.start_tick m.words
    × (last_tick m.start_tick m.words ≤ m.complete_tick)
    × Messages (some m.source_local_sequence) (some m.complete_tick) ms

pub check_message_iff :
    (tick sequence : ℕ) (n t : Option ℕ)
    → (check_message tick sequence n t ≡ ok tt)
      ↔ ((0 < sequence) × Next n sequence × NotBefore t tick)
unfolding check_message
check_message_iff tick sequence none none = ground arith
check_message_iff tick sequence none (some t) = ground arith
check_message_iff tick sequence (some n) none = ground arith
check_message_iff tick sequence (some n) (some t) = ground arith

pub check_complete_iff :
    (tick sequence words : ℕ) (p : PendingMessage) (t : ℕ)
    → (check_complete tick sequence words p (some t) ≡ ok tt)
      ↔ ((sequence ≡ p.sequence) × (words ≡ length p.words) × (0 < words) × (t ≤ tick))
unfolding check_complete
check_complete_iff tick sequence words p t = ground arith

pub word_of : Store → Imp11aInputWord
word_of d = record {
  word_index = d.word_index;
  dma_address = d.dma_address;
  wire_value = d.wire_value;
  guest_value = d.guest_value;
  store_tick = d.tick;
}

-- A store that is accepted is that of the word returned, the next of its message.
pub stored_word-eq-ok :
    (d : Store) (p : PendingMessage) (t : ℕ) (w : Imp11aInputWord)
    → stored_word d p (some t) ≡ ok w
    → (d ≡ store p.sequence w) × (w.word_index ≡ length p.words) × IsStored w × (t ≤ w.store_tick)
unfolding stored_word
stored_word-eq-ok d p t w h = ground arith

pub stored_word-store :
    (w : Imp11aInputWord) (p : PendingMessage) (t : ℕ)
    → w.word_index ≡ length p.words
    → IsStored w
    → t ≤ w.store_tick
    → stored_word (store p.sequence w) p (some t) ≡ ok w
unfolding stored_word
stored_word-store w p t i s h = ground arith
