-- ===== src/Trace/H316.antt =====
-- ncc/h316_journey.py: `parse_h316_trace` over its matched lines, the reassembly of received chunks, and
-- the observation of a transfer.
pub mod Groups
pub mod Chunks
use arpanet_redux.Prelude.{
  ℕ, ◌+◌, Bool, true, false, not, ◌&&◌, Option, none, some, List, [], ◌∷◌, ◌++◌, String, ◌==◌,
  if◌then◌else◌, length, Result, ok, err, ◌>>=◌, ◌>>◌, require, same_text,
}
use arpanet_redux.Journey.{
  BoundaryDirection, JourneyValidationError, ingress, egress, MessageJourneyObservation,
}
use arpanet_redux.Journey.Seams.{Trace, observation_from_unparsed_external_trace}

pub data Action : Type 0 where
  sent received : Action

-- What the first of `_UDP`, `_MESSAGE`, `_WORDS`, `_REPEAT` and `_RECEIVE_DONE` that matches finds in a
-- line; of the tokens of a line of words, `none` is one that has not six octal digits.
pub data Line : Type 0 where
  udp : (tick : ℕ) → String → Action → (sequence : ℕ) → Line
  message : (tick : ℕ) → String → Action → (length : ℕ) → Line
  words : (tick : ℕ) → String → List (Option ℕ) → Line
  repeat : (tick : ℕ) → Line
  receive_done : (tick : ℕ) → String → (number : ℕ) → Line
  unmatched : Line

pub record H316TraceTransfer : Type 0 where
  pub source_local_sequence : ℕ
  pub simulator_tick : ℕ
  pub device : String
  pub action : Action
  pub declared_word_count : ℕ
  pub words : List ℕ
  pub transport_sequence : Option ℕ
  pub message_number : Option ℕ
  pub complete : Bool

pub record PendingTransfer : Type 0 where
  pub simulator_tick : ℕ
  pub device : String
  pub action : Action
  pub declared_word_count : ℕ
  pub words : List ℕ
  pub transport_sequence : Option ℕ
  pub message_number : Option ℕ
  pub compressed : Bool

abbrev pub is_received : Action → Bool
is_received received = true
is_received sent = false

-- `last_received_transport`, by tick and device.
abbrev pub Transports : Type 0
Transports = ℕ → String → Option ℕ

abbrev pub set_transport : Transports → ℕ → String → Option ℕ → Transports
set_transport known tick device o = λ t d. if tick == t && same_text device d then o else known t d

-- `finish`: the records, and then those from `rest`.
abbrev pub finish : Option PendingTransfer → List PendingTransfer → List PendingTransfer
finish none rest = rest
finish (some p) rest = p ∷ rest

-- A datagram sent is that of the pending transfer of its device.
abbrev pub sent_with : ℕ → String → Option PendingTransfer → Option PendingTransfer
sent_with sequence device none = none
sent_with sequence device (some p) = some (
    if same_text p.device device && not (is_received p.action)
    then record p { transport_sequence = some sequence }
    else p)

-- The loop over the tokens of a line.
abbrev pub add_tokens : List (Option ℕ) → PendingTransfer → PendingTransfer
add_tokens [] p = p
add_tokens (none ∷ tokens) p = add_tokens tokens (record p { compressed = true })
add_tokens (some w ∷ tokens) p = add_tokens tokens (record p { words = p.words ++ (w ∷ []) })

abbrev pub add_words :
    ℕ → String → List (Option ℕ) → Option PendingTransfer → Option PendingTransfer
add_words tick device tokens none = none
add_words tick device tokens (some p) =
    some (if tick == p.simulator_tick && same_text device p.device then add_tokens tokens p else p)

abbrev pub note_repeat : ℕ → Option PendingTransfer → Option PendingTransfer
note_repeat tick none = none
note_repeat tick (some p) =
    some (if tick == p.simulator_tick then record p { compressed = true } else p)

-- The transfer that a line on the end of a receipt finishes.
abbrev pub done_by : String → ℕ → Option PendingTransfer → Option PendingTransfer
done_by device number none = none
done_by device number (some p) =
    if is_received p.action && same_text device p.device
    then some (record p { message_number = some number })
    else none

abbrev pub unless {ℓ} : {A : Type ℓ} → Option A → Option A → Option A
unless none o = o
unless (some a) o = none

-- The loop, over the lines that are left; it returns the records that it appends from there on.
unfoldable pub parse_lines : List Line → Option PendingTransfer → Transports → List PendingTransfer
parse_lines [] pending known = finish pending []
parse_lines (udp tick device received sequence ∷ lines) pending known =
    parse_lines lines pending (set_transport known tick device (some sequence))
parse_lines (udp tick device sent sequence ∷ lines) pending known =
    parse_lines lines (sent_with sequence device pending) known
parse_lines (message tick device action count ∷ lines) pending known = finish pending (
    parse_lines lines
      (some (record {
        simulator_tick = tick;
        device = device;
        action = action;
        declared_word_count = count;
        words = [];
        transport_sequence = known tick device;
        message_number = none;
        compressed = false;
      }))
      (set_transport known tick device none))
parse_lines (words tick device tokens ∷ lines) pending known =
    parse_lines lines (add_words tick device tokens pending) known
parse_lines (repeat tick ∷ lines) pending known = parse_lines lines (note_repeat tick pending) known
parse_lines (receive_done tick device number ∷ lines) pending known =
    let ended = done_by device number pending in
    finish ended (parse_lines lines (unless ended pending) known)
parse_lines (unmatched ∷ lines) pending known = parse_lines lines pending known

abbrev pub transfer : ℕ → PendingTransfer → H316TraceTransfer
transfer index p = record {
  source_local_sequence = index;
  simulator_tick = p.simulator_tick;
  device = p.device;
  action = p.action;
  declared_word_count = p.declared_word_count;
  words = p.words;
  transport_sequence = p.transport_sequence;
  message_number = p.message_number;
  complete = not p.compressed && (length p.words == p.declared_word_count);
}

abbrev pub transfers : ℕ → List PendingTransfer → List H316TraceTransfer
transfers index [] = []
transfers index (p ∷ ps) = transfer index p ∷ transfers (index + 1) ps

abbrev pub same_number : Option ℕ → Option ℕ → Bool
same_number (some n) (some m) = n == m
same_number _ _ = false

-- `transfer` continues `previous`.
unfoldable pub continues : H316TraceTransfer → H316TraceTransfer → Bool
continues previous t =
    is_received t.action
    && (is_received previous.action
        && (same_text previous.device t.device
            && same_number previous.message_number t.message_number))

abbrev pub joined : H316TraceTransfer → H316TraceTransfer → H316TraceTransfer
joined previous t = record previous {
  declared_word_count = previous.declared_word_count + t.declared_word_count;
  words = previous.words ++ t.words;
  complete = previous.complete && t.complete;
}

-- The loop behind the first transfer, with the one that ends `reassembled`.
unfoldable pub reassemble_after :
    H316TraceTransfer → List H316TraceTransfer → List H316TraceTransfer
reassemble_after last [] = last ∷ []
reassemble_after last (t ∷ ts) = elim (continues last t) [
  | true ↦ reassemble_after (joined last t) ts
  | false ↦ last ∷ reassemble_after t ts
]

unfoldable pub reassemble_received_chunks : List H316TraceTransfer → List H316TraceTransfer
unfolding reassemble_after
reassemble_received_chunks [] = []
reassemble_received_chunks (t ∷ ts) = reassemble_after t ts

unfoldable pub parse_h316_trace : List Line → List H316TraceTransfer
unfolding parse_lines reassemble_received_chunks
parse_h316_trace lines =
    reassemble_received_chunks (transfers 1 (parse_lines lines none (λ t d. none)))

pub data H316TraceError : Type 0 where
  incomplete contradicted : H316TraceError
  invalid : JourneyValidationError → H316TraceError

abbrev pub invalidate {ℓ} : {A : Type ℓ} → Result JourneyValidationError A → Result H316TraceError A
invalidate (ok a) = ok a
invalidate (err e) = err (invalid e)

-- The action is the one that the direction expects.
abbrev pub agrees : BoundaryDirection → Action → Bool
agrees ingress a = is_received a
agrees egress a = not (is_received a)

-- The number, the tick and the transport sequence are those of the transfer, whatever `t` has.
unfoldable pub observation_from_h316_transfer :
    H316TraceTransfer → Trace → Result H316TraceError MessageJourneyObservation
unfolding observation_from_unparsed_external_trace
observation_from_h316_transfer h t = do
  require h.complete incomplete
  require (agrees t.direction h.action) contradicted
  invalidate (
      observation_from_unparsed_external_trace "h316-hi-mi-trace"
        (record t {
          source_local_sequence = h.source_local_sequence;
          simulator_tick = some h.simulator_tick;
        })
        h.transport_sequence)
