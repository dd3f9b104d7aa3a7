-- ===== src/Tests/Traces.antt =====
-- Short traces of the three simulators, and the theorems on them.
use arpanet_redux.Prelude.{
  ℕ, ◌*◌, ◌<◌, ◌≡◌, ◌↔◌, refl, true, false, some, none, List, [], ◌∷◌, map, ok, Option, All, arith,
}
use arpanet_redux.Host.Packet.{unpack_words}
use arpanet_redux.Journey.{DecodedMessage}
use arpanet_redux.Journey.ShortLeader.{word_of, decode_nosc_short_leader}
use arpanet_redux.Report.Checksum.{nat}
use arpanet_redux.Trace.H316
use arpanet_redux.Trace.H316.Chunks.{PutTogether, IsCounted, parse_h316_trace-reassembled}
use arpanet_redux.Trace.Imp11a
use arpanet_redux.Trace.Imp11a.Accepts.{parse_imp11a_trace-accepts}
use arpanet_redux.Trace.Ka10
use arpanet_redux.Trace.Ka10.Accepts.{parse_ka10_imp_trace-accepts}
use arpanet_redux.Trace.Ka10.Leader.{
  ka10_message_as_nosc_words, nosc_words, check_leader, data_words,
}
use arpanet_redux.Trace.Ka10.Leader.Bounds.{ka10_message_as_nosc_words-decoded}
use arpanet_redux.Trace.Ka10.Leader.Canonical.{
  ShortLeader, IsCanonical, long_words, nosc_words-long_words,
}

abbrev imp11a_lines : List Imp11a.Line
imp11a_lines =
    Imp11a.message 5 1
    ∷ Imp11a.unmarked
    ∷ Imp11a.dma (record {
      tick = 6;
      sequence = 1;
      word_index = 0;
      dma_address = 0o1000;
      wire_value = 0x0102;
      guest_value = 0x0201;
    })
    ∷ Imp11a.complete 7 1 1
    ∷ []

abbrev imp11a_messages : List Imp11a.Imp11aInputMessage
imp11a_messages =
    record {
      source_local_sequence = 1;
      start_tick = 5;
      complete_tick = 7;
      words =
          record {
            word_index = 0;
            dma_address = 0o1000;
            wire_value = 0x0102;
            guest_value = 0x0201;
            store_tick = 6;
          }
          ∷ [];
    }
    ∷ []

imp11a_parsed : Imp11a.parse_imp11a_trace imp11a_lines ≡ ok imp11a_messages
unfolding Imp11a.parse_imp11a_trace Imp11a.check_message Imp11a.check_complete Imp11a.stored_word
imp11a_parsed = refl

parse_imp11a_trace-accepts_example :
    (Imp11a.parse_imp11a_trace imp11a_lines ≡ ok imp11a_messages) ↔ (
      (Imp11a.Format.marked imp11a_lines ≡ Imp11a.Format.written imp11a_messages)
      × Imp11a.Format.Messages none none imp11a_messages)
parse_imp11a_trace-accepts_example = parse_imp11a_trace-accepts imp11a_lines imp11a_messages

-- Two octets in one word of 32 bits.
abbrev ka10_lines : List (Option Ka10.Line)
ka10_lines =
    some (Ka10.message 5 9 16)
    ∷ none
    ∷ some (
        Ka10.assembly (record {
          tick = 6;
          sequence = 9;
          word_index = 0;
          message_bits = 16;
          start_bit = 0;
          width = 32;
          valid_bits = 16;
          last = true;
          value = 0x0102 * 1048576;
        }))
    ∷ some (
        Ka10.consume (record {
          tick = 8;
          sequence = 9;
          word_index = 0;
          width = 32;
          valid_bits = 16;
          last = true;
          value = 0x0102 * 1048576;
          program_counter = 0o1234;
        }))
    ∷ []

abbrev ka10_messages : List Ka10.Ka10ImpInputMessage
ka10_messages =
    record {
      source_local_sequence = 9;
      receive_tick = 5;
      bit_count = 16;
      words =
          record {
            word_index = 0;
            start_bit = 0;
            width = 32;
            valid_bits = 16;
            last = true;
            value = 0x0102 * 1048576;
            assembly_tick = 6;
            consume_tick = 8;
            program_counter = 0o1234;
          }
          ∷ [];
      content = 1 ∷ 2 ∷ [];
    }
    ∷ []

ka10_parsed : Ka10.parse_ka10_imp_trace ka10_lines ≡ ok ka10_messages
unfolding Ka10.parse_ka10_imp_trace Ka10.check_message Ka10.check_assembly Ka10.check_consume
    Ka10.reconstruct
ka10_parsed = refl

parse_ka10_imp_trace-accepts_example : (Ka10.parse_ka10_imp_trace ka10_lines ≡ ok ka10_messages) ↔ (
    (Ka10.marked ka10_lines ≡ Ka10.Format.written ka10_messages)
    × Ka10.Format.Messages none none ka10_messages)
parse_ka10_imp_trace-accepts_example = parse_ka10_imp_trace-accepts ka10_lines ka10_messages

-- A long leader with one word of padding and one of data.
abbrev long_message : Ka10.Ka10ImpInputMessage
long_message = record {
  source_local_sequence = 1;
  receive_tick = 1;
  bit_count = 128;
  words = [];
  content = 15 ∷ 0 ∷ 0 ∷ 0 ∷ 7 ∷ 1 ∷ 0 ∷ 6 ∷ 0 ∷ 0x20 ∷ 0 ∷ 16 ∷ 0 ∷ 0 ∷ 0xAB ∷ 0xCD ∷ [];
}

short_message : ka10_message_as_nosc_words long_message ≡ ok (70 ∷ 32 ∷ 0xABCD ∷ [])
unfolding ka10_message_as_nosc_words check_leader data_words unpack_words
short_message = refl

ka10_message_as_nosc_words-decoded_example :
    (first : ℕ) × ((second : ℕ) × ((after : List ℕ) × (70 ∷ 32 ∷ 0xABCD ∷ []
          ≡ first ∷ second ∷ after)
        × All (λ w. w < 65536) (70 ∷ 32 ∷ 0xABCD ∷ [])
        × ((d : DecodedMessage) × (decode_nosc_short_leader (map nat (70 ∷ 32 ∷ 0xABCD ∷ []))
              ≡ ok d)
            × (word_of d.message_type d.host ≡ some first)
            × (word_of d.link d.subtype ≡ some second))))
ka10_message_as_nosc_words-decoded_example =
    ka10_message_as_nosc_words-decoded long_message (70 ∷ 32 ∷ 0xABCD ∷ []) (omega arith)
      short_message

-- A traced RFNM from host 2 on IMP 6.
abbrev traced : ShortLeader
traced = record {
  priority = false;
  for_imp = false;
  trace = true;
  octal = false;
  message_type = 5;
  host = 2;
  imp = 6;
  identifier = 3;
  subtype = 1;
}

traced-IsCanonical : IsCanonical traced
traced-IsCanonical = record {
  type_fits = omega arith;
  host_fits = omega arith;
  imp_fits = omega arith;
  identifier_fits = omega arith;
  subtype_fits = omega arith;
  uncontrolled = λ h. absurd (omega arith);
  nop = λ h. absurd (omega arith);
  regular = λ h. absurd (omega arith);
}

nosc_words-long_words_example :
    nosc_words 144 (long_words traced 2 (7 ∷ [])) ≡ ok (0x2586 ∷ 0x31 ∷ 7 ∷ [])
nosc_words-long_words_example = nosc_words-long_words traced 2 (7 ∷ []) traced-IsCanonical

-- A message received in two chunks, the second with a datagram before it.
abbrev h316_lines : List H316.Line
h316_lines =
    H316.message 4 "HI1" H316.received 1
    ∷ H316.words 4 "HI1" (some 0o17 ∷ [])
    ∷ H316.receive_done 4 "HI1" 3
    ∷ H316.udp 5 "HI1" H316.received 8
    ∷ H316.message 5 "HI1" H316.received 1
    ∷ H316.words 5 "HI1" (some 2 ∷ [])
    ∷ H316.receive_done 5 "HI1" 3
    ∷ []

h316_parsed :
    H316.parse_h316_trace h316_lines
    ≡ record {
      source_local_sequence = 1;
      simulator_tick = 4;
      device = "HI1";
      action = H316.received;
      declared_word_count = 2;
      words = 0o17 ∷ 2 ∷ [];
      transport_sequence = none;
      message_number = some 3;
      complete = true;
    }
      ∷ []
unfolding H316.parse_h316_trace H316.continues
h316_parsed = refl

parse_h316_trace-reassembled_example :
    PutTogether
      (H316.transfers 1 (H316.parse_lines h316_lines none (λ t d. none)))
      (H316.parse_h316_trace h316_lines)
    × All IsCounted (H316.parse_h316_trace h316_lines)
parse_h316_trace-reassembled_example = parse_h316_trace-reassembled h316_lines
