-- ===== src/Lib.antt =====
-- Verification of two paths of this repository, with paths named from its root. The first is the
-- historical NCC telemetry: from the datagrams that an H316 IMP sends to the host interface of the
-- Network Control Center, over the numbered events that are recorded, up to what is inferred from them
-- of lines and IMPs. The second is the diagnosis of a message journey: from a topology document and a
-- route through it to the first boundary at which a message was not seen as expected.
--
-- Parts, in the order in which data passes through them:
-- - Host (ncc/host_interface.py): `Host.Packet` has HostInterfacePacket with its checks, to_bytes and
--   from_bytes over lists of bytes; `Host.Ingress` has PassiveHostIngress, whose methods return the
--   new state of the object, beside the result or the exception. The children prove: `RoundTrip` on
--   datagrams, `Step` on one packet, `Trace` on whole histories, `Progress` on delivery.
-- - Leader (ncc/imp_to_host.py): the two-word leader in front of a report, and a whole message.
-- - Report (ncc/report_checksum.py, ncc/trouble_report.py, ncc/throughput_report.py): the checksum
--   and the two fixed formats. A raw word is a `Value`: an integer of either sign or no integer.
--   `Fields` has the law of a tuple that is read word by word.
-- - Events (ncc/events.py): the events of a report, with their numbers.
-- - Receiver (the loop over complete messages in scripts/ncc-host-interface-proof.py): the record of
--   a run, over the parts above.
-- - Reconcile (ncc/reconciliation.py): `Topology` has the checks of the nominal lines and the IMPs at
--   their ends; `Order` the check on the order of events; `Observe` the loop over the events of
--   `reconcile`, with what it keeps of the last observation of each end and each IMP; `Conditions` the
--   state of an end and of a line, which `Lines` and `Mirror` characterize; `Reachability` the state of
--   an IMP; `Reduce` the function `reconcile` that composes them. Its events are those that Events makes.
-- - History (ncc/historical_events.py): the recorder and the replay of direct events, behind the header
--   of the stream. `Reports` joins it to Receiver, whose events it takes.
-- - Trace (ncc/imp11a_journey.py, ncc/ka10_imp_journey.py, ncc/h316_journey.py): the readers of the
--   traces of three simulators, each over what its regular expressions match in a line. `Ka10.Leader`
--   turns a KA10 message into the words that the short-leader decoder of Journey reads.
-- - Identifier (`_IDENTIFIER`, in several files of ncc): stable identifiers and sets of them.
-- - Topology (`_validate_topology` of ncc/run_summary.py): components, links and routes of a document.
-- - Journey (ncc/message_journey.py), over Topology: `Checks` has the checks in the constructors,
--   `Expectation` the comparison of a message with what is expected, `ShortLeader` the decoder of short
--   leaders, `Route` the boundaries of a route, `Seams` the observations made of traces, `Observations`
--   the validation of observations, `Diagnosis` the assessments and diagnose_message_journey.
--   `Stream` is the recorder of ncc/message_journey_stream.py on records, which stand for the lines of
--   the file behind its header.
-- - Prelude: results that carry an exception, lists and tests over the native numbers, masks.
-- - Tests: concrete runs, and the theorems at concrete inputs.
--
-- Choices. Exceptions are constructors that keep the numbers of the message and not its text. 16-bit
-- wrap-around is written `% 65536`; `&` is the native `bit_and`, and the proofs read it as division
-- and remainder. Loops run over lists or over a number of rounds that the source fixes, so there is no
-- fuel. Words of a packet, source numbers and sequence numbers are natural numbers: negative ones
-- reach none of these calls. Texts with fixed forms (event types, states, subjects) are constructors.
-- An instant of the reducer is a number of microseconds, read from a text by a parameter; an interval
-- is one too. Its dictionaries of observations, and those of the journeys by source, are functions, and
-- the dictionary of endpoints is searched so that the later entry wins. A lookup that the code takes
-- to succeed is an error value here, which the theorems on totality exclude. Sets of identifiers are
-- lists; a set of two is a pair compared both ways. A document is a record with the types of its parts.
--
-- Not modelled: that a JSON document has the fields and types it should; the conversion of a shared
-- topology to nominal lines; the correlation fingerprint of a message, which is a hash; sockets,
-- clocks and files; the headers of the two streams, the rendering of their records and their
-- readers, which take the records from JSON; the regular expressions of the trace readers; the live
-- stream, the browser views, the run summaries but for their topology, and the controllers, which
-- are processes around these parts; the shell scripts.
pub mod Prelude
pub mod Report
pub mod Host
pub mod Events
pub mod Leader
pub mod Receiver
pub mod Reconcile
pub mod Identifier
pub mod Topology
pub mod Journey
pub mod Tests
pub mod Trace
pub mod History
