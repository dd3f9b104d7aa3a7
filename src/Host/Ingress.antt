-- ===== src/Host/Ingress.antt =====
-- PassiveHostIngress of ncc/host_interface.py: readiness, and the reassembly of messages. A method
-- returns the new state of the object; where it may raise, the state that the exception leaves
-- stands beside the result.
pub mod Step
pub mod Trace
pub mod Progress
use arpanet_redux.Prelude.{
  ℕ, zero, suc, ◌+◌, Bool, true, false, not, ◌&&◌, Option, none, some, List, [], ◌∷◌, ◌++◌, ltb,
  leb, ◌==◌, if◌then◌else◌, Result, ok, err,
}
use arpanet_redux.Host.Packet.{
  HostInterfaceError, out_of_order, HostInterfacePacket, host_interface_packet, final,
}

pub record IngressMessage : Type 0 where
  pub first_sequence : ℕ
  pub final_sequence : ℕ
  pub words : List ℕ

pub record IngressReceipt : Type 0 where
  pub packet : HostInterfacePacket
  pub message : Option IngressMessage

pub record PassiveHostIngress : Type 0 where
  pub next_ready_sequence : ℕ
  pub last_received_sequence : Option ℕ
  pub first_message_sequence : Option ℕ
  pub message_words : List ℕ

-- `__init__`
abbrev pub passive_host_ingress : PassiveHostIngress
passive_host_ingress = record {
  next_ready_sequence = 0;
  last_received_sequence = none;
  first_message_sequence = none;
  message_words = [];
}

-- `PFLG_FINAL | PFLG_READY` is 3.
unfoldable pub ready_packet : PassiveHostIngress → Result HostInterfaceError HostInterfacePacket
ready_packet s = host_interface_packet s.next_ready_sequence 3 []

unfoldable pub ready_sent : PassiveHostIngress → PassiveHostIngress
ready_sent s = record s { next_ready_sequence = s.next_ready_sequence + 1 }

unfoldable pub discard_partial_message : PassiveHostIngress → PassiveHostIngress
discard_partial_message s = record s { first_message_sequence = none; message_words = [] }

abbrev pub check_after :
    Option ℕ → ℕ → PassiveHostIngress → Result HostInterfaceError PassiveHostIngress
check_after none sequence s = ok s
check_after (some last) sequence s =
    if sequence == 0
    then ok (discard_partial_message s)
    else if leb sequence last
    then err (out_of_order sequence last)
    else ok s

unfoldable pub check_sequence :
    ℕ → PassiveHostIngress → Result HostInterfaceError PassiveHostIngress
unfolding discard_partial_message
check_sequence sequence s = check_after s.last_received_sequence sequence s

-- `last is not None and packet.sequence > last + 1`
abbrev pub is_gap : Option ℕ → ℕ → Bool
is_gap none sequence = false
is_gap (some last) sequence = ltb (last + 1) sequence

abbrev pub is_empty {ℓ} : {A : Type ℓ} → List A → Bool
is_empty [] = true
is_empty (x ∷ xs) = false

abbrev pub or_else : Option ℕ → ℕ → ℕ
or_else none n = n
or_else (some m) n = m

-- The part of `receive` behind the sequence check.
unfoldable pub accept :
    HostInterfacePacket → PassiveHostIngress → PassiveHostIngress × IngressReceipt
unfolding discard_partial_message
accept packet checked =
    let kept =
      if is_gap checked.last_received_sequence packet.sequence
      then discard_partial_message checked
      else checked in
    let seen = record kept { last_received_sequence = some packet.sequence } in
    let first = or_else seen.first_message_sequence packet.sequence in
    let extended = record seen {
      first_message_sequence = some first;
      message_words = seen.message_words ++ packet.words;
    } in
    let message : IngressMessage = record {
      first_sequence = first;
      final_sequence = packet.sequence;
      words = extended.message_words;
    } in
    if is_empty packet.words
    then (seen, record { packet = packet; message = none })
    else if not (final packet)
    then (extended, record { packet = packet; message = none })
    else (discard_partial_message extended, record { packet = packet; message = some message })

abbrev pub accept_checked :
    HostInterfacePacket
    → PassiveHostIngress
    → Result HostInterfaceError PassiveHostIngress
    → PassiveHostIngress × Result HostInterfaceError IngressReceipt
accept_checked packet s (err e) = (s, err e)
accept_checked packet s (ok checked) = let (s', receipt) = accept packet checked in (s', ok receipt)

unfoldable pub receive :
    HostInterfacePacket
    → PassiveHostIngress
    → PassiveHostIngress × Result HostInterfaceError IngressReceipt
unfolding accept check_sequence
receive packet s = accept_checked packet s (check_sequence packet.sequence s)
