-- ===== src/Tests/Transport.antt =====
-- The host interface at concrete packets.
use arpanet_redux.Prelude.{
  ℕ, ◌+◌, ◌-◌, ◌≡◌, inl, refl, none, some, List, [], ◌∷◌, ◌++◌, ok, err, arith,
}
use arpanet_redux.Host.Packet.{HostInterfacePacket, out_of_order, to_bytes, from_bytes, final}
use arpanet_redux.Host.Packet.RoundTrip.{from_bytes-to_bytes, to_bytes-from_bytes}
use arpanet_redux.Host.Ingress.{IngressMessage, PassiveHostIngress, passive_host_ingress, receive}
use arpanet_redux.Host.Ingress.Step.{receive-refuses}
use arpanet_redux.Host.Ingress.Trace.{Accepted, new, took, Assembled, receive-Assembled}
use arpanet_redux.Host.Ingress.Progress.{collect, carried, opened, Expects, collect-Delivers}

abbrev first_part : HostInterfacePacket
first_part = record { sequence = 3; flags = 2; words = 0x4006 ∷ [] }

abbrev last_part : HostInterfacePacket
last_part = record { sequence = 4; flags = 3; words = 0x0010 ∷ 9 ∷ [] }

abbrev first_bytes : List ℕ
first_bytes = b'H' ∷ b'3' ∷ b'1' ∷ b'6' ∷ 0 ∷ 0 ∷ 0 ∷ 3 ∷ 0 ∷ 2 ∷ 0 ∷ 2 ∷ 0x40 ∷ 6 ∷ []

from_bytes-to_bytes_example : from_bytes first_bytes ≡ ok first_part
unfolding to_bytes
from_bytes-to_bytes_example = from_bytes-to_bytes first_part first_bytes (omega arith) refl

to_bytes-from_bytes_example : to_bytes first_part ≡ ok first_bytes
unfolding from_bytes
to_bytes-from_bytes_example = to_bytes-from_bytes first_bytes first_part (omega arith) refl

abbrev half_way : PassiveHostIngress
half_way = record {
  next_ready_sequence = 0;
  last_received_sequence = some 3;
  first_message_sequence = some 3;
  message_words = 0x4006 ∷ [];
}

abbrev assembled_message : IngressMessage
assembled_message = record {
  first_sequence = 3;
  final_sequence = 4;
  words = 0x4006 ∷ 0x0010 ∷ 9 ∷ [];
}

receive-refuses_example : receive first_part half_way ≡ (half_way, err (out_of_order 3 3))
receive-refuses_example =
    (receive-refuses first_part half_way half_way (out_of_order 3 3)).1
      (3, refl, omega arith, omega arith, refl, refl)

abbrev done : PassiveHostIngress
done = record {
  next_ready_sequence = 0;
  last_received_sequence = some 4;
  first_message_sequence = none;
  message_words = [];
}

half_way-Accepted : Accepted (first_part ∷ []) half_way
unfolding receive final
half_way-Accepted = took first_part {r = record { packet = first_part; message = none }} new refl

receive-Assembled_example :
    (run : List HostInterfacePacket) × (older : List HostInterfacePacket) × (first_part ∷ []
      ≡ run ++ older)
    × Assembled last_part run assembled_message
unfolding receive final
receive-Assembled_example =
    receive-Assembled (first_part ∷ []) last_part half_way done
      (record { packet = last_part; message = some assembled_message }) assembled_message
      half_way-Accepted refl refl

collect-Delivers_example :
    let ps = first_part ∷ last_part ∷ [] in
    let after = collect ps passive_host_ingress in
    (m : IngressMessage) × (after.1 ≡ m ∷ [])
    × (m.words ≡ carried ps)
    × (some m.first_sequence ≡ opened none ps)
    × (m.final_sequence ≡ 3 + 2 - 1)
    × (after.0.first_message_sequence ≡ none)
    × (after.0.message_words ≡ [])
    × Expects (3 + 2) after.0
unfolding final
collect-Delivers_example =
    collect-Delivers 3 (first_part ∷ last_part ∷ []) passive_host_ingress (refl, refl, (refl, refl))
      (inl refl) refl refl
