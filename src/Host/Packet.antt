-- ===== src/Host/Packet.antt =====
-- HostInterfacePacket of ncc/host_interface.py. A datagram is a list of bytes; `struct` packs in
-- network order, and its refusal of a count above 16 bits is `pack_failed`.
pub mod RoundTrip
use arpanet_redux.Prelude.{
  ℕ, zero, suc, ◌+◌, ◌*◌, ◌/◌, ◌%◌, ◌^◌, bit_and, Bool, true, false, not, ◌&&◌, List, [], ◌∷◌, ◌++◌,
  leb, ◌==◌, if◌then◌else◌, Result, ok, err, ◌>>=◌, ◌>>◌, require, length, take, drop, get_or,
}

pub data HostInterfaceError : Type 0 where
  bad_sequence bad_flags bad_words : HostInterfaceError
  too_short no_magic no_flag_word wrong_size : HostInterfaceError
  pack_failed : HostInterfaceError
  -- a sequence number received after one that is not below it
  out_of_order : ℕ → ℕ → HostInterfaceError

-- b"H316"
abbrev pub magic : List ℕ
magic = b'H' ∷ b'3' ∷ b'1' ∷ b'6' ∷ []

abbrev pub pflg_final : ℕ
pflg_final = 0o1

abbrev pub pflg_ready : ℕ
pflg_ready = 0o2

abbrev pub header_size : ℕ
header_size = 10

pub record HostInterfacePacket : Type 0 where
  pub sequence : ℕ
  pub flags : ℕ
  pub words : List ℕ

abbrev pub all_words : List ℕ → Bool
all_words [] = true
all_words (w ∷ ws) = leb w 0xFFFF && all_words ws

-- `__post_init__`; numbers below zero reach no constructor call.
unfoldable pub host_interface_packet :
    ℕ → ℕ → List ℕ → Result HostInterfaceError HostInterfacePacket
host_interface_packet sequence flags words = do
  require (leb sequence 0xFFFFFFFF) bad_sequence
  require (leb flags 0xFFFF) bad_flags
  require (all_words words) bad_words
  ok (record { sequence = sequence; flags = flags; words = words })

unfoldable pub final : HostInterfacePacket → Bool
final packet = not (bit_and packet.flags pflg_final == 0)

unfoldable pub ready : HostInterfacePacket → Bool
ready packet = not (bit_and packet.flags pflg_ready == 0)

-- struct ">H" and ">I"
abbrev pub pack_u16 : ℕ → List ℕ
pack_u16 n = (n / 256 % 256) ∷ (n % 256) ∷ []

abbrev pub pack_u32 : ℕ → List ℕ
pack_u32 n = (n / 2 ^ 24 % 256) ∷ (n / 2 ^ 16 % 256) ∷ (n / 2 ^ 8 % 256) ∷ (n % 256) ∷ []

unfoldable pub pack_words : List ℕ → List ℕ
pack_words [] = []
pack_words (w ∷ ws) = (w / 256 % 256) ∷ (w % 256) ∷ pack_words ws

unfoldable pub to_bytes : HostInterfacePacket → Result HostInterfaceError (List ℕ)
unfolding pack_words
to_bytes packet =
    let count = 1 + length packet.words in
    if leb count 0xFFFF
    then ok (
        magic
        ++ (pack_u32 packet.sequence
            ++ (pack_u16 count ++ (pack_u16 packet.flags ++ pack_words packet.words))))
    else err pack_failed

abbrev pub read_u16 : List ℕ → ℕ → ℕ
read_u16 value at = get_or value at 0 * 256 + get_or value (at + 1) 0

abbrev pub read_u32 : List ℕ → ℕ → ℕ
read_u32 value at = read_u16 value at * 65536 + read_u16 value (at + 2)

-- struct ">{count}H"
unfoldable pub unpack_words : ℕ → List ℕ → List ℕ
unpack_words zero value = []
unpack_words (suc count) [] = []
unpack_words (suc count) (hi ∷ []) = []
unpack_words (suc count) (hi ∷ lo ∷ rest) = (hi * 256 + lo) ∷ unpack_words count rest

abbrev pub same_bytes : List ℕ → List ℕ → Bool
same_bytes [] [] = true
same_bytes (a ∷ as_) (b ∷ bs) = (a == b) && same_bytes as_ bs
same_bytes _ _ = false

unfoldable pub from_bytes : List ℕ → Result HostInterfaceError HostInterfacePacket
unfolding unpack_words host_interface_packet
from_bytes value = do
  require (leb header_size (length value)) too_short
  require (same_bytes (take 4 value) magic) no_magic
  let count = read_u16 value 8
  require (not (count == 0)) no_flag_word
  require (length value == header_size + count * 2) wrong_size
  let values = unpack_words count (drop header_size value)
  host_interface_packet (read_u32 value 4) (get_or values 0 0) (drop 1 values)
