-- ===== src/Report/Trouble/Lines.antt =====
-- What a line's status word and the anomaly word say, in plain arithmetic.
use arpanet_redux.Prelude.{
  ℕ, zero, suc, ◌-◌, ◌/◌, ◌%◌, ◌^◌, ◌≡◌, Bool, none, some, ◌==◌, ltb, if◌then◌else◌, arith,
}
use arpanet_redux.Prelude.Bits.{bit_and-bit, bit_and-63, bit_and-255}
use arpanet_redux.Report.Trouble.{
  up, down, looped, unknown, TroubleReport, host_up, line_state, decode_line,
}

-- The neighbor field of a status word.
abbrev pub neighbor_field : ℕ → ℕ
neighbor_field status = status / 256 % 64

abbrev pub bit_set : ℕ → ℕ → Bool
bit_set k word = word / 2 ^ k % 2 == 1

-- Every status word: the top bit is `down`, the next one `looped`, and a line with neither is up
-- exactly when it names a neighbor; the neighbor number 0 is no neighbor.
pub decode_line-fields :
    (interface sent status : ℕ)
    → let line = decode_line interface sent status in
      (line.state ≡ (
        if bit_set 15 status
        then down
        else if bit_set 14 status
        then looped
        else if neighbor_field status == 0
        then unknown
        else up))
      × (line.neighbor_imp
          ≡ (if neighbor_field status == 0 then none else some (neighbor_field status)))
      × (line.routing_messages_missed ≡ status % 256)
unfolding decode_line line_state
decode_line-fields interface sent status = ground (
  arith,
  bit_and-bit 15 status,
  bit_and-bit 14 status,
  bit_and-63 (status / 256),
  bit_and-255 status,
)

-- Host interface `host` is up exactly when bit 15 - host of the anomaly word is set.
pub host_up-bit :
    (r : TroubleReport) (host : ℕ)
    → host_up r host ≡ (if ltb host 4 then some (bit_set (15 - host) r.anomaly_word) else none)
unfolding host_up
host_up-bit r zero = ground (arith, bit_and-bit 15 r.anomaly_word)
host_up-bit r (suc zero) = ground (arith, bit_and-bit 14 r.anomaly_word)
host_up-bit r (suc (suc zero)) = ground (arith, bit_and-bit 13 r.anomaly_word)
host_up-bit r (suc (suc (suc zero))) = ground (arith, bit_and-bit 12 r.anomaly_word)
host_up-bit r (suc (suc (suc (suc n)))) = ground arith
