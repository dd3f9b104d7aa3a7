-- ===== src/Reconcile/Mirror.antt =====
-- Exchanging the two ends of a line.
use arpanet_redux.Prelude.{◌≡◌, Option, none, some, arith}
use arpanet_redux.Reconcile.{LineState, DirectState, ReconciledEndpoint}
use arpanet_redux.Reconcile.Conditions.{paired_line_state, line_condition}

-- The same state with the names of the ends exchanged.
abbrev pub mirror : LineState → LineState
mirror LineState.minus_down = LineState.plus_down
mirror LineState.plus_down = LineState.minus_down
mirror LineState.minus_looped = LineState.plus_looped
mirror LineState.plus_looped = LineState.minus_looped
mirror s = s

abbrev pub mirrored : Option LineState → Option LineState
mirrored none = none
mirrored (some s) = some (mirror s)

paired-mirror : (m p : DirectState) → paired_line_state p m ≡ mirror (paired_line_state m p)
unfolding paired_line_state
paired-mirror m p = ground arith

-- A line read from its other end is in the mirrored state: which end is the minus one decides
-- nothing but the names.
pub line_condition-mirror :
    (m p : ReconciledEndpoint) → line_condition p m ≡ mirrored (line_condition m p)
unfolding line_condition paired_line_state
line_condition-mirror m p = ground arith
