-- ===== src/Trace.antt =====
-- The readers of simulator traces (ncc/imp11a_journey.py, ncc/ka10_imp_journey.py,
-- ncc/h316_journey.py), on records: what a regular expression of the module matches in a line, with
-- the numbers of its groups.
pub mod Imp11a
pub mod Ka10
pub mod H316
