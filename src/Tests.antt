-- ===== src/Tests.antt =====
-- Concrete runs of the model, and the theorems at concrete inputs.
pub mod Samples
pub mod Reports
pub mod Transport
pub mod Messages
pub mod Reduction
pub mod Reducer
pub mod Journeys
pub mod Streams
pub mod Traces
pub mod Histories
