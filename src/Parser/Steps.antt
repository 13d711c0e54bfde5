-- ===== src/Parser/Steps.antt =====
-- What one call of a handler does to the expected events, to the invariant and to the measure.
pub mod NodeStep
pub mod HandlerStep
pub mod BlockStep
pub mod FlowStep
pub mod PairStep
pub mod Keeping
pub mod DocumentStep
pub mod MachineStep
