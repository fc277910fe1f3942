-- ===== src/Tests.antt =====
-- Concrete runs: sample data, and the theorems applied to it.
mod Data
mod CommandRuns
mod ParameterRuns
mod MissionRuns
mod SystemRuns
mod AddressRuns
mod LogRuns
mod HandlerRuns
mod OffboardRuns
