-- ===== src/Tests.antt =====
-- Concrete definitions, runs of the engine on them, and the theorems at concrete inputs.
mod Samples
mod Unfold
mod Runs
mod GatewayExamples
mod Administration
mod Failures
mod Throttle
mod StoreExamples
mod HistoryExamples
mod QueryExamples
mod AdapterExamples
