-- ===== src/Tests.antt =====
-- Runs of the model on small inputs, and the theorems at inputs that meet their hypotheses.
mod AsheRuns
mod CzarRuns
mod RouterRuns
mod LocaleRuns
mod EngineRuns
mod LinkRuns
mod LruRuns
mod TripRuns
mod ServiceRuns
mod ToolRuns
