-- ===== src/Checks.antt =====
-- Concrete runs of the model, and the theorems at concrete inputs.
mod PolicyRuns
mod ServiceRuns
mod SourceRuns
mod PairingRuns
mod ReconcileRuns
mod ConfigRuns
mod EngineRuns
mod BootRuns
mod OdbcRuns
mod AdapterRuns
mod DoctorRuns
mod TokenRuns
mod PackagingRuns
mod AppRuns
