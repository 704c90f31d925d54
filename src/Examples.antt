-- ===== src/Examples.antt =====
-- Concrete runs of the theorems: one for each result that has a hypothesis or a variable.
mod CircuitRuns
mod GatewayRuns
mod ThrottleRuns
mod AuthRuns
mod ExecutionRuns
mod RoleRuns
mod OutboxRuns
mod IncidentRuns
mod WorkerRuns
mod ResetRuns
mod IdentityRuns
mod LoginRuns
mod ApiRuns
mod MailRuns
