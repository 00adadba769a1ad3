-- ===== src/Tables.antt =====
-- The tables of app/models/core.py that the control plane reads and writes, and a database that
-- holds them. A table is the list of its rows, the newest first; the program never relies on the
-- order of a table but through an ORDER BY, which is modelled where it is written.
mod Approval
mod Deployment
mod Execution
unfoldable pub use Approval.*
unfoldable pub use Deployment.*
unfoldable pub use Execution.*
use maoxx_os.Prelude.{List, [], Option, none}

pub record Db : Type 0 where
  pub principals : List Principal
  pub external_identities : List ExternalIdentity
  pub approval_requests : List ApprovalRequest
  pub approval_decisions : List ApprovalDecision
  pub deployment_intents : List DeploymentIntent
  pub deployment_artifacts : List DeploymentArtifact
  pub deployment_state_events : List DeploymentStateEvent
  pub staging_acceptances : List StagingAcceptance
  pub staging_acceptance_invalidations : List StagingAcceptanceInvalidation
  pub deployment_approval_bindings : List DeploymentApprovalBinding
  pub deployment_approval_consumptions : List DeploymentApprovalConsumption
  -- `conflict_domain` is the primary key, and a check allows `production:global` alone
  pub deployment_lock : Option DeploymentLock
  pub deployment_execution_attempts : List DeploymentExecutionAttempt
  pub deployment_evidence : List DeploymentEvidence
  pub deployment_rollbacks : List DeploymentRollback

abbrev pub empty_db : Db
empty_db = record {
  principals = [];
  external_identities = [];
  approval_requests = [];
  approval_decisions = [];
  deployment_intents = [];
  deployment_artifacts = [];
  deployment_state_events = [];
  staging_acceptances = [];
  staging_acceptance_invalidations = [];
  deployment_approval_bindings = [];
  deployment_approval_consumptions = [];
  deployment_lock = none;
  deployment_execution_attempts = [];
  deployment_evidence = [];
  deployment_rollbacks = [];
}
