-- ===== src/Supervisor/Host.antt =====
-- What the calls of app/services/production_supervisor.py are answered: by Python's library, and by the
-- host, Docker and the database during one call.
use maoxx_os.Supervisor.Fingerprint.{StableFields}
use maoxx_os.Prelude.{
  ℕ, String, Bool, true, false, Option, Result, err, Error, nat_eq, string_eq, option_eq, Uuid,
  Time, Payload, Hashing,
}
use maoxx_os.Deployment.Authority.{VerifiedCiEvidence}
use maoxx_os.Deployment.Start.{IntentBody}
use maoxx_os.Supervisor.Attempt.{runtime_state_eq, RuntimeSnapshot, HealthCycle}
use maoxx_os.Supervisor.Resources.{TrustedResourceSample, TrustedResourceResult}
use maoxx_os.Supervisor.Journal.{journal_event_eq}
use maoxx_os.Supervisor.Run.{Clock, Commit}

-- Python's library, as far as the supervisor relies on it.
pub record Library : Type 0 where
  pub from_iso : String → Option Time
  pub hashing : Hashing
  pub json_dumps : IntentBody → String
  pub resource_payload : TrustedResourceResult → Payload
  pub fingerprint_dumps : StableFields → String

pub record Host : Type 0 where
  -- whether another process holds the file lock
  pub lock_busy : Bool
  pub clock : Clock
  pub now : Time
  -- whether the queries of `load` reach the database, and of `mutation_submitted`
  pub load_reads : Bool
  pub marker_reads : Bool
  pub ci : Option VerifiedCiEvidence
  pub plan : Result (Unit {0})
  pub sample : ℕ → Result TrustedResourceSample
  pub resource_commit : Commit
  pub marker_commit : Commit
  pub result_commit : Commit
  pub resource_id : Uuid
  pub marker_id : Uuid
  pub result_id : Uuid
  pub submitted : Result (Unit {0})
  pub first_observed : Result RuntimeSnapshot
  -- behind a sleep of so many seconds
  pub second_observed : ℕ → Result RuntimeSnapshot
  pub events_between : Bool
  pub verify_health : Time → Result HealthCycle

abbrev pub if_reads : {A : Type 0} → Bool → Result A → Error → Result A
if_reads true r e = r
if_reads false r e = err e
