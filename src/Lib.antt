-- ===== src/Lib.antt =====
-- Maoxx OS: the control plane that lets a person approve a production deployment from a chat and a
-- host supervisor carry it out.
--
-- The parts and the files that model them:
--   Policy       app/services/deployment_policy.py. Artifact (the patterns of digests and images),
--                Health, Migration, Services, Resource (the memory and disk window before a
--                deployment) and Transition (the state machine of a deployment).
--   Tables       app/models/core.py: a record to a table, and `Db`, which holds the rows.
--   Feishu       Authorization (app/services/feishu_authorization.py: who may send a message at all) and
--                Delivery (the retry loop of app/services/feishu_delivery.py).
--   Identity     app/services/identity_authority.py: principals and the mappings of Feishu identities.
--   Approval     app/services/approval_service.py. Requests (create_approval_request), Decisions
--                (record_approval_decision), Command (the text of an approval), Actions (a card's
--                button and a chat message, which authorize and then record a decision).
--   Deployment   app/services/deployment_service.py, with the identities of
--                app/services/deployment_authority.py. Authority (identities and CI evidence), GitHub
--                (the verifier of a CI run), Events (the append-only log of states), Intents, Artifacts, Staging, Bindings (the approval
--                that is bound to a deployment, and rollback links), Evidence, Lock (the production
--                lock with its fencing token), Start (start_production_deployment, and
--                calculate_intent_hash of app/services/production_supervisor.py). System runs all of
--                them, with the operations of the approval service, in any order.
--   Supervisor   app/services/production_supervisor.py. Attempt (its data), Journal, Authority (`load` of
--                SQLAlchemyAttemptAuthority) and Evidence (what it records), Host (what answers a call),
--                Run (a call over its effects), Terminal, Fingerprint, Execute (execute, reconcile and
--                their parts) and Takeover; Compose, Cycle and Polling are the Docker Compose runtime,
--                and Resources is the collector of app/services/resource_authority.py. The other
--                modules prove: Quiet, Calls, Submission and Once count mutations; Logic, Walk and Replay
--                follow a verdict; Verdicts, Healthy, Anchored, Complete and Deployed say when a deployment is
--                healthy; Quiescence, Authorized and Window are about one operation each.
-- A deployment is an intent; its artifact, staging acceptance, bound approval and start each append one
-- state event. The approval service writes the decision that the start consumes. The start leaves an
-- execution attempt, which the supervisor loads, and carries out at the host.
--
-- How the code is modelled:
--   An operation is a function of its arguments and the database to a `Result` of a value and the
--   database after the commit. What it raises is `err`, and leaves no database: the transaction is
--   rolled back. The service functions whose errors are values return an outcome and the database.
--   A query of a unique key is `find`; the unique and primary keys, and the checks that a caller's value
--   can fail, are tests of the operations that insert, and raise `integrity_error`.
--   Rows that other transactions commit between a query and the commit are an argument, `raced`, at the
--   operations that no row lock protects. The time of the database and the ids that uuid4 draws are
--   arguments too; an id of a state event is taken to be fresh.
--   A UUID is a number, a time is the number of its microseconds, a set of texts is a list, and the
--   names of states are an enumeration. An int that is below 0 fares as 0 does in each test it meets.
--   SHA-256 is the parameter `Hashing`, of which the form of the digest is known, json.dumps is the
--   parameter `json_dumps` of a start, and the answers of the GitHub API are an argument of
--   GitHub, as the verifier's are of recording an artifact.
--   A call of the supervisor is a function of the world, which is the database, the lines of the
--   attempt's journal and how often Docker was changed. A line that a crash tore is a line
--   of its own, where the source's next record would continue it; either way the journal cannot be
--   read again. It may die before each of its effects, and what
--   the host, Docker and the database answer is its `Host`: a transaction may fail, or be committed
--   without an answer. The file lock lets one call run at a time, so calls follow each other.
--   The polling loop of the health verification runs on fuel; each poll asks for a sleep of five seconds, so 25
--   polls are enough for its window of 120 seconds. Every other loop is a structural recursion on a
--   list or on the attempts that are left.
--
-- Not modelled: foreign keys to users and the tables of users, entities and raw inputs; the argument
-- lists and override files of the Docker commands, how their output is parsed, and the reading of
-- /proc/meminfo, whose results are arguments; the class names of exceptions in the journal, beyond the
-- supervisor's own; a journal line of an event that the program does not know; the backup authority,
-- notifications and worker health; the texts of replies and cards, the Feishu client, command lines, HTTP
-- routes and migrations, which are input and output around the services.
pub mod Prelude
pub mod Policy
pub mod Tables
pub mod Approval
pub mod Feishu
pub mod Deployment
pub mod Supervisor
pub mod Identity
mod Tests
