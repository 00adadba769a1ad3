-- ===== src/Tests/Services.antt =====
-- The laws of the delivery of replies and of the assignment of identities.
use maoxx_os.Prelude.{
  ℕ, zero, suc, ◌+◌, ◌-◌, ◌*◌, ◌^◌, ◌≤◌, ◌<◌, ◌≡◌, ◌≢◌, refl, false, some, none, [], ◌∷◌, ok, Time,
  arith, find, any_of,
}
use maoxx_os.Tables.{Db, empty_db, Principal, ExternalIdentity}
use maoxx_os.Deployment.Authority.{external_identity_fingerprint, resolve_feishu_principal}
use maoxx_os.Feishu.Delivery.{
  Sending, transport, broken, success, refused, DeliveryResult, deliver_with_retry,
}
use maoxx_os.Feishu.Delivery.Laws.{IsTransient, Tells, EndsAt, deliver_with_retry-Delivered}
use maoxx_os.Identity.{
  is_active, current_mapping, close_mapping, mapping_conflicts, insert_mapping, replace_mapping,
  human_required, principal_of_id, assign, assign_feishu_identity,
}
use maoxx_os.Identity.Laws.{OneActive, assign_feishu_identity-resolve_feishu_principal}
use maoxx_os.Tests.Data.{zeros, hashing, returned}

-- Rate limited twice, and then delivered.
abbrev send_once : ℕ → Sending
send_once (suc zero) = refused 99991400
send_once (suc (suc zero)) = transport
send_once _ = success (some "message-1")

never_broken : (i : ℕ) → send_once i ≢ broken
never_broken zero h = cc
never_broken (suc zero) h = cc
never_broken (suc (suc zero)) h = cc
never_broken (suc (suc (suc n))) h = cc

deliver_with_retry-Delivered_example :
    (r : DeliveryResult) × (slept : Time) × (deliver_with_retry send_once 100 (λ _. 0) 5
      ≡ ok (r, slept))
    × (1 ≤ r.attempts)
    × (r.attempts ≤ 5)
    × Tells r (send_once r.attempts)
    × EndsAt r.attempts 5 (send_once r.attempts)
    × ((i : ℕ) → 1 ≤ i → i < r.attempts → IsTransient (send_once i))
    × (slept + 2 * 100 ≤ 2 * (100 * 2 ^ (r.attempts - 1)))
deliver_with_retry-Delivered_example =
    deliver_with_retry-Delivered send_once 100 (λ _. 0) never_broken (λ i. omega arith) 5
      (omega arith)

abbrev alice : Principal
alice = record { id = 20; principal_type = "HUMAN"; user_id = some 10; identity_key = "alice" }

-- The identity was mapped to someone else.
abbrev mapped : ExternalIdentity
mapped = record {
  id = 30;
  provider = "feishu";
  tenant_fingerprint = zeros;
  subject_fingerprint = zeros;
  principal_id = 21;
  mapping_version = 1;
  valid_from = 0;
  valid_to = none;
  audit_event_id = 31;
}

abbrev before : Db
before = record empty_db { principals = alice ∷ []; external_identities = mapped ∷ [] }

abbrev after : Db
after =
    (returned (mapped, before)
      (assign_feishu_identity hashing "tenant" "open" 20 33 50 false 32 before)).1

abbrev assigned : ExternalIdentity
assigned = record mapped {
  id = 32;
  principal_id = 20;
  mapping_version = 2;
  valid_from = 50;
  audit_event_id = 33;
}

assign_returns :
    assign_feishu_identity hashing "tenant" "open" 20 33 50 false 32 before ≡ ok (assigned, after)
unfolding assign_feishu_identity assign human_required principal_of_id replace_mapping
    insert_mapping mapping_conflicts close_mapping current_mapping is_active
    external_identity_fingerprint find any_of
assign_returns = refl

found : principal_of_id 20 before.principals ≡ some alice
unfolding principal_of_id find
found = refl

one_before : OneActive zeros zeros before.external_identities
one_before = (λ _. tt, tt)

assign_feishu_identity-resolve_feishu_principal_example :
    OneActive zeros zeros after.external_identities
    × (resolve_feishu_principal hashing after "tenant" "open"
        ≡ some (record { user_id = 10; principal_id = 20; mapping_id = 32; mapping_version = 2 }))
unfolding external_identity_fingerprint
assign_feishu_identity-resolve_feishu_principal_example =
    assign_feishu_identity-resolve_feishu_principal hashing "tenant" "open" 20 33 50 false 32 before
      after assigned alice 10 one_before assign_returns found refl
