-- ===== src/Deployment/Lock/Laws.antt =====
-- Laws of the production lock of app/services/deployment_service.py.
use maoxx_os.Prelude.{
  refl, sym, ◌∙◌, ==→≡, ℕ, ◌<◌, ◌≤◌, ◌≡◌, ◌≢◌, ◌⊎◌, inl, inr, subst, String, Bool, true, false,
  Option, none, some, ok, ◌>>◌, !=_false→≡, arith, bind-ok, Bool-cases, nat_eq, string_eq,
  option_eq, Uuid, Time, Payload,
}
use maoxx_os.Tables.{Db, DeploymentLock}
use maoxx_os.Deployment.Authority.{resolve_executor_identity, supervisor_identity}
use maoxx_os.Deployment.Lock.{
  LockCall, ProductionLease, bad_lease, not_reconciled, first_lock, taken_lock, acquire, holds,
  take_over, commit_lock, acquire_checks, lease_of, acquire_deployment_lock, owned, renew_owned,
  renew_deployment_lock, release_owned, release_deployment_lock,
}

-- What `l` is to the row that was there before.
abbrev pub Held : LockCall → Time → Option DeploymentLock → DeploymentLock → Type 0
Held c now none l = l ≡ first_lock c now
Held c now (some p) l =
    ((p.deployment_id ≡ c.deployment_id)
      × (p.owner_identity ≡ c.owner_identity)
      × (now < p.lease_expires_at)
      × (l ≡ p))
    ⊎ ((p.lease_expires_at ≤ now)
        × (p.stale_reconciled_token ≡ some p.fencing_token)
        × (l ≡ taken_lock c now p))

holds_lem :
    (c : LockCall) (now : Time) (p : DeploymentLock)
    → holds c now p ≡ true
    → (p.deployment_id ≡ c.deployment_id)
      × (p.owner_identity ≡ c.owner_identity)
      × (now < p.lease_expires_at)
unfolding holds
holds_lem c now p h = ground (arith, string_eq.test_iff p.owner_identity c.owner_identity)

reconciled_token :
    (p : DeploymentLock)
    → not_reconciled p ≡ false
    → p.stale_reconciled_token ≡ some p.fencing_token
unfolding not_reconciled
reconciled_token p h =
    let same = !=_false→≡ p.stale_reconciled_token (some p.fencing_token) in ground (arith, same)

take_over_lem :
    (c : LockCall) (now : Time) (p l : DeploymentLock) (payload : Payload)
    → take_over c now p ≡ ok (l, payload)
    → (p.lease_expires_at ≤ now)
      × (p.stale_reconciled_token ≡ some p.fencing_token)
      × (l ≡ taken_lock c now p)
unfolding take_over
take_over_lem c now p l payload h = let token = reconciled_token p in ground (arith, token)

acquire-Held :
    (c : LockCall) (now : Time) (o : Option DeploymentLock) (l : DeploymentLock) (payload : Payload)
    → acquire c now o ≡ ok (l, payload)
    → Held c now o l
unfolding acquire
acquire-Held c now none l payload h = cc
acquire-Held c now (some p) l payload h = elim (Bool-cases (holds c now p)) [
  | inl mine ↦ let (d, o, live) = holds_lem c now p mine in inl (d, o, live, ground arith)
  | inr other ↦ inr (take_over_lem c now p l payload (rw other at h))
]

commit_lem :
    (c : LockCall) (now : Time) (raced : Bool) (new_id : Uuid) (db : Db) (l : DeploymentLock)
    (payload : Payload) (lease : ProductionLease) (after : Db)
    → commit_lock c now raced new_id db (l, payload) ≡ ok (lease, after)
    → (lease ≡ lease_of c l) × (after.deployment_lock ≡ some l)
unfolding commit_lock
commit_lem c now raced new_id db l payload lease after h = ground arith

checks_lem :
    (c : LockCall) (domain : Option String) (db : Db)
    → acquire_checks c domain db ≡ ok tt
    → (c.owner_identity ≡ supervisor_identity) × (bad_lease c.lease_seconds ≡ false)
unfolding acquire_checks resolve_executor_identity
checks_lem c domain db h =
    let same = !=_false→≡ c.owner_identity supervisor_identity in ground (arith, same)

-- What took place of a row that the caller does not hold.
abbrev Taken : LockCall → Time → DeploymentLock → DeploymentLock → Type 0
Taken c now p l =
    (p.lease_expires_at ≤ now)
    × (p.stale_reconciled_token ≡ some p.fencing_token)
    × (l ≡ taken_lock c now p)

Held-other :
    (c : LockCall) (now : Time) (p l : DeploymentLock)
    → Held c now (some p) l
    → p.deployment_id ≢ c.deployment_id
    → Taken c now p l
Held-other c now p l (inl (mine, _, _, _)) other = absurd (other mine)
Held-other c now p l (inr taken) other = taken

Held-expired :
    (c : LockCall) (now : Time) (p l : DeploymentLock)
    → Held c now (some p) l
    → p.lease_expires_at ≤ now
    → Taken c now p l
Held-expired c now p l (inl (_, _, running, _)) expired = absurd (ground arith)
Held-expired c now p l (inr taken) expired = taken

live :
    (c : LockCall) (now : Time) (o : Option DeploymentLock) (l : DeploymentLock)
    → bad_lease c.lease_seconds ≡ false
    → Held c now o l
    → now < l.lease_expires_at
unfolding bad_lease
live c now none l fits h = rw h (ground arith)
live c now (some p) l fits (inl (_, _, later, same)) = rw same later
live c now (some p) l fits (inr (_, _, same)) = rw same (ground arith)

module _ (c : LockCall) (domain : Option String) (now : Time) (raced : Bool) (new_id : Uuid)
    (db : Db) where
  -- A lock that is acquired is the caller's, who is the supervisor, and its lease is live; the caller
  -- is told its token. There was no lock before, and the token is 1; or the caller held it already,
  -- and nothing of it changes; or its lease had run out, the holder of exactly its token had been
  -- reconciled, and the token is the next one.
  pub acquire_deployment_lock-Held :
      (lease : ProductionLease) (after : Db)
      → acquire_deployment_lock c domain now raced new_id db ≡ ok (lease, after)
      → (c.owner_identity ≡ supervisor_identity)
        × (l : DeploymentLock) × (after.deployment_lock ≡ some l)
        × (lease ≡ lease_of c l)
        × Held c now db.deployment_lock l
        × (now < l.lease_expires_at)
  unfolding acquire_deployment_lock
  acquire_deployment_lock-Held lease after h =
      let ((l, payload), h1, h2) =
        bind-ok (acquire_checks c domain db >> acquire c now db.deployment_lock)
          (commit_lock c now raced new_id db) h in
      let (_, checked, got) =
        bind-ok (acquire_checks c domain db) (λ (_ : Unit {0}). acquire c now db.deployment_lock)
          h1 in
      let (told, kept) = commit_lem c now raced new_id db l payload lease after h2 in
      let (supervisor, lease_fits) = checks_lem c domain db checked in
      let held = acquire-Held c now db.deployment_lock l payload got in
      (supervisor, l, kept, told, held, live c now db.deployment_lock l lease_fits held)

  -- While another deployment holds a live lease, no call acquires the lock.
  pub acquire_deployment_lock-exclusive :
      (p : DeploymentLock)
      → db.deployment_lock ≡ some p
      → p.deployment_id ≢ c.deployment_id
      → now < p.lease_expires_at
      → (lease : ProductionLease) (after : Db)
      → acquire_deployment_lock c domain now raced new_id db ≢ ok (lease, after)
  acquire_deployment_lock-exclusive p there other running lease after h =
      let (_, l, _, _, held, _) = acquire_deployment_lock-Held lease after h in
      let held' : Held c now (some p) l = subst (λ o. Held c now o l) there held in
      let (expired, _, _) = Held-other c now p l held' other in ground arith

holder :
    (c : LockCall) (now : Time) (o : Option DeploymentLock) (l : DeploymentLock)
    → Held c now o l
    → (l.deployment_id ≡ c.deployment_id) × (l.owner_identity ≡ c.owner_identity)
holder c now none l h = rw h (refl, refl)
holder c now (some p) l (inl (mine, owner, _, same)) = rw same (mine, owner)
holder c now (some p) l (inr (_, _, same)) = rw same (refl, refl)

-- The call is for the lock's deployment, by its owner, with its token.
abbrev pub Owns : LockCall → ℕ → DeploymentLock → Type 0
Owns c token l =
    (l.deployment_id ≡ c.deployment_id)
    × (l.owner_identity ≡ c.owner_identity)
    × (l.fencing_token ≡ token)

owned-Owns :
    (c : LockCall) (token : ℕ) (l m : DeploymentLock)
    → owned c token (some l) ≡ some m
    → Owns c token l
unfolding owned
owned-Owns c token l m h =
    (ground arith, ==→≡ l.owner_identity c.owner_identity (ground arith), ground arith)

renew-owned :
    (c : LockCall) (token : ℕ) (now : Time) (id : Uuid) (db after : Db) (o : Option DeploymentLock)
    → renew_owned c token now id db o ≡ ok after
    → (l : DeploymentLock) × (o ≡ some l) × (now < l.lease_expires_at)
unfolding renew_owned
renew-owned c token now id db after none h = absurd (cc)
renew-owned c token now id db after (some l) h = (l, refl, ground arith)

release-owned :
    (c : LockCall) (token : ℕ) (now : Time) (id : Uuid) (db after : Db) (o : Option DeploymentLock)
    → release_owned c token now id db o ≡ ok after
    → (l : DeploymentLock) × (o ≡ some l)
unfolding release_owned
release-owned c token now id db after none h = absurd (cc)
release-owned c token now id db after (some l) h = (l, refl)

-- A lock that was acquired is fenced: only a call for the very deployment, owner and token of the lease that
-- the acquisition told renews it or releases it, whenever and whatever else it claims.
pub acquire_deployment_lock-fenced :
    (c : LockCall) (domain : Option String) (now : Time) (raced : Bool) (new_id : Uuid)
    (db after : Db) (lease : ProductionLease)
    → acquire_deployment_lock c domain now raced new_id db ≡ ok (lease, after)
    → (other : LockCall) (token : ℕ) (later : Time) (id : Uuid) (changed : Db)
    → (renew_deployment_lock other token later id after ≡ ok changed)
      ⊎ (release_deployment_lock other token later id after ≡ ok changed)
    → (other.deployment_id ≡ lease.deployment_id)
      × (other.owner_identity ≡ lease.owner_identity)
      × (token ≡ lease.fencing_token)
unfolding renew_deployment_lock release_deployment_lock
acquire_deployment_lock-fenced c domain now raced new_id db after lease h other token later id
      changed done =
    let (_, l, kept, told, held, _) =
      acquire_deployment_lock-Held c domain now raced new_id db lease after h in
    let (deployment, owner) = holder c now db.deployment_lock l held in
    let mine = owned other token after.deployment_lock in
    let found : (m : DeploymentLock) × (mine ≡ some m) = elim done [
      | inl renewed ↦
          let (m, at, _) = renew-owned other token later id after changed mine renewed in (m, at)
      | inr released ↦ release-owned other token later id after changed mine released
    ] in
    let (same_deployment, same_owner, same_token) =
      owned-Owns other token l found.0 (rw kept at found.1) in
    rw told (sym same_deployment ∙ deployment, sym same_owner ∙ owner, sym same_token)
