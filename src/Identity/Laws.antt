-- ===== src/Identity/Laws.antt =====
-- Laws of app/services/identity_authority.py, with the resolver of
-- app/services/deployment_authority.py.
use maoxx_os.Prelude.{
  ℕ, ◌+◌, ◌≡◌, refl, String, ◌<>◌, Bool, true, false, ◌&&◌, Option, none, some, List, [], ◌∷◌, ok,
  arith, bind-ok, raise_if, raise_if-ok, Bool-cases, inl, inr, find, subst, sym, ap, !=_false→≡,
  leb, integrity_error, ◌>>◌, nat_eq, string_eq, option_eq, ◌==◌, ==→≡, ==_refl, Uuid, Time,
  Hashing,
}
use maoxx_os.Tables.{Db, Principal, ExternalIdentity}
use maoxx_os.Deployment.Authority.{
  mapped_rows, only_row, external_identity_fingerprint, resolve_feishu_principal,
}
use maoxx_os.Identity.{
  principal_of_id, is_active, current_mapping, close_mapping, Assignment, new_mapping,
  insert_mapping, replace_mapping, human_required, assign, assign_feishu_identity,
}

module _ (tenant subject : String) where
  abbrev pub NoneActive : List ExternalIdentity → Type 0
  NoneActive [] = Unit
  NoneActive (m ∷ ms) = (is_active tenant subject m ≡ false) × NoneActive ms

  -- At most one mapping of the identity is active.
  abbrev pub OneActive : List ExternalIdentity → Type 0
  OneActive [] = Unit
  OneActive (m ∷ ms) = ((is_active tenant subject m ≡ true) → NoneActive ms) × OneActive ms

  NoneActive-OneActive : (ms : List ExternalIdentity) → NoneActive ms → OneActive ms
  NoneActive-OneActive [] h = tt
  NoneActive-OneActive (m ∷ ms) (h, rest) = (λ _. rest, NoneActive-OneActive ms rest)

  closed :
      (m : ExternalIdentity) (now : Time)
      → is_active tenant subject (record m { valid_to = some now }) ≡ false
  unfolding is_active
  closed m now = ground arith

  close-NoneActive :
      (now : Time) (ms : List ExternalIdentity)
      → OneActive ms
      → NoneActive (close_mapping tenant subject now ms)
  unfolding close_mapping
  close-NoneActive now [] h = tt
  close-NoneActive now (m ∷ ms) (h, rest) = elim (Bool-cases (is_active tenant subject m)) [
    | inl active ↦ rw active (closed m now, h active)
    | inr passed ↦ rw passed (passed, close-NoneActive now ms rest)
  ]

  none_current :
      (ms : List ExternalIdentity) → current_mapping tenant subject ms ≡ none → NoneActive ms
  unfolding current_mapping find
  none_current [] h = tt
  none_current (m ∷ ms) h = (ground arith, none_current ms (ground arith))

  no_rows :
      (ps : List Principal) (ms : List ExternalIdentity)
      → NoneActive ms
      → mapped_rows tenant subject ps ms ≡ []
  unfolding mapped_rows is_active
  no_rows ps [] h = refl
  no_rows ps (m ∷ ms) (h, rest) = rw (h, no_rows ps ms rest) refl

  -- The principal that is joined to the mapping.
  joined :
      (id : Uuid) (ps : List Principal) (p : Principal)
      → principal_of_id id ps ≡ some p
      → p.principal_type ≡ "HUMAN"
      → find (λ q. q.id == id && q.principal_type == "HUMAN") ps ≡ some p
  unfolding principal_of_id find
  joined id [] p h human = cc
  joined id (q ∷ ps) p h human = elim (Bool-cases (q.id == id)) [
    | inl here ↦ let same : q ≡ p = ground arith in rw (here, same, human) refl
    | inr later ↦ rw later (joined id ps p (rw later at h) human)
  ]

  sole_rows :
      (ps : List Principal) (ms : List ExternalIdentity) (m : ExternalIdentity) (p : Principal)
      → OneActive ms
      → current_mapping tenant subject ms ≡ some m
      → principal_of_id m.principal_id ps ≡ some p
      → p.principal_type ≡ "HUMAN"
      → mapped_rows tenant subject ps ms ≡ (m, p) ∷ []
  unfolding mapped_rows current_mapping find is_active
  sole_rows ps [] m p h c j human = cc
  sole_rows ps (n ∷ ms) m p (h, rest) c j human = elim (Bool-cases (is_active tenant subject n)) [
    | inl active ↦
        let same : n ≡ m = ground arith in
        let j' : principal_of_id n.principal_id ps ≡ some p =
          subst (λ (k : ExternalIdentity). principal_of_id k.principal_id ps ≡ some p) (sym same)
            j in
        rw (active, joined n.principal_id ps p j' human, no_rows ps ms (h active))
          (ap (λ (k : ExternalIdentity). (k, p) ∷ []) same)
    | inr passed ↦ rw passed (sole_rows ps ms m p rest (rw passed at c) j human)
  ]

-- The two ways in which an assignment ends.
module _ (a : Assignment) (now : Time) (raced : Bool) (new_id : Uuid) (db : Db) where
  -- What an assignment leaves of the identity it assigns.
  pub record Mapped (m : ExternalIdentity) (after : Db) : Type 0 where
    pub principal : m.principal_id ≡ a.principal_id
    pub current : current_mapping a.tenant a.subject after.external_identities ≡ some m
    pub one_active : OneActive a.tenant a.subject after.external_identities
    pub same_principals : after.principals ≡ db.principals

  new_active :
      (version : ℕ) → is_active a.tenant a.subject (new_mapping a version now new_id) ≡ true
  unfolding is_active
  new_active version = rw (==_refl a.tenant, ==_refl a.subject) refl

  inserted :
      (version : ℕ) (rows : List ExternalIdentity) (m : ExternalIdentity) (after : Db)
      → NoneActive a.tenant a.subject rows
      → insert_mapping (new_mapping a version now new_id) raced rows db ≡ ok (m, after)
      → Mapped m after
  unfolding insert_mapping
  inserted version rows m after none_active h =
      let new = new_mapping a version now new_id in
      let (same_m, same_after) : (m ≡ new)
          × (after ≡ record db { external_identities = new ∷ rows }) =
        ground arith in
      rw (same_m, same_after)
        (record {
          principal = refl;
          current = unfold current_mapping find in rw (new_active version) refl;
          one_active = (λ _. none_active, NoneActive-OneActive a.tenant a.subject rows none_active);
          same_principals = refl;
        })

  replaced :
      (o : Option ExternalIdentity) (m : ExternalIdentity) (after : Db)
      → current_mapping a.tenant a.subject db.external_identities ≡ o
      → OneActive a.tenant a.subject db.external_identities
      → replace_mapping a now raced new_id db o ≡ ok (m, after)
      → Mapped m after
  unfolding replace_mapping
  replaced none m after c one h =
      inserted 1 db.external_identities m after
        (none_current a.tenant a.subject db.external_identities c) h
  replaced (some n) m after c one h = elim (Bool-cases (n.principal_id == a.principal_id)) [
    | inl kept ↦
        let (same_m, same_after) : (m ≡ n) × (after ≡ db) = ground arith in
        rw (same_m, same_after)
          (record {
            principal = ==→≡ n.principal_id a.principal_id kept;
            current = c;
            one_active = one;
            same_principals = refl;
          })
    | inr moved ↦
        let rows = close_mapping a.tenant a.subject now db.external_identities in
        let h' : (raise_if (leb now n.valid_from) integrity_error
              >> insert_mapping (new_mapping a (n.mapping_version + 1) now new_id) raced rows db)
            ≡ ok (m, after) =
          rw moved at h in
        let (_, h2) =
          raise_if-ok (leb now n.valid_from) integrity_error
            (insert_mapping (new_mapping a (n.mapping_version + 1) now new_id) raced rows db) h' in
        inserted (n.mapping_version + 1) rows m after
          (close-NoneActive a.tenant a.subject now db.external_identities one) h2
  ]

  human_lem :
      (o : Option Principal) (q : Principal)
      → human_required o ≡ ok q
      → (o ≡ some q) × (q.principal_type ≡ "HUMAN")
  unfolding human_required
  human_lem none q h = cc
  human_lem (some p) q h = let human = !=_false→≡ p.principal_type "HUMAN" in ground (arith, human)

  pub assign-Mapped :
      (m : ExternalIdentity) (after : Db)
      → OneActive a.tenant a.subject db.external_identities
      → assign a now raced new_id db ≡ ok (m, after)
      → Mapped m after
        × (p : Principal) × (principal_of_id a.principal_id db.principals ≡ some p)
        × (p.principal_type ≡ "HUMAN")
  unfolding assign
  assign-Mapped m after one h =
      let (p, required, h2) =
        bind-ok (human_required (principal_of_id a.principal_id db.principals))
          (λ (_ : Principal).
            replace_mapping a now raced new_id db
              (current_mapping a.tenant a.subject db.external_identities))
          h in
      let (found, human) = human_lem (principal_of_id a.principal_id db.principals) p required in
      (
        replaced (current_mapping a.tenant a.subject db.external_identities) m after refl one h2,
        p,
        found,
        human,
      )

-- An identity that is assigned resolves to the principal it was assigned to, by the mapping that was
-- returned: whether it was new, mapped to someone else before, or mapped to the same principal
-- already. At most one mapping of it is active, if that was so before.
pub assign_feishu_identity-resolve_feishu_principal :
    (hashing : Hashing) (tenant_id open_id : String) (principal_id audit_event_id : Uuid)
    (now : Time) (raced : Bool) (new_id : Uuid) (db after : Db) (m : ExternalIdentity)
    (p : Principal) (user_id : Uuid)
    → OneActive
        (external_identity_fingerprint hashing ("tenant:" <> tenant_id))
        (external_identity_fingerprint hashing ("subject:" <> open_id))
        db.external_identities
    → assign_feishu_identity hashing tenant_id open_id principal_id audit_event_id now raced new_id
        db
      ≡ ok (m, after)
    → principal_of_id principal_id db.principals ≡ some p
    → p.user_id ≡ some user_id
    → OneActive
        (external_identity_fingerprint hashing ("tenant:" <> tenant_id))
        (external_identity_fingerprint hashing ("subject:" <> open_id))
        after.external_identities
      × (resolve_feishu_principal hashing after tenant_id open_id
          ≡ some (record {
            user_id = user_id;
            principal_id = p.id;
            mapping_id = m.id;
            mapping_version = m.mapping_version;
          }))
unfolding assign_feishu_identity resolve_feishu_principal only_row
assign_feishu_identity-resolve_feishu_principal hashing tenant_id open_id principal_id
      audit_event_id now raced new_id db after m p user_id one h found user =
    let a : Assignment = record {
      tenant = external_identity_fingerprint hashing ("tenant:" <> tenant_id);
      subject = external_identity_fingerprint hashing ("subject:" <> open_id);
      principal_id = principal_id;
      audit_event_id = audit_event_id;
    } in
    let (mapped, q, found', human) = assign-Mapped a now raced new_id db m after one h in
    let same : q ≡ p = cc in
    (
      mapped.one_active,
      rw
          (
            sole_rows a.tenant a.subject after.principals after.external_identities m p
                mapped.one_active mapped.current
                (rw (mapped.same_principals, mapped.principal) found) (rw (← same) human),
            user,
          )
          refl,
    )
