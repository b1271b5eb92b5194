-- ===== src/Auth/Granted.antt =====
-- Validation and permission checks against a description of what a token must be.
use Prim.Native.String.{String}
use text.Mathlib.Text.{◌==◌ as str_eq}
use text.Mathlib.TextEquality.{eq_iff}
use iroh_raft.Common.{
  undo_not, eq_false, ℕ, ◌≤◌, ◌≡◌, ◌↔◌, ◌⊎◌, inl, inr, refl, ap, Bool, true, false, not, ◌||◌, ltb,
  not_ltb→le, le→not_ltb, List, [], ◌∷◌, Option, none, some, Bool-cases, ok, fail_if-eq_ok,
  >>=-eq_ok, ok_injective, arith,
}
use iroh_raft.Common.Equality.{In, contains, contains-In, nat_eq, string_eq}
use iroh_raft.Auth.{AuthToken, AuthManager, signature_of, validate_token, check_permission}
use iroh_raft.Auth.Permissions.{
  Permission, TimeRestriction, ResourceRestriction, outside_time, outside_resources,
  role_permission, not_allowed_node,
}
use iroh_raft.Auth.Operations.{ManagementOperation, operation_to_string, operation_target_node}

-- What a valid token is: not expired, from an issuer that is trusted now, and with the signature of
-- its own fields.
pub record IsGenuine {NodeId : Type 0} (m : AuthManager NodeId) (now : ℕ) (token : AuthToken NodeId)
    : Type 0 where
  pub alive : now ≤ token.expires_at
  pub trusted : In token.issued_by m.trusted_issuers
  pub signed :
      token.signature ≡ signature_of token.node_id token.role token.expires_at token.issued_by

abbrev pub InTime : Option TimeRestriction → ℕ → Type 0
InTime none now = Unit
InTime (some t) now = (t.valid_from ≤ now) × (now ≤ t.valid_until)

-- An empty list of allowed nodes allows all; an operation without a target meets no node.
abbrev pub MayReach : Option ResourceRestriction → Option ℕ → Type 0
MayReach none target = Unit
MayReach (some r) none = Unit
MayReach (some r) (some node) =
    ((r.allowed_nodes ≡ []) ⊎ In node r.allowed_nodes) × ¬ (In node r.denied_nodes)

pub record Grants (p : Permission) (later : ℕ) (operation : ManagementOperation) : Type 0 where
  pub named : In "*" p.allowed_operations ⊎ In (operation_to_string operation) p.allowed_operations
  pub in_time : InTime p.time_restrictions later
  pub reaches : MayReach p.resource_restrictions (operation_target_node operation)

outside_time-InTime :
    (t : Option TimeRestriction) (now : ℕ) → (outside_time t now ≡ false) ↔ InTime t now
outside_time-InTime none now = ((λ h. tt), (λ h. refl))
outside_time-InTime (some t) now = ((λ h. ground arith), (λ h. ground arith))

not_allowed_node-In :
    (nodes : List ℕ) (node : ℕ)
    → (not_allowed_node nodes (some node) ≡ false) ↔ ((nodes ≡ []) ⊎ In node nodes)
not_allowed_node-In [] node = ((λ h. inl refl), (λ h. refl))
not_allowed_node-In (n ∷ ns) node =
    let member = contains-In node (n ∷ ns) in
    (
      (λ h. inr (member.0 (undo_not _ h))),
      (λ h. elim h [ inl nil ↦ absurd cc | inr there ↦ ap not (member.1 there) ]),
    )

no_target_allowed : (nodes : List ℕ) → not_allowed_node nodes none ≡ false
no_target_allowed [] = refl
no_target_allowed (n ∷ ns) = refl

or_false : (a b : Bool) → (a || b) ≡ false → (a ≡ false) × (b ≡ false)
or_false true b h = absurd cc
or_false false b h = (refl, h)

outside_resources-MayReach :
    (r : Option ResourceRestriction) (target : Option ℕ)
    → (outside_resources r target ≡ false) ↔ MayReach r target
outside_resources-MayReach none target = ((λ h. tt), (λ h. refl))
outside_resources-MayReach (some r) none =
    ((λ h. tt), (λ h. rw (no_target_allowed r.allowed_nodes) refl))
outside_resources-MayReach (some r) (some node) =
    let allowed = not_allowed_node-In r.allowed_nodes node in
    let member = contains-In node r.denied_nodes in
    (
      (λ h.
          let (a, d) = or_false (not_allowed_node r.allowed_nodes (some node)) _ h in
          (allowed.0 a, λ there. let yes_denied = member.1 there in absurd cc)),
      (λ h. rw (allowed.1 h.0, eq_false _ (λ there. h.1 (member.0 there))) refl),
    )

named_lem :
    (name : String) (xs : List String)
    → (not (contains "*" xs || contains name xs) ≡ false) ↔ (In "*" xs ⊎ In name xs)
named_lem name xs =
    let star = contains-In "*" xs in
    let word = contains-In name xs in
    (
      (λ h. elim (Bool-cases (contains "*" xs)) [
        | inl all ↦ inl (star.0 all)
        | inr some_only ↦ inr (word.0 (undo_not _ (rw some_only at h)))
      ]),
      (λ h. elim h [
        | inl all ↦ rw (star.1 all) refl
        | inr one ↦ elim (Bool-cases (contains "*" xs)) [
          | inl all ↦ rw all refl
          | inr other ↦ rw (other, word.1 one) refl
        ]
      ]),
    )

role_permission_ok :
    (o : Option Permission) (node : ℕ) (p : Permission) → role_permission o node ≡ ok p → o ≡ some p
role_permission_ok none node p h = absurd cc
role_permission_ok (some q) node p h = ap some (ok_injective h)

module _ {NodeId : Type 0} where
  pub validate_token-IsGenuine :
      (m : AuthManager NodeId) (now : ℕ) (token : AuthToken NodeId)
      → (validate_token m now token ≡ ok tt) ↔ IsGenuine m now token
  unfolding validate_token
  validate_token-IsGenuine m now token = (
    (λ h.
        let (alive, h₁) = fail_if-eq_ok (ltb token.expires_at now) _ _ tt h in
        let (trusted, h₂) =
          fail_if-eq_ok (not (contains token.issued_by m.trusted_issuers)) _ _ tt h₁ in
        let (signed, _) = fail_if-eq_ok (not (str_eq token.signature _)) _ _ tt h₂ in
        record {
          alive = not_ltb→le token.expires_at now alive;
          trusted = (contains-In token.issued_by m.trusted_issuers).0 (undo_not _ trusted);
          signed = (eq_iff token.signature _).0 (undo_not _ signed);
        }),
    (λ g.
        rw
          (
            le→not_ltb token.expires_at now g.alive,
            (contains-In token.issued_by m.trusted_issuers).1 g.trusted,
            (eq_iff token.signature _).1 g.signed,
          )
          refl),
  )

  -- A permission check succeeds exactly for a token that is genuine at the first reading of the
  -- clock, whose role has a permission that names the operation or the wildcard, holds at the second reading, and
  -- reaches the node that the operation is about, if it is about one.
  pub check_permission_iff :
      (m : AuthManager NodeId) (now later : ℕ) (token : AuthToken NodeId)
      (operation : ManagementOperation)
      → (check_permission m now later token operation ≡ ok tt) ↔ (
          IsGenuine m now token
          × ((p : Permission) × (m.role_permissions token.role ≡ some p)
              × Grants p later operation))
  unfolding check_permission
  check_permission_iff m now later token operation = (
    (λ h.
        let (_, valid, h₁) = >>=-eq_ok (validate_token m now token) _ tt h in
        let (p, known, h₂) =
          >>=-eq_ok (role_permission (m.role_permissions token.role) token.node_id) _ tt h₁ in
        let (named, h₃) =
          fail_if-eq_ok
            (not (
              contains "*" p.allowed_operations
              || contains (operation_to_string operation) p.allowed_operations))
            _ _ tt h₂ in
        let (in_time, h₄) = fail_if-eq_ok (outside_time p.time_restrictions later) _ _ tt h₃ in
        let (reaches, _) =
          fail_if-eq_ok
            (outside_resources p.resource_restrictions (operation_target_node operation)) _ _ tt
            h₄ in
        (
          (validate_token-IsGenuine m now token).0 valid,
          (
            p,
            role_permission_ok _ token.node_id p known,
            record {
              named = (named_lem (operation_to_string operation) p.allowed_operations).0 named;
              in_time = (outside_time-InTime p.time_restrictions later).0 in_time;
              reaches =
                  (outside_resources-MayReach p.resource_restrictions
                      (operation_target_node operation)).0
                    reaches;
            },
          ),
        )),
    (λ h.
        let (genuine, (p, known, grants)) = h in
        rw
          (
            (validate_token-IsGenuine m now token).1 genuine,
            known,
            (named_lem (operation_to_string operation) p.allowed_operations).1 grants.named,
            (outside_time-InTime p.time_restrictions later).1 grants.in_time,
            (outside_resources-MayReach p.resource_restrictions (operation_target_node operation)).1
                grants.reaches,
          )
          refl),
  )
