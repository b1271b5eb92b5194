-- ===== src/Auth/Tokens.antt =====
-- The life of a token: issuing, revoking, expiring, and who may connect with it.
use iroh_raft.Common.{
  undo_not, ℕ, ◌+◌, ◌≤◌, ◌≡◌, ◌↔◌, ◌⊎◌, inl, inr, refl, ap, ◌∙◌, subst, eq→==, true, false, not,
  ◌||◌, List, [], ◌∷◌, Option, none, some, Bool-cases, ok, fail_if-eq_ok, >>=-eq_ok, ok_injective,
}
use iroh_raft.Common.Maps.{
  insert, lookup-insert, lookup-remove, AllPairs, AllPairs-insert, AllPairs-remove, AllPairs-retain,
}
use iroh_raft.Auth.Connections.{
  Peers, same, IrohAuth, is_node_allowed, whitelisted, is_nil, accept_token,
  authenticate_connection,
}
use iroh_raft.Auth.{
  AuthToken, AuthManager, new, new_token, unwrap_lifetime, signature_of, issue_token,
  validate_token, check_permission, add_trusted_issuer, remove_trusted_issuer, revoke_token,
  cleanup_expired_tokens, get_active_token,
}
use iroh_raft.Common.Equality.{In, contains, contains-In, nat_eq}
use iroh_raft.Auth.Operations.{ManagementRole, ManagementOperation}
use iroh_raft.Auth.Granted.{IsGenuine, validate_token-IsGenuine}
use iroh_raft.Auth.Roles.{Managed, fresh, trusting, distrusting, issuing, revoking, cleaning}

module _ {NodeId : Type 0} where
  -- A trusted issuer gets a token that is the active one of its node and stays genuine up to its expiry,
  -- as long as its issuer is trusted.
  pub issue_token-IsGenuine :
      (m : AuthManager NodeId) (now node : ℕ) (peer : NodeId) (role : ManagementRole) (issuer : ℕ)
      (duration : Option ℕ)
      → In issuer m.trusted_issuers
      → (m' : AuthManager NodeId) × (token : AuthToken NodeId) × (issue_token m now node peer role
            issuer duration
          ≡ ok (m', token))
        × (get_active_token m' node ≡ some token)
        × (token.expires_at ≡ now + unwrap_lifetime duration m.default_token_lifetime)
        × ((m″ : AuthManager NodeId) (later : ℕ)
            → In issuer m″.trusted_issuers
            → later ≤ token.expires_at
            → validate_token m″ later token ≡ ok tt)
  unfolding issue_token get_active_token
  issue_token-IsGenuine m now node peer role issuer duration trusted =
      let token = new_token m now node peer role issuer duration in
      (
        record m { active_tokens = insert node token m.active_tokens },
        token,
        rw ((contains-In issuer m.trusted_issuers).1 trusted) refl,
        lookup-insert node node token m.active_tokens ∙ rw (eq→== node node refl) refl,
        refl,
        (λ m″ later still alive.
            (validate_token-IsGenuine m″ later token).1
              (record { alive = alive; trusted = still; signed = refl })),
      )

  -- Revoking the tokens of a node removes its active token and changes nothing else: every
  -- token, the revoked one too, is answered as before by every check of a permission.
  pub check_permission-revoke_token :
      (m : AuthManager NodeId) (node now later : ℕ) (token : AuthToken NodeId)
      (operation : ManagementOperation)
      → (get_active_token (revoke_token m node) node ≡ none)
        × (check_permission (revoke_token m node) now later token operation
            ≡ check_permission m now later token operation)
  unfolding revoke_token get_active_token check_permission validate_token
  check_permission-revoke_token m node now later token operation =
      (lookup-remove node node m.active_tokens ∙ rw (eq→== node node refl) refl, refl)

  -- A token under the key of its node, with the signature of its fields.
  abbrev pub IsKept : ℕ → AuthToken NodeId → Type 0
  IsKept node token =
      (token.node_id ≡ node)
      × (token.signature ≡ signature_of token.node_id token.role token.expires_at token.issued_by)

  issue_token-IsKept :
      (m m' : AuthManager NodeId) (now node : ℕ) (peer : NodeId) (role : ManagementRole)
      (issuer : ℕ) (duration : Option ℕ) (token : AuthToken NodeId)
      → AllPairs IsKept m.active_tokens
      → issue_token m now node peer role issuer duration ≡ ok (m', token)
      → AllPairs IsKept m'.active_tokens
  unfolding issue_token
  issue_token-IsKept m m' now node peer role issuer duration token h issued =
      let fresh_token = new_token m now node peer role issuer duration in
      let (_, given) =
        fail_if-eq_ok (not (contains issuer m.trusted_issuers)) _ _ (m', token) issued in
      subst (λ (t : AuthManager NodeId). AllPairs IsKept t.active_tokens)
        (ap (λ (p : AuthManager NodeId × AuthToken NodeId). p.0) (ok_injective given))
        (AllPairs-insert IsKept node fresh_token m.active_tokens h (refl, refl))

  -- In a manager that arises from a new one without `update_role_permission`, every active token
  -- stands under its own node and carries the signature of its own fields.
  pub Managed-IsKept : (m : AuthManager NodeId) → Managed NodeId m → AllPairs IsKept m.active_tokens
  unfolding new add_trusted_issuer remove_trusted_issuer revoke_token cleanup_expired_tokens
  Managed-IsKept m fresh = tt
  Managed-IsKept _ (trusting m issuer h) = elim (Bool-cases (contains issuer m.trusted_issuers)) [
    | inl known ↦ rw known (Managed-IsKept m h)
    | inr other ↦ rw other (Managed-IsKept m h)
  ]
  Managed-IsKept _ (distrusting m issuer h) = Managed-IsKept m h
  Managed-IsKept _ (issuing m m' now node peer role issuer duration token h issued) =
      issue_token-IsKept m m' now node peer role issuer duration token (Managed-IsKept m h) issued
  Managed-IsKept _ (revoking m node h) =
      AllPairs-remove IsKept node m.active_tokens (Managed-IsKept m h)
  Managed-IsKept _ (cleaning m now h) =
      AllPairs-retain IsKept _ m.active_tokens (Managed-IsKept m h)

module _ (peers : Peers) where
  open peers use {NodeId}

  whitelisted-In : (n : NodeId) (xs : List NodeId) → (whitelisted peers n xs ≡ true) ↔ In n xs
  whitelisted-In = contains-In ⦃e = peers.equality⦄

  allowed-In :
      (n : NodeId) (xs : List NodeId)
      → (not (is_nil peers xs || whitelisted peers n xs) ≡ false) ↔ ((xs ≡ []) ⊎ In n xs)
  allowed-In n [] = ((λ h. inl refl), (λ h. refl))
  allowed-In n (x ∷ xs) =
      let member = whitelisted-In n (x ∷ xs) in
      (
        (λ h. inr (member.0 (undo_not _ h))),
        (λ h. elim h [ inl nil ↦ absurd cc | inr there ↦ ap not (member.1 there) ]),
      )

  accept_token_iff :
      (m : AuthManager NodeId) (now : ℕ) (peer : NodeId) (o : Option (AuthToken NodeId))
      (token : AuthToken NodeId)
      → (accept_token peers m now peer o ≡ ok (some token))
        ↔ ((o ≡ some token) × (token.peer_id ≡ peer) × IsGenuine m now token)
  accept_token_iff m now peer none token = ((λ h. absurd cc), (λ h. absurd cc))
  accept_token_iff m now peer (some t) token = (
    (λ h. elim (Bool-cases (same peers t.peer_id peer)) [
      | inl here ↦
          let (_, valid, given) =
            >>=-eq_ok (validate_token m now t) (λ _. ok (some t)) (some token) (rw here at h) in
          let equal : t ≡ token = cc in
          (
            ap some equal,
            rw⁻¹ equal ((peers.equality.beq_iff t.peer_id peer).0 here),
            rw⁻¹ equal ((validate_token-IsGenuine m now t).0 valid),
          )
      | inr other ↦ let given = rw other at h in absurd cc
    ]),
    (λ h.
        let equal : t ≡ token = cc in
        rw
          (
            equal,
            (peers.equality.beq_iff token.peer_id peer).1 h.1,
            (validate_token-IsGenuine m now token).1 h.2,
          )
          refl),
  )

  -- A connection is let in as a node exactly if the peer is whitelisted, or no peer is, and the node's
  -- active token is the peer's and genuine.
  pub authenticate_connection_iff :
      (a : IrohAuth peers) (now : ℕ) (peer : NodeId) (node : ℕ) (token : AuthToken NodeId)
      → (authenticate_connection peers a now peer node ≡ ok (some token)) ↔ (
          ((a.node_whitelist ≡ []) ⊎ In peer a.node_whitelist)
          × (get_active_token a.auth_manager node ≡ some token)
          × (token.peer_id ≡ peer)
          × IsGenuine a.auth_manager now token)
  unfolding authenticate_connection is_node_allowed
  authenticate_connection_iff a now peer node token =
      let accepted =
        accept_token_iff a.auth_manager now peer (get_active_token a.auth_manager node) token in
      let allowed = allowed-In peer a.node_whitelist in
      (
        (λ h.
            let (open_to, rest) =
              fail_if-eq_ok
                (not (is_nil peers a.node_whitelist || whitelisted peers peer a.node_whitelist)) _ _
                (some token) h in
            let (found, equal, genuine) = accepted.0 rest in
            (allowed.0 open_to, found, equal, genuine)),
        (λ h. rw (allowed.1 h.0) (accepted.1 (h.1, h.2, h.3))),
      )
