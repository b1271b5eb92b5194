-- ===== src/Config/Validity.antt =====
-- src/config.rs: which settings `validate` accepts, and what the builder makes of them.
use Prim.Native.String.{String}
use text.Mathlib.Text.{◌==◌ as str_eq}
use text.Mathlib.TextEquality.{eq_iff}
use iroh_raft.Common.{
  ℕ, arith, ◌<◌, ◌≡◌, refl, sym, ap, subst, ◌↔◌, ◌⊎◌, inl, inr, leb, not, true, false, Bool-cases,
  List, [], ◌∷◌, Option, none, some, ok, fail_if-eq_ok, >>=-eq_ok, not_leb→lt, lt→not_leb, undo_not,
  eq_false, >>-eq_ok,
}
use iroh_raft.Common.Equality.{string_eq, contains, contains-In, In}
use iroh_raft.Config.Outside.{Host}
use iroh_raft.Config.Types.{Config, SyncStrategy, periodic, on_commit, no_sync}
use iroh_raft.Config.{is_none, log_levels, check_peers, validate}
use iroh_raft.Config.Builder.{
  new, preset, node_id, development_preset, production_preset, testing_preset, election_timeout,
  build,
}

some_id : (o : Option ℕ) → is_none o ≡ false → (id : ℕ) × (o ≡ some id)
some_id none h = absurd cc
some_id (some id) h = (id, refl)

module _ (host : Host) where
  -- No address stands twice.
  abbrev pub AllDistinct : List host.SocketAddr → Type 0
  AllDistinct [] = Unit
  AllDistinct (peer ∷ peers) = ¬ (In peer peers) × AllDistinct peers

  pub record IsValid (c : Config host) : Type 0 where
    pub identified : (id : ℕ) × (c.node.id ≡ some id)
    pub placed : ¬ (c.node.data_dir ≡ "")
    pub beats : c.raft.heartbeat_interval < c.raft.election_timeout_min
    pub spread : c.raft.election_timeout_min < c.raft.election_timeout_max
    pub peers_distinct : AllDistinct c.transport.peers
    pub level_known : In c.observability.logging.level log_levels
    pub rate_sound : host.in_unit_interval c.observability.tracing.sample_rate ≡ true

  check_peers_ok :
      (seen peers : List host.SocketAddr)
      → check_peers host seen peers ≡ ok tt
      → AllDistinct peers × ((peer : host.SocketAddr) → In peer peers → ¬ (In peer seen))
  unfolding check_peers
  check_peers_ok seen [] h = (tt, λ (peer : host.SocketAddr) (there : ⊥). absurd there)
  check_peers_ok seen (peer ∷ peers) h =
      elim (Bool-cases (contains ⦃e = host.address_eq⦄ peer seen)) [
        | inl again ↦ let refused = rw again at h in absurd cc
        | inr new ↦
            let (distinct, apart) = check_peers_ok (peer ∷ seen) peers (rw new at h) in
            (
              (λ (there : In peer peers). apart peer there (inl refl), distinct),
              λ (other : host.SocketAddr) (there : In other (peer ∷ peers))
                    (before : In other seen).
                  elim there [
                    | inl same ↦
                        let again =
                          (contains-In ⦃e = host.address_eq⦄ peer seen).1
                            (subst (λ (p : host.SocketAddr). In p seen) (sym same) before) in
                        absurd cc
                    | inr later ↦ apart other later (inr before)
                  ],
            )
      ]

  ok_check_peers :
      (seen peers : List host.SocketAddr)
      → AllDistinct peers
      → ((peer : host.SocketAddr) → In peer peers → ¬ (In peer seen))
      → check_peers host seen peers ≡ ok tt
  unfolding check_peers
  ok_check_peers seen [] h new = refl
  ok_check_peers seen (peer ∷ peers) h new =
      let fresh =
        eq_false (contains ⦃e = host.address_eq⦄ peer seen)
          (λ again. new peer (inl refl) ((contains-In ⦃e = host.address_eq⦄ peer seen).0 again)) in
      rw fresh (
        ok_check_peers (peer ∷ seen) peers h.1
          (λ (other : host.SocketAddr) (there : In other peers) (before : In other (peer ∷ seen)).
            elim before [
              | inl same ↦ h.0 (subst (λ (p : host.SocketAddr). In p peers) (sym same) there)
              | inr earlier ↦ new other (inr there) earlier
            ]))

  -- `validate` accepts exactly the settings that are valid.
  pub validate_iff : (c : Config host) → (validate host c ≡ ok tt) ↔ IsValid c
  unfolding validate
  validate_iff c = (
    (λ h.
        let (identified, h₁) = fail_if-eq_ok (is_none c.node.id) _ _ tt h in
        let (placed, h₂) = fail_if-eq_ok (str_eq c.node.data_dir "") _ _ tt h₁ in
        let (beats, h₃) =
          fail_if-eq_ok (leb c.raft.election_timeout_min c.raft.heartbeat_interval) _ _ tt h₂ in
        let (spread, h₄) =
          fail_if-eq_ok (leb c.raft.election_timeout_max c.raft.election_timeout_min) _ _ tt h₃ in
        let (checked, h₅) = >>-eq_ok (check_peers host [] c.transport.peers) _ tt h₄ in
        let (known, h₆) =
          fail_if-eq_ok (not (contains c.observability.logging.level log_levels)) _ _ tt h₅ in
        let (rate, _) =
          fail_if-eq_ok (not (host.in_unit_interval c.observability.tracing.sample_rate)) _ _ tt
            h₆ in
        record {
          identified = some_id c.node.id identified;
          placed = λ (empty : c.node.data_dir ≡ "").
              let same = (eq_iff c.node.data_dir "").1 empty in absurd cc;
          beats = not_leb→lt c.raft.election_timeout_min c.raft.heartbeat_interval beats;
          spread = not_leb→lt c.raft.election_timeout_max c.raft.election_timeout_min spread;
          peers_distinct = (check_peers_ok [] c.transport.peers checked).0;
          level_known = (contains-In c.observability.logging.level log_levels).0 (undo_not _ known);
          rate_sound = undo_not _ rate;
        }),
    (λ v.
        rw
          (
            ap is_none v.identified.1,
            eq_false (str_eq c.node.data_dir "")
                (λ same. v.placed ((eq_iff c.node.data_dir "").0 same)),
            lt→not_leb c.raft.election_timeout_min c.raft.heartbeat_interval v.beats,
            lt→not_leb c.raft.election_timeout_max c.raft.election_timeout_min v.spread,
            ok_check_peers [] c.transport.peers v.peers_distinct (λ peer there before. before),
            (contains-In c.observability.logging.level log_levels).1 v.level_known,
            v.rate_sound,
          )
          refl),
  )

  build_iff : (c : Config host) → (build host c ≡ ok c) ↔ IsValid c
  unfolding build
  build_iff c = (
    (λ h. let (done, valid, _) = >>=-eq_ok (validate host c) _ c h in (validate_iff c).0 valid),
    (λ v. rw (build, (validate_iff c).1 v) refl),
  )

  info_known : In "info" log_levels
  info_known = inr (inr (inl refl))

  preset-IsValid :
      (min max heartbeat : ℕ) (level : String) (sync : SyncStrategy) (id : ℕ)
      → heartbeat < min
      → min < max
      → In level log_levels
      → IsValid (node_id host (preset host min max heartbeat level sync) id)
  preset-IsValid min max heartbeat level sync id beats spread known = record {
    identified = (id, refl);
    placed = λ (empty : "./data" ≡ ""). let same = (eq_iff "./data" "").1 empty in absurd cc;
    beats = beats;
    spread = spread;
    peers_distinct = tt;
    level_known = known;
    rate_sound = host.in_unit_interval-tenth;
  }

  -- The builders without a preset and with each of the three presets accept any node identity as
  -- all that they need.
  pub build-presets :
      (id : ℕ) (c : Config host)
      → ((c ≡ new host) ⊎ (c ≡ development_preset host))
        ⊎ ((c ≡ production_preset host) ⊎ (c ≡ testing_preset host))
      → build host (node_id host c id) ≡ ok (node_id host c id)
  build-presets id c which =
      let accepted : (d : Config host)
          → c ≡ d
          → IsValid (node_id host d id)
          → build host (node_id host c id) ≡ ok (node_id host c id) =
        λ d same v.
          subst (λ (b : Config host). build host (node_id host b id) ≡ ok (node_id host b id))
            (sym same) ((build_iff (node_id host d id)).1 v) in
      elim which [
        | inl (inl plain) ↦ accepted (new host) plain (
            preset-IsValid 3000 5000 1000 "info" periodic id (omega arith) (omega arith) info_known)
        | inl (inr development) ↦ accepted (development_preset host) development (
            preset-IsValid 1000 2000 250 "debug" periodic id (omega arith) (omega arith)
              (inr (inl refl)))
        | inr (inl production) ↦ accepted (production_preset host) production (
            preset-IsValid 5000 10000 1000 "info" on_commit id (omega arith) (omega arith)
              info_known)
        | inr (inr testing) ↦
            let v =
              preset-IsValid 500 1000 100 "warn" no_sync id (omega arith) (omega arith)
                (inr (inr (inr (inl refl)))) in
            accepted (testing_preset host) testing (record {
              identified = v.identified;
              placed = v.placed;
              beats = v.beats;
              spread = v.spread;
              peers_distinct = v.peers_distinct;
              level_known = v.level_known;
              rate_sound = v.rate_sound;
            })
      ]

  -- For valid settings, a new election timeout is accepted exactly if it is above the heartbeat interval.
  pub build-election_timeout :
      (c : Config host) (min : ℕ)
      → IsValid c
      → (build host (election_timeout host c min) ≡ ok (election_timeout host c min))
        ↔ (c.raft.heartbeat_interval < min)
  build-election_timeout c min v = (
    (λ h. ((build_iff (election_timeout host c min)).0 h).beats),
    (λ h. (build_iff (election_timeout host c min)).1 (record {
      identified = v.identified;
      placed = v.placed;
      beats = h;
      spread = omega arith;
      peers_distinct = v.peers_distinct;
      level_known = v.level_known;
      rate_sound = v.rate_sound;
    })),
  )
