-- ===== src/Discovery/Members.antt =====
-- The members of one cluster in src/management/discovery.rs: how the member of a node is found after a change.
use Prim.Native.String.{String}
use iroh_raft.Common.{
  ℕ, ◌≡◌, refl, ap, ◌∙◌, ◌⊎◌, inl, inr, Bool, true, false, not, List, [], ◌∷◌, ◌++◌, Option, none,
  some, ◌==◌, ==→eq, if◌then◌else◌, Bool-cases, Option-cases, arith, subst,
}
use iroh_raft.Auth.Operations.{MemberRole}
use iroh_raft.Events.{HealthStatus}
use iroh_raft.Discovery.{
  ClusterMember, change_member, or_unchanged, retain_members, with_member, known_version, first_or,
}

-- The first member of the node.
unfoldable pub find_member : ℕ → List ClusterMember → Option ClusterMember
find_member n [] = none
find_member n (m ∷ ms) = let rest = find_member n ms in if m.node_id == n then some m else rest

abbrev pub map_member :
    (ClusterMember → ClusterMember) → Option ClusterMember → Option ClusterMember
map_member change none = none
map_member change (some m) = some (change m)

-- A member after an announcement of its node.
abbrev pub announced :
    ℕ → ℕ → List String → MemberRole → HealthStatus → Option ClusterMember → ClusterMember
announced now node_id endpoints role health (some m) = record m {
  address = first_or endpoints m.address;
  role = role;
  health = health;
  last_seen = now;
}
announced now node_id endpoints role health none = record {
  node_id = node_id;
  address = first_or endpoints "unknown";
  role = role;
  health = health;
  last_seen = now;
  version = known_version;
}

find_member-append :
    (n : ℕ) (ms : List ClusterMember) (m : ClusterMember)
    → find_member n (ms ++ (m ∷ [])) ≡ elim (find_member n ms) [
      | some found ↦ some found
      | none ↦ if m.node_id == n then some m else none
    ]
unfolding find_member
find_member-append n [] m = refl
find_member-append n (x ∷ ms) m = elim (Bool-cases (x.node_id == n)) [
  | inl same ↦ rw same refl
  | inr other ↦ rw other (find_member-append n ms m)
]

module _ (node_id : ℕ) (change : ClusterMember → ClusterMember)
    (keeps : (m : ClusterMember) → (change m).node_id ≡ m.node_id) where
  -- What a change of one member leaves to be found.
  abbrev Changed : List ClusterMember → List ClusterMember → Type 0
  Changed ms changed =
      (n : ℕ)
      → find_member n changed
        ≡ (if node_id == n then map_member change (find_member n ms) else find_member n ms)

  first-Changed :
      (m : ClusterMember) (ms : List ClusterMember)
      → (m.node_id == node_id) ≡ true
      → Changed (m ∷ ms) (change m ∷ ms)
  unfolding find_member
  first-Changed m ms same n =
      let id : m.node_id ≡ node_id = ==→eq m.node_id node_id same in
      elim (Bool-cases (node_id == n)) [
        | inl hit ↦
            let before : (m.node_id == n) ≡ true = ap (λ i. i == n) id ∙ hit in
            let after : ((change m).node_id == n) ≡ true = ap (λ i. i == n) (keeps m) ∙ before in
            rw (after, before, hit) refl
        | inr miss ↦
            let before : (m.node_id == n) ≡ false = ap (λ i. i == n) id ∙ miss in
            let after : ((change m).node_id == n) ≡ false = ap (λ i. i == n) (keeps m) ∙ before in
            rw (after, before, miss) refl
      ]

  later-Changed :
      (m : ClusterMember) (ms changed : List ClusterMember)
      → (m.node_id == node_id) ≡ false
      → Changed ms changed
      → Changed (m ∷ ms) (m ∷ changed)
  unfolding find_member
  later-Changed m ms changed other found n = elim (Bool-cases (m.node_id == n)) [
    | inl hit ↦ let far : (node_id == n) ≡ false = ground arith in rw (hit, far) refl
    | inr miss ↦ rw miss (found n)
  ]

  change_member_cases :
      (ms : List ClusterMember)
      → ((change_member node_id change ms ≡ none) × (find_member node_id ms ≡ none))
        ⊎ ((changed : List ClusterMember) × (change_member node_id change ms ≡ some changed)
            × Changed ms changed
            × ((m : ClusterMember) × (find_member node_id ms ≡ some m)))
  unfolding change_member find_member
  change_member_cases [] = inl (refl, refl)
  change_member_cases (m ∷ ms) = elim (Bool-cases (m.node_id == node_id)) [
    | inl same ↦ rw same (inr (change m ∷ ms, refl, first-Changed m ms same, (m, refl)))
    | inr other ↦ elim (change_member_cases ms) [
      | inl (nowhere, absent) ↦ rw (other, nowhere) (inl (refl, absent))
      | inr (changed, done, found, there) ↦
          rw (other, done) (inr (m ∷ changed, refl, later-Changed m ms changed other found, there))
    ]
  ]

  pub find_member-change_member :
      (n : ℕ) (ms : List ClusterMember)
      → find_member n (or_unchanged ms (change_member node_id change ms))
        ≡ (if node_id == n then map_member change (find_member n ms) else find_member n ms)
  find_member-change_member n ms = elim (change_member_cases ms) [
    | inl (nowhere, absent) ↦ elim (Bool-cases (node_id == n)) [
      | inr miss ↦ rw (nowhere, miss) refl
      | inl hit ↦
          let gone : find_member n ms ≡ none =
            subst (λ i. find_member i ms ≡ none) (==→eq node_id n hit) absent in
          rw (nowhere, hit, gone) refl
    ]
    | inr (changed, done, found, _) ↦ rw done (found n)
  ]

pub find_member-retain_members :
    (keep : ClusterMember → Bool) (n : ℕ) (ms : List ClusterMember)
    → ((m : ClusterMember) → (m.node_id == n) ≡ true → keep m ≡ true)
    → find_member n (retain_members keep ms) ≡ find_member n ms
unfolding find_member retain_members
find_member-retain_members keep n [] h = refl
find_member-retain_members keep n (m ∷ ms) h =
    let rest = find_member-retain_members keep n ms h in
    elim (Bool-cases (m.node_id == n)) [
      | inl same ↦ rw (h m same, same) refl
      | inr other ↦ elim (Bool-cases (keep m)) [
        | inl kept ↦ rw (kept, other) rest
        | inr gone ↦ rw (gone, other) rest
      ]
    ]

pub find_member-removed :
    (n : ℕ) (ms : List ClusterMember)
    → find_member n (retain_members (λ m. not (m.node_id == n)) ms) ≡ none
unfolding find_member retain_members
find_member-removed n [] = refl
find_member-removed n (m ∷ ms) = elim (Bool-cases (m.node_id == n)) [
  | inl same ↦ rw same (find_member-removed n ms)
  | inr other ↦ rw other (rw other (find_member-removed n ms))
]

module _ (now node_id : ℕ) (endpoints : List String) (role : MemberRole)
    (health : HealthStatus) where
  pub find_member-with_member :
      (n : ℕ) (ms : List ClusterMember)
      → find_member n (with_member now node_id endpoints role health ms) ≡ (
          if node_id == n
          then some (announced now node_id endpoints role health (find_member n ms))
          else find_member n ms)
  unfolding with_member
  find_member-with_member n ms =
      let change : ClusterMember → ClusterMember =
        λ m. announced now node_id endpoints role health (some m) in
      let member = announced now node_id endpoints role health in
      elim (change_member_cases node_id change (λ m. refl) ms) [
        | inl (nowhere, absent) ↦
            rw (with_member, nowhere)
              (find_member-append n ms (member none) ∙ elim (Bool-cases (node_id == n)) [
                | inl hit ↦
                    let gone : find_member n ms ≡ none =
                      subst (λ i. find_member i ms ≡ none) (==→eq node_id n hit) absent in
                    rw (gone, hit) refl
                | inr miss ↦ elim (Option-cases (find_member n ms)) [
                  | inl gone ↦ rw (gone, miss) refl
                  | inr (m, there) ↦ rw (there, miss) refl
                ]
              ])
        | inr (changed, done, found, (m, there)) ↦
            rw (with_member, done)
              (found n ∙ elim (Bool-cases (node_id == n)) [
                | inl hit ↦
                    let here : find_member n ms ≡ some m =
                      subst (λ i. find_member i ms ≡ some m) (==→eq node_id n hit) there in
                    rw (here, hit) refl
                | inr miss ↦ rw miss refl
              ])
      ]
