-- ===== src/Events/Broadcast.antt =====
-- src/management/events.rs: `EventBroadcaster`. A subscription identifier is a number, and `send` what a send
-- on a channel leaves of it, or nothing where the receiver is gone.
use iroh_raft.Common.{
  ℕ, ◌==◌, arith, ◌≡◌, refl, sym, subst, ◌∙◌, inl, inr, false, Bool-cases, if◌then◌else◌, List, [],
  ◌∷◌, length, Option, none, some, Option-cases, ==→eq,
}
use iroh_raft.Common.Equality.{nat_eq, contains}
use iroh_raft.Common.Maps.{lookup, insert, remove, lookup-remove}
use iroh_raft.Common.Distinct.{Distinct}

module _ {Event Sender : Type 0} (send : Sender → Event → Option Sender) where
  abbrev pub new_broadcaster : List (ℕ × Sender)
  new_broadcaster = []

  unfoldable pub subscribe : List (ℕ × Sender) → ℕ → Sender → List (ℕ × Sender)
  subscribe subscribers id sender = insert id sender subscribers

  unfoldable pub unsubscribe : List (ℕ × Sender) → ℕ → List (ℕ × Sender)
  unsubscribe subscribers id = remove id subscribers

  abbrev pub after_send : Option Sender → Sender → Sender
  after_send none sender = sender
  after_send (some s) sender = s

  abbrev pub closed_by : Option Sender → ℕ → List ℕ → List ℕ
  closed_by none id ids = id ∷ ids
  closed_by (some s) id ids = ids

  -- The loop over the subscribers: the channels after it, and those that turned out to be closed.
  unfoldable pub send_all : List (ℕ × Sender) → Event → List (ℕ × Sender) × List ℕ
  send_all [] event = ([], [])
  send_all ((id, sender) ∷ subscribers) event =
      let rest = send_all subscribers event in
      let sent = send sender event in
      ((id, after_send sent sender) ∷ rest.0, closed_by sent id rest.1)

  unfoldable pub remove_all : List ℕ → List (ℕ × Sender) → List (ℕ × Sender)
  remove_all [] subscribers = subscribers
  remove_all (id ∷ ids) subscribers = remove_all ids (remove id subscribers)

  unfoldable pub broadcast : List (ℕ × Sender) → Event → List (ℕ × Sender)
  unfolding send_all remove_all
  broadcast subscribers event =
      let (sent, closed) = send_all subscribers event in remove_all closed sent

  abbrev pub subscriber_count : List (ℕ × Sender) → ℕ
  subscriber_count subscribers = length subscribers

  abbrev pub sent_to : Option Sender → Event → Option Sender
  sent_to none event = none
  sent_to (some sender) event = send sender event

  lookup-remove_all :
      (id : ℕ) (ids : List ℕ) (m : List (ℕ × Sender))
      → lookup id (remove_all ids m) ≡ (if contains id ids then none else lookup id m)
  unfolding remove_all
  lookup-remove_all id [] m = refl
  lookup-remove_all id (j ∷ ids) m =
      ground (arith, lookup-remove_all id ids (remove j m), lookup-remove j id m)

  contains-closed_absent :
      (id : ℕ) (m : List (ℕ × Sender)) (event : Event)
      → lookup id m ≡ none
      → contains id (send_all m event).1 ≡ false
  unfolding send_all lookup
  contains-closed_absent id [] event h = refl
  contains-closed_absent id ((j, s) ∷ m) event h = elim (Bool-cases (j == id)) [
    | inl same ↦ let here : some s ≡ none = rw same at h in absurd cc
    | inr other ↦
        let later = contains-closed_absent id m event (rw other at h) in
        elim (Option-cases (send s event)) [
          | inl gone ↦ rw (gone, other) later
          | inr (s', kept) ↦ rw kept later
        ]
  ]

  lookup-send_all :
      (id : ℕ) (m : List (ℕ × Sender)) (event : Event)
      → Distinct m
      → (if contains id (send_all m event).1 then none else lookup id (send_all m event).0)
        ≡ sent_to (lookup id m) event
  unfolding send_all lookup
  lookup-send_all id [] event h = refl
  lookup-send_all id ((j, s) ∷ m) event (fresh, rest) = elim (Bool-cases (j == id)) [
    | inl same ↦
        let absent =
          contains-closed_absent id m event
            (subst (λ (i : ℕ). lookup i m ≡ none) (==→eq j id same) fresh) in
        elim (Option-cases (send s event)) [
          | inl gone ↦ rw (gone, same) (sym gone)
          | inr (s', kept) ↦ rw (kept, same, absent) (sym kept)
        ]
    | inr other ↦
        let later = lookup-send_all id m event rest in
        elim (Option-cases (send s event)) [
          | inl gone ↦ rw (gone, other) later
          | inr (s', kept) ↦ rw (kept, other) later
        ]
  ]

  -- After a broadcast each subscriber whose channel took the event has it, and those whose receivers are gone, and only those, are no
  -- longer subscribed; no identifier stands twice before.
  pub lookup-broadcast :
      (id : ℕ) (subscribers : List (ℕ × Sender)) (event : Event)
      → Distinct subscribers
      → lookup id (broadcast subscribers event) ≡ sent_to (lookup id subscribers) event
  unfolding broadcast
  lookup-broadcast id subscribers event distinct =
      lookup-remove_all id (send_all subscribers event).1 (send_all subscribers event).0
      ∙ lookup-send_all id subscribers event distinct
