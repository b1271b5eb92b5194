-- ===== src/Events.antt =====
-- src/management/events.rs: cluster events, their filters, the stream of a subscriber and the history; Broadcast has the
-- broadcaster. A time is a number. A value of
-- serde_json is the type `Json`; the receiver of a subscriber is given by the events that it yields.
pub mod History
pub mod Streams
pub mod Broadcast
mod Tests
use Prim.Native.String.{String}
use iroh_raft.Common.{
  ℕ, ◌-◌, ltb, ◌||◌, ◌&&◌, not, Bool, true, false, if◌then◌else◌, List, [], ◌∷◌, ◌++◌, length, drop,
  Option, none, some,
}
use iroh_raft.Common.Equality.{Eq, nat_eq, string_eq, contains}
use iroh_raft.Auth.Operations.{MemberRole}

pub data HealthStatus : Type 0 where
  healthy degraded unhealthy unknown : HealthStatus

pub record EventFilter : Type 0 where
  pub event_types : List String
  pub node_ids : List ℕ
  pub since : Option ℕ
  pub until : Option ℕ

abbrev pub default_filter : EventFilter
default_filter = record { event_types = []; node_ids = []; since = none; until = none }

-- The four tests of `matches`; `true` is a refusal.
abbrev pub other_type : List String → String → Bool
other_type [] name = false
other_type (t ∷ ts) name = not (contains name (t ∷ ts))

abbrev pub other_node : List ℕ → Option ℕ → Bool
other_node [] target = false
other_node (n ∷ ns) none = false
other_node (n ∷ ns) (some target) = not (contains target (n ∷ ns))

abbrev pub too_early : Option ℕ → ℕ → Bool
too_early none time = false
too_early (some since) time = ltb time since

abbrev pub too_late : Option ℕ → ℕ → Bool
too_late none time = false
too_late (some until) time = ltb until time

module _ (Json : Type 0) where
  pub record ConfigChange : Type 0 where
    pub field : String
    pub old_value : Json
    pub new_value : Json

  pub data ClusterEvent : Type 0 where
    leader_elected :
        (new_leader : ℕ)
        → (term : ℕ) → (previous_leader : Option ℕ) → (timestamp : ℕ) → ClusterEvent
    leadership_transferred :
        (from_leader : ℕ)
        → (to_leader : ℕ) → (term : ℕ) → (duration : ℕ) → (timestamp : ℕ) → ClusterEvent
    leader_stepped_down :
        (leader : ℕ) → (term : ℕ) → (reason : String) → (timestamp : ℕ) → ClusterEvent
    member_added :
        (node_id : ℕ) → (role : MemberRole) → (address : String) → (timestamp : ℕ) → ClusterEvent
    member_removed : (node_id : ℕ) → (reason : String) → (timestamp : ℕ) → ClusterEvent
    member_role_changed :
        (node_id : ℕ)
        → (old_role : MemberRole) → (new_role : MemberRole) → (timestamp : ℕ) → ClusterEvent
    member_health_changed :
        (node_id : ℕ)
        → (old_status : HealthStatus) → (new_status : HealthStatus) → (timestamp : ℕ) → ClusterEvent
    configuration_changed :
        (version : ℕ) → (changes : List ConfigChange) → (timestamp : ℕ) → ClusterEvent
    snapshot_completed :
        (index : ℕ)
        → (term : ℕ) → (size_bytes : ℕ) → (duration : ℕ) → (timestamp : ℕ) → ClusterEvent
    snapshot_failed : (index : ℕ) → (term : ℕ) → (error : String) → (timestamp : ℕ) → ClusterEvent
    custom : (name : String) → (content : Json) → (timestamp : ℕ) → ClusterEvent

  abbrev pub event_type : ClusterEvent → String
  event_type (leader_elected new_leader term previous_leader timestamp) = "leader_elected"
  event_type (leadership_transferred from_leader to_leader term duration timestamp) =
      "leadership_transferred"
  event_type (leader_stepped_down leader term reason timestamp) = "leader_stepped_down"
  event_type (member_added node_id role address timestamp) = "member_added"
  event_type (member_removed node_id reason timestamp) = "member_removed"
  event_type (member_role_changed node_id old_role new_role timestamp) = "member_role_changed"
  event_type (member_health_changed node_id old_status new_status timestamp) =
      "member_health_changed"
  event_type (configuration_changed version changes timestamp) = "configuration_changed"
  event_type (snapshot_completed index term size_bytes duration timestamp) = "snapshot_completed"
  event_type (snapshot_failed index term error timestamp) = "snapshot_failed"
  event_type (custom name content timestamp) = name

  abbrev pub timestamp_of : ClusterEvent → ℕ
  timestamp_of (leader_elected new_leader term previous_leader timestamp) = timestamp
  timestamp_of (leadership_transferred from_leader to_leader term duration timestamp) = timestamp
  timestamp_of (leader_stepped_down leader term reason timestamp) = timestamp
  timestamp_of (member_added node_id role address timestamp) = timestamp
  timestamp_of (member_removed node_id reason timestamp) = timestamp
  timestamp_of (member_role_changed node_id old_role new_role timestamp) = timestamp
  timestamp_of (member_health_changed node_id old_status new_status timestamp) = timestamp
  timestamp_of (configuration_changed version changes timestamp) = timestamp
  timestamp_of (snapshot_completed index term size_bytes duration timestamp) = timestamp
  timestamp_of (snapshot_failed index term error timestamp) = timestamp
  timestamp_of (custom name content timestamp) = timestamp

  abbrev pub node_of : ClusterEvent → Option ℕ
  node_of (leader_elected new_leader term previous_leader timestamp) = some new_leader
  node_of (leadership_transferred from_leader to_leader term duration timestamp) = some to_leader
  node_of (leader_stepped_down leader term reason timestamp) = some leader
  node_of (member_added node_id role address timestamp) = some node_id
  node_of (member_removed node_id reason timestamp) = some node_id
  node_of (member_role_changed node_id old_role new_role timestamp) = some node_id
  node_of (member_health_changed node_id old_status new_status timestamp) = some node_id
  node_of (configuration_changed version changes timestamp) = none
  node_of (snapshot_completed index term size_bytes duration timestamp) = none
  node_of (snapshot_failed index term error timestamp) = none
  node_of (custom name content timestamp) = none

  unfoldable pub matches : EventFilter → ClusterEvent → Bool
  matches f event =
      if other_type f.event_types (event_type event)
      then false
      else (if other_node f.node_ids (node_of event)
          then false
          else (if too_early f.since (timestamp_of event)
              then false
              else (if too_late f.until (timestamp_of event) then false else true)))

  -- What a subscriber has not read yet, as its receiver yields it, with the filter.
  pub record EventStream : Type 0 where
    pub receiver : List ClusterEvent
    pub filter : EventFilter
    pub subscription_id : ℕ

  abbrev pub new_stream : List ClusterEvent → ℕ → EventStream
  new_stream receiver subscription_id = record {
    receiver = receiver;
    filter = default_filter;
    subscription_id = subscription_id;
  }

  abbrev pub set_filter : EventStream → EventFilter → EventStream
  set_filter s filter = record s { filter = filter }

  unfoldable pub next_match :
      EventFilter → List ClusterEvent → List ClusterEvent × Option ClusterEvent
  unfolding matches
  next_match filter [] = ([], none)
  next_match filter (event ∷ events) =
      let rest = next_match filter events in
      if matches filter event then (events, some event) else rest

  abbrev pub try_next : EventStream → EventStream × Option ClusterEvent
  try_next s =
      let (left, event) = next_match s.filter s.receiver in (record s { receiver = left }, event)

  pub record EventHistory : Type 0 where
    pub events : List ClusterEvent
    pub max_events : ℕ

  abbrev pub new_history : ℕ → EventHistory
  new_history max_events = record { events = []; max_events = max_events }

  unfoldable pub add_event : EventHistory → ClusterEvent → EventHistory
  add_event h event =
      let events = h.events ++ (event ∷ []) in
      record h {
        events =
            if ltb h.max_events (length events)
            then drop (length events - h.max_events) events
            else events;
      }

  unfoldable pub select : EventFilter → List ClusterEvent → List ClusterEvent
  unfolding matches
  select filter [] = []
  select filter (event ∷ events) =
      let rest = select filter events in if matches filter event then event ∷ rest else rest

  abbrev pub query : EventHistory → EventFilter → List ClusterEvent
  query h filter = select filter h.events

  unfoldable pub recent_events : EventHistory → ℕ → List ClusterEvent
  recent_events h count =
      let start = if ltb count (length h.events) then length h.events - count else 0 in
      drop start h.events

  abbrev pub clear : EventHistory → EventHistory
  clear h = record h { events = [] }

  abbrev pub event_count : EventHistory → ℕ
  event_count h = length h.events
