-- ===== src/Events/Tests.antt =====
-- Events of three nodes, without custom content.
use iroh_raft.Common.{◌≡◌, min, List, [], ◌∷◌}
use iroh_raft.Events.{
  ClusterEvent, leader_stepped_down, member_removed, snapshot_failed, new_history, recent_events,
}
use iroh_raft.Events.History.{latest, add_all, recent_events-add_all}

abbrev Event : Type 0
Event = ClusterEvent Unit

abbrev three : List Event
three =
    leader_stepped_down 1 4 "lost quorum" 10
    ∷ snapshot_failed 70 4 "disk" 20
    ∷ member_removed 3 "gone" 30
    ∷ []

recent_events-add_all_example :
    recent_events Unit (add_all (new_history Unit 2) three) 5 ≡ latest (min 5 2) three
recent_events-add_all_example = recent_events-add_all 2 5 three
