-- ===== src/Management/Access.antt =====
-- What the handler of src/management/protocol.rs lets whom do.
use iroh_raft.Common.{
  ℕ, ◌≤◌, ◌≡◌, refl, sym, ◌∙◌, Bool, true, inl, inr, [], ◌∷◌, ◌++◌, Option, none, some, length,
  Outcome, ok, append-nil, Option-cases, subst, ◌==◌, false, if◌then◌else◌,
}
use iroh_raft.Common.Equality.{nat_eq}
use iroh_raft.Common.Maps.{lookup, lookup-insert}
use iroh_raft.Auth.Operations.{
  ManagementOperation, ManagementRole, admin, observer, member_manager, monitor, get_cluster_status,
  get_health_status, get_metrics,
}
use iroh_raft.Auth.Roles.{only_reads, within_role}
use iroh_raft.Storage.Codec.{Bytes}
use iroh_raft.Protocol
use iroh_raft.Protocol.{Wire, MessageHeader, max_payload_size}
use iroh_raft.Protocol.Frames.{write_message, read_message}
use iroh_raft.Protocol.Transfer.{HeadersFit, read_message-write_message}
use iroh_raft.Protocol.Rpc.{Inbox}
use iroh_raft.Management.Responses.{ManagementRequest, ManagementPermissions, ManagementResponse}
use iroh_raft.Management.{
  Permissions, ManagementCodec, role_allows, monitors, check_permission, add_permissions,
  deserialize_management_request, management_message, handle_management_request,
  process_management_message, handle_management_stream,
}

-- The role of a node: that of its permissions, or the one of an observer.
abbrev pub role_of : Option ManagementPermissions → ManagementRole
role_of none = observer
role_of (some permissions) = permissions.role

monitors-only_reads :
    (operation : ManagementOperation) → monitors operation ≡ true → only_reads operation ≡ true
monitors-only_reads get_cluster_status h = refl
monitors-only_reads get_health_status h = refl
monitors-only_reads (get_metrics _) h = refl
monitors-only_reads _ h = absurd cc

role_allows_within :
    (role : ManagementRole) (operation : ManagementOperation)
    → role_allows role operation ≡ true
    → within_role role operation ≡ true
unfolding role_allows
role_allows_within admin operation h = refl
role_allows_within observer operation h = h
role_allows_within member_manager operation h = h
role_allows_within monitor operation h = monitors-only_reads operation h

check_permission_role :
    (perms : Permissions) (node_id : ℕ) (operation : ManagementOperation)
    → check_permission perms node_id operation ≡ true
    → within_role (role_of (lookup node_id perms)) operation ≡ true
unfolding check_permission
check_permission_role perms node_id operation allowed = elim (Option-cases (lookup node_id perms)) [
  | inl nobody ↦ rw nobody (rw (check_permission, nobody) at allowed)
  | inr (permissions, here) ↦
      rw here
        (role_allows_within permissions.role operation (rw (check_permission, here) at allowed))
]

-- After the permissions of a node have been set, what the check allows to a node is within the role that it was given
-- with these, or before, and within the role of an observer, if it was given none.
pub check_permission-add_permissions :
    (perms : Permissions) (permissions : ManagementPermissions) (node_id : ℕ)
    (operation : ManagementOperation)
    → check_permission (add_permissions permissions perms) node_id operation ≡ true
    → within_role
        (role_of
          (if permissions.node_id == node_id then some permissions else lookup node_id perms))
        operation
      ≡ true
unfolding add_permissions
check_permission-add_permissions perms permissions node_id operation allowed =
    subst (λ o. within_role (role_of o) operation ≡ true)
      (lookup-insert permissions.node_id node_id permissions perms)
      (check_permission_role (add_permissions permissions perms) node_id operation allowed)

module _ (wire : Wire) {F : Type 0} (codec : ManagementCodec F)
    (manager : Inbox ManagementRequest) where
  open wire use {Writer, written, Reader, pending}
  open manager use {Channel, queued, has_receiver}

  request_forwarded :
      (in_time : Bool) (answered : Outcome (Unit {0}) (ManagementResponse F)) (send : Writer)
      (request_id : Option Bytes) (size : ℕ) (payload : Bytes) (c : Channel) (perms : Permissions)
      (r : ManagementRequest)
      → codec.encode_request r ≡ ok payload
      → has_receiver c ≡ true
      → queued
          (process_management_message wire codec manager in_time answered send
            (management_message wire codec manager
              (record { msg_type = Protocol.request; request_id = request_id; payload_len = size })
              payload)
            c
            perms).0
        ≡ queued c ++ (r ∷ [])
  unfolding process_management_message deserialize_management_request
  request_forwarded in_time answered send request_id size payload c perms r encoded open_end =
      let decoded = codec.decode_request-encode_request r payload encoded in
      let (c', taken, there) = manager.send_open c r open_end in
      rw (handle_management_request, decoded, taken) there

  -- If headers encode to at most 256 bytes, a management request of at most 100 MB that has been written on a stream, by
  -- whomever, and is read in time, is put to the cluster manager, if this is there, also where the
  -- permissions of the handler do not allow its operation to any node.
  pub handle_management_stream_unchecked :
      HeadersFit wire
      → (w w' send : Writer) (recv : Reader) (request_id : Option Bytes) (payload sent : Bytes)
        (r : ManagementRequest) (c : Channel) (reply_in_time : Bool)
        (answered : Outcome (Unit {0}) (ManagementResponse F)) (perms : Permissions)
      → ((node_id : ℕ) → check_permission perms node_id r.operation ≡ false)
      → codec.encode_request r ≡ ok payload
      → length payload ≤ max_payload_size
      → write_message wire w Protocol.request request_id payload ≡ ok w'
      → written w' ≡ written w ++ sent
      → pending recv ≡ sent
      → has_receiver c ≡ true
      → queued
          (handle_management_stream wire codec manager true reply_in_time answered send recv c
            perms).0
        ≡ queued c ++ (r ∷ [])
  unfolding handle_management_stream read_message
  handle_management_stream_unchecked fit w w' send recv request_id payload sent r c reply_in_time
        answered perms refused encoded room done is_sent there open_end =
      let (r', read, _) =
        read_message-write_message wire fit w w' recv Protocol.request request_id payload sent []
          room done is_sent (there ∙ sym (append-nil sent)) in
      rw read (
        request_forwarded reply_in_time answered send request_id (length payload) payload c perms r
          encoded open_end)
