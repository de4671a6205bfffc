-- ===== src/CapturedUdp/Registry/Control.antt =====
-- internal/capturedudp/registry.go: transport attachments, and the one controller.
use tachyon_core.Base.{
  ℕ, Bool, true, false, ◌&&◌, ◌||◌, not, [], ◌∷◌, ◌++◌, Option, none, some, length, get_elem?, set,
  ◌==◌, if◌then◌else◌,
}
use tachyon_core.Base.Bytes.{Bytes}
use tachyon_core.Base.Text.{same_text}
use tachyon_core.Base.Outcome.{Outcome, ok, err, ◌>>◌, reject}
use tachyon_core.Tgp.Tunnel.{all_zero}
use tachyon_core.CapturedUdp.Types.{
  Error, authentication, registry_closed, transport_not_verified, transport_mismatch,
  transport_active, controller_active, controller_revoked, attachment_stale, Limits, Attachment,
  AttachmentState, attachment_new, attachment_attached, attachment_detached, attachment_closed,
  is_new, is_attached, new_token_bucket,
}
use tachyon_core.CapturedUdp.Registry.{
  plus, Access, Buckets, Registry, zero_id, zero_token, with_access, count_failure, read_random,
}

-- newTransportAttachment: the new attachment's number, which stands for the pointer.
unfoldable pub new_transport_attachment :
    Registry → Bool → Option Bytes → Registry × Outcome Error ℕ
new_transport_attachment r peer_verified random = elim (read_random random) [
  | err e ↦ (r, err e)
  | ok id ↦ if r.access.closed then (r, err registry_closed) else (
    with_access r (record r.access {
      attachments =
          r.access.attachments
          ++ record { id = id; peer_verified = peer_verified; state = attachment_new } ∷ [];
    }),
    ok (length r.access.attachments),
  )
]

-- destroyAttachmentLocked
abbrev pub destroyed : AttachmentState → Attachment
destroyed state = record { id = zero_id; peer_verified = false; state = state }

abbrev pub destroy_attachment : Access → ℕ → AttachmentState → Access
destroy_attachment a pointer state = record a {
  attachments = set a.attachments pointer (destroyed state);
}

-- A pointer that is not to this registry's attachments is none.
abbrev pub deref : Access → ℕ → Option Attachment
deref a pointer = get_elem? a.attachments pointer

abbrev pub is_there : Option Attachment → Bool
is_there none = false
is_there (some x) = true

abbrev pub is_gone : Attachment → Bool
is_gone x = not (is_attached x.state) || all_zero x.id

abbrev pub is_gone_at : Option Attachment → Bool
is_gone_at none = true
is_gone_at (some x) = is_gone x

abbrev pub is_some : Option ℕ → Bool
is_some none = false
is_some (some n) = true

abbrev pub is_at : Option ℕ → ℕ → Bool
is_at none pointer = false
is_at (some n) pointer = n == pointer

-- The checks of AttachTransport on an open registry.
unfoldable pub check_attach : Access → ℕ → Outcome Error Attachment
check_attach a pointer = elim (deref a pointer) [
  | none ↦ err transport_mismatch
  | some x ↦
      reject (not (is_new x.state) || all_zero x.id) attachment_stale
      >> reject (not x.peer_verified) transport_not_verified
      >> reject (is_some a.attachment || a.controller_alive) transport_active
      >> ok x
]

-- An attachment that was not yet attached is destroyed by a registry that is closed.
unfoldable pub close_new : Access → ℕ → Access
close_new a pointer = elim (deref a pointer) [
  | none ↦ a
  | some x ↦ if is_new x.state then destroy_attachment a pointer attachment_closed else a
]

unfoldable pub attach_transport : Registry → ℕ → Option Bytes → Registry × Outcome Error Bytes
unfolding close_new
attach_transport r pointer random =
    let a = r.access in
    if a.closed
    then (with_access r (close_new a pointer), err registry_closed)
    else elim (check_attach a pointer) [
      | err e ↦ (r, err e)
      | ok x ↦ elim (read_random random) [
        | err e ↦ (r, err e)
        | ok session_token ↦ (
          with_access r (record a {
            attachments = set a.attachments pointer (record x { state = attachment_attached });
            attachment = some pointer;
            session_token = session_token;
            token_issued = true;
          }),
          ok session_token,
        )
      ]
    ]

-- evictFlowsLocked, as it is called.
abbrev pub evict_flows : Registry → Registry
evict_flows r = record r {
  policy = record r.policy { flows = [] };
  stats = record r.stats { flows_evicted = plus r.stats.flows_evicted (length r.policy.flows) };
}

-- revokeControllerLocked
unfoldable pub revoke_controller : Registry → Bool → Registry
revoke_controller r count_disconnect =
    let evicted = evict_flows r in
    let stats = evicted.stats in
    record evicted {
      access = record r.access {
        session_token = zero_token;
        token_issued = false;
        controller = zero_id;
        controller_alive = false;
      };
      policy = record r.policy { prepared = none; active_generation = 0; flows = [] };
      stats =
          if r.access.controller_alive && count_disconnect
          then record stats { controller_disconnects = plus stats.controller_disconnects 1 }
          else stats;
    }

-- The controller is revoked, and the attachment at hand destroyed.
abbrev pub drop_attachment : Registry → ℕ → Registry
drop_attachment r pointer =
    let revoked = revoke_controller r true in
    with_access revoked
      (destroy_attachment (record revoked.access { attachment = none }) pointer attachment_detached)

unfoldable pub check_detach : Access → ℕ → Outcome Error (Unit {0})
check_detach a pointer = elim (deref a pointer) [
  | none ↦ err transport_mismatch
  | some x ↦
      reject (is_new x.state) transport_mismatch
      >> reject (is_gone x) attachment_stale
      >> reject (not (is_at a.attachment pointer)) transport_mismatch
]

unfoldable pub detach_transport : Registry → ℕ → Registry × Outcome Error (Unit {0})
unfolding close_new
detach_transport r pointer =
    let a = r.access in
    if a.closed && is_there (deref a pointer)
    then (with_access r (close_new a pointer), err registry_closed)
    else elim (check_detach a pointer) [
      | err e ↦ (r, err e)
      | ok _ ↦ (drop_attachment r pointer, ok tt)
    ]

-- The checks of Authenticate that are counted as failures, before and after the one that is not.
unfoldable pub check_authenticate : Access → ℕ → Outcome Error (Unit {0})
check_authenticate a pointer = elim (deref a pointer) [
  | none ↦ err transport_mismatch
  | some x ↦
      reject (not (is_at a.attachment pointer)) transport_mismatch
      >> reject (is_gone x) attachment_stale
      >> reject (not x.peer_verified) transport_not_verified
]

abbrev pub fresh_buckets : Limits → ℕ → Buckets
fresh_buckets l now = record {
  packet_bucket = new_token_bucket l.packets_per_second l.packet_burst now;
  byte_bucket = new_token_bucket l.bytes_per_second l.byte_burst now;
  control_bucket = new_token_bucket l.control_ops_per_second l.control_burst now;
}

-- Authenticate, up to the controller's identity.
unfoldable pub authenticate :
    Registry → ℕ → Bytes → Option Bytes → ℕ → Registry × Outcome Error Bytes
authenticate r pointer session_token random now =
    let a = r.access in
    if a.closed then (r, err registry_closed) else elim (check_authenticate a pointer) [
      | err e ↦ (count_failure r, err e)
      | ok _ ↦
          if a.controller_alive
          then (r, err controller_active)
          else if not a.token_issued || not (same_text a.session_token session_token)
          then (count_failure r, err authentication)
          else elim (read_random random) [
            | err e ↦ (r, err e)
            | ok id ↦ (
              record r {
                access = record a {
                  session_token = zero_token;
                  token_issued = false;
                  controller = id;
                  controller_alive = true;
                };
                buckets = fresh_buckets r.limits now;
                stats = record r.stats {
                  controllers_connected = plus r.stats.controllers_connected 1;
                };
              },
              ok id,
            )
          ]
    ]

unfoldable pub require_controller : Access → Bytes → Outcome Error (Unit {0})
require_controller a id = do
  reject a.closed registry_closed
  reject (not a.controller_alive || not (same_text a.controller id)) controller_revoked

-- disconnectController, which Controller.Close calls once.
unfoldable pub disconnect_controller : Registry → Bytes → ℕ → Registry × Outcome Error (Unit {0})
disconnect_controller r id pointer =
    let a = r.access in
    if a.closed
    then (r, err registry_closed)
    else if not a.controller_alive
        || not (same_text a.controller id)
        || not (is_at a.attachment pointer)
        || is_gone_at (deref a pointer)
    then (r, err controller_revoked)
    else (drop_attachment r pointer, ok tt)

-- Close, on a registry that is open, with the attachment at hand.
unfoldable pub close_open : Registry → Option ℕ → Registry
close_open r none = revoke_controller (with_access r (record r.access { closed = true })) false
close_open r (some pointer) =
    let revoked = revoke_controller (with_access r (record r.access { closed = true })) false in
    with_access revoked
      (destroy_attachment (record revoked.access { attachment = none }) pointer attachment_closed)

unfoldable pub close_registry : Registry → Registry
unfolding close_open
close_registry r = if r.access.closed then r else close_open r r.access.attachment
