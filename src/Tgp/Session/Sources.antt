-- ===== src/Tgp/Session/Sources.antt =====
-- internal/tgp/session.go: whom a session listens to, and when its remote address changes.
use tachyon_core.Base.{
  ℕ, ◌≡◌, refl, sym, ◌∙◌, Bool, true, false, List, [], ◌∷◌, Option, none, some, ◌⊎◌, inl, inr,
  arith, Bool-cases, subst,
}
use tachyon_core.Base.Bytes.{Bytes}
use tachyon_core.Base.Text.{same_text, same_text→eq}
use tachyon_core.Base.Outcome.{ok, Outcome-cases}
use tachyon_core.Tgp.Types.{Error, Addr, Packet}
use tachyon_core.Tgp.Wire.{open_wire}
use tachyon_core.Tgp.Dedup.{seen_first}
use tachyon_core.Tgp.Fec.Buffer.{Received, add_packet}
use tachyon_core.Tgp.Session.{
  World, Session, HandshakeReplay, is_closed, source_eligible, accept_source, migrate,
  check_migrate, terminate,
}
use tachyon_core.Tgp.Session.Receive.{
  Clock, read_round, open_datagram, check_packet, take_first, take_packet, take_result, deliver,
  take_in, observe_delivery, count_oversized, answer_replay, is_replay,
}

deliver-remote :
    (s : Session) (stream : ℕ) (ps : List Bytes) → (deliver s stream ps).remote ≡ s.remote
unfolding deliver
deliver-remote s stream [] = refl
deliver-remote s stream (p ∷ ps) = deliver-remote (take_in s stream p) stream ps

observe_delivery-remote :
    (s : Session) (delivered recovered : ℕ)
    → (observe_delivery s delivered recovered).remote ≡ s.remote
unfolding observe_delivery
observe_delivery-remote s delivered recovered = ground arith

take_result-remote :
    (s : Session) (from : Option Addr) (stream : ℕ) (r : Received)
    → (take_result s from stream r).remote ≡ s.remote
unfolding take_result
take_result-remote s from stream r = elim (Bool-cases r.ready) [
  | inl e ↦ rw (e, take_result) (deliver-remote _ stream r.payloads ∙ observe_delivery-remote _ _ _)
  | inr e ↦ rw (e, take_result) refl
]

take_packet-remote :
    (world : World) (s : Session) (clock : Clock) (from : Option Addr) (packet : Packet)
    → (take_packet world s clock from packet).remote ≡ s.remote
unfolding take_packet
take_packet-remote world s clock from packet =
    elim (Outcome-cases
      (add_packet world.fec_codec s.fec_rx packet clock.purged clock.created clock.finished).1) [
        | inl (result, e) ↦
            rw (e, take_packet) (take_result-remote _ from packet.inner.stream_id result)
        | inr (x, e) ↦ rw (e, take_packet) refl
      ]

-- Why the remote address may change: a datagram authenticated for this session, with a number that
-- the replay window had not seen, came from an address that ValidateRemote allows, to a session that
-- is open and may migrate and whose transport keeps no return path of its own.
pub record Moved (world : World) (s : Session) (clock : Clock) (wire : Bytes) (to : Addr)
    : Type 0 where
  pub packet : Packet
  pub opened : open_wire (some s.recv_codec) clock.opened wire ≡ ok packet
  pub same_session : packet.inner.session_id ≡ s.id
  pub first_time : (seen_first s.dedup packet.inner.packet_number).1 ≡ true
  pub allowed : world.allows to ≡ true
  pub migrates : s.disable_migration ≡ false
  pub live : is_closed s.state ≡ false
  pub unmanaged : world.manages_return_path ≡ false

accept_source-moves :
    (world : World) (s : Session) (from : Option Addr)
    → ((accept_source world s from).0.remote ≡ s.remote)
      ⊎ ((from ≡ some (accept_source world s from).0.remote)
          × ((world.allows (accept_source world s from).0.remote ≡ true)
              × ((s.disable_migration ≡ false)
                  × ((is_closed s.state ≡ false) × (world.manages_return_path ≡ false)))))
unfolding accept_source migrate check_migrate
accept_source-moves world s none = inl refl
accept_source-moves world s (some from) = ground arith

take_first-remote :
    (world : World) (s : Session) (clock : Clock) (from : Option Addr) (packet : Packet)
    → (take_first world s clock from packet).remote ≡ (accept_source world s from).0.remote
unfolding take_first
take_first-remote world s clock from packet = elim (Bool-cases (accept_source world s from).1) [
  | inr e ↦ rw (e, take_first) refl
  | inl e ↦
      rw (e, take_first)
        (take_packet-remote world (accept_source world s from).0 clock from
          (record packet { source_addr = from }))
]

check_packet-moves :
    (world : World) (s : Session) (clock : Clock) (wire : Bytes) (from : Option Addr)
    (packet : Packet)
    → open_wire (some s.recv_codec) clock.opened wire ≡ ok packet
    → let s' = check_packet world s clock from packet in
      (s'.remote ≡ s.remote) ⊎ ((from ≡ some s'.remote) × Moved world s clock wire s'.remote)
unfolding check_packet
check_packet-moves world s clock wire from packet opened =
    elim (Bool-cases (same_text packet.inner.session_id s.id)) [
      | inr e ↦ rw (e, check_packet) (inl refl)
      | inl same ↦ elim (Bool-cases (source_eligible world s from)) [
        | inr e ↦ rw (same, e, check_packet) (inl refl)
        | inl eligible ↦ elim (Bool-cases (seen_first s.dedup packet.inner.packet_number).1) [
          | inr e ↦ rw (same, eligible, e, check_packet) (inl refl)
          | inl first ↦
              let noted = record s { dedup = (seen_first s.dedup packet.inner.packet_number).0 } in
              rw (same, eligible, first, check_packet)
                (subst
                  (λ (a : Addr). (a ≡ s.remote) ⊎ ((from ≡ some a) × Moved world s clock wire a))
                  (sym (take_first-remote world noted clock from packet))
                  (elim (accept_source-moves world noted from) [
                    | inl kept ↦ inl kept
                    | inr (moved, (allowed, (migrates, (live, unmanaged)))) ↦ inr (
                      moved,
                      record {
                        packet = packet;
                        opened = opened;
                        same_session = same_text→eq packet.inner.session_id s.id same;
                        first_time = first;
                        allowed = allowed;
                        migrates = migrates;
                        live = live;
                        unmanaged = unmanaged;
                      },
                    )
                  ]))
        ]
      ]
    ]

count_oversized-remote : (s : Session) (e : Error) → (count_oversized s e).remote ≡ s.remote
unfolding count_oversized
count_oversized-remote s e = ground arith

answer_replay-remote :
    (s : Session) (writes : Bool) (from : Option Addr) (r : Option HandshakeReplay)
    → (answer_replay s writes from r).remote ≡ s.remote
unfolding answer_replay
answer_replay-remote s writes from none = refl
answer_replay-remote s writes from (some r) = refl

terminate-remote : (world : World) (s : Session) → (terminate world s).remote ≡ s.remote
unfolding terminate
terminate-remote world s = ground arith

-- A round of the read loop leaves the remote address alone, or it moves to the datagram's source, and
-- then the datagram is authenticated for this session, its number passes the replay window, the
-- callback allows the source, and the session is open, may migrate and has no managed return path.
pub read_round-moves :
    (world : World) (s : Session) (clock : Clock) (writes : Bool) (wire : Bytes)
    (from : Option Addr)
    → let s' = read_round world s clock writes wire from in
      (s'.remote ≡ s.remote) ⊎ ((from ≡ some s'.remote) × Moved world s clock wire s'.remote)
unfolding read_round open_datagram
read_round-moves world s clock writes wire from =
    elim (Bool-cases (is_replay s.handshake_replay clock.replayed wire from)) [
      | inl replay ↦ elim (Bool-cases writes) [
        | inl w ↦
            rw (replay, w, read_round) (inl (answer_replay-remote s true from s.handshake_replay))
        | inr w ↦
            rw (replay, w, read_round)
              (inl (
                terminate-remote world (answer_replay s false from s.handshake_replay)
                ∙ answer_replay-remote s false from s.handshake_replay))
      ]
      | inr fresh ↦ elim (Outcome-cases (open_wire (some s.recv_codec) clock.opened wire)) [
        | inl (packet, opened) ↦
            rw (fresh, opened, read_round, open_datagram)
              (check_packet-moves world s clock wire from packet opened)
        | inr (e, failed) ↦
            rw (fresh, failed, read_round, open_datagram) (inl (count_oversized-remote s e))
      ]
    ]

-- What a datagram may deliver to: the streams, the replay window and the FEC buffer.
abbrev pub Unmoved : Session → Session → Type 0
Unmoved s t = (t.streams ≡ s.streams) × ((t.dedup ≡ s.dedup) × (t.fec_rx ≡ s.fec_rx))

answer_replay-Unmoved :
    (s : Session) (writes : Bool) (from : Option Addr) (r : Option HandshakeReplay)
    → Unmoved s (answer_replay s writes from r)
unfolding answer_replay
answer_replay-Unmoved s writes from none = (refl, (refl, refl))
answer_replay-Unmoved s writes from (some r) = (refl, (refl, refl))

count_oversized-Unmoved : (s : Session) (e : Error) → Unmoved s (count_oversized s e)
unfolding count_oversized
count_oversized-Unmoved s e = ground arith

terminate-Unmoved : (world : World) (s : Session) → Unmoved s (terminate world s)
unfolding terminate
terminate-Unmoved world s = ground arith

check_packet-ineligible :
    (world : World) (s : Session) (clock : Clock) (from : Option Addr) (packet : Packet)
    → source_eligible world s from ≡ false
    → check_packet world s clock from packet ≡ s
unfolding check_packet
check_packet-ineligible world s clock from packet e =
    elim (Bool-cases (same_text packet.inner.session_id s.id)) [
      | inl same ↦ rw (same, e, check_packet) refl
      | inr other ↦ rw (other, check_packet) refl
    ]

-- A source that is not eligible, as every address is once the session is closed, delivers nothing and
-- leaves the replay window and the FEC buffer as they are, whatever it sends.
pub ineligible-Unmoved :
    (world : World) (s : Session) (clock : Clock) (writes : Bool) (wire : Bytes)
    (from : Option Addr)
    → source_eligible world s from ≡ false
    → Unmoved s (read_round world s clock writes wire from)
unfolding read_round open_datagram
ineligible-Unmoved world s clock writes wire from e =
    elim (Bool-cases (is_replay s.handshake_replay clock.replayed wire from)) [
      | inl replay ↦ elim (Bool-cases writes) [
        | inl w ↦ rw (replay, w, read_round) (answer_replay-Unmoved s true from s.handshake_replay)
        | inr w ↦
            let answered = answer_replay s false from s.handshake_replay in
            let (a, (b, c)) = answer_replay-Unmoved s false from s.handshake_replay in
            let (x, (y, z)) = terminate-Unmoved world answered in
            rw (replay, w, read_round) (x ∙ a, (y ∙ b, z ∙ c))
      ]
      | inr fresh ↦ elim (Outcome-cases (open_wire (some s.recv_codec) clock.opened wire)) [
        | inl (packet, opened) ↦
            rw
              (
                fresh,
                opened,
                check_packet-ineligible world s clock from packet e,
                read_round,
                open_datagram,
              )
              (refl, (refl, refl))
        | inr (x, failed) ↦
            rw (fresh, failed, read_round, open_datagram) (count_oversized-Unmoved s x)
      ]
    ]
