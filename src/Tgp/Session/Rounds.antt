-- ===== src/Tgp/Session/Rounds.antt =====
-- internal/tgp/session.go: what a round of the read loop does to a session's core.
use tachyon_core.Base.{
  ℕ, ◌≡◌, refl, sym, ◌∙◌, subst, Bool, true, false, not, List, [], ◌∷◌, Option, none, some, inl,
  inr, ◌&&◌, length, arith, if◌then◌else◌, Bool-cases, ◌==◌, some-injective,
}
use tachyon_core.Base.Bytes.{Bytes}
use tachyon_core.Base.Text.{same_text}
use tachyon_core.Base.Outcome.{ok, Outcome-cases}
use tachyon_core.Tgp.Types.{Error, Addr, Packet}
use tachyon_core.Tgp.Wire.{open_wire}
use tachyon_core.Tgp.Dedup.{seen_first}
use tachyon_core.Tgp.Fec.Buffer.{Received, add_packet}
use tachyon_core.Tgp.Fec.Frame.{is_enabled, validate_params, FecOptions}
use tachyon_core.Tgp.Session.{World, Session, HandshakeReplay, accept_source, source_eligible}
use tachyon_core.Tgp.Session.Receive.{
  Clock, read_round, open_datagram, check_packet, take_first, take_packet, take_result, deliver,
  take_in, observe_delivery, observe_source, count_recovered, count_oversized, answer_replay,
  is_replay, adapted, observe_with,
}
use tachyon_core.Tgp.Session.Moves.{terminate-Evolves, accept_source-Evolves}
use tachyon_core.Tgp.Fec.Adaptive.{Adaptive, observe, observe-valid, Observation}
use tachyon_core.Tgp.Session.Core.{
  core, IsWithin, IsTuned, Evolves, Evolves-refl, Evolves-trans, Evolves-of,
}

observe-fixed :
    (c : Adaptive) (delivered recovered : ℕ)
    → ((observe c delivered recovered).0.data_shards ≡ c.data_shards)
      × ((observe c delivered recovered).0.max_parity ≡ c.max_parity)
unfolding observe
observe-fixed c delivered recovered = ground arith

adapted-shards :
    (fec : FecOptions) (seen : Observation) → (adapted fec seen).data_shards ≡ fec.data_shards
adapted-shards fec seen = ground arith

abbrev IsValidated : FecOptions → Type 0
IsValidated fec = is_enabled fec ≡ true → validate_params fec.data_shards fec.parity_shards ≡ ok tt

if-IsValidated :
    (b : Bool) (fec : FecOptions) (parity : ℕ)
    → (b ≡ true → validate_params fec.data_shards parity ≡ ok tt)
    → IsValidated fec
    → IsValidated (if b then record fec { parity_shards = parity } else fec)
if-IsValidated true fec parity new old = λ on. new refl
if-IsValidated false fec parity new old = old

adapted-IsValidated :
    (fec : FecOptions) (c : Adaptive) (delivered recovered : ℕ)
    → IsTuned fec c
    → IsValidated fec
    → IsValidated (adapted fec (observe c delivered recovered).1)
adapted-IsValidated fec c delivered recovered t valid =
    let seen = (observe c delivered recovered).1 in
    if-IsValidated (seen.updated && not (seen.parity == fec.parity_shards)) fec seen.parity
      (λ changed.
        subst (λ (d : ℕ). validate_params d seen.parity ≡ ok tt) t.same_shards
          (observe-valid c delivered recovered t.fit t.few_shards t.few_parity (ground arith)))
      valid

observe-IsTuned :
    (fec : FecOptions) (c : Adaptive) (delivered recovered : ℕ)
    → IsTuned fec c
    → IsTuned (adapted fec (observe c delivered recovered).1) (observe c delivered recovered).0
observe-IsTuned fec c delivered recovered t =
    let (shards, parity) = observe-fixed c delivered recovered in
    let same = adapted-shards fec (observe c delivered recovered).1 in
    record {
      fit = record {
        some_parity = rw parity t.fit.some_parity;
        no_more = rw (parity, shards) t.fit.no_more;
      };
      same_shards = shards ∙ t.same_shards ∙ sym same;
      few_shards = rw shards t.few_shards;
      few_parity = rw parity t.few_parity;
    }

observe_with-Evolves :
    (world : World) (s : Session) (delivered recovered : ℕ) (a : Option Adaptive)
    → s.fec_adapt ≡ a
    → Evolves world (core s) (core (observe_with s delivered recovered a))
unfolding observe_with
observe_with-Evolves world s delivered recovered none e = Evolves-refl world (core s)
observe_with-Evolves world s delivered recovered (some c) e = record {
  keeps = λ h. record {
    settled = h.settled;
    allowed = h.allowed;
    valid_fec = adapted-IsValidated s.fec c delivered recovered (h.tuned c e) h.valid_fec;
    tuned = λ c' e'.
        subst (IsTuned (adapted s.fec (observe c delivered recovered).1)) (some-injective e')
          (observe-IsTuned s.fec c delivered recovered (h.tuned c e));
    within =
        subst (λ (d : ℕ). IsWithin d s.fec_tx)
          (sym (adapted-shards s.fec (observe c delivered recovered).1)) h.within;
  };
  stays = λ h. (refl, refl);
}

deliver-core : (s : Session) (stream : ℕ) (ps : List Bytes) → core (deliver s stream ps) ≡ core s
unfolding deliver
deliver-core s stream [] = refl
deliver-core s stream (p ∷ ps) = deliver-core (take_in s stream p) stream ps

take_result-Evolves :
    (world : World) (s : Session) (from : Option Addr) (stream : ℕ) (r : Received)
    → Evolves world (core s) (core (take_result s from stream r))
unfolding take_result observe_delivery
take_result-Evolves world s from stream r = elim (Bool-cases r.ready) [
  | inr e ↦ rw (e, take_result) (Evolves-refl world (core s))
  | inl e ↦
      let counted = count_recovered (observe_source s from) r.recovered_shards in
      let seen = observe_with counted (length r.payloads) r.recovered_shards counted.fec_adapt in
      rw (e, take_result)
        (Evolves-trans world (core s) (core seen) _
          (observe_with-Evolves world counted (length r.payloads) r.recovered_shards
            counted.fec_adapt refl)
          (Evolves-of world (core seen) _ (deliver-core seen stream r.payloads)))
]

take_packet-Evolves :
    (world : World) (s : Session) (clock : Clock) (from : Option Addr) (packet : Packet)
    → Evolves world (core s) (core (take_packet world s clock from packet))
unfolding take_packet
take_packet-Evolves world s clock from packet =
    let added =
      add_packet world.fec_codec s.fec_rx packet clock.purged clock.created clock.finished in
    elim (Outcome-cases added.1) [
      | inl (result, e) ↦
          rw (e, take_packet)
            (take_result-Evolves world (record s { fec_rx = added.0 }) from packet.inner.stream_id
              result)
      | inr (x, e) ↦ rw (e, take_packet) (Evolves-refl world (core s))
    ]

take_first-Evolves :
    (world : World) (s : Session) (clock : Clock) (from : Option Addr) (packet : Packet)
    → Evolves world (core s) (core (take_first world s clock from packet))
unfolding take_first
take_first-Evolves world s clock from packet =
    let accepted = accept_source world s from in
    elim (Bool-cases accepted.1) [
      | inr e ↦ rw (e, take_first) (accept_source-Evolves world s from)
      | inl e ↦
          rw (e, take_first)
            (Evolves-trans world (core s) (core accepted.0) _ (accept_source-Evolves world s from) (
              take_packet-Evolves world accepted.0 clock from
                (record packet { source_addr = from })))
    ]

check_packet-Evolves :
    (world : World) (s : Session) (clock : Clock) (from : Option Addr) (packet : Packet)
    → Evolves world (core s) (core (check_packet world s clock from packet))
unfolding check_packet
check_packet-Evolves world s clock from packet =
    let kept = Evolves-refl world (core s) in
    let seen = seen_first s.dedup packet.inner.packet_number in
    elim (Bool-cases (same_text packet.inner.session_id s.id)) [
      | inr e ↦ rw (e, check_packet) kept
      | inl same ↦ elim (Bool-cases (source_eligible world s from)) [
        | inr e ↦ rw (same, e, check_packet) kept
        | inl eligible ↦ elim (Bool-cases seen.1) [
          | inr e ↦ rw (same, eligible, e, check_packet) kept
          | inl first ↦
              rw (same, eligible, first, check_packet)
                (take_first-Evolves world (record s { dedup = seen.0 }) clock from packet)
        ]
      ]
    ]

count_oversized-core : (s : Session) (e : Error) → core (count_oversized s e) ≡ core s
unfolding count_oversized
count_oversized-core s e = ground arith

answer_replay-core :
    (s : Session) (writes : Bool) (from : Option Addr) (r : Option HandshakeReplay)
    → core (answer_replay s writes from r) ≡ core s
unfolding answer_replay
answer_replay-core s writes from none = refl
answer_replay-core s writes from (some r) = refl

pub read_round-Evolves :
    (world : World) (s : Session) (clock : Clock) (writes : Bool) (wire : Bytes)
    (from : Option Addr)
    → Evolves world (core s) (core (read_round world s clock writes wire from))
unfolding read_round open_datagram
read_round-Evolves world s clock writes wire from =
    let answered = λ (w : Bool). answer_replay s w from s.handshake_replay in
    let kept = λ (w : Bool).
      Evolves-of world (core s) (core (answered w))
        (answer_replay-core s w from s.handshake_replay) in
    elim (Bool-cases (is_replay s.handshake_replay clock.replayed wire from)) [
      | inl replay ↦ elim (Bool-cases writes) [
        | inl w ↦ rw (replay, w, read_round) (kept true)
        | inr w ↦
            rw (replay, w, read_round)
              (Evolves-trans world (core s) (core (answered false)) _ (kept false)
                (terminate-Evolves world (answered false)))
      ]
      | inr fresh ↦ elim (Outcome-cases (open_wire (some s.recv_codec) clock.opened wire)) [
        | inl (packet, opened) ↦
            rw (fresh, opened, read_round, open_datagram)
              (check_packet-Evolves world s clock from packet)
        | inr (e, failed) ↦
            rw (fresh, failed, read_round, open_datagram)
              (Evolves-of world (core s) _ (count_oversized-core s e))
      ]
    ]
