-- ===== src/Tgp/Session/Moves.antt =====
-- internal/tgp/session.go: what each operation of a session does to its core.
use tachyon_core.Base.{
  ℕ, ◌≡◌, refl, ◌∙◌, Bool, true, false, not, List, [], ◌∷◌, Option, none, some, inl, inr, length,
  arith, if◌then◌else◌, Bool-cases, Option-cases, ◌==◌, ◌||◌,
}
use tachyon_core.Base.Bytes.{Bytes}
use tachyon_core.Base.Outcome.{ok, Outcome-cases}
use tachyon_core.Tgp.Types.{Addr}
use tachyon_core.Tgp.Fec.Frame.{is_enabled, validate_params}
use tachyon_core.Tgp.Session.{
  World, Session, SendGroup, is_closed, migrate, check_migrate, terminate, accept_source, same_addr,
}
use tachyon_core.Tgp.Session.Send.{
  Shard, RepairBatch, send_packet, send_packet_with_fec, send_wire_payload, send_shards,
  next_fec_shards, number_shards, repair_batch, repair_batches, expired_repair_batches,
  send_batches, flush_tick,
}
use tachyon_core.Tgp.Session.Core.{
  Core, core, IsWithin, Evolves, Evolves-refl, Evolves-trans, Evolves-of, send_wire_payload-core,
  send_shards-core, with_groups-Evolves, next_fec_shards-Evolves,
}

module _ (world : World) where
  send_packet_with_fec-Evolves :
      (s : Session) (now stream : ℕ) (payload : Bytes)
      → Evolves world (core s) (core (send_packet_with_fec world s now stream payload).0)
  unfolding send_packet_with_fec
  send_packet_with_fec-Evolves s now stream payload =
      let grown = next_fec_shards-Evolves world s now stream payload in
      let s1 = (next_fec_shards world s now stream payload).0 in
      elim (Outcome-cases (next_fec_shards world s now stream payload).1) [
        | inr (x, failed) ↦ rw (failed, send_packet_with_fec) grown
        | inl (next, planned) ↦
            let shard : Shard = record {
              group_id = next.group_id;
              index = next.index;
              total = next.total;
              data_shards = next.data_shards;
              is_repair = false;
            } in
            let sent =
              send_wire_payload world s1 stream next.data_payload (some shard) (length payload) in
            let same =
              send_wire_payload-core world s1 stream next.data_payload (some shard)
                (length payload) in
            let after =
              Evolves-trans world (core s) (core s1) (core sent.0) grown
                (Evolves-of world (core s1) (core sent.0) same) in
            elim (Outcome-cases sent.1) [
              | inr (x, failed) ↦ rw (planned, failed, send_packet_with_fec) after
              | inl (u, done) ↦
                  let parity =
                    number_shards next.group_id next.total next.data_shards next.data_shards
                      next.parity_payloads in
                  rw (planned, done, send_packet_with_fec)
                    (Evolves-trans world (core s) (core sent.0) _ after (
                      Evolves-of world (core sent.0) _
                        (send_shards-core world sent.0 stream parity)))
            ]
      ]

  pub send_packet-Evolves :
      (s : Session) (now stream : ℕ) (payload : Bytes)
      → Evolves world (core s) (core (send_packet world s now stream payload).0)
  unfolding send_packet
  send_packet-Evolves s now stream payload = elim (Bool-cases (is_closed s.state)) [
    | inl shut ↦ rw (shut, send_packet) (Evolves-refl world (core s))
    | inr live ↦ elim (Bool-cases (is_enabled s.fec)) [
      | inl fec ↦ rw (live, fec, send_packet) (send_packet_with_fec-Evolves s now stream payload)
      | inr plain ↦
          rw (live, plain, send_packet)
            (Evolves-of world (core s) _
              (send_wire_payload-core world s stream payload none (length payload)))
    ]
  ]

  repair_batches-IsWithin :
      (s : Session) (d now : ℕ) (gs : List SendGroup)
      → IsWithin d gs
      → IsWithin d (repair_batches world s now gs).1
  unfolding repair_batches
  repair_batches-IsWithin s d now [] h = tt
  repair_batches-IsWithin s d now (g ∷ gs) h = elim (Option-cases (repair_batch world s now g)) [
    | inl left ↦ rw (left, repair_batches) (h.0, repair_batches-IsWithin s d now gs h.1)
    | inr (batch, sent) ↦ rw (sent, repair_batches) (repair_batches-IsWithin s d now gs h.1)
  ]

  send_batches-core :
      (s : Session) (bs : List RepairBatch) → core (send_batches world s bs) ≡ core s
  unfolding send_batches
  send_batches-core s [] = refl
  send_batches-core s (b ∷ bs) =
      send_batches-core (send_shards world s b.stream_id b.shards).0 bs
      ∙ send_shards-core world s b.stream_id b.shards

  expired-Evolves :
      (s : Session) (now : ℕ) → Evolves world (core s) (core (expired_repair_batches world s now).0)
  unfolding expired_repair_batches
  expired-Evolves s now = elim (Bool-cases (not (is_enabled s.fec) || s.fec.group_timeout == 0)) [
    | inl off ↦ rw (off, expired_repair_batches) (Evolves-refl world (core s))
    | inr on ↦ elim (Outcome-cases (validate_params s.fec.data_shards s.fec.parity_shards)) [
      | inr (x, bad) ↦ rw (on, bad, expired_repair_batches) (Evolves-refl world (core s))
      | inl (u, good) ↦
          rw (on, good, expired_repair_batches)
            (with_groups-Evolves world (core s) (repair_batches world s now s.fec_tx).1
              (repair_batches-IsWithin s s.fec.data_shards now s.fec_tx))
    ]
  ]

  pub flush_tick-Evolves :
      (s : Session) (now : ℕ) → Evolves world (core s) (core (flush_tick world s now))
  unfolding flush_tick
  flush_tick-Evolves s now =
      let expired = expired_repair_batches world s now in
      Evolves-trans world (core s) (core expired.0) (core (flush_tick world s now))
        (expired-Evolves s now)
        (Evolves-of world (core expired.0) (core (flush_tick world s now))
          (send_batches-core expired.0 expired.1))

  check_migrate-inv :
      (s : Session) (context_ok : Bool) (addr : Option Addr) (a : Addr)
      → check_migrate world s context_ok addr ≡ ok a
      → (world.allows a ≡ true) × (is_closed s.state ≡ false)
  unfolding check_migrate
  check_migrate-inv s context_ok none a e = absurd (ground arith)
  check_migrate-inv s context_ok (some b) a e = ground arith

  pub migrate-Evolves :
      (s : Session) (context_ok : Bool) (addr : Option Addr)
      → Evolves world (core s) (core (migrate world s context_ok addr).0)
  unfolding migrate
  migrate-Evolves s context_ok addr = elim (Outcome-cases (check_migrate world s context_ok addr)) [
    | inr (x, refused) ↦ rw (refused, migrate) (Evolves-refl world (core s))
    | inl (a, passed) ↦
        let (allowed, live) = check_migrate-inv s context_ok addr a passed in
        rw (passed, migrate)
          (record {
            keeps = λ h. record {
              settled = inl refl;
              allowed = allowed;
              valid_fec = h.valid_fec;
              tuned = h.tuned;
              within = h.within;
            };
            stays = λ shut. absurd (ground arith);
          })
  ]

  pub terminate-Evolves : (s : Session) → Evolves world (core s) (core (terminate world s))
  unfolding terminate
  terminate-Evolves s = elim (Bool-cases (is_closed s.state)) [
    | inl shut ↦ rw (shut, terminate) (Evolves-refl world (core s))
    | inr live ↦
        rw (live, terminate)
          (record {
            keeps = λ h. record {
              settled = inr refl;
              allowed = h.allowed;
              valid_fec = h.valid_fec;
              tuned = h.tuned;
              within = h.within;
            };
            stays = λ shut. absurd (ground arith);
          })
  ]

  Evolves-if :
      (c : Core) (b : Bool) (x y : Session × Bool)
      → Evolves world c (core x.0)
      → Evolves world c (core y.0)
      → Evolves world c (core (if b then x else y).0)
  Evolves-if c true x y f g = f
  Evolves-if c false x y f g = g

  pub accept_source-Evolves :
      (s : Session) (from : Option Addr)
      → Evolves world (core s) (core (accept_source world s from).0)
  unfolding accept_source
  accept_source-Evolves s none = Evolves-refl world (core s)
  accept_source-Evolves s (some from) =
      let kept = Evolves-refl world (core s) in
      Evolves-if (core s) (is_closed s.state) _ _ kept (
        Evolves-if (core s) (same_addr (some s.remote) (some from)) _ _ kept (
          Evolves-if (core s) s.disable_migration _ _ kept (
            Evolves-if (core s) world.manages_return_path _ _ kept
              (migrate-Evolves s true (some from)))))
