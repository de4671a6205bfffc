-- ===== src/Pipeline/Run/Laws.antt =====
-- The counters of internal/pipeline/pipeline.go, against a count over the packets themselves.
use tachyon_core.Base.{ℕ, ◌+◌, Bool, true, false, List, [], ◌∷◌, length, ◌==◌, if◌then◌else◌}
use tachyon_core.Base.Bytes.{Bytes}
use tachyon_core.Base.Outcome.{Outcome, ok, err}
use tachyon_core.Pidtrack.Tracker.{Cancelled}
use tachyon_core.Pidtrack.Flow.{ProcessInfo}
use tachyon_core.Pipeline.Packet.{parse_flow}
use tachyon_core.Pipeline.Router.{Router, Action, tgp, direct, drop}
use tachyon_core.Pipeline.Run.{
  Stats, Handled, handled_ok, handled_error, handled_fatal, Answers, route, is_fatal,
}

-- What becomes of a packet, with no look at a counter: it is unsupported, or it is decided and
-- handled, after the tracker's answer or its error.
pub data Fate : Type 0 where
  unsupported : Fate
  decided : Action → Bool → Handled → Fate

abbrev pub is_cancelled : Outcome Cancelled ProcessInfo → Bool
is_cancelled (err e) = true
is_cancelled (ok proc) = false

pub fate : Router → Answers → Bytes → Fate
fate r answers packet = elim (parse_flow packet) [
  | err e ↦ unsupported
  | ok flow ↦
      let decision = route r flow (answers.lookup flow) in
      decided decision.action (is_cancelled (answers.lookup flow)) (answers.handle decision packet)
]

abbrev pub ends_run : Fate → Bool
ends_run unsupported = false
ends_run (decided a c h) = is_fatal h

-- The packets that a run handles: those that are not empty, up to the first with a fatal error.
pub handled : Router → Answers → List Bytes → List Bytes
handled r answers [] = []
handled r answers (packet ∷ packets) =
    let rest = handled r answers packets in
    if length packet == 0
    then rest
    else packet ∷ (if ends_run (fate r answers packet) then [] else rest)

abbrev pub is_unsupported : Fate → Bool
is_unsupported unsupported = true
is_unsupported (decided a c h) = false

abbrev same_action : Action → Action → Bool
same_action tgp tgp = true
same_action tgp direct = false
same_action tgp drop = false
same_action direct tgp = false
same_action direct direct = true
same_action direct drop = false
same_action drop tgp = false
same_action drop direct = false
same_action drop drop = true

abbrev pub is_decided : Action → Fate → Bool
is_decided a unsupported = false
is_decided a (decided b c h) = same_action a b

abbrev pub is_lookup_error : Fate → Bool
is_lookup_error unsupported = false
is_lookup_error (decided a c h) = c

abbrev is_error : Handled → Bool
is_error handled_ok = false
is_error handled_error = true
is_error handled_fatal = true

abbrev pub is_handler_error : Fate → Bool
is_handler_error unsupported = false
is_handler_error (decided a c h) = is_error h

-- The counters of Stats.
pub data Counter : Type 0 where
  reads read_size refusals lookup_failures handler_failures : Counter
  decisions sizes : Action → Counter

abbrev pub value : Counter → Stats → ℕ
value reads s = s.packets_read
value read_size s = s.bytes_read
value refusals s = s.unsupported
value lookup_failures s = s.lookup_errors
value handler_failures s = s.handler_errors
value (decisions tgp) s = s.decided_tgp
value (decisions direct) s = s.decided_direct
value (decisions drop) s = s.decided_drop
value (sizes tgp) s = s.bytes_tgp
value (sizes direct) s = s.bytes_direct
value (sizes drop) s = s.bytes_drop

-- What a packet of that fate and length has to add to a counter.
abbrev pub share : Counter → Fate → ℕ → ℕ
share reads f n = 1
share read_size f n = n
share refusals f n = if is_unsupported f then 1 else 0
share lookup_failures f n = if is_lookup_error f then 1 else 0
share handler_failures f n = if is_handler_error f then 1 else 0
share (decisions a) f n = if is_decided a f then 1 else 0
share (sizes a) f n = if is_decided a f then n else 0

abbrev pub total : Counter → Router → Answers → List Bytes → ℕ
total c r answers [] = 0
total c r answers (packet ∷ packets) =
    share c (fate r answers packet) (length packet) + total c r answers packets
