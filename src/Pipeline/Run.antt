-- ===== src/Pipeline/Run.antt =====
-- internal/pipeline/pipeline.go: what is done with one packet and with all of them, and the counters.
-- The tracker's answer and the handler's error for a packet come from outside. The counters are
-- uint64. Logging, and the callback on a decision, are left out.
pub mod Laws
use tachyon_core.Base.{
  ℕ, zero, suc, ◌+◌, ◌%◌, ◌^◌, Bool, true, false, List, [], ◌∷◌, Option, some, none, if◌then◌else◌,
  length, ◌==◌,
}
use tachyon_core.Base.Bytes.{Bytes}
use tachyon_core.Base.Outcome.{Outcome, ok, err}
use tachyon_core.Pidtrack.Flow.{FlowKey, ProcessInfo}
use tachyon_core.Pidtrack.Tracker.{Cancelled}
use tachyon_core.Pipeline.Packet.{ParseError, parse_flow}
use tachyon_core.Pipeline.Router.{
  Router, Decision, Action, tgp, direct, drop, decide, decide_unknown_process,
}

pub record Stats : Type 0 where
  pub packets_read : ℕ
  pub bytes_read : ℕ
  pub bytes_tgp : ℕ
  pub bytes_direct : ℕ
  pub bytes_drop : ℕ
  pub unsupported : ℕ
  pub lookup_errors : ℕ
  pub decided_tgp : ℕ
  pub decided_direct : ℕ
  pub decided_drop : ℕ
  pub handler_errors : ℕ

abbrev pub no_stats : Stats
no_stats = record {
  packets_read = 0;
  bytes_read = 0;
  bytes_tgp = 0;
  bytes_direct = 0;
  bytes_drop = 0;
  unsupported = 0;
  lookup_errors = 0;
  decided_tgp = 0;
  decided_direct = 0;
  decided_drop = 0;
  handler_errors = 0;
}

-- atomic.AddUint64
abbrev pub add64 : ℕ → ℕ → ℕ
add64 a b = (a + b) % 2 ^ 64

pub count_decision : Action → ℕ → Stats → Stats
count_decision tgp n s = record s {
  decided_tgp = add64 s.decided_tgp 1;
  bytes_tgp = add64 s.bytes_tgp n;
}
count_decision direct n s = record s {
  decided_direct = add64 s.decided_direct 1;
  bytes_direct = add64 s.bytes_direct n;
}
count_decision drop n s = record s {
  decided_drop = add64 s.decided_drop 1;
  bytes_drop = add64 s.bytes_drop n;
}

-- The handler's error: none, one that is only logged, or a FatalHandlerError.
pub data Handled : Type 0 where
  handled_ok handled_error handled_fatal : Handled

-- The answers for a packet from outside: the process of its flow, and what the handler makes of the
-- decision.
pub record Answers : Type 0 where
  pub lookup : FlowKey → Outcome Cancelled ProcessInfo
  pub handle : Decision → Bytes → Handled

-- The decision on a flow: an error of the tracker makes its process unknown.
pub route : Router → FlowKey → Outcome Cancelled ProcessInfo → Decision
route r flow (err e) = decide_unknown_process r flow
route r flow (ok proc) = decide r flow proc

abbrev count_lookup : Outcome Cancelled ProcessInfo → Stats → Stats
count_lookup (err e) s = record s { lookup_errors = add64 s.lookup_errors 1 }
count_lookup (ok proc) s = s

abbrev count_handled : Handled → Stats → Stats
count_handled handled_ok s = s
count_handled handled_error s = record s { handler_errors = add64 s.handler_errors 1 }
count_handled handled_fatal s = record s { handler_errors = add64 s.handler_errors 1 }

pub handle_packet : Router → Answers → Bytes → Stats → Stats × Handled
unfolding route count_decision
handle_packet r answers packet s = elim (parse_flow packet) [
  | err e ↦ (record s { unsupported = add64 s.unsupported 1 }, handled_ok)
  | ok flow ↦
      let proc = answers.lookup flow in
      let decision = route r flow proc in
      let outcome = answers.handle decision packet in
      (
        count_handled outcome
            (count_decision decision.action (length packet) (count_lookup proc s)),
        outcome,
      )
]

abbrev is_fatal : Handled → Bool
is_fatal handled_ok = false
is_fatal handled_error = false
is_fatal handled_fatal = true

count_read : Bytes → Stats → Stats
count_read packet s = record s {
  packets_read = add64 s.packets_read 1;
  bytes_read = add64 s.bytes_read (length packet);
}

-- Run, over the packets that the device gives while the context lasts. An empty read is skipped, and
-- a fatal error ends the loop: `true`.
pub run : Router → Answers → List Bytes → Stats → Stats × Bool
unfolding handle_packet count_read
run r answers [] s = (s, false)
run r answers (packet ∷ packets) s =
    let (s', outcome) = handle_packet r answers packet (count_read packet s) in
    let rest = run r answers packets s' in
    let skipped = run r answers packets s in
    if length packet == 0 then skipped else if is_fatal outcome then (s', true) else rest
