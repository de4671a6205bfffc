-- ===== src/Tgp/Session/Tests.antt =====
-- Runs of internal/tgp/session.go: two sessions over a cipher that only appends its tag.
use tachyon_core.Base.Text.{same_text}
use tachyon_core.Base.{
  ◌≡◌, refl, true, false, [], ◌∷◌, none, some, replicate, arith, ◌≤◌, ◌⊎◌, List, Option,
}
use tachyon_core.Base.Bytes.{Bytes}
use tachyon_core.Base.Outcome.{ok, err}
use tachyon_core.Tgp.Types.{Addr, reconstruction_failed}
use tachyon_core.Tgp.Dedup.{seen_first, new_dedup_window}
use tachyon_core.Tgp.Session.Streams.{is_waiting, has_room}
use tachyon_core.Tgp.Fec.Frame.{is_enabled, validate_options}
use tachyon_core.Tgp.Wire.{new_codec, normalize_max_datagram_size}
use tachyon_core.Tgp.Wire.Plain.{plain_aead, codec, codec-IsValid}
use tachyon_core.Tgp.Session.{
  World, Session, SessionOptions, built_session, closed, new_session, same_addr, source_eligible,
  terminate,
}
use tachyon_core.Tgp.Session.Send.{send_packet}
use tachyon_core.Tgp.Session.Receive.{Clock, read_round, recv_packet}
use tachyon_core.Tgp.Session.Race.{begins, finishes, terminates, run}
use tachyon_core.Tgp.Session.Once.{count_nonce, nonce_once}
use tachyon_core.Tgp.Session.Sources.{Moved, Unmoved, read_round-moves, ineligible-Unmoved}
use tachyon_core.Tgp.Session.Arrival.{IsPeer, send_packet-recv_packet}
use tachyon_core.Tgp.Session.Core.{core, IsSound}
use tachyon_core.Tgp.Session.Reach.{
  Reach, here, next, sends, closes_it, reached-IsSound, closed_for_good,
}

abbrev home : Addr
home = record { network = 117 ∷ []; text = 49 ∷ [] }

abbrev away : Addr
away = record { network = 117 ∷ []; text = 50 ∷ [] }

abbrev world : World
world = record {
  paces = λ n. true;
  writes = λ n. true;
  allows = λ a. true;
  authorizes = none;
  manages_return_path = false;
  fec_codec = record {
    encode = λ payloads d p. err reconstruction_failed;
    reconstruct = λ shards d p. (shards, err reconstruction_failed);
  };
  closes = true;
}

abbrev options : SessionOptions
options = record {
  session_id = replicate 16 7;
  remote_addr = some home;
  send_aead = ok plain_aead;
  recv_aead = ok plain_aead;
  stream_queue = 4;
  fec = record {
    data_shards = 0;
    parity_shards = 0;
    receive_groups = 0;
    group_timeout = 0;
    dynamic = false;
    adapt_window = 0;
  };
  datagram_limit = 1352;
  disable_migration = false;
  handshake_replay = none;
}

abbrev fresh : Session
fresh = built_session options home codec codec

abbrev clock : Clock
clock = record { replayed = 0; opened = 1; purged = 2; created = 3; finished = 4 }

abbrev hello : Bytes
hello = 104 ∷ 105 ∷ []

-- Two sends overlap, and the session is closed before they end.
nonce_once_example :
    count_nonce
      (replicate 12 0)
      (run world
        (record { session = fresh; in_flight = []; sealed = [] })
        (begins 0 hello none 2
          ∷ begins 0 [] none 0
          ∷ terminates
          ∷ finishes 1 true
          ∷ finishes 0 true
          ∷ [])).sealed
    ≤ 1
nonce_once_example =
    nonce_once world fresh
      (begins 0 hello none 2
        ∷ begins 0 [] none 0
        ∷ terminates
        ∷ finishes 1 true
        ∷ finishes 0 true
        ∷ [])
      (replicate 12 0) (omega arith)

abbrev first_wire : List (Bytes × Option Addr) → Bytes
first_wire [] = []
first_wire ((wire, to) ∷ later) = wire

-- What the session of the other end sends, which then comes from a new address.
abbrev genuine : Bytes
genuine = first_wire (send_packet world fresh 0 0 hello).0.link.written

read_round-moves_example :
    let s' = read_round world fresh clock true genuine (some away) in
    (s'.remote ≡ home) ⊎ ((some away ≡ some s'.remote) × Moved world fresh clock genuine s'.remote)
read_round-moves_example = read_round-moves world fresh clock true genuine (some away)

abbrev shut : Session
shut = record fresh { state = closed }

shut_ineligible : source_eligible world shut (some home) ≡ false
unfolding source_eligible
shut_ineligible = refl

ineligible-Unmoved_example : Unmoved shut (read_round world shut clock true hello (some home))
ineligible-Unmoved_example =
    ineligible-Unmoved world shut clock true hello (some home) shut_ineligible

fresh-IsPeer : IsPeer fresh fresh
fresh-IsPeer = record {
  same_cipher = refl;
  same_id = refl;
  id_size = refl;
  limit = omega arith;
  valid = codec-IsValid;
}

no_fec : is_enabled fresh.fec ≡ false
unfolding is_enabled
no_fec = refl

at_home : same_addr (some home) (some home) ≡ true
unfolding same_addr same_text
at_home = refl

window_passes : (seen_first fresh.dedup 1).1 ≡ true
unfolding seen_first new_dedup_window
window_passes = refl

nothing_waits : is_waiting 0 fresh.streams ≡ false
unfolding is_waiting
nothing_waits = refl

rooms : has_room fresh.streams ≡ true
unfolding has_room
rooms = refl

send_packet-recv_packet_example :
    (wire : Bytes) × (((send_packet world fresh 0 0 hello).1 ≡ ok tt)
      × (((send_packet world fresh 0 0 hello).0.link.written ≡ (wire, some home) ∷ [])
          × ((recv_packet (read_round world fresh clock true wire (some home)) 0).1 ≡ some hello)))
send_packet-recv_packet_example =
    send_packet-recv_packet world world fresh fresh clock 0 0 hello home true fresh-IsPeer refl
      no_fec refl refl (omega arith) (omega arith) (omega arith) refl at_home refl window_passes
      nothing_waits rooms refl

made : new_session world options ≡ ok fresh
unfolding new_session validate_options new_codec normalize_max_datagram_size
made = refl

sent_then_closed : Reach world fresh (terminate world (send_packet world fresh 0 0 hello).0)
sent_then_closed = next (next here (sends 0 0 hello refl)) (closes_it refl)

reached-IsSound_example :
    IsSound world (core (terminate world (send_packet world fresh 0 0 hello).0))
reached-IsSound_example =
    reached-IsSound world options fresh (terminate world (send_packet world fresh 0 0 hello).0) made
      sent_then_closed

closed_for_good_example :
    let t = (send_packet world shut 0 0 hello).0 in (t.state ≡ closed) × (t.remote ≡ home)
closed_for_good_example =
    closed_for_good world shut (send_packet world shut 0 0 hello).0
      (next here (sends 0 0 hello refl)) refl
