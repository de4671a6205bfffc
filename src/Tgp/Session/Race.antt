-- ===== src/Tgp/Session/Race.antt =====
-- internal/tgp/session.go: sends that overlap. sendWirePayload takes its number atomically, and seals
-- and writes later; in between other goroutines run. An interleaving is a list of such events.
use tachyon_core.Base.{ℕ, zero, suc, Bool, List, [], ◌∷◌, Option, none, some}
use tachyon_core.Base.Bytes.{Bytes}
use tachyon_core.Base.Outcome.{ok, err}
use tachyon_core.Tgp.Types.{Addr}
use tachyon_core.Tgp.Session.{World, Session, migrate, terminate}
use tachyon_core.Tgp.Session.Send.{Shard, seal_payload, write_wire, number_next}

-- A call of sendWirePayload between its number and its write.
pub record Flight : Type 0 where
  pub number : ℕ
  pub stream_id : ℕ
  pub payload : Bytes
  pub shard : Option Shard
  pub accounted : ℕ

-- The session, the calls under way, and every datagram sealed so far, newest first.
pub record Race : Type 0 where
  pub session : Session
  pub in_flight : List Flight
  pub sealed : List Bytes

pub data Event : Type 0 where
  begins : ℕ → Bytes → Option Shard → ℕ → Event
  finishes : ℕ → Bool → Event
  migrates : Bool → Option Addr → Event
  terminates : Event

unfoldable pub take_flight : ℕ → List Flight → Option (Flight × List Flight)
take_flight i [] = none
take_flight zero (f ∷ fs) = some (f, fs)
take_flight (suc i) (f ∷ fs) = elim (take_flight i fs) [
  | none ↦ none
  | some (g, rest) ↦ some (g, f ∷ rest)
]

unfoldable pub begin_send : Race → ℕ → Bytes → Option Shard → ℕ → Race
begin_send r stream payload shard accounted =
    let s = number_next r.session in
    let f : Flight = record {
      number = s.packet_no;
      stream_id = stream;
      payload = payload;
      shard = shard;
      accounted = accounted;
    } in
    record r { session = s; in_flight = f ∷ r.in_flight }

unfoldable pub finish_flight : Race → Flight → List Flight → Bool → Race
finish_flight r f rest writes =
    elim (seal_payload r.session f.number f.stream_id f.payload f.shard) [
      | err e ↦ record r { in_flight = rest }
      | ok wire ↦ record {
        session = (write_wire writes r.session f.accounted wire).0;
        in_flight = rest;
        sealed = wire ∷ r.sealed;
      }
    ]

unfoldable pub finish_send : Race → ℕ → Bool → Race
finish_send r i writes = elim (take_flight i r.in_flight) [
  | none ↦ r
  | some (f, rest) ↦ finish_flight r f rest writes
]

unfoldable pub step : World → Race → Event → Race
step world r (begins stream payload shard accounted) = begin_send r stream payload shard accounted
step world r (finishes i writes) = finish_send r i writes
step world r (migrates context_ok addr) = record r {
  session = (migrate world r.session context_ok addr).0;
}
step world r terminates = record r { session = terminate world r.session }

unfoldable pub run : World → Race → List Event → Race
run world r [] = r
run world r (e ∷ es) = run world (step world r e) es
