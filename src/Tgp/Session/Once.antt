-- ===== src/Tgp/Session/Once.antt =====
-- internal/tgp/session.go: packetNo gives every datagram of a session a number, and so an AEAD nonce,
-- of its own, however the sends overlap.
use tachyon_core.Tgp.Types.{Addr}
use tachyon_core.Base.{
  ℕ, zero, suc, ◌+◌, ◌≤◌, ◌<◌, ◌^◌, ◌≡◌, refl, ap, Bool, List, [], ◌∷◌, Option, some, length, ◌==◌,
  if◌then◌else◌, arith, inl, inr, Option-cases, Bool-cases, subst,
}
use tachyon_core.Base.Bytes.{Bytes}
use tachyon_core.Base.Text.{same_text, same_text→eq}
use tachyon_core.Base.Outcome.{ok, Outcome-cases, bind-inv}
use tachyon_core.Tgp.Wire.{new_data_header}
use tachyon_core.Tgp.Wire.Nonces.{nonce_of, sequence_of, sequence_of-seal}
use tachyon_core.Tgp.Session.{World, Session, add64, migrate, terminate}
use tachyon_core.Tgp.Session.Send.{seal_payload, configure, write_wire, Shard}
use tachyon_core.Tgp.Session.Race.{
  Flight, Race, Event, begins, finishes, migrates, terminates, take_flight, finish_flight,
  begin_send, finish_send, step, run,
}

unfoldable pub count_flights : ℕ → List Flight → ℕ
count_flights n [] = 0
count_flights n (f ∷ fs) = (if f.number == n then 1 else 0) + count_flights n fs

unfoldable pub count_sequences : ℕ → List Bytes → ℕ
count_sequences n [] = 0
count_sequences n (w ∷ ws) = (if sequence_of (nonce_of w) == n then 1 else 0) + count_sequences n ws

-- How many sealed datagrams have this nonce.
unfoldable pub count_nonce : Bytes → List Bytes → ℕ
count_nonce nonce [] = 0
count_nonce nonce (w ∷ ws) = (if same_text (nonce_of w) nonce then 1 else 0) + count_nonce nonce ws

-- Every number up to packetNo is used once at most, by a call under way or a datagram, and no other.
abbrev pub uses : Race → ℕ → ℕ
uses r n = count_flights n r.in_flight + count_sequences n r.sealed

record IsFresh (r : Race) : Type 0 where
  once : (n : ℕ) → uses r n ≤ 1
  known : (n : ℕ) → r.session.packet_no < n → uses r n ≡ 0

take_flight-count :
    (i n : ℕ) (fs : List Flight) (f : Flight) (rest : List Flight)
    → take_flight i fs ≡ some (f, rest)
    → count_flights n fs ≡ (if f.number == n then 1 else 0) + count_flights n rest
unfolding take_flight count_flights
take_flight-count i n [] f rest e = absurd (ground arith)
take_flight-count zero n (g ∷ fs) f rest e = ground arith
take_flight-count (suc i) n (g ∷ fs) f rest e = elim (Option-cases (take_flight i fs)) [
  | inl none_left ↦ absurd (ground arith)
  | inr ((h, left), found) ↦ ground (arith, take_flight-count i n fs h left found)
]

seal_payload-number :
    (s : Session) (f : Flight) (wire : Bytes)
    → seal_payload s f.number f.stream_id f.payload f.shard ≡ ok wire
    → sequence_of (nonce_of wire) ≡ f.number
unfolding seal_payload
seal_payload-number s f wire e =
    let (header, (_, sealed)) =
      bind-inv (new_data_header s.id f.stream_id f.number (length f.payload)) _ wire e in
    sequence_of-seal s.send_codec f.number (configure f.shard header) f.payload wire sealed

write_wire-packet_no :
    (writes : Bool) (s : Session) (n : ℕ) (wire : Bytes)
    → (write_wire writes s n wire).0.packet_no ≡ s.packet_no
unfolding write_wire
write_wire-packet_no writes s n wire = ground arith

begin_send-IsFresh :
    (r : Race) (stream accounted : ℕ) (payload : Bytes) (shard : Option Shard)
    → r.session.packet_no + 1 < 2 ^ 64
    → IsFresh r
    → IsFresh (begin_send r stream payload shard accounted)
unfolding begin_send add64 count_flights
begin_send-IsFresh r stream accounted payload shard small h = record {
  once = λ n. ground (arith, h.once n, h.known n);
  known = λ n later. ground (arith, h.known n);
}

finish_flight-IsFresh :
    (r : Race) (f : Flight) (rest : List Flight) (writes : Bool)
    → IsFresh r
    → ((n : ℕ)
        → count_flights n r.in_flight ≡ (if f.number == n then 1 else 0) + count_flights n rest)
    → IsFresh (finish_flight r f rest writes)
      × ((finish_flight r f rest writes).session.packet_no ≡ r.session.packet_no)
unfolding finish_flight count_sequences
finish_flight-IsFresh r f rest writes h taken =
    let sealing = seal_payload r.session f.number f.stream_id f.payload f.shard in
    elim (Outcome-cases sealing) [
      | inr (x, failed) ↦
          rw (failed, finish_flight)
            (
              record {
                once = λ n. omega (arith, h.once n, taken n);
                known = λ n later. omega (arith, h.known n later, taken n);
              },
              refl,
            )
      | inl (wire, done) ↦
          let same = write_wire-packet_no writes r.session f.accounted wire in
          let number = seal_payload-number r.session f wire done in
          rw (done, finish_flight)
            (
              record {
                once = λ n. rw number (omega (arith, h.once n, taken n));
                known = λ n later.
                    rw number
                      (omega (arith, h.known n (subst (λ (m : ℕ). m < n) same later), taken n));
              },
              same,
            )
    ]

finish_send-IsFresh :
    (r : Race) (i : ℕ) (writes : Bool)
    → IsFresh r
    → IsFresh (finish_send r i writes)
      × ((finish_send r i writes).session.packet_no ≡ r.session.packet_no)
unfolding finish_send
finish_send-IsFresh r i writes h = elim (Option-cases (take_flight i r.in_flight)) [
  | inl missing ↦ rw (missing, finish_send) (h, refl)
  | inr ((f, rest), found) ↦
      rw (found, finish_send)
        (finish_flight-IsFresh r f rest writes h
          (λ n. take_flight-count i n r.in_flight f rest found))
]

begin_send-packet_no :
    (r : Race) (stream accounted : ℕ) (payload : Bytes) (shard : Option Shard)
    → r.session.packet_no + 1 < 2 ^ 64
    → (begin_send r stream payload shard accounted).session.packet_no ≤ r.session.packet_no + 1
unfolding begin_send add64
begin_send-packet_no r stream accounted payload shard small = omega arith

migrate-packet_no :
    (world : World) (s : Session) (context_ok : Bool) (addr : Option Addr)
    → (migrate world s context_ok addr).0.packet_no ≡ s.packet_no
unfolding migrate
migrate-packet_no world s context_ok addr = ground arith

terminate-packet_no : (world : World) (s : Session) → (terminate world s).packet_no ≡ s.packet_no
unfolding terminate
terminate-packet_no world s = ground arith

same_number-IsFresh :
    (r : Race) (s : Session)
    → s.packet_no ≡ r.session.packet_no
    → IsFresh r
    → IsFresh (record r { session = s }) × (s.packet_no ≤ r.session.packet_no + 1)
same_number-IsFresh r s same h = (
  record { once = h.once; known = λ n later. h.known n (subst (λ (m : ℕ). m < n) same later) },
  omega arith,
)

-- One event keeps freshness, and takes at most one number.
step-IsFresh :
    (world : World) (r : Race) (e : Event)
    → r.session.packet_no + 1 < 2 ^ 64
    → IsFresh r
    → IsFresh (step world r e) × ((step world r e).session.packet_no ≤ r.session.packet_no + 1)
unfolding step
step-IsFresh world r (begins stream payload shard accounted) small h = (
  begin_send-IsFresh r stream accounted payload shard small h,
  begin_send-packet_no r stream accounted payload shard small,
)
step-IsFresh world r (finishes i writes) small h =
    let (fresh, same) = finish_send-IsFresh r i writes h in (fresh, rw same (omega arith))
step-IsFresh world r (migrates context_ok addr) small h =
    same_number-IsFresh r (migrate world r.session context_ok addr).0
      (migrate-packet_no world r.session context_ok addr) h
step-IsFresh world r terminates small h =
    same_number-IsFresh r (terminate world r.session) (terminate-packet_no world r.session) h

run-IsFresh :
    (world : World) (r : Race) (es : List Event)
    → r.session.packet_no + length es < 2 ^ 64
    → IsFresh r
    → IsFresh (run world r es)
unfolding run
run-IsFresh world r [] small h = h
run-IsFresh world r (e ∷ es) small h =
    let (fresh, few) = step-IsFresh world r e (omega arith) h in
    run-IsFresh world (step world r e) es (omega arith) fresh

count_nonce-sequences :
    (nonce : Bytes) (ws : List Bytes)
    → count_nonce nonce ws ≤ count_sequences (sequence_of nonce) ws
unfolding count_nonce count_sequences
count_nonce-sequences nonce [] = omega arith
count_nonce-sequences nonce (w ∷ ws) = elim (Bool-cases (same_text (nonce_of w) nonce)) [
  | inl same ↦
      let equal = ap sequence_of (same_text→eq (nonce_of w) nonce same) in
      rw (same, equal) (ground (arith, count_nonce-sequences nonce ws))
  | inr other ↦ rw other (ground (arith, count_nonce-sequences nonce ws))
]

-- Whatever sends, migrations and a close overlap, in any order and with any answers of the transport,
-- no AEAD nonce serves two datagrams that a session seals, as long as its numbers fit 64 bits.
pub nonce_once :
    (world : World) (s : Session) (es : List Event) (nonce : Bytes)
    → s.packet_no + length es < 2 ^ 64
    → count_nonce nonce (run world (record { session = s; in_flight = []; sealed = [] }) es).sealed
      ≤ 1
nonce_once world s es nonce small =
    let start : Race = record { session = s; in_flight = []; sealed = [] } in
    let fresh : IsFresh start = record {
      once = λ n. unfold count_flights in unfold count_sequences in omega arith;
      known = λ n later. unfold count_flights in unfold count_sequences in refl;
    } in
    omega (
      arith,
      count_nonce-sequences nonce (run world start es).sealed,
      (run-IsFresh world start es small fresh).once (sequence_of nonce),
    )
