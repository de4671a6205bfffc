-- ===== src/Tgp/Session/Core.antt =====
-- internal/tgp/session.go: the part of a session that its operations must keep consistent, and how each
-- of them changes it.
use tachyon_core.Base.{
  ℕ, suc, ◌+◌, ◌<◌, ◌≤◌, ◌≡◌, refl, sym, ◌∙◌, subst, Bool, true, false, List, [], ◌∷◌, ◌++◌, Option,
  some, ◌⊎◌, inl, inr, length, length-append, arith, Bool-cases, Option-cases, ◌==◌, leb, ltb,
}
use tachyon_core.Base.Bytes.{Bytes}
use tachyon_core.Base.Outcome.{Outcome, ok, Outcome-cases, ◌>>◌, reject}
use tachyon_core.Tgp.Types.{Error, Addr, invalid_fec_params}
use tachyon_core.Tgp.Fec.Frame.{
  FecOptions, is_enabled, validate_params, max_data_shards, max_parity_shards, frame_data,
  length_prefix_size,
}
use tachyon_core.Tgp.Fec.Adaptive.{Adaptive, IsFit}
use tachyon_core.Tgp.Session.{
  World, Session, SessionState, SendGroup, established, closed, is_closed,
}
use tachyon_core.Tgp.Session.Send.{
  Shard, send_wire_payload, send_shards, write_wire, next_fec_shards, current_group, finish_group,
  delete_send_group, store_send_group, find_send_group, number_next, seal_payload,
}

pub record Core : Type 0 where
  pub state : SessionState
  pub remote : Addr
  pub fec : FecOptions
  pub fec_adapt : Option Adaptive
  pub fec_tx : List SendGroup

abbrev pub core : Session → Core
core s = record {
  state = s.state;
  remote = s.remote;
  fec = s.fec;
  fec_adapt = s.fec_adapt;
  fec_tx = s.fec_tx;
}

-- No group that is being sent has more payloads than data shards.
abbrev pub IsWithin : ℕ → List SendGroup → Type 0
IsWithin d [] = Unit
IsWithin d (g ∷ gs) = (length g.payloads ≤ d) × IsWithin d gs

-- The controller, if there is one, asks only for parity that fits the session's data shards.
pub record IsTuned (fec : FecOptions) (c : Adaptive) : Type 0 where
  pub fit : IsFit c
  pub same_shards : c.data_shards ≡ fec.data_shards
  pub few_shards : c.data_shards ≤ max_data_shards
  pub few_parity : c.max_parity ≤ max_parity_shards

pub record IsSound (world : World) (c : Core) : Type 0 where
  pub settled : (c.state ≡ established) ⊎ (c.state ≡ closed)
  pub allowed : world.allows c.remote ≡ true
  pub valid_fec :
      is_enabled c.fec ≡ true → validate_params c.fec.data_shards c.fec.parity_shards ≡ ok tt
  pub tuned : (a : Adaptive) → c.fec_adapt ≡ some a → IsTuned c.fec a
  pub within : IsWithin c.fec.data_shards c.fec_tx

-- What an operation may do: a sound core stays sound, and a closed one stays closed where it is.
pub record Evolves (world : World) (c c' : Core) : Type 0 where
  pub keeps : IsSound world c → IsSound world c'
  pub stays : is_closed c.state ≡ true → (c'.state ≡ c.state) × (c'.remote ≡ c.remote)

pub Evolves-refl : (world : World) (c : Core) → Evolves world c c
Evolves-refl world c = record { keeps = λ s. s; stays = λ h. (refl, refl) }

pub Evolves-trans :
    (world : World) (a b c : Core) → Evolves world a b → Evolves world b c → Evolves world a c
Evolves-trans world a b c f g = record {
  keeps = λ s. g.keeps (f.keeps s);
  stays = λ h.
      let (state, remote) = f.stays h in
      let (state', remote') = g.stays (rw state h) in (state' ∙ state, remote' ∙ remote);
}

pub Evolves-of : (world : World) (c c' : Core) → c' ≡ c → Evolves world c c'
Evolves-of world c c' same =
    subst (λ (x : Core). Evolves world c x) (sym same) (Evolves-refl world c)

write_wire-core :
    (writes : Bool) (s : Session) (n : ℕ) (wire : Bytes)
    → core (write_wire writes s n wire).0 ≡ core s
unfolding write_wire
write_wire-core true s n wire = refl
write_wire-core false s n wire = refl

pub send_wire_payload-core :
    (world : World) (s : Session) (stream : ℕ) (payload : Bytes) (shard : Option Shard) (n : ℕ)
    → core (send_wire_payload world s stream payload shard n).0 ≡ core s
unfolding send_wire_payload
send_wire_payload-core world s stream payload shard n =
    let attempt = s.link.attempts in
    let numbered = number_next (record s { link = record s.link { attempts = suc attempt } }) in
    elim (Bool-cases (world.paces attempt)) [
      | inr e ↦ rw (e, send_wire_payload) refl
      | inl e ↦
          elim (Outcome-cases (seal_payload numbered numbered.packet_no stream payload shard)) [
            | inr (x, failed) ↦ rw (e, failed, send_wire_payload) refl
            | inl (wire, sealed) ↦
                rw (e, sealed, send_wire_payload)
                  (write_wire-core (world.writes attempt) numbered n wire)
          ]
    ]

pub send_shards-core :
    (world : World) (s : Session) (stream : ℕ) (shards : List (Bytes × Shard))
    → core (send_shards world s stream shards).0 ≡ core s
unfolding send_shards
send_shards-core world s stream [] = refl
send_shards-core world s stream ((payload, shard) ∷ rest) =
    let sent = send_wire_payload world s stream payload (some shard) 0 in
    let first = send_wire_payload-core world s stream payload (some shard) 0 in
    elim (Outcome-cases sent.1) [
      | inr (x, failed) ↦ rw (failed, send_shards) first
      | inl (u, done) ↦ rw (done, send_shards) (send_shards-core world sent.0 stream rest ∙ first)
    ]

delete_send_group-IsWithin :
    (d stream : ℕ) (gs : List SendGroup) → IsWithin d gs → IsWithin d (delete_send_group stream gs)
unfolding delete_send_group
delete_send_group-IsWithin d stream [] h = tt
delete_send_group-IsWithin d stream (g ∷ gs) h =
    ground (arith, delete_send_group-IsWithin d stream gs)

find_send_group-IsWithin :
    (d stream : ℕ) (gs : List SendGroup) (g : SendGroup)
    → find_send_group stream gs ≡ some g
    → IsWithin d gs
    → length g.payloads ≤ d
unfolding find_send_group
find_send_group-IsWithin d stream [] g e h = absurd (ground arith)
find_send_group-IsWithin d stream (x ∷ xs) g e h =
    ground (arith, find_send_group-IsWithin d stream xs g)

-- The core with other groups.
abbrev pub with_groups : Core → List SendGroup → Core
with_groups c gs = record c { fec_tx = gs }

pub with_groups-Evolves :
    (world : World) (c : Core) (gs : List SendGroup)
    → (IsWithin c.fec.data_shards c.fec_tx → IsWithin c.fec.data_shards gs)
    → Evolves world c (with_groups c gs)
with_groups-Evolves world c gs within = record {
  keeps = λ s. record {
    settled = s.settled;
    allowed = s.allowed;
    valid_fec = s.valid_fec;
    tuned = s.tuned;
    within = within s.within;
  };
  stays = λ h. (refl, refl);
}

current_group-core :
    (s : Session) (stream now : ℕ)
    → 0 < s.fec.data_shards
    → (core (current_group s stream now).0 ≡ core s)
      × (length (current_group s stream now).1.payloads + 1 ≤ s.fec.data_shards)
unfolding current_group
current_group-core s stream now pos = elim (Option-cases (find_send_group stream s.fec_tx)) [
  | inl missing ↦ rw (missing, current_group) (refl, pos)
  | inr (g, found) ↦ elim (Bool-cases (leb s.fec.data_shards (length g.payloads))) [
    | inl full ↦ rw (found, full, current_group) (refl, pos)
    | inr room ↦ rw (found, room, current_group) (refl, ground arith)
  ]
]

finish_group-Evolves :
    (world : World) (s : Session) (g : SendGroup) (data_payload : Bytes)
    → Evolves world (core s) (core (finish_group world s g data_payload).0)
unfolding finish_group
finish_group-Evolves world s g data_payload =
    let d = s.fec.data_shards in
    elim (Bool-cases (length g.payloads == d)) [
      | inr more ↦ rw (more, finish_group) (Evolves-refl world (core s))
      | inl full ↦ elim (Outcome-cases (world.fec_codec.encode g.payloads d s.fec.parity_shards)) [
        | inr (x, failed) ↦ rw (full, failed, finish_group) (Evolves-refl world (core s))
        | inl (shards, encoded) ↦
            rw (full, encoded, finish_group)
              (with_groups-Evolves world (core s) (delete_send_group g.stream_id s.fec_tx)
                (delete_send_group-IsWithin d g.stream_id s.fec_tx))
      ]
    ]

abbrev shard_checks : Session → Outcome Error (Unit {0})
shard_checks s =
    validate_params s.fec.data_shards s.fec.parity_shards
    >> reject (ltb 0xff (s.fec.data_shards + s.fec.parity_shards)) invalid_fec_params

shard_checks-pos : (s : Session) → shard_checks s ≡ ok tt → 0 < s.fec.data_shards
unfolding validate_params
shard_checks-pos s e = ground arith

-- The session with a payload added to its group.
abbrev added_to_group : Session → SendGroup → Bytes → Session
added_to_group s g payload = record s {
  fec_tx = store_send_group (record g { payloads = g.payloads ++ payload ∷ [] }) s.fec_tx;
}

added_to_group-Evolves :
    (world : World) (s : Session) (g : SendGroup) (payload : Bytes)
    → length g.payloads + 1 ≤ s.fec.data_shards
    → Evolves world (core s) (core (added_to_group s g payload))
added_to_group-Evolves world s g payload room =
    with_groups-Evolves world (core s)
      (store_send_group (record g { payloads = g.payloads ++ payload ∷ [] }) s.fec_tx)
      (λ h. (
        omega (arith, length-append g.payloads (payload ∷ [])),
        delete_send_group-IsWithin s.fec.data_shards g.stream_id s.fec_tx h,
      ))

pub next_fec_shards-Evolves :
    (world : World) (s : Session) (now stream : ℕ) (payload : Bytes)
    → Evolves world (core s) (core (next_fec_shards world s now stream payload).0)
unfolding next_fec_shards
next_fec_shards-Evolves world s now stream payload = elim (Outcome-cases (shard_checks s)) [
  | inr (x, refused) ↦ rw (refused, next_fec_shards) (Evolves-refl world (core s))
  | inl (u, passed) ↦
      let s1 = (current_group s stream now).0 in
      let g = (current_group s stream now).1 in
      let (same, room) = current_group-core s stream now (shard_checks-pos s passed) in
      let s2 = added_to_group s1 g payload in
      let grown : Evolves world (core s) (core s2) =
        Evolves-trans world (core s) (core s1) (core s2) (Evolves-of world (core s) (core s1) same)
          (added_to_group-Evolves world s1 g payload
            (subst (λ (c : Core). length g.payloads + 1 ≤ c.fec.data_shards) (sym same) room)) in
      elim (Outcome-cases (frame_data payload (length payload + length_prefix_size))) [
        | inr (x, failed) ↦ rw (passed, failed, next_fec_shards) grown
        | inl (framed, done) ↦
            rw (passed, done, next_fec_shards)
              (Evolves-trans world (core s) (core s2) _ grown (
                finish_group-Evolves world s2 (record g { payloads = g.payloads ++ payload ∷ [] })
                  framed))
      ]
]
