-- ===== src/Tgp/Session/Send.antt =====
-- internal/tgp/session.go: the send path, from SendPacket and the flush of expired FEC groups down to
-- the one datagram that sendWirePayload seals and writes.
use tachyon_core.Base.{
  ℕ, suc, ◌+◌, ◌-◌, ◌%◌, Bool, true, false, not, List, [], ◌∷◌, ◌++◌, Option, none, some, length,
  drop, ltb, leb, ◌==◌, ◌||◌, if◌then◌else◌, bit_or,
}
use tachyon_core.Base.Bytes.{Bytes}
use tachyon_core.Base.Outcome.{Outcome, ok, err, ◌>>=◌, ◌>>◌, reject}
use tachyon_core.Tgp.Types.{
  Error, InnerHeader, session_closed, cancelled, transport_failed, invalid_fec_params, flag_fec,
}
use tachyon_core.Tgp.Wire.{seal, new_data_header}
use tachyon_core.Tgp.Fec.Frame.{validate_params, frame_data, is_enabled, length_prefix_size}
use tachyon_core.Tgp.Session.{World, Session, SendGroup, is_closed, add64, add32}

-- The changes that the FEC paths make to a header before it is sealed.
pub record Shard : Type 0 where
  pub group_id : ℕ
  pub index : ℕ
  pub total : ℕ
  pub data_shards : ℕ
  pub is_repair : Bool

abbrev pub configure : Option Shard → InnerHeader → InnerHeader
configure none h = h
configure (some x) h = record h {
  flags = if x.is_repair then bit_or h.flags flag_fec else h.flags;
  fec_group = x.group_id;
  fec_index = x.index % 256;
  fec_total = x.total % 256;
  fec_data_shards = x.data_shards % 256;
}

-- The datagram that a number, a stream, a payload and a shard make.
unfoldable pub seal_payload : Session → ℕ → ℕ → Bytes → Option Shard → Outcome Error Bytes
seal_payload s number stream payload shard = do
  header ← new_data_header s.id stream number (length payload)
  seal (some s.send_codec) number (configure shard header) payload

-- The last part of sendWirePayload: the transport's write, and the count of bytes.
unfoldable pub write_wire : Bool → Session → ℕ → Bytes → Session × Outcome Error (Unit {0})
write_wire writes s accounted wire =
    if writes
    then (
      record s {
        link = record s.link { written = (wire, some s.remote) ∷ s.link.written };
        stats = record s.stats { bytes_sent = add64 s.stats.bytes_sent accounted };
      },
      ok tt,
    )
    else (s, err transport_failed)

abbrev pub number_next : Session → Session
number_next s = record s { packet_no = add64 s.packet_no 1 }

-- sendWirePayload
unfoldable pub send_wire_payload :
    World → Session → ℕ → Bytes → Option Shard → ℕ → Session × Outcome Error (Unit {0})
send_wire_payload world s stream payload shard accounted =
    let attempt = s.link.attempts in
    let tried = record s { link = record s.link { attempts = suc attempt } } in
    if not (world.paces attempt)
    then (tried, err cancelled)
    else let numbered = number_next tried in
      elim (seal_payload numbered numbered.packet_no stream payload shard) [
        | err e ↦ (numbered, err e)
        | ok wire ↦ write_wire (world.writes attempt) numbered accounted wire
      ]

-- The map of groups that are being sent.
unfoldable pub find_send_group : ℕ → List SendGroup → Option SendGroup
find_send_group stream [] = none
find_send_group stream (g ∷ gs) =
    if g.stream_id == stream then some g else find_send_group stream gs

unfoldable pub delete_send_group : ℕ → List SendGroup → List SendGroup
delete_send_group stream [] = []
delete_send_group stream (g ∷ gs) =
    if g.stream_id == stream then delete_send_group stream gs else g ∷ delete_send_group stream gs

abbrev pub store_send_group : SendGroup → List SendGroup → List SendGroup
store_send_group g gs = g ∷ delete_send_group g.stream_id gs

pub record NextShards : Type 0 where
  pub data_payload : Bytes
  pub parity_payloads : List Bytes
  pub group_id : ℕ
  pub index : ℕ
  pub total : ℕ
  pub data_shards : ℕ

-- The group that takes the next payload of a stream: the one at hand unless it is full, or a new one.
unfoldable pub current_group : Session → ℕ → ℕ → Session × SendGroup
current_group s stream now = elim (find_send_group stream s.fec_tx) [
  | none ↦ fresh
  | some g ↦ if leb s.fec.data_shards (length g.payloads) then fresh else (s, g)
]
  where
    fresh : Session × SendGroup
    fresh = (
      record s { fec_group = add32 s.fec_group 1 },
      record {
        stream_id = stream;
        group_id = add32 s.fec_group 1;
        created_at = now;
        payloads = [];
      },
    )

abbrev pub shards_of : Session → SendGroup → Bytes → List Bytes → NextShards
shards_of s g data_payload parity = record {
  data_payload = data_payload;
  parity_payloads = parity;
  group_id = g.group_id;
  index = length g.payloads - 1;
  total = s.fec.data_shards + s.fec.parity_shards;
  data_shards = s.fec.data_shards;
}

-- The group is full: its parity shards are computed, and it is forgotten.
unfoldable pub finish_group :
    World → Session → SendGroup → Bytes → Session × Outcome Error NextShards
finish_group world s g data_payload =
    let d = s.fec.data_shards in
    let p = s.fec.parity_shards in
    if not (length g.payloads == d)
    then (s, ok (shards_of s g data_payload []))
    else elim (world.fec_codec.encode g.payloads d p) [
      | err e ↦ (s, err e)
      | ok shards ↦ (
        record s { fec_tx = delete_send_group g.stream_id s.fec_tx },
        ok (shards_of s g data_payload (drop d shards)),
      )
    ]

-- nextFECShards
unfoldable pub next_fec_shards :
    World → Session → ℕ → ℕ → Bytes → Session × Outcome Error NextShards
next_fec_shards world s now stream payload =
    elim (validate_params s.fec.data_shards s.fec.parity_shards
      >> reject (ltb 0xff (s.fec.data_shards + s.fec.parity_shards)) invalid_fec_params) [
        | err e ↦ (s, err e)
        | ok _ ↦
            let (s1, g) = current_group s stream now in
            let g' : SendGroup = record g { payloads = g.payloads ++ payload ∷ [] } in
            let s2 : Session = record s1 { fec_tx = store_send_group g' s1.fec_tx } in
            elim (frame_data payload (length payload + length_prefix_size)) [
              | err e ↦ (s2, err e)
              | ok data_payload ↦ finish_group world s2 g' data_payload
            ]
      ]

-- A loop that sends shards until one fails.
unfoldable pub send_shards :
    World → Session → ℕ → List (Bytes × Shard) → Session × Outcome Error (Unit {0})
send_shards world s stream [] = (s, ok tt)
send_shards world s stream ((payload, shard) ∷ rest) =
    let (s', outcome) = send_wire_payload world s stream payload (some shard) 0 in
    let later = send_shards world s' stream rest in
    elim outcome [ err e ↦ (s', err e) | ok _ ↦ later ]

-- Repair shards of a group, numbered on from `index`.
unfoldable pub number_shards : ℕ → ℕ → ℕ → ℕ → List Bytes → List (Bytes × Shard)
number_shards group total data_shards index [] = []
number_shards group total data_shards index (p ∷ ps) =
    (
      p,
      record {
        group_id = group;
        index = index;
        total = total;
        data_shards = data_shards;
        is_repair = true;
      },
    )
    ∷ number_shards group total data_shards (suc index) ps

-- sendPacketWithFEC
unfoldable pub send_packet_with_fec :
    World → Session → ℕ → ℕ → Bytes → Session × Outcome Error (Unit {0})
send_packet_with_fec world s now stream payload =
    let (s1, planned) = next_fec_shards world s now stream payload in
    elim planned [
      | err e ↦ (s1, err e)
      | ok next ↦
          let shard : Shard = record {
            group_id = next.group_id;
            index = next.index;
            total = next.total;
            data_shards = next.data_shards;
            is_repair = false;
          } in
          let (s2, outcome) =
            send_wire_payload world s1 stream next.data_payload (some shard) (length payload) in
          elim outcome [
            | err e ↦ (s2, err e)
            | ok _ ↦ send_shards world s2 stream (
                number_shards next.group_id next.total next.data_shards next.data_shards
                  next.parity_payloads)
          ]
    ]

-- SendPacket
unfoldable pub send_packet : World → Session → ℕ → ℕ → Bytes → Session × Outcome Error (Unit {0})
send_packet world s now stream payload =
    if is_closed s.state
    then (s, err session_closed)
    else if is_enabled s.fec
    then send_packet_with_fec world s now stream payload
    else send_wire_payload world s stream payload none (length payload)

pub record RepairBatch : Type 0 where
  pub stream_id : ℕ
  pub shards : List (Bytes × Shard)

-- One round of the loop of expiredFECRepairBatches: the batch of a group whose time is over.
unfoldable pub repair_batch : World → Session → ℕ → SendGroup → Option RepairBatch
repair_batch world s now g =
    let d = s.fec.data_shards in
    let p = s.fec.parity_shards in
    let count = length g.payloads in
    if count == 0 || leb d count
    then none
    else if ltb (now - g.created_at) s.fec.group_timeout
    then none
    else elim (world.fec_codec.encode g.payloads d p) [
      | err e ↦ none
      | ok shards ↦ some (record {
        stream_id = g.stream_id;
        shards = number_shards g.group_id (d + p) d count (drop count shards);
      })
    ]

unfoldable pub repair_batches :
    World → Session → ℕ → List SendGroup → List RepairBatch × List SendGroup
repair_batches world s now [] = ([], [])
repair_batches world s now (g ∷ gs) =
    let (batches, kept) = repair_batches world s now gs in
    elim (repair_batch world s now g) [
      | none ↦ (batches, g ∷ kept)
      | some batch ↦ (batch ∷ batches, kept)
    ]

-- expiredFECRepairBatches
unfoldable pub expired_repair_batches : World → Session → ℕ → Session × List RepairBatch
expired_repair_batches world s now =
    if not (is_enabled s.fec) || s.fec.group_timeout == 0
    then (s, [])
    else elim (validate_params s.fec.data_shards s.fec.parity_shards) [
      | err e ↦ (s, [])
      | ok _ ↦
          let (batches, kept) = repair_batches world s now s.fec_tx in
          (record s { fec_tx = kept }, batches)
    ]

-- sendFECRepairBatch for each batch; an error ends its batch and no other.
unfoldable pub send_batches : World → Session → List RepairBatch → Session
send_batches world s [] = s
send_batches world s (b ∷ bs) = send_batches world (send_shards world s b.stream_id b.shards).0 bs

-- One tick of fecFlushLoop.
unfoldable pub flush_tick : World → Session → ℕ → Session
flush_tick world s now =
    let (s', batches) = expired_repair_batches world s now in send_batches world s' batches
