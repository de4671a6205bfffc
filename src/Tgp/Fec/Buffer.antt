-- ===== src/Tgp/Fec/Buffer.antt =====
-- internal/tgp/fec.go: FECReceiveBuffer, which collects the shards of groups and hands out payloads.
-- The two maps are association lists keyed by the group's number; a pointer into the map of groups is
-- written back. Times are nanoseconds; the three readings of the clock in AddPacket are arguments.
pub mod Groups
pub mod Bounds
use tachyon_core.Base.{
  ℕ, zero, suc, ◌+◌, ◌-◌, ◌*◌, ◌%◌, ◌/◌, ◌≤◌, ◌<◌, ◌≡◌, Bool, true, false, not, ◌&&◌, ◌||◌, List,
  [], ◌∷◌, ◌++◌, Option, none, some, length, get_or, set, replicate, ltb, leb, ◌==◌, if◌then◌else◌,
  bit_and, arith,
}
use tachyon_core.Base.Bytes.{Bytes}
use tachyon_core.Base.Outcome.{Outcome, ok, err, ◌>>=◌, ◌>>◌, reject}
use tachyon_core.Tgp.Types.{
  Error, invalid_fec_params, fec_shard_too_large, fec_resource_limit, max_data_payload_size,
  InnerHeader, Packet, flag_fec,
}
use tachyon_core.Tgp.Fec.Frame.{validate_params, decode_data_shard, max_receive_groups}
use tachyon_core.Tgp.Fec.Coder.{FecCodec, present}
use Groups.{Group, lookup, store, delete, shard_bytes, missing_indexes, all_true}
use tachyon_core.Tgp.Fec.Log.{Completed, is_completed, remember, purge_completed}

abbrev pub max_buffered_bytes : ℕ
max_buffered_bytes = 4 * 1024 * 1024

abbrev pub group_lifetime : ℕ
group_lifetime = 30_000_000_000

pub record Buffer : Type 0 where
  pub groups : List Group
  pub completed : Completed
  pub max_groups : ℕ
  pub byte_limit : ℕ
  pub buffered : ℕ

pub record Received : Type 0 where
  pub payloads : List Bytes
  pub ready : Bool
  pub recovered_shards : ℕ

abbrev pub nothing : Received
nothing = record { payloads = []; ready = false; recovered_shards = 0 }

-- A count of groups that is not positive stands for the maximum, and none goes beyond it.
pub new_buffer : ℕ → Buffer
new_buffer groups = record {
  groups = [];
  completed = record { entries = []; order = []; head = 0; maintenance = 0 };
  max_groups =
      if groups == 0
      then max_receive_groups
      else if ltb max_receive_groups groups
      then max_receive_groups
      else groups;
  byte_limit = max_buffered_bytes;
  buffered = 0;
}

-- releaseGroupShards: the count of bytes falls by what the shards hold now, and not below 0.
pub release : Buffer → Group → Buffer
release b g = record b { buffered = b.buffered - shard_bytes g.shards }

-- The loop of purgeExpiredGroups over the map of groups.
pub purge_groups : ℕ → List Group → ℕ → List Group × ℕ
purge_groups now [] buffered = ([], buffered)
purge_groups now (g ∷ gs) buffered =
    let expired = leb group_lifetime (now - g.received_at) in
    let rest =
      purge_groups now gs (if expired then buffered - shard_bytes g.shards else buffered) in
    (if expired then rest.0 else g ∷ rest.0, rest.1)

pub purge_expired : ℕ → Buffer → Buffer
purge_expired now b =
    let (kept, buffered) = purge_groups now b.groups b.buffered in
    record b {
      groups = kept;
      buffered = buffered;
      completed = purge_completed group_lifetime now b.completed;
    }

-- The group of a header: the one at hand, or a new one if the buffer has room.
pub find_group : Buffer → InnerHeader → ℕ → Outcome Error (Buffer × Group)
find_group b h now = elim (lookup h.fec_group b.groups) [
  | some g ↦ ok (b, g)
  | none ↦
      if leb b.max_groups (length b.groups)
      then err fec_resource_limit
      else let g : Group = record {
        group_id = h.fec_group;
        data_shards = h.fec_data_shards;
        shards = replicate h.fec_total [];
        delivered = replicate h.fec_data_shards false;
        received_at = now;
        recovered = false;
      } in
        ok (record b { groups = store g b.groups }, g)
]

-- completeGroupIfDelivered
pub complete_if_delivered : Buffer → Group → ℕ → Buffer
unfolding release
complete_if_delivered b g now =
    let released = release b g in
    if all_true g.delivered
    then record released {
      groups = delete g.group_id released.groups;
      completed = remember g.group_id now released.completed;
    }
    else b

abbrev put : Buffer → Group → Buffer
put b g = record b { groups = store g b.groups }

-- A data shard that carries its own payload is delivered at once.
deliver_direct : Buffer → Group → ℕ → ℕ → Buffer × Outcome Error Received
deliver_direct b g index now = elim (decode_data_shard (get_or g.shards index [])) [
  | err e ↦ (b, err e)
  | ok payload ↦
      if get_or g.delivered index false
      then (b, ok nothing)
      else let g' = record g { delivered = set g.delivered index true } in
        (
          complete_if_delivered (put b g') g' now,
          ok (record { payloads = payload ∷ []; ready = true; recovered_shards = 0 }),
        )
]

-- The loop over the missing shards after a reconstruction.
collect : List ℕ → List Bytes → List Bool → List Bool × Outcome Error (List Bytes)
collect [] shards delivered = (delivered, ok [])
collect (i ∷ is) shards delivered = elim (decode_data_shard (get_or shards i [])) [
  | err e ↦ (delivered, err e)
  | ok payload ↦
      let (delivered', rest) = collect is shards (set delivered i true) in
      (delivered', rest >>= λ payloads. ok (payload ∷ payloads))
]

deliver_recovered : FecCodec → Buffer → Group → ℕ → Buffer × Outcome Error Received
unfolding collect
deliver_recovered codec b g now =
    let missing = missing_indexes g.data_shards g.shards in
    if length missing == 0
    then (b, ok nothing)
    else let (shards, outcome) =
        codec.reconstruct g.shards g.data_shards (length g.shards - g.data_shards) in
      elim outcome [
        | err e ↦ (put b (record g { shards = shards }), err e)
        | ok _ ↦
            let (delivered, collected) = collect missing shards g.delivered in
            let g' : Group = record g {
              shards = shards;
              recovered = true;
              delivered = delivered;
            } in
            elim collected [
              | err e ↦ (put b g', err e)
              | ok payloads ↦ (
                complete_if_delivered (put b g') g' now,
                ok (record {
                  payloads = payloads;
                  ready = ltb 0 (length payloads);
                  recovered_shards = length payloads;
                }),
              )
            ]
      ]

-- After a shard was stored: deliver it, wait for more, or reconstruct.
take_shard : FecCodec → Buffer → Group → InnerHeader → ℕ → Buffer × Outcome Error Received
take_shard codec b g h now =
    if ltb h.fec_index g.data_shards && bit_and h.flags flag_fec == 0
    then deliver_direct b g h.fec_index now
    else if ltb (present g.shards) g.data_shards
    then (b, ok nothing)
    else deliver_recovered codec b g now

-- A shard for a group that is in the buffer.
add_shard : FecCodec → Buffer → Group → Packet → ℕ → Buffer × Outcome Error Received
add_shard codec b g packet now =
    let h = packet.inner in
    let size = length packet.payload in
    if not (g.data_shards == h.fec_data_shards) || not (length g.shards == h.fec_total)
    then (b, err invalid_fec_params)
    else if not (length (get_or g.shards h.fec_index []) == 0)
    then (b, ok nothing)
    else if ltb b.byte_limit (b.buffered + size)
    then (b, err fec_resource_limit)
    else let g' : Group = record g { shards = set g.shards h.fec_index packet.payload } in
      take_shard codec (put (record b { buffered = b.buffered + size }) g') g' h now

-- The checks on a header before the buffer is looked at.
check_packet : Packet → Outcome Error (Unit {0})
check_packet packet = do
  let h = packet.inner
  reject (leb h.fec_total h.fec_data_shards) invalid_fec_params
  validate_params h.fec_data_shards (h.fec_total - h.fec_data_shards)
  reject (ltb max_data_payload_size (length packet.payload)) fec_shard_too_large
  reject (leb h.fec_total h.fec_index) invalid_fec_params

-- The part of AddPacket behind the checks.
add_checked : FecCodec → Buffer → Packet → ℕ → ℕ → ℕ → Buffer × Outcome Error Received
add_checked codec b packet now created finished =
    let h = packet.inner in
    let b1 = purge_expired now b in
    if is_completed h.fec_group b1.completed
    then (b1, ok nothing)
    else elim (find_group b1 h created) [
      | err e ↦ (b1, err e)
      | ok (b2, g) ↦ add_shard codec b2 g packet finished
    ]

-- AddPacket, with the clock's readings at the purge, at a new group and at a completion.
pub add_packet : FecCodec → Buffer → Packet → ℕ → ℕ → ℕ → Buffer × Outcome Error Received
add_packet codec b packet now created finished =
    let h = packet.inner in
    if h.fec_total == 0 || h.fec_data_shards == 0
    then (
      b,
      (reject (ltb max_data_payload_size (length packet.payload)) fec_shard_too_large
          >> ok (record { payloads = packet.payload ∷ []; ready = true; recovered_shards = 0 })),
    )
    else elim (check_packet packet) [
      | err e ↦ (b, err e)
      | ok _ ↦ add_checked codec b packet now created finished
    ]

-- A packet outside FEC that fits a datagram is passed on at once.
pub add_packet-plain :
    (codec : FecCodec) (b : Buffer) (packet : Packet) (now created finished : ℕ)
    → packet.inner.fec_total ≡ 0
    → length packet.payload ≤ max_data_payload_size
    → add_packet codec b packet now created finished
      ≡ (b, ok (record { payloads = packet.payload ∷ []; ready = true; recovered_shards = 0 }))
unfolding add_packet
add_packet-plain codec b packet now created finished plain small = ground arith
