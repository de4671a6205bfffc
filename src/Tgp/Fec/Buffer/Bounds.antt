-- ===== src/Tgp/Fec/Buffer/Bounds.antt =====
-- The limits that the receive buffer of internal/tgp/fec.go keeps, whatever packets arrive.
use tachyon_core.Tgp.Fec.Log.{is_completed}
use tachyon_core.Base.{
  ℕ, ◌+◌, ◌-◌, ◌*◌, ◌≤◌, ◌≡◌, refl, Bool, true, false, not, ◌&&◌, ◌||◌, List, [], ◌∷◌, length,
  get_or, set, ltb, leb, ◌==◌, if◌then◌else◌, arith, inr, inl, Bool-cases, bit_and, if_cases,
}
use tachyon_core.Base.Bytes.{Bytes}
use tachyon_core.Base.Outcome.{Outcome, ok, err, Outcome-cases}
use tachyon_core.Tgp.Types.{flag_fec, Error, Packet, InnerHeader}
use tachyon_core.Tgp.Fec.Coder.{present, FecCodec}
use tachyon_core.Tgp.Fec.Buffer.{
  Buffer, Received, new_buffer, purge_groups, purge_expired, find_group, complete_if_delivered, put,
  deliver_direct, deliver_recovered, add_shard, check_packet, add_packet, group_lifetime, collect,
  take_shard, add_checked, max_buffered_bytes,
}
use tachyon_core.Tgp.Fec.Buffer.Groups.{
  missing_indexes, shard_bytes, Group, has, lookup-has, lookup-group_id, has-store, length-store,
  length-delete-le,
}
use tachyon_core.Tgp.Fec.Log.Fifo.{IsSound, remember-IsSound, purge-IsSound, empty-IsSound}
use tachyon_core.Tgp.Fec.Frame.{decode_data_shard, max_receive_groups}

pub record IsWithin (b : Buffer) : Type 0 where
  pub few_groups : length b.groups ≤ b.max_groups
  pub few_bytes : b.buffered ≤ b.byte_limit
  pub log : IsSound b.completed
  pub group_cap : b.max_groups ≤ max_receive_groups
  pub byte_cap : b.byte_limit ≤ max_buffered_bytes

module _ (b : Buffer) (v : IsWithin b) where
  complete-IsWithin : (g : Group) (now : ℕ) → IsWithin (complete_if_delivered b g now)
  unfolding complete_if_delivered
  complete-IsWithin g now = ground (
    arith,
    v,
    v.log,
    remember-IsSound g.group_id now b.completed v.log,
    length-delete-le g.group_id b.groups,
  )

  put-IsWithin : (g : Group) → has g.group_id b.groups ≡ true → IsWithin (put b g)
  put-IsWithin g h = record {
    few_groups = rw (length-store g b.groups, h) v.few_groups;
    few_bytes = v.few_bytes;
    log = v.log;
    group_cap = v.group_cap;
    byte_cap = v.byte_cap;
  }

purge_groups-le :
    (now : ℕ) (gs : List Group) (n : ℕ)
    → (length (purge_groups now gs n).0 ≤ length gs) × ((purge_groups now gs n).1 ≤ n)
unfolding purge_groups
purge_groups-le now [] n = (omega arith, omega arith)
purge_groups-le now (g ∷ gs) n = ground (
  arith,
  purge_groups-le now gs
      (if leb group_lifetime (now - g.received_at) then n - shard_bytes g.shards else n),
)

purge-IsWithin : (now : ℕ) (b : Buffer) → IsWithin b → IsWithin (purge_expired now b)
unfolding purge_expired
purge-IsWithin now b v =
    let (fewer, less) = purge_groups-le now b.groups b.buffered in
    record {
      few_groups = omega (arith, v.few_groups);
      few_bytes = omega (arith, v.few_bytes);
      log = purge-IsSound group_lifetime now b.completed v.log;
      group_cap = v.group_cap;
      byte_cap = v.byte_cap;
    }

-- The group that is found, or made, is one of the buffer's.
find_group-IsWithin :
    (b : Buffer) (h : InnerHeader) (now : ℕ) (b' : Buffer) (g : Group)
    → IsWithin b
    → find_group b h now ≡ ok (b', g)
    → IsWithin b' × (has g.group_id b'.groups ≡ true)
unfolding find_group
find_group-IsWithin b h now b' g v e = ground (
  arith,
  v,
  v.log,
  lookup-has h.fec_group b.groups g,
  lookup-group_id h.fec_group b.groups g,
  length-store g b.groups,
  has-store h.fec_group g b.groups,
)

module _ (codec : FecCodec) (b : Buffer) (v : IsWithin b) (g : Group)
    (own : has g.group_id b.groups ≡ true) where
  direct-IsWithin : (index now : ℕ) → IsWithin (deliver_direct b g index now).0
  unfolding deliver_direct
  direct-IsWithin index now = elim (Outcome-cases (decode_data_shard (get_or g.shards index []))) [
    | inr (e, q) ↦ rw (q, deliver_direct) v
    | inl (payload, q) ↦ elim (Bool-cases (get_or g.delivered index false)) [
      | inl done ↦ rw (q, deliver_direct, done) v
      | inr new ↦
          let g' : Group = record g { delivered = set g.delivered index true } in
          rw (q, deliver_direct, new)
            (complete-IsWithin (put b g') (put-IsWithin b v g' own) g' now)
    ]
  ]

  recovered-IsWithin : (now : ℕ) → IsWithin (deliver_recovered codec b g now).0
  unfolding deliver_recovered
  recovered-IsWithin now = elim (Bool-cases (length missing == 0)) [
    | inl none_missing ↦ rw (none_missing, deliver_recovered) v
    | inr some_missing ↦ elim (Outcome-cases (rebuilt.1)) [
      | inr (e, q) ↦
          rw (some_missing, deliver_recovered, q)
            (put-IsWithin b v (record g { shards = rebuilt.0 }) own)
      | inl (_, q) ↦ elim (Outcome-cases (collected.1)) [
        | inr (e, c) ↦ rw (some_missing, deliver_recovered, q, c) (put-IsWithin b v restored own)
        | inl (payloads, c) ↦
            rw (some_missing, deliver_recovered, q, c)
              (complete-IsWithin (put b restored) (put-IsWithin b v restored own) restored now)
      ]
    ]
  ]
    where
      missing : List ℕ
      missing = missing_indexes g.data_shards g.shards

      rebuilt : List Bytes × Outcome Error (Unit {0})
      rebuilt = codec.reconstruct g.shards g.data_shards (length g.shards - g.data_shards)

      collected : List Bool × Outcome Error (List Bytes)
      collected = collect missing rebuilt.0 g.delivered

      restored : Group
      restored = record g { shards = rebuilt.0; recovered = true; delivered = collected.0 }

-- The buffer that a call leaves is within its limits.
record Kept (r : Buffer × Outcome Error Received) : Type 0 where
  within : IsWithin r.0

keep : (b : Buffer) (o : Outcome Error Received) → IsWithin b → Kept (b, o)
keep b o v = record { within = v }

module _ (codec : FecCodec) (b : Buffer) (v : IsWithin b) where
  take-Kept :
      (g : Group) (h : InnerHeader) (now : ℕ)
      → has g.group_id b.groups ≡ true
      → Kept (take_shard codec b g h now)
  unfolding take_shard
  take-Kept g h now own =
      if_cases Kept (ltb h.fec_index g.data_shards && bit_and h.flags flag_fec == 0) _ _
        (λ e. record { within = direct-IsWithin codec b v g own h.fec_index now })
        λ e.
          if_cases Kept (ltb (present g.shards) g.data_shards) _ _ (λ f. keep b _ v)
            (λ f. record { within = recovered-IsWithin codec b v g own now })

module _ (codec : FecCodec) (b : Buffer) (v : IsWithin b) where
  shard-Kept :
      (g : Group) (packet : Packet) (now : ℕ)
      → has g.group_id b.groups ≡ true
      → Kept (add_shard codec b g packet now)
  unfolding add_shard
  shard-Kept g packet now own =
      let h = packet.inner in
      let g' : Group = record g { shards = set g.shards h.fec_index packet.payload } in
      let filled : Buffer = record b { buffered = b.buffered + length packet.payload } in
      if_cases Kept
        (not (g.data_shards == h.fec_data_shards) || not (length g.shards == h.fec_total)) _ _
        (λ e. keep b _ v)
        λ e.
          if_cases Kept (not (length (get_or g.shards h.fec_index []) == 0)) _ _ (λ e. keep b _ v)
            λ e.
              if_cases Kept (ltb b.byte_limit (b.buffered + length packet.payload)) _ _
                (λ e. keep b _ v)
                λ room.
                  take-Kept codec (put filled g')
                    (put-IsWithin filled
                      (record {
                        few_groups = v.few_groups;
                        few_bytes = ground arith;
                        log = v.log;
                        group_cap = v.group_cap;
                        byte_cap = v.byte_cap;
                      })
                      g' own)
                    g' h now (rw (has-store g.group_id g' b.groups) (ground arith))

module _ (codec : FecCodec) (b : Buffer) (v : IsWithin b) (packet : Packet)
    (now created finished : ℕ) where
  found-Kept :
      (r : Outcome Error (Buffer × Group))
      → ((b' : Buffer) (g : Group)
          → r ≡ ok (b', g)
          → IsWithin b' × (has g.group_id b'.groups ≡ true))
      → Kept (elim r [
        | err e ↦ (purge_expired now b, err e)
        | ok (b', g) ↦ add_shard codec b' g packet finished
      ])
  found-Kept (err e) f = keep _ _ (purge-IsWithin now b v)
  found-Kept (ok (b', g)) f =
      let (w, own) = f b' g refl in shard-Kept codec b' w g packet finished own

  checked-Kept :
      (r : Outcome Error (Unit {0}))
      → Kept
          (elim r [ err e ↦ (b, err e) | ok _ ↦ add_checked codec b packet now created finished ])
  unfolding add_checked
  checked-Kept (err e) = keep b _ v
  checked-Kept (ok _) =
      let b1 : Buffer = purge_expired now b in
      let v1 : IsWithin b1 = purge-IsWithin now b v in
      if_cases Kept (is_completed packet.inner.fec_group b1.completed) _ _ (λ e. keep b1 _ v1)
        λ e.
          found-Kept (find_group b1 packet.inner created)
            λ b2 g q. find_group-IsWithin b1 packet.inner created b2 g v1 q

  pub add_packet-IsWithin : IsWithin (add_packet codec b packet now created finished).0
  unfolding add_packet
  add_packet-IsWithin = kept.within
    where
      kept : Kept (add_packet codec b packet now created finished)
      kept =
          if_cases Kept (packet.inner.fec_total == 0 || packet.inner.fec_data_shards == 0) _ _
            (λ e. keep b _ v) (λ e. checked-Kept (check_packet packet))

new-IsWithin : (groups : ℕ) → IsWithin (new_buffer groups)
unfolding new_buffer
new-IsWithin groups = record {
  few_groups = omega arith;
  few_bytes = omega arith;
  log = empty-IsSound;
  group_cap = ground arith;
  byte_cap = omega arith;
}

-- A packet with the three readings of the clock.
pub record Arrival : Type 0 where
  pub packet : Packet
  pub now : ℕ
  pub created : ℕ
  pub finished : ℕ

unfoldable pub receive_all : FecCodec → Buffer → List Arrival → Buffer
receive_all codec b [] = b
receive_all codec b (a ∷ arrivals) =
    receive_all codec (add_packet codec b a.packet a.now a.created a.finished).0 arrivals

receive_all-IsWithin :
    (codec : FecCodec) (b : Buffer) (arrivals : List Arrival)
    → IsWithin b
    → IsWithin (receive_all codec b arrivals)
unfolding receive_all
receive_all-IsWithin codec b [] v = v
receive_all-IsWithin codec b (a ∷ arrivals) v =
    receive_all-IsWithin codec (add_packet codec b a.packet a.now a.created a.finished).0 arrivals
      (add_packet-IsWithin codec b v a.packet a.now a.created a.finished)

-- Whatever packets arrive, at whatever times and with whatever coder, the buffer never has more than
-- 64 groups, counts at most 4 MiB of shards, and remembers at most 4096 completed groups.
pub receive_all-bounded :
    (codec : FecCodec) (groups : ℕ) (arrivals : List Arrival)
    → let b = receive_all codec (new_buffer groups) arrivals in
      (length b.groups ≤ 64) × (b.buffered ≤ 4 * 1024 * 1024) × (length b.completed.entries ≤ 4096)
receive_all-bounded codec groups arrivals =
    let v = receive_all-IsWithin codec (new_buffer groups) arrivals (new-IsWithin groups) in
    (omega (arith, v), omega (arith, v), omega (arith, v.log.bounded, v.log.log.agrees.count))
