-- ===== src/Tgp/Fec/Tests.antt =====
-- Runs of internal/tgp/fec.go and fec_adaptive.go.
use tachyon_core.Base.{
  ℕ, ◌≡◌, ◌*◌, length, ◌≤◌, [], true, ◌∷◌, refl, replicate, List, ◌++◌, arith, none,
}
use tachyon_core.Base.Outcome.{ok}
use tachyon_core.Tgp.Types.{magic_bytes}
use tachyon_core.Tgp.Fec.Frame.{frame_data, decode_data_shard, decode-frame, validate_params}
use tachyon_core.Tgp.Fec.Coder.{FecCodec}
use tachyon_core.Tgp.Fec.Buffer.{new_buffer}
use tachyon_core.Tgp.Fec.Buffer.Bounds.{Arrival, receive_all, receive_all-bounded}
use tachyon_core.Tgp.Fec.Log.{Completed, remember, purge_completed}
use tachyon_core.Tgp.Fec.Log.Fifo.{
  empty-IsSound, enqueue, drop_expired, remember-queue, purge-queue, remember-IsSound,
}
use tachyon_core.Tgp.Fec.Log.Queue.{IsLog, pending}
use tachyon_core.Tgp.Fec.Adaptive.{
  Adaptive, Loss, new_adaptive, observe, observe-valid, new_adaptive-IsFit, parity_for_loss,
  parity_for_loss_mono,
}

framed : frame_data (5 ∷ 6 ∷ []) 6 ≡ ok (0 ∷ 2 ∷ 5 ∷ 6 ∷ 0 ∷ 0 ∷ [])
unfolding frame_data
framed = refl

decode-frame_example :
    decode_data_shard ((0 ∷ 2 ∷ 5 ∷ 6 ∷ 0 ∷ 0 ∷ []) ++ replicate 3 0) ≡ ok (5 ∷ 6 ∷ [])
decode-frame_example = decode-frame (5 ∷ 6 ∷ []) 6 3 (0 ∷ 2 ∷ 5 ∷ 6 ∷ 0 ∷ 0 ∷ []) framed

-- Four of ten packets were lost: a half of six data shards is asked for.
abbrev controller : Adaptive
controller = new_adaptive 6 4 8

abbrev low : Loss
low = record { recovered = 4; delivered = 100 }

abbrev high : Loss
high = record { recovered = 3; delivered = 10 }

updates : (observe controller 10 1).1.updated ≡ true
unfolding observe new_adaptive
updates = refl

few : controller.data_shards ≤ 32
unfolding new_adaptive
few = omega arith

fewer : controller.max_parity ≤ 16
unfolding new_adaptive
fewer = omega arith

observe-valid_example :
    validate_params controller.data_shards (observe controller 10 1).1.parity ≡ ok tt
observe-valid_example = observe-valid controller 10 1 (new_adaptive-IsFit 6 4 8) few fewer updates

parity_for_loss_mono_example : parity_for_loss controller low ≤ parity_for_loss controller high
parity_for_loss_mono_example =
    parity_for_loss_mono controller low high (new_adaptive-IsFit 6 4 8) (omega arith) (omega arith)
      (omega arith)

abbrev idle_codec : FecCodec
idle_codec = record { encode = λ ps d p. ok ps; reconstruct = λ ss d p. (ss, ok tt) }

abbrev arrival : ℕ → ℕ → Arrival
arrival group now = record {
  packet = record {
    outer = record {
      content_type = 0;
      version_major = 0;
      version_minor = 0;
      epoch = 0;
      sequence_num = [];
      length = 0;
    };
    inner = record {
      magic = magic_bytes;
      flags = 128;
      session_id = replicate 16 1;
      stream_id = 0;
      packet_number = now;
      fec_group = group;
      fec_index = 0;
      fec_total = 2;
      fec_data_shards = 1;
      payload_length = 4;
    };
    payload = 0 ∷ 2 ∷ 5 ∷ 6 ∷ [];
    received_at = now;
    source_addr = none;
  };
  now = now;
  created = now;
  finished = now;
}

abbrev arrivals : List Arrival
arrivals = arrival 1 10 ∷ arrival 2 11 ∷ arrival 1 12 ∷ []

receive_all-bounded_example :
    let b = receive_all idle_codec (new_buffer 3) arrivals in
    (length b.groups ≤ 64) × (b.buffered ≤ 4 * 1024 * 1024) × (length b.completed.entries ≤ 4096)
receive_all-bounded_example = receive_all-bounded idle_codec 3 arrivals

abbrev nobody : Completed
nobody = record { entries = []; order = []; head = 0; maintenance = 0 }

abbrev one_done : Completed
one_done = remember 7 100 nobody

one_done-IsLog : IsLog one_done
one_done-IsLog = (remember-IsSound 7 100 nobody empty-IsSound).log

remember-queue_example :
    IsLog (remember 8 150 one_done)
    × (pending (remember 8 150 one_done) ≡ enqueue 8 150 (pending one_done))
remember-queue_example = remember-queue 8 150 one_done one_done-IsLog

purge-queue_example :
    IsLog (purge_completed 30 140 one_done)
    × (pending (purge_completed 30 140 one_done) ≡ drop_expired 30 140 (pending one_done))
purge-queue_example = purge-queue 30 140 one_done one_done-IsLog
