-- ===== src/Tgp/Session/Streams.antt =====
-- internal/tgp/session.go: the channels of the map of streams.
use tachyon_core.Base.{
  ℕ, ◌≡◌, refl, Bool, true, false, List, [], ◌∷◌, some, inl, inr, ◌&&◌, length, arith,
  if◌then◌else◌, Bool-cases, ◌==◌, ltb,
}
use tachyon_core.Base.Bytes.{Bytes}
use tachyon_core.Tgp.Session.{Stream}
use tachyon_core.Tgp.Session.Receive.{push_stream, offer, take_stream, ensure_stream}

-- A stream holds something, and every stream of the map has room for something.
unfoldable pub is_waiting : ℕ → List Stream → Bool
is_waiting stream [] = false
is_waiting stream (st ∷ sts) =
    if st.stream_id == stream then ltb 0 (length st.queue) else is_waiting stream sts

unfoldable pub has_room : List Stream → Bool
has_room [] = true
has_room (st ∷ sts) = ltb 0 st.capacity && has_room sts

no_queue : (q : List Bytes) → ltb 0 (length q) ≡ false → q ≡ []
no_queue [] h = refl
no_queue (x ∷ xs) h = absurd (ground arith)

offer-idle :
    (st : Stream) (payload : Bytes)
    → ltb 0 (length st.queue) ≡ false
    → ltb 0 st.capacity ≡ true
    → offer st payload ≡ record st { queue = payload ∷ [] }
unfolding offer
offer-idle st payload w room = rw (no_queue st.queue w, room) refl

take-here :
    (stream other : ℕ) (payload : Bytes) (st : Stream) (sts : List Stream)
    → (st.stream_id == stream) ≡ true
    → let st' : Stream = record st { queue = payload ∷ [] } in
      (take_stream stream (ensure_stream stream other (st' ∷ sts))).0 ≡ some payload
unfolding take_stream ensure_stream
take-here stream other payload st sts here = rw here (rw here refl)

push-here :
    (stream size : ℕ) (payload : Bytes) (st : Stream) (sts : List Stream)
    → (st.stream_id == stream) ≡ true
    → push_stream stream size payload (st ∷ sts) ≡ offer st payload ∷ sts
unfolding push_stream
push-here stream size payload st sts here = rw here refl

push-there :
    (stream size : ℕ) (payload : Bytes) (st : Stream) (sts : List Stream)
    → (st.stream_id == stream) ≡ false
    → push_stream stream size payload (st ∷ sts) ≡ st ∷ push_stream stream size payload sts
unfolding push_stream
push-there stream size payload st sts there = rw there refl

take-there :
    (stream other : ℕ) (st : Stream) (sts : List Stream)
    → (st.stream_id == stream) ≡ false
    → (take_stream stream (ensure_stream stream other (st ∷ sts))).0
      ≡ (take_stream stream (ensure_stream stream other sts)).0
unfolding take_stream ensure_stream
take-there stream other st sts there = rw there (rw there refl)

-- What is pushed on an idle stream with room is what the reader takes.
pub take-push :
    (stream size other : ℕ) (payload : Bytes) (sts : List Stream)
    → is_waiting stream sts ≡ false
    → has_room sts ≡ true
    → ltb 0 size ≡ true
    → (take_stream stream (ensure_stream stream other (push_stream stream size payload sts))).0
      ≡ some payload
unfolding is_waiting has_room
take-push stream size other payload [] w room pos =
    let st : Stream = record { stream_id = stream; capacity = size; queue = [] } in
    let same : (stream == stream) ≡ true = ground arith in
    unfold push_stream in
    rw (offer-idle st payload refl pos) (take-here stream other payload st [] same)
take-push stream size other payload (st ∷ sts) w room pos =
    elim (Bool-cases (st.stream_id == stream)) [
      | inl here ↦
          let idle : ltb 0 (length st.queue) ≡ false = ground arith in
          let fits : ltb 0 st.capacity ≡ true = ground arith in
          rw (push-here stream size payload st sts here, offer-idle st payload idle fits)
            (take-here stream other payload st sts here)
      | inr there ↦
          rw
            (
              push-there stream size payload st sts there,
              take-there stream other st (push_stream stream size payload sts) there,
            )
            (take-push stream size other payload sts (ground arith) (ground arith) pos)
    ]
