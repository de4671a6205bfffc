-- ===== src/Tgp/Path/Accepted.antt =====
-- What is known of a path message (internal/tgp/path_control.go) that parses and verifies.
use tachyon_core.Base.{
  subst, replicate, Bool, not, ◌&&◌, refl, zero, [], ℕ, ◌≡◌, ◌+◌, length, ◌≤◌, take, drop, slice,
  true, ◌++◌, ◌<◌, get_or, if◌then◌else◌, suc, ◌==◌, ◌∷◌, ap, arith, false, ◌-◌, drop-add, ◌∙◌, sym,
  Bool-cases, inl, inr, append-nil,
}
use tachyon_core.Base.Bytes.{Bytes}
use tachyon_core.Base.Outcome.{Outcome, ok, reject, ◌>>◌}
use tachyon_core.Tgp.Types.{Error, invalid_path_control}
use tachyon_core.Tgp.Path.{
  Mac, Message, marshal_control, parse_control, verify_control, body, is_known_type, request,
  control_magic, tag_size, request_size, challenge_size, nonce_size,
}
use tachyon_core.Tgp.Path.Laws.{IsTag, marshal-ok, drop_to_tag, join-append-last, fields}
use tachyon_core.Tgp.Wire.Headers.{bytes_eq, bytes_eq→eq}

-- What a slice and what follows it make up.
cut : (a b : ℕ) (xs : Bytes) → a ≤ b → slice xs a b ++ drop b xs ≡ drop a xs
cut a b xs h =
    let sum : a + (b - a) ≡ b = omega arith in
    let rest : drop b xs ≡ drop (b - a) (drop a xs) =
      ap (λ n. drop n xs) (sym sum) ∙ drop-add a (b - a) xs in
    ap (λ r. slice xs a b ++ r) rest ∙ take-drop (b - a) (drop a xs)
  where
    take-drop : (n : ℕ) (ys : Bytes) → take n ys ++ drop n ys ≡ ys
    take-drop zero ys = refl
    take-drop (suc n) [] = refl
    take-drop (suc n) (y ∷ ys) = ap (◌∷◌ y) (take-drop n ys)

cut_byte : (k : ℕ) (xs : Bytes) → k < length xs → get_or xs k 0 ∷ drop (suc k) xs ≡ drop k xs
cut_byte k [] h = elim h [ ]
cut_byte zero (x ∷ xs) h = refl
cut_byte (suc k) (x ∷ xs) h = cut_byte k xs (omega arith)

-- The fields of the message that a parse gives, over the wire.
record Parsed (wire : Bytes) (m : Message) : Type 0 where
  known : is_known_type m.msg_type ≡ true
  size : length wire ≡ (if m.msg_type == request then request_size else challenge_size)
  magic : take 4 wire ≡ control_magic
  type_eq : m.msg_type ≡ get_or wire 4 0
  session_eq : m.session_id ≡ slice wire 5 21
  client_eq : m.client_nonce ≡ slice wire 21 37
  server_eq : (m.msg_type == request ≡ false) → m.server_nonce ≡ slice wire 37 53
  tag_eq : m.tag ≡ drop (if m.msg_type == request then 37 else 53) wire

five_checks :
    (b1 b2 b3 b4 b5 : Bool) (r : Message) (m : Message)
    → ◌≡◌ {A = Outcome Error Message}
        (reject b1 invalid_path_control
          >> (reject b2 invalid_path_control
              >> (reject b3 invalid_path_control
                  >> (reject b4 invalid_path_control >> (reject b5 invalid_path_control >> ok r)))))
        (ok m)
    → (b1 ≡ false) × (b2 ≡ false) × (b3 ≡ false) × (b4 ≡ false) × (b5 ≡ false) × (r ≡ m)
five_checks b1 b2 b3 b4 b5 r m e = ground arith

-- The fields that the parser cuts out.
abbrev cut_message : Bytes → Message
cut_message wire =
    let t = get_or wire 4 0 in
    record {
      msg_type = t;
      session_id = slice wire 5 21;
      client_nonce = slice wire 21 37;
      server_nonce = if t == request then replicate nonce_size 0 else slice wire 37 53;
      tag = drop (if t == request then 37 else 53) wire;
    }

parse-checks :
    (wire : Bytes) (m : Message)
    → parse_control wire ≡ ok m
    → let t = get_or wire 4 0 in
      ((not (length wire == request_size) && not (length wire == challenge_size)) ≡ false)
      × (not (bytes_eq (take 4 wire) control_magic) ≡ false)
      × (not (is_known_type t) ≡ false)
      × ((t == request && not (length wire == request_size)) ≡ false)
      × ((not (t == request) && not (length wire == challenge_size)) ≡ false)
      × (cut_message wire ≡ m)
unfolding parse_control
parse-checks wire m e =
    let t = get_or wire 4 0 in
    five_checks (not (length wire == request_size) && not (length wire == challenge_size))
      (not (bytes_eq (take 4 wire) control_magic)) (not (is_known_type t))
      (t == request && not (length wire == request_size))
      (not (t == request) && not (length wire == challenge_size)) (cut_message wire) m e

true_of : (b : Bool) → not b ≡ false → b ≡ true
true_of true e = refl
true_of false e = sym e

size_of :
    (q : Bool) (n : ℕ)
    → (q && not (n == request_size)) ≡ false
    → (not q && not (n == challenge_size)) ≡ false
    → n ≡ (if q then request_size else challenge_size)
size_of true n e f = ground arith
size_of false n e f = ground arith

parse-inv : (wire : Bytes) (m : Message) → parse_control wire ≡ ok m → Parsed wire m
parse-inv wire m e =
    let (c1, c2, c3, c4, c5, same) = parse-checks wire m e in
    subst (Parsed wire) same (record {
      known = true_of (is_known_type (get_or wire 4 0)) c3;
      size = size_of (get_or wire 4 0 == request) (length wire) c4 c5;
      magic =
          bytes_eq→eq (take 4 wire) control_magic
            (true_of (bytes_eq (take 4 wire) control_magic) c2);
      type_eq = refl;
      session_eq = refl;
      client_eq = refl;
      server_eq = λ q. rw q refl;
      tag_eq = refl;
    })

-- The parts of a wire form, up to the client's nonce.
cut_front :
    (wire : Bytes)
    → 37 ≤ length wire
    → wire
      ≡ take 4 wire ++ (get_or wire 4 0 ∷ (slice wire 5 21 ++ (slice wire 21 37 ++ drop 37 wire)))
cut_front wire h = sym (
    ap (λ r. take 4 wire ++ r)
      (ap (λ r. get_or wire 4 0 ∷ r)
          (ap (λ r. slice wire 5 21 ++ r) (cut 21 37 wire (omega arith))
            ∙ cut 5 21 wire (omega arith))
        ∙ cut_byte 4 wire (omega arith))
    ∙ cut 0 4 wire (omega arith))

body_flat :
    (t : ℕ) (sid cn sn tag : Bytes)
    → body t sid cn sn ++ tag
      ≡ control_magic ++ (t ∷ (sid ++ (cn ++ ((if t == request then [] else sn) ++ tag))))
unfolding body
body_flat t sid cn sn tag =
    sym (join-append-last (fields t sid cn sn) tag)
    ∙ ap (λ r. control_magic ++ (t ∷ (sid ++ (cn ++ ((if t == request then [] else sn) ++ r)))))
        (append-nil tag)

-- The part behind the client's nonce: the server's nonce, if there is one, and the tag.
back_of :
    (wire : Bytes) (m : Message)
    → Parsed wire m
    → (37 ≤ length wire)
      × (drop 37 wire ≡ (if m.msg_type == request then [] else m.server_nonce) ++ m.tag)
back_of wire m p = elim (Bool-cases (m.msg_type == request)) [
  | inl q ↦ (rw (p.size, q) (omega arith), sym (rw q (p.tag_eq ∙ rw q refl)))
  | inr q ↦ (
    rw (p.size, q) (omega arith),
    sym (
        rw q (
          ap (λ r. r ++ m.tag) (p.server_eq q)
          ∙ ap (λ r. slice wire 37 53 ++ r) (p.tag_eq ∙ rw q refl)
          ∙ cut 37 53 wire (omega arith))),
  )
]

-- A parsed message's wire form is its text and its tag.
wire_of :
    (wire : Bytes) (m : Message)
    → Parsed wire m
    → wire ≡ body m.msg_type m.session_id m.client_nonce m.server_nonce ++ m.tag
wire_of wire m p =
    let (long, back) = back_of wire m p in
    cut_front wire long
    ∙ ap (λ r. take 4 wire ++ (get_or wire 4 0 ∷ (slice wire 5 21 ++ (slice wire 21 37 ++ r)))) back
    ∙ ap (λ r. r ++ (get_or wire 4 0 ∷ (slice wire 5 21 ++ (slice wire 21 37 ++ tail)))) p.magic
    ∙ ap (λ r. control_magic ++ (r ∷ (slice wire 5 21 ++ (slice wire 21 37 ++ tail))))
        (sym p.type_eq)
    ∙ ap (λ r. control_magic ++ (m.msg_type ∷ (r ++ (slice wire 21 37 ++ tail)))) (sym p.session_eq)
    ∙ ap (λ r. control_magic ++ (m.msg_type ∷ (m.session_id ++ (r ++ tail)))) (sym p.client_eq)
    ∙ sym (body_flat m.msg_type m.session_id m.client_nonce m.server_nonce m.tag)
  where
    tail : Bytes
    tail = (if m.msg_type == request then [] else m.server_nonce) ++ m.tag

-- The tag of a message that verifies is the one that its text has under the key.
verified-tag :
    (mac : Mac) (m : Message) (key : Bytes)
    → IsTag mac
    → is_known_type m.msg_type ≡ true
    → verify_control mac m key ≡ true
    → m.tag ≡ mac key (body m.msg_type m.session_id m.client_nonce m.server_nonce)
unfolding verify_control
verified-tag mac m key tags known e =
    let text : Bytes = body m.msg_type m.session_id m.client_nonce m.server_nonce in
    bytes_eq→eq m.tag (drop (length (text ++ mac key text) - tag_size) (text ++ mac key text)) (
      rw
        (
          verify_control,
          marshal-ok mac m.msg_type m.session_id m.client_nonce m.server_nonce key known,
        )
        at e)
    ∙ drop_to_tag text (mac key text) (tags key text)

-- With tags of 32 bytes, a datagram that parses as a path message and verifies under a key is,
-- byte for byte, the one that a holder of that key makes for the same fields.
pub verified-is-marshalled :
    (mac : Mac) (wire key : Bytes) (m : Message)
    → IsTag mac
    → parse_control wire ≡ ok m
    → verify_control mac m key ≡ true
    → marshal_control mac m.msg_type m.session_id m.client_nonce m.server_nonce key ≡ ok wire
verified-is-marshalled mac wire key m tags e v =
    let p = parse-inv wire m e in
    let text : Bytes = body m.msg_type m.session_id m.client_nonce m.server_nonce in
    marshal-ok mac m.msg_type m.session_id m.client_nonce m.server_nonce key p.known
    ∙ ap (λ tag. ok (text ++ tag)) (sym (verified-tag mac m key tags p.known v))
    ∙ ap ok (sym (wire_of wire m p))
