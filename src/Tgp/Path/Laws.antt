-- ===== src/Tgp/Path/Laws.antt =====
-- What the path messages of internal/tgp/path_control.go promise.
use tachyon_core.Base.{
  refl, ℕ, ◌≡◌, List, if◌then◌else◌, length, true, ◌++◌, ◌==◌, ◌∷◌, [], arith, replicate, take,
  append-nil, get_or, ap, slice, false, ◌∙◌, drop, sym, Bool-cases, append_assoc, inl, inr,
  length-append, ◌-◌, drop-append,
}
use tachyon_core.Base.Bytes.{Bytes, join, slice-join, drop-join}
use tachyon_core.Base.Outcome.{ok}
use tachyon_core.Tgp.Path.{
  Mac, Message, marshal_control, parse_control, verify_control, body, is_known_type, request,
  control_magic, tag_size, request_size, challenge_size, nonce_size,
}
use tachyon_core.Tgp.Wire.Headers.{bytes_eq_refl}

-- HMAC-SHA256 gives 32 bytes.
abbrev pub IsTag : Mac → Type 0
IsTag mac = (key text : Bytes) → length (mac key text) ≡ 32

pub marshal-inv :
    (mac : Mac) (t : ℕ) (sid cn sn key wire : Bytes)
    → marshal_control mac t sid cn sn key ≡ ok wire
    → (is_known_type t ≡ true) × (wire ≡ body t sid cn sn ++ mac key (body t sid cn sn))
unfolding marshal_control
marshal-inv mac t sid cn sn key wire e = ground arith

pub marshal-ok :
    (mac : Mac) (t : ℕ) (sid cn sn key : Bytes)
    → is_known_type t ≡ true
    → marshal_control mac t sid cn sn key ≡ ok (body t sid cn sn ++ mac key (body t sid cn sn))
unfolding marshal_control
marshal-ok mac t sid cn sn key e = ground arith

pub join-append-last : (fs : List Bytes) (x : Bytes) → join (fs ++ (x ∷ [])) ≡ join fs ++ x
join-append-last [] x = append-nil x
join-append-last (f ∷ fs) x =
    ap (λ rest. f ++ rest) (join-append-last fs x) ∙ sym (append_assoc f (join fs) x)

-- The message that a sender's fields stand for.
abbrev pub message_of : ℕ → Bytes → Bytes → Bytes → Bytes → Message
message_of t sid cn sn tag = record {
  msg_type = t;
  session_id = sid;
  client_nonce = cn;
  server_nonce = if t == request then replicate nonce_size 0 else sn;
  tag = tag;
}

-- The fields of a message's wire form, and the text before its tag.
abbrev pub fields : ℕ → Bytes → Bytes → Bytes → List Bytes
fields t sid cn sn = control_magic ∷ (t ∷ []) ∷ sid ∷ cn ∷ (if t == request then [] else sn) ∷ []

parse_of_fields :
    (wire : Bytes) (t : ℕ) (sid cn sn tag : Bytes)
    → is_known_type t ≡ true
    → length wire ≡ (if t == request then request_size else challenge_size)
    → take 4 wire ≡ control_magic
    → get_or wire 4 0 ≡ t
    → slice wire 5 21 ≡ sid
    → slice wire 21 37 ≡ cn
    → (t == request ≡ false → slice wire 37 53 ≡ sn)
    → drop (if t == request then 37 else 53) wire ≡ tag
    → parse_control wire ≡ ok (message_of t sid cn sn tag)
unfolding parse_control
parse_of_fields wire t sid cn sn tag k l e0 e1 e2 e3 e4 e5 = elim (Bool-cases (t == request)) [
  | inl q ↦ rw (e0, e1, e2, e3, q) (ground arith)
  | inr q ↦ rw (e0, e1, e2, e3, q, e4 q) (ground arith)
]

module _ (sid cn sn tag : Bytes) (s : length sid ≡ 16) (c : length cn ≡ 16) (n : length sn ≡ 16)
    (g : length tag ≡ 32) where
  parse_request :
      parse_control (join (control_magic ∷ (request ∷ []) ∷ sid ∷ cn ∷ [] ∷ tag ∷ []))
      ≡ ok (message_of request sid cn sn tag)
  unfolding is_known_type
  parse_request =
      parse_of_fields (join fs) request sid cn sn tag refl
        (omega (
          arith,
          s,
          c,
          g,
          length-append sid (join (drop 3 fs)),
          length-append cn (join (drop 4 fs)),
          length-append tag [],
        ))
        refl refl (slice-join fs 2 5 21 (omega arith) (omega arith) (omega (arith, s)))
        (slice-join fs 3 21 37 (omega arith) (omega (arith, s)) (omega (arith, c))) (λ e. cc)
        (drop-join fs 5 37 (omega (arith, s, c)) ∙ append-nil tag)
    where
      fs : List Bytes
      fs = control_magic ∷ (request ∷ []) ∷ sid ∷ cn ∷ [] ∷ tag ∷ []

  parse_other :
      (t : ℕ)
      → is_known_type t ≡ true
      → t == request ≡ false
      → parse_control (join (control_magic ∷ (t ∷ []) ∷ sid ∷ cn ∷ sn ∷ tag ∷ []))
        ≡ ok (message_of t sid cn sn tag)
  parse_other t k q =
      parse_of_fields (join fs) t sid cn sn tag k
        (rw q (
          omega (
            arith,
            s,
            c,
            n,
            g,
            length-append sid (join (drop 3 fs)),
            length-append cn (join (drop 4 fs)),
            length-append sn (join (drop 5 fs)),
            length-append tag [],
          )))
        refl refl (slice-join fs 2 5 21 (omega arith) (omega arith) (omega (arith, s)))
        (slice-join fs 3 21 37 (omega arith) (omega (arith, s)) (omega (arith, c)))
        (λ e. slice-join fs 4 37 53 (omega arith) (omega (arith, s, c)) (omega (arith, n)))
        (rw q (drop-join fs 5 53 (omega (arith, s, c, n)) ∙ append-nil tag))
    where
      fs : List Bytes
      fs = control_magic ∷ (t ∷ []) ∷ sid ∷ cn ∷ sn ∷ tag ∷ []

parse_body :
    (t : ℕ) (sid cn sn tag : Bytes)
    → length sid ≡ 16
    → length cn ≡ 16
    → length sn ≡ 16
    → length tag ≡ 32
    → is_known_type t ≡ true
    → parse_control (body t sid cn sn ++ tag) ≡ ok (message_of t sid cn sn tag)
unfolding body
parse_body t sid cn sn tag s c n g known = elim (Bool-cases (t == request)) [
  | inl q ↦
      let is_one : t ≡ request = ground arith in
      rw (is_one, ← join-append-last (fields request sid cn sn) tag)
        (parse_request sid cn sn tag s c n g)
  | inr q ↦
      rw (q, ← join-append-last (control_magic ∷ (t ∷ []) ∷ sid ∷ cn ∷ sn ∷ []) tag)
        (parse_other sid cn sn tag s c n g t known q ∙ rw q refl)
]

pub drop_to_tag :
    (text tag : Bytes)
    → length tag ≡ 32
    → drop (length (text ++ tag) - tag_size) (text ++ tag) ≡ tag
drop_to_tag text tag g =
    drop-append text tag (length (text ++ tag) - tag_size)
      (omega (arith, g, length-append text tag))

body-same :
    (t : ℕ) (sid cn sn : Bytes)
    → body t sid cn (if t == request then replicate nonce_size 0 else sn) ≡ body t sid cn sn
unfolding body
body-same t sid cn sn = elim (Bool-cases (t == request)) [ inl q ↦ rw q refl | inr q ↦ rw q refl ]

verify_of :
    (mac : Mac) (m : Message) (key text : Bytes)
    → marshal_control mac m.msg_type m.session_id m.client_nonce m.server_nonce key
      ≡ ok (text ++ m.tag)
    → length m.tag ≡ 32
    → verify_control mac m key ≡ true
unfolding verify_control
verify_of mac m key text e g =
    rw (e, verify_control, drop_to_tag text m.tag g) (bytes_eq_refl m.tag)

-- With tags of 32 bytes, and a session and nonces of 16, a message that was made parses to the
-- fields it was made from, and the tag it carries verifies under the same key. (A request has no
-- server nonce: the parsed one is zero.)
pub verify-parse-marshal :
    (mac : Mac) (t : ℕ) (sid cn sn key wire : Bytes)
    → IsTag mac
    → length sid ≡ 16
    → length cn ≡ 16
    → length sn ≡ 16
    → marshal_control mac t sid cn sn key ≡ ok wire
    → let m = message_of t sid cn sn (mac key (body t sid cn sn)) in
      (parse_control wire ≡ ok m) × (verify_control mac m key ≡ true)
verify-parse-marshal mac t sid cn sn key wire tags s c n e =
    let (known, same) = marshal-inv mac t sid cn sn key wire e in
    let text : Bytes = body t sid cn sn in
    let g : length (mac key text) ≡ 32 = tags key text in
    let m : Message = message_of t sid cn sn (mac key text) in
    (
      rw same (parse_body t sid cn sn (mac key text) s c n g known),
      verify_of mac m key text
          (marshal-ok mac t sid cn m.server_nonce key known
            ∙ ap (λ b. ok (b ++ mac key b)) (body-same t sid cn sn))
          g,
    )
