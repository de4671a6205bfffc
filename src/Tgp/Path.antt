-- ===== src/Tgp/Path.antt =====
-- internal/tgp/path_control.go: the messages that authenticate a new path, and the stateless cookie.
-- crypto/hmac with SHA-256 is the parameter `mac`, of a key and the bytes written to it. A nonce from
-- crypto/rand is an argument. Times are nanoseconds.
pub mod Laws
pub mod Accepted
pub mod Cookie
mod Tests
use tachyon_core.Base.{
  ℕ, ◌+◌, ◌-◌, ◌*◌, ◌^◌, ◌≤◌, ◌<◌, ◌≡◌, Bool, true, false, not, ◌&&◌, ◌||◌, List, [], ◌∷◌, ◌++◌,
  length, take, drop, slice, get_or, replicate, ltb, leb, ◌==◌, if◌then◌else◌, ◌/◌,
}
use tachyon_core.Base.Bytes.{Bytes, put_be, get_be, join}
use tachyon_core.Base.Outcome.{Outcome, ok, err, ◌>>=◌, ◌>>◌, reject}
use tachyon_core.Tgp.Types.{Error, invalid_path_control, Addr}
use tachyon_core.Tgp.Wire.Headers.{bytes_eq}

abbrev pub nonce_size : ℕ
nonce_size = 16

abbrev pub tag_size : ℕ
tag_size = 32

abbrev pub request_size : ℕ
request_size = 4 + 1 + 16 + nonce_size + tag_size

abbrev pub challenge_size : ℕ
challenge_size = request_size + nonce_size

abbrev pub control_magic : Bytes
control_magic = 0x54 ∷ 0x47 ∷ 0x50 ∷ 0x02 ∷ []

abbrev pub request : ℕ
request = 1

abbrev pub challenge : ℕ
challenge = 2

abbrev pub response : ℕ
response = 3

pub record Message : Type 0 where
  pub msg_type : ℕ
  pub session_id : Bytes
  pub client_nonce : Bytes
  pub server_nonce : Bytes
  pub tag : Bytes

abbrev pub Mac : Type 0
Mac = Bytes → Bytes → Bytes

pub is_known_type : ℕ → Bool
is_known_type t = t == request || t == challenge || t == response

-- The bytes that the tag covers.
pub body : ℕ → Bytes → Bytes → Bytes → Bytes
body msg_type session_id client_nonce server_nonce = join (
    control_magic
    ∷ (msg_type ∷ [])
    ∷ session_id
    ∷ client_nonce
    ∷ (if msg_type == request then [] else server_nonce)
    ∷ [])

pub marshal_control : Mac → ℕ → Bytes → Bytes → Bytes → Bytes → Outcome Error Bytes
unfolding is_known_type
marshal_control mac msg_type session_id client_nonce server_nonce key = do
  reject (not (is_known_type msg_type)) invalid_path_control
  let text = body msg_type session_id client_nonce server_nonce
  ok (text ++ mac key text)

-- A request has no server nonce: its field stays zero.
pub parse_control : Bytes → Outcome Error Message
unfolding is_known_type
parse_control wire = do
  reject (not (length wire == request_size) && not (length wire == challenge_size))
      invalid_path_control
  reject (not (bytes_eq (take 4 wire) control_magic)) invalid_path_control
  let msg_type = get_or wire 4 0
  reject (not (is_known_type msg_type)) invalid_path_control
  reject (msg_type == request && not (length wire == request_size)) invalid_path_control
  reject (not (msg_type == request) && not (length wire == challenge_size)) invalid_path_control
  ok (record {
    msg_type = msg_type;
    session_id = slice wire 5 21;
    client_nonce = slice wire 21 37;
    server_nonce = if msg_type == request then replicate nonce_size 0 else slice wire 37 53;
    tag = drop (if msg_type == request then 37 else 53) wire;
  })

pub verify_control : Mac → Message → Bytes → Bool
verify_control mac m key =
    elim (marshal_control mac m.msg_type m.session_id m.client_nonce m.server_nonce key) [
      | err e ↦ false
      | ok wire ↦ bytes_eq m.tag (drop (length wire - tag_size) wire)
    ]

abbrev pub second : ℕ
second = 10 ^ 9

-- A time of whole seconds that travels in eight bytes: it is no more than a second ahead of the
-- clock, and not older than `max_age`.
pub is_timely : Bytes → ℕ → ℕ → Bool
is_timely issued now max_age =
    let t = get_be issued in
    if ltb (2 ^ 63 - 1) t
    then false
    else (not (ltb (now + second) (t * second)) && leb (now - t * second) max_age)

pub verify_request_time : Bytes → ℕ → ℕ → Bool
verify_request_time nonce now max_age = is_timely (take 8 nonce) now max_age

pub new_request_nonce : ℕ → Bytes → Bytes
new_request_nonce now random = put_be 8 (now / second) ++ random

-- Who asks for a cookie: the session, the address it came from, and the client's nonce.
pub record Requester : Type 0 where
  pub session_id : Bytes
  pub source : Addr
  pub client_nonce : Bytes

-- "tachyon-tgp-v1 path cookie"
abbrev pub cookie_label : Bytes
cookie_label =
    116 ∷ 97 ∷ 99 ∷ 104 ∷ 121 ∷ 111 ∷ 110 ∷ 45 ∷ 116 ∷ 103 ∷ 112 ∷ 45 ∷ 118 ∷ 49 ∷ 32 ∷ 112 ∷ 97
    ∷ 116 ∷ 104 ∷ 32 ∷ 99 ∷ 111 ∷ 111 ∷ 107 ∷ 105 ∷ 101 ∷ []

abbrev pub cookie_text : Requester → Bytes → Bytes
cookie_text r issued = join (
    cookie_label
    ∷ r.session_id
    ∷ r.client_nonce
    ∷ issued
    ∷ r.source.network
    ∷ (0 ∷ [])
    ∷ r.source.text
    ∷ [])

pub cookie_tag : Mac → Bytes → Requester → Bytes → Bytes
cookie_tag mac key r issued = mac key (cookie_text r issued)

pub new_cookie : Mac → Bytes → Requester → ℕ → Bytes
new_cookie mac key r issued_at =
    let issued = put_be 8 (issued_at / second) in issued ++ take 8 (cookie_tag mac key r issued)

pub verify_cookie : Mac → Bytes → Bytes → Requester → ℕ → ℕ → Bool
verify_cookie mac cookie key r now max_age =
    is_timely (take 8 cookie) now max_age
    && bytes_eq (drop 8 cookie) (take 8 (cookie_tag mac key r (take 8 cookie)))
