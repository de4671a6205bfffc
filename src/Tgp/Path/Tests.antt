-- ===== src/Tgp/Path/Tests.antt =====
-- Runs of internal/tgp/path_control.go with a code that only counts the bytes.
use tachyon_core.Base.{
  ℕ, ◌≡◌, ◌+◌, length, ◌≤◌, [], true, ◌∷◌, refl, replicate, ◌++◌, ◌↔◌, ◌/◌, ◌*◌, arith,
}
use tachyon_core.Base.Bytes.{Bytes, put_be}
use tachyon_core.Base.Outcome.{ok}
use tachyon_core.Tgp.Path.{
  Mac, Requester, marshal_control, parse_control, verify_control, new_cookie, verify_cookie, second,
  challenge, body,
}
use tachyon_core.Tgp.Path.Laws.{IsTag, message_of, verify-parse-marshal}
use tachyon_core.Tgp.Path.Accepted.{verified-is-marshalled}
use tachyon_core.Tgp.Path.Cookie.{cookie_iff, no_zero, cookie_text-injective}

abbrev counting : Mac
counting key text = replicate 32 (length text)

counting-IsTag : IsTag counting
counting-IsTag key text = refl

abbrev sid : Bytes
sid = replicate 16 5

abbrev nonce : Bytes
nonce = replicate 16 9

abbrev wire : Bytes
wire = body challenge sid nonce nonce ++ replicate 32 53

made : marshal_control counting challenge sid nonce nonce [] ≡ ok wire
unfolding marshal_control body
made = refl

parsed : parse_control wire ≡ ok (message_of challenge sid nonce nonce (replicate 32 53))
unfolding parse_control body
parsed = refl

verified :
    verify_control counting (message_of challenge sid nonce nonce (replicate 32 53)) [] ≡ true
unfolding verify_control marshal_control body
verified = refl

verify-parse-marshal_example :
    let m = message_of challenge sid nonce nonce (counting [] (body challenge sid nonce nonce)) in
    (parse_control wire ≡ ok m) × (verify_control counting m [] ≡ true)
verify-parse-marshal_example =
    verify-parse-marshal counting challenge sid nonce nonce [] wire counting-IsTag refl refl refl
      made

verified-is-marshalled_example : marshal_control counting challenge sid nonce nonce [] ≡ ok wire
verified-is-marshalled_example =
    verified-is-marshalled counting wire [] (message_of challenge sid nonce nonce (replicate 32 53))
      counting-IsTag parsed verified

abbrev client : Requester
client = record {
  session_id = sid;
  source = record { network = 117 ∷ 100 ∷ 112 ∷ []; text = 49 ∷ 58 ∷ 50 ∷ [] };
  client_nonce = nonce;
}

abbrev issue_time : ℕ
issue_time = 7_500_000_000

cookie_iff_example :
    (verify_cookie counting
        (new_cookie counting [] client issue_time)
        []
        client
        9_000_000_000
        10_000_000_000
      ≡ true)
    ↔ (issue_time / second * second ≤ 9_000_000_000 + second)
      × (9_000_000_000 ≤ issue_time / second * second + 10_000_000_000)
cookie_iff_example =
    cookie_iff counting [] client issue_time 9_000_000_000 10_000_000_000 (omega arith)

no_zeros : no_zero client.source.network ≡ true
unfolding no_zero
no_zeros = refl

cookie_text-injective_example : (client ≡ client) × (put_be 8 7 ≡ put_be 8 7)
cookie_text-injective_example =
    cookie_text-injective client client (put_be 8 7) (put_be 8 7) refl refl refl no_zeros no_zeros
      refl
