-- ===== src/Tgp/Path/Cookie.antt =====
-- internal/tgp/path_control.go: how long a path cookie is good for, and what its tag binds.
use tachyon_core.Base.{
  ℕ, ◌≡◌, ◌+◌, length, ◌≤◌, take, drop, [], true, ◌∷◌, refl, false, Bool, sym, ◌++◌, ◌/◌, ◌<◌, ap,
  append-nil, arith, not, ◌^◌, get_or, ◌==◌, ◌↔◌, ◌∙◌, ◌&&◌, ◌*◌, take-append, drop-append,
}
use tachyon_core.Base.Bytes.{Bytes, put_be, get_be-put_be, length-put_be}
use tachyon_core.Tgp.Path.{
  Mac, Requester, new_cookie, verify_cookie, is_timely, cookie_tag, cookie_text, second,
  cookie_label,
}
use tachyon_core.Tgp.Wire.Headers.{bytes_eq_refl}

is_timely_iff :
    (seconds now max_age : ℕ)
    → seconds < 2 ^ 63
    → (is_timely (put_be 8 seconds) now max_age ≡ true)
      ↔ (seconds * second ≤ now + second) × (now ≤ seconds * second + max_age)
unfolding is_timely
is_timely_iff seconds now max_age h =
    rw (get_be-put_be 8 seconds (omega arith)) (λ e. ground arith, λ (p, q). ground arith)

-- A server accepts the cookie that it gave to a requester, at a time below 2^63 seconds, while the
-- second in which it was made is at most a second ahead of the clock and at most `max_age` behind
-- it, and at no other time.
pub cookie_iff :
    (mac : Mac) (key : Bytes) (r : Requester) (issued_at now max_age : ℕ)
    → issued_at / second < 2 ^ 63
    → (verify_cookie mac (new_cookie mac key r issued_at) key r now max_age ≡ true)
      ↔ (issued_at / second * second ≤ now + second) × (now ≤ issued_at / second * second + max_age)
unfolding new_cookie verify_cookie
cookie_iff mac key r issued_at now max_age h =
    let issued : Bytes = put_be 8 (issued_at / second) in
    let size : length issued ≡ 8 = length-put_be 8 (issued_at / second) in
    let tag : Bytes = take 8 (cookie_tag mac key r issued) in
    rw
      (
        take-append issued tag 8 size,
        drop-append issued tag 8 size,
        bytes_eq_refl tag,
        and_true (is_timely issued now max_age),
      )
      (is_timely_iff (issued_at / second) now max_age h)
  where
    and_true : (b : Bool) → (b && true) ≡ b
    and_true true = refl
    and_true false = refl

append-parts :
    (xs ys zs ws : Bytes) → length xs ≡ length ys → xs ++ zs ≡ ys ++ ws → (xs ≡ ys) × (zs ≡ ws)
append-parts [] [] zs ws h e = (refl, e)
append-parts [] (y ∷ ys) zs ws h e = absurd (omega arith)
append-parts (x ∷ xs) [] zs ws h e = absurd (omega arith)
append-parts (x ∷ xs) (y ∷ ys) zs ws h e =
    let tails : xs ++ zs ≡ ys ++ ws = ap (drop 1) e in
    let (p, q) = append-parts xs ys zs ws (omega arith) tails in (cc, q)

unfoldable pub no_zero : Bytes → Bool
no_zero [] = true
no_zero (b ∷ bs) = not (b == 0) && no_zero bs

-- A zero byte ends a text that has none.
zero-parts :
    (xs ys zs ws : Bytes)
    → no_zero xs ≡ true
    → no_zero ys ≡ true
    → xs ++ (0 ∷ zs) ≡ ys ++ (0 ∷ ws)
    → (xs ≡ ys) × (zs ≡ ws)
unfolding no_zero
zero-parts [] [] zs ws h k e = (refl, ap (drop 1) e)
zero-parts [] (y ∷ ys) zs ws h k e = absurd (ground (arith, ap (λ r. get_or r 0 0) e))
zero-parts (x ∷ xs) [] zs ws h k e = absurd (ground (arith, ap (λ r. get_or r 0 0) e))
zero-parts (x ∷ xs) (y ∷ ys) zs ws h k e =
    let head : x ≡ y = ap (λ r. get_or r 0 0) e in
    let tails : xs ++ (0 ∷ zs) ≡ ys ++ (0 ∷ ws) = ap (drop 1) e in
    let (p, q) = zero-parts xs ys zs ws (ground arith) (ground arith) tails in (cc, q)

-- Where sessions, nonces and times have fixed sizes and networks no zero byte, the text that a
-- cookie's tag covers tells apart every two requests: by the session, the client's nonce, the time
-- and the source address.
pub cookie_text-injective :
    (r s : Requester) (i j : Bytes)
    → length r.session_id ≡ length s.session_id
    → length r.client_nonce ≡ length s.client_nonce
    → length i ≡ length j
    → no_zero r.source.network ≡ true
    → no_zero s.source.network ≡ true
    → cookie_text r i ≡ cookie_text s j
    → (r ≡ s) × (i ≡ j)
cookie_text-injective r s i j a b c n m e =
    let (same_label, e1) = append-parts cookie_label cookie_label _ _ refl e in
    let (same_session, e2) = append-parts r.session_id s.session_id _ _ a e1 in
    let (same_nonce, e3) = append-parts r.client_nonce s.client_nonce _ _ b e2 in
    let (same_time, e4) = append-parts i j _ _ c e3 in
    let (same_network, e5) = zero-parts r.source.network s.source.network _ _ n m e4 in
    let same_text = sym (append-nil r.source.text) ∙ e5 ∙ append-nil s.source.text in
    (cc, same_time)
