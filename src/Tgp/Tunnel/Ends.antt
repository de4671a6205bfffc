-- ===== src/Tgp/Tunnel/Ends.antt =====
-- internal/tgp/tunnel.go: reading back the addresses, the ports and the payload of a datagram.
use tachyon_core.Base.{
  drop-add, drop-append, length-append, ◌-◌, ℕ, zero, suc, ◌+◌, true, false, List, [], ◌∷◌, ◌++◌,
  length, drop, slice, get_or, ◌≡◌, ◌<◌, ◌^◌, refl, arith, ap, ◌∙◌, append-nil,
}
use tachyon_core.Base.Bytes.{Bytes, get_be, join, slice-join, get_or-join, drop-join, get_be-put_be}
use tachyon_core.Base.Outcome.{ok}
use tachyon_core.Pidtrack.Flow.{Ip, no_ip, v4, v6}
use tachyon_core.Tgp.Tunnel.{
  TunnelDatagram, Identity, is_valid_ip, ip_bytes, parse_ends, read_ip, end_fields, bad_size,
}

abbrev pub ip_size : Ip → ℕ
ip_size no_ip = 0
ip_size (v4 a b c d) = 4
ip_size (v6 bs) = 16

-- The ranges that Go's types give the values of a datagram.
pub record IsDatagram (d : TunnelDatagram) : Type 0 where
  pub flow_id_size : length d.identity.flow_id ≡ 16
  pub generation_word : d.identity.generation < 256 ^ 8
  pub lease_nonce_size : length d.identity.lease_nonce ≡ 16
  pub local_size : length (ip_bytes d.local_ip) ≡ ip_size d.local_ip
  pub remote_size : length (ip_bytes d.remote_ip) ≡ ip_size d.remote_ip
  pub local_port_word : d.local_port < 256 ^ 2
  pub remote_port_word : d.remote_port < 256 ^ 2

read_ip-bytes :
    (ip : Ip)
    → is_valid_ip ip ≡ true
    → length (ip_bytes ip) ≡ ip_size ip
    → read_ip (ip_size ip) (ip_bytes ip) ≡ ip
unfolding read_ip
read_ip-bytes no_ip h k = cc
read_ip-bytes (v4 a b c d) h k = refl
read_ip-bytes (v6 bs) h k = refl

ends_of :
    (i : Identity) (bs : Bytes) (o m n s t : ℕ) (a b : Ip) (la rb payload : Bytes)
    → bad_size m ≡ false
    → bad_size n ≡ false
    → get_or bs o 0 ≡ m
    → get_or bs (o + 1 + m + 2) 0 ≡ n
    → length bs ≡ o + 1 + m + 2 + 1 + n + 2 + length payload
    → slice bs (o + 1) (o + 1 + m) ≡ la
    → slice bs (o + 1 + m + 2 + 1) (o + 1 + m + 2 + 1 + n) ≡ rb
    → read_ip m la ≡ a
    → read_ip n rb ≡ b
    → get_be (slice bs (o + 1 + m) (o + 1 + m + 2)) ≡ s
    → get_be (slice bs (o + 1 + m + 2 + 1 + n) (o + 1 + m + 2 + 1 + n + 2)) ≡ t
    → drop (o + 1 + m + 2 + 1 + n + 2) bs ≡ payload
    → parse_ends i bs o
      ≡ ok (record {
        identity = i;
        local_ip = a;
        local_port = s;
        remote_ip = b;
        remote_port = t;
        payload = payload;
      })
unfolding parse_ends
ends_of i bs o m n s t a b la rb payload bm bn em en size ea eb ra rb' es et ep =
    rw (em, en, bm, bn, ea, eb, ra, rb', es, et, ep, size) (ground arith)

drop-shift : (p q : Bytes) (a x : ℕ) → x ≡ length p + a → drop x (p ++ q) ≡ drop a q
drop-shift p q a x e = rw (e, drop-add (length p) a (p ++ q), drop-append p q (length p) refl) refl

slice-shift :
    (p q : Bytes) (a b x y : ℕ)
    → x ≡ length p + a
    → y ≡ length p + b
    → slice (p ++ q) x y ≡ slice q a b
slice-shift p q a b x y ex ey =
    let width : y - x ≡ b - a = omega arith in rw (width, drop-shift p q a x ex) refl

get_or-shift : (p q : Bytes) (a x : ℕ) → x ≡ length p + a → get_or (p ++ q) x 0 ≡ get_or q a 0
get_or-shift [] q a x e = ap (λ k. get_or q k 0) (omega arith)
get_or-shift (b ∷ p) q a zero e = absurd (omega arith)
get_or-shift (b ∷ p) q a (suc x) e = get_or-shift p q a x (omega arith)

pub length-join_end :
    (d : TunnelDatagram)
    → length (join (end_fields d))
      ≡ 1
        + length (ip_bytes d.local_ip)
        + 2
        + 1
        + length (ip_bytes d.remote_ip)
        + 2
        + length d.payload
length-join_end d = omega (
  arith,
  length-append (ip_bytes d.local_ip) (join (drop 2 (end_fields d))),
  length-append (ip_bytes d.remote_ip) (join (drop 5 (end_fields d))),
  length-append d.payload [],
)

good_size : (ip : Ip) → is_valid_ip ip ≡ true → bad_size (ip_size ip) ≡ false
good_size no_ip h = cc
good_size (v4 a b c d) h = refl
good_size (v6 bs) h = refl

-- Reading the ends of a datagram behind any text.
pub parse-ends :
    (i : Identity) (p : Bytes) (d : TunnelDatagram)
    → IsDatagram d
    → is_valid_ip d.local_ip ≡ true
    → is_valid_ip d.remote_ip ≡ true
    → parse_ends i (p ++ join (end_fields d)) (length p) ≡ ok (record d { identity = i })
parse-ends i p d w vl vr =
    let fs : List Bytes = end_fields d in
    let q : Bytes = join fs in
    let o : ℕ = length p in
    let m : ℕ = ip_size d.local_ip in
    let n : ℕ = ip_size d.remote_ip in
    let hl = w.local_size in
    let hr = w.remote_size in
    ends_of i (p ++ q) o m n d.local_port d.remote_port d.local_ip d.remote_ip (ip_bytes d.local_ip)
      (ip_bytes d.remote_ip) d.payload (good_size d.local_ip vl) (good_size d.remote_ip vr)
      (get_or-shift p q 0 o (omega arith)
        ∙ get_or-join fs 0 0 m (omega arith) (omega arith) (rw hl refl))
      (get_or-shift p q (1 + m + 2) (o + 1 + m + 2) (omega arith)
        ∙ get_or-join fs 3 (1 + m + 2) n (omega arith) (omega (arith, hl)) (rw hr refl))
      (omega (arith, length-append p q, length-join_end d, hl, hr))
      (slice-shift p q 1 (1 + m) (o + 1) (o + 1 + m) (omega arith) (omega arith)
        ∙ slice-join fs 1 1 (1 + m) (omega arith) (omega arith) (omega (arith, hl)))
      (slice-shift p q (1 + m + 2 + 1) (1 + m + 2 + 1 + n) (o + 1 + m + 2 + 1)
          (o + 1 + m + 2 + 1 + n) (omega arith) (omega arith)
        ∙ slice-join fs 4 (1 + m + 2 + 1) (1 + m + 2 + 1 + n) (omega arith) (omega (arith, hl))
            (omega (arith, hr)))
      (read_ip-bytes d.local_ip vl hl) (read_ip-bytes d.remote_ip vr hr)
      (ap get_be (
          slice-shift p q (1 + m) (1 + m + 2) (o + 1 + m) (o + 1 + m + 2) (omega arith)
            (omega arith)
          ∙ slice-join fs 2 (1 + m) (1 + m + 2) (omega arith) (omega (arith, hl)) (omega arith))
        ∙ get_be-put_be 2 d.local_port w.local_port_word)
      (ap get_be (
          slice-shift p q (1 + m + 2 + 1 + n) (1 + m + 2 + 1 + n + 2) (o + 1 + m + 2 + 1 + n)
            (o + 1 + m + 2 + 1 + n + 2) (omega arith) (omega arith)
          ∙ slice-join fs 5 (1 + m + 2 + 1 + n) (1 + m + 2 + 1 + n + 2) (omega arith)
              (omega (arith, hl, hr)) (omega arith))
        ∙ get_be-put_be 2 d.remote_port w.remote_port_word)
      (drop-shift p q (1 + m + 2 + 1 + n + 2) (o + 1 + m + 2 + 1 + n + 2) (omega arith)
        ∙ drop-join fs 6 (1 + m + 2 + 1 + n + 2) (omega (arith, hl, hr))
        ∙ append-nil d.payload)
