-- ===== src/Tgp/Tunnel/Laws.antt =====
-- internal/tgp/tunnel.go: a tunnel datagram that is written and read again.
use tachyon_core.Base.{
  ◌≤◌, append_assoc, ==_iff, ◌⊎◌, length-append, ℕ, zero, suc, ◌+◌, Bool, true, false, ◌&&◌, not,
  List, [], ◌∷◌, ◌++◌, length, take, slice, replicate, ltb, ◌==◌, if◌then◌else◌, ◌≡◌, refl, arith,
  sym, ap, ◌∙◌, subst, inl, inr,
}
use tachyon_core.Base.Bytes.{Bytes, put_be, get_be, join, slice-join, get_be-put_be}
use tachyon_core.Base.Outcome.{ok-injective, Outcome, ok, ◌>>◌, reject}
use tachyon_core.Base.Text.{same_text}
use tachyon_core.Pidtrack.Flow.{Ip, no_ip, v4, v6}
use tachyon_core.Tgp.Types.{Error, invalid_tunnel_data}
use tachyon_core.Tgp.Tunnel.{
  TunnelDatagram, Identity, zero_identity, is_zero_identity, is_valid_identity, all_zero,
  is_valid_ip, ip_bytes, marshal_tunnel, parse_tunnel, parse_ends, end_fields, identity_fields,
  bad_size, tunnel_magic_v1, tunnel_magic_v2, parse_bound,
}
use tachyon_core.Tgp.Tunnel.Ends.{ip_size, IsDatagram, length-join_end, parse-ends}

pub join-append : (fs gs : List Bytes) → join (fs ++ gs) ≡ join fs ++ join gs
join-append [] gs = refl
join-append (f ∷ fs) gs =
    ap (λ r. f ++ r) (join-append fs gs) ∙ sym (append_assoc f (join fs) (join gs))

all_zero-eq : (bs : Bytes) (n : ℕ) → length bs ≡ n → all_zero bs ≡ true → bs ≡ replicate n 0
all_zero-eq [] zero h z = refl
all_zero-eq [] (suc n) h z = absurd (omega arith)
all_zero-eq (b ∷ bs) zero h z = absurd (omega arith)
all_zero-eq (b ∷ bs) (suc n) h z =
    let (first, rest) = parts (b == 0) (all_zero bs) z in
    let zero_first : b ≡ 0 = (==_iff b 0).0 first in
    rw (zero_first, all_zero-eq bs n (omega arith) rest) refl
  where
    parts : (x y : Bool) → (x && y) ≡ true → (x ≡ true) × (y ≡ true)
    parts x y h = ground arith

zero_identity-eq :
    (i : Identity)
    → length i.flow_id ≡ 16
    → length i.lease_nonce ≡ 16
    → is_zero_identity i ≡ true
    → i ≡ zero_identity
unfolding is_zero_identity
zero_identity-eq i hf hn z =
    let (f, g, n) = parts (all_zero i.flow_id) (i.generation == 0) (all_zero i.lease_nonce) z in
    let flow = all_zero-eq i.flow_id 16 hf f in
    let nonce = all_zero-eq i.lease_nonce 16 hn n in
    let number : i.generation ≡ 0 = (==_iff i.generation 0).0 g in cc
  where
    parts : (x y z : Bool) → (x && y && z) ≡ true → (x ≡ true) × (y ≡ true) × (z ≡ true)
    parts x y z h = ground arith

checks-inv :
    (b1 b2 b3 b4 z v : Bool) (w1 w2 wire : Bytes)
    → ◌≡◌ {A = Outcome Error Bytes}
        (reject (not b1) invalid_tunnel_data
          >> (reject (not b2) invalid_tunnel_data
              >> (reject b3 invalid_tunnel_data
                  >> (reject b4 invalid_tunnel_data
                      >> (if z then ok w1 else (reject (not v) invalid_tunnel_data >> ok w2))))))
        (ok wire)
    → (b1 ≡ true) × (b2 ≡ true) × (((z ≡ true) × (wire ≡ w1)) ⊎ ((v ≡ true) × (wire ≡ w2)))
checks-inv false b2 b3 b4 z v w1 w2 wire e = cc
checks-inv true false b3 b4 z v w1 w2 wire e = cc
checks-inv true true true b4 z v w1 w2 wire e = cc
checks-inv true true false true z v w1 w2 wire e = cc
checks-inv true true false false true v w1 w2 wire e =
    (refl, refl, inl (refl, sym (ok-injective e)))
checks-inv true true false false false false w1 w2 wire e = cc
checks-inv true true false false false true w1 w2 wire e =
    (refl, refl, inr (refl, sym (ok-injective e)))

pub marshal-inv :
    (d : TunnelDatagram) (wire : Bytes)
    → marshal_tunnel d ≡ ok wire
    → (is_valid_ip d.local_ip ≡ true)
      × (is_valid_ip d.remote_ip ≡ true)
      × (((is_zero_identity d.identity ≡ true) × (wire ≡ join (tunnel_magic_v1 ∷ end_fields d)))
          ⊎ ((is_valid_identity d.identity ≡ true)
              × (wire ≡ join (tunnel_magic_v2 ∷ (identity_fields d.identity ++ end_fields d)))))
unfolding marshal_tunnel
marshal-inv d wire e =
    checks-inv (is_valid_ip d.local_ip) (is_valid_ip d.remote_ip)
      (bad_size (length (ip_bytes d.local_ip))) (bad_size (length (ip_bytes d.remote_ip)))
      (is_zero_identity d.identity) (is_valid_identity d.identity)
      (join (tunnel_magic_v1 ∷ end_fields d))
      (join (tunnel_magic_v2 ∷ (identity_fields d.identity ++ end_fields d))) wire e

size-ge : (ip : Ip) → is_valid_ip ip ≡ true → 4 ≤ ip_size ip
size-ge no_ip h = cc
size-ge (v4 a b c d) h = omega arith
size-ge (v6 bs) h = omega arith

le→ltb : (a b : ℕ) → a ≤ b → ltb b a ≡ false
le→ltb a b h = ground arith

parse_v1 :
    (d : TunnelDatagram)
    → IsDatagram d
    → is_valid_ip d.local_ip ≡ true
    → is_valid_ip d.remote_ip ≡ true
    → parse_tunnel (tunnel_magic_v1 ++ join (end_fields d))
      ≡ ok (record d { identity = zero_identity })
unfolding parse_tunnel same_text
parse_v1 d w vl vr =
    let wire : Bytes = tunnel_magic_v1 ++ join (end_fields d) in
    let long : 10 ≤ length wire = omega (
      arith,
      length-join_end d,
      w.local_size,
      w.remote_size,
      size-ge d.local_ip vl,
      size-ge d.remote_ip vr,
    ) in
    rw (le→ltb 10 (length wire) long) (parse-ends zero_identity tunnel_magic_v1 d w vl vr)

bound_of :
    (bs : Bytes) (d : TunnelDatagram)
    → 50 ≤ length bs
    → take 4 bs ≡ tunnel_magic_v2
    → slice bs 4 20 ≡ d.identity.flow_id
    → get_be (slice bs 20 28) ≡ d.identity.generation
    → slice bs 28 44 ≡ d.identity.lease_nonce
    → is_valid_identity d.identity ≡ true
    → parse_ends d.identity bs 44 ≡ ok d
    → parse_tunnel bs ≡ ok d
unfolding parse_tunnel parse_bound same_text
bound_of bs d long em ef eg en vi ends =
    rw
      (
        le→ltb 10 (length bs) (omega arith),
        em,
        parse_tunnel,
        le→ltb 50 (length bs) long,
        ef,
        eg,
        en,
        vi,
        ends,
      )
      refl

parse_v2 :
    (d : TunnelDatagram)
    → IsDatagram d
    → is_valid_ip d.local_ip ≡ true
    → is_valid_ip d.remote_ip ≡ true
    → is_valid_identity d.identity ≡ true
    → parse_tunnel (join (tunnel_magic_v2 ∷ (identity_fields d.identity ++ end_fields d))) ≡ ok d
parse_v2 d w vl vr vi =
    let fs : List Bytes = tunnel_magic_v2 ∷ (identity_fields d.identity ++ end_fields d) in
    let front : Bytes = join (tunnel_magic_v2 ∷ identity_fields d.identity) in
    let flat : join fs ≡ front ++ join (end_fields d) =
      join-append (tunnel_magic_v2 ∷ identity_fields d.identity) (end_fields d) in
    let ef : slice (join fs) 4 20 ≡ d.identity.flow_id =
      slice-join fs 1 4 20 (omega arith) (omega arith) (omega (arith, w)) in
    let eg : get_be (slice (join fs) 20 28) ≡ d.identity.generation =
      ap get_be (slice-join fs 2 20 28 (omega arith) (omega (arith, w)) (omega arith))
      ∙ get_be-put_be 8 d.identity.generation w.generation_word in
    let en : slice (join fs) 28 44 ≡ d.identity.lease_nonce =
      slice-join fs 3 28 44 (omega arith) (omega (arith, w)) (omega (arith, w)) in
    let width : length front ≡ 44 = omega (
      arith,
      w,
      length-append d.identity.flow_id
          (put_be 8 d.identity.generation ++ (d.identity.lease_nonce ++ [])),
      length-append d.identity.lease_nonce [],
    ) in
    let size : length (join fs) ≡ 44 + length (join (end_fields d)) =
      ap length flat ∙ omega (arith, width, length-append front (join (end_fields d))) in
    let long : 50 ≤ length (join fs) =
      omega (arith, size, length-join_end d, w.local_size, w.remote_size) in
    let ends : parse_ends d.identity (join fs) 44 ≡ ok d =
      subst (λ bs. parse_ends d.identity bs 44 ≡ ok d) (sym flat)
        (subst (λ o. parse_ends d.identity (front ++ join (end_fields d)) o ≡ ok d) width
          (parse-ends d.identity front d w vl vr)) in
    bound_of (join fs) d long refl ef eg en vi ends

-- Writing a datagram in range and reading it again gives it back, with its identity or without one.
pub parse-marshal :
    (d : TunnelDatagram) (wire : Bytes)
    → IsDatagram d
    → marshal_tunnel d ≡ ok wire
    → parse_tunnel wire ≡ ok d
parse-marshal d wire w e =
    let (vl, vr, kind) = marshal-inv d wire e in
    elim kind [
      | inl (z, same) ↦
          let unbound = zero_identity-eq d.identity w.flow_id_size w.lease_nonce_size z in
          subst (λ bs. parse_tunnel bs ≡ ok d) (sym same)
            (parse_v1 d w vl vr
              ∙ ap (λ (i : Identity). ok (record d { identity = i })) (sym unbound))
      | inr (v, same) ↦ subst (λ bs. parse_tunnel bs ≡ ok d) (sym same) (parse_v2 d w vl vr v)
    ]
