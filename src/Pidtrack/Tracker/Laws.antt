-- ===== src/Pidtrack/Tracker/Laws.antt =====
-- How long internal/pidtrack/tracker.go reuses an answer, and what it says of a socket not found.
use tachyon_core.Base.{
  ℕ, ◌+◌, true, ◌∷◌, some, none, if◌then◌else◌, ltb, ◌≡◌, refl, arith, subst, sym, ap,
}
use tachyon_core.Base.Outcome.{Outcome, ok}
use tachyon_core.Base.Text.{same_text_refl}
use tachyon_core.Pidtrack.Flow.{FlowKey, ProcessInfo, Transport, tcp, udp, Ip, no_ip, v4, v6, ip_eq}
use tachyon_core.Pidtrack.Tracker.{
  Cache, CacheKey, CacheEntry, Attempt, failed, cached, key_of, key_eq, transport_eq, evict_key,
  lookup_flow, look_up, try_provider, no_process, cache_ttl, Cancelled,
}

-- A provider that fails in all three rounds leaves the cache as it is, and the answer is a process
-- with no name and no error: the caller is not told that the lookup failed.
pub lookup_flow_failed :
    (cache : Cache) (flow : FlowKey) (now later : ℕ) (rounds : ℕ → Attempt)
    → cached (key_of flow) cache ≡ none
    → (rounds 0 ≡ failed) × (rounds 1 ≡ failed) × (rounds 2 ≡ failed)
    → lookup_flow cache flow now later rounds ≡ (cache, ok no_process)
unfolding lookup_flow look_up try_provider
lookup_flow_failed cache flow now later rounds miss (r0, r1, r2) =
    rw (miss, lookup_flow, r0, r1, r2) refl

ip_eq_refl : (ip : Ip) → ip_eq ip ip ≡ true
ip_eq_refl no_ip = refl
ip_eq_refl (v4 a b c d) = ground arith
ip_eq_refl (v6 bs) = same_text_refl bs

transport_eq_refl : (t : Transport) → transport_eq t t ≡ true
transport_eq_refl tcp = refl
transport_eq_refl udp = refl

key_eq_refl : (k : CacheKey) → key_eq k k ≡ true
unfolding key_eq
key_eq_refl k = rw (transport_eq_refl k.transport, ip_eq_refl k.local_ip) (ground arith)

abbrev fresh_entry : FlowKey → ℕ → ProcessInfo → CacheEntry
fresh_entry flow later info = record { key = key_of flow; info = info; expires = later + cache_ttl }

after_answer :
    (cache : Cache) (flow : FlowKey) (now later : ℕ) (rounds : ℕ → Attempt) (info : ProcessInfo)
    → cached (key_of flow) cache ≡ none
    → try_provider true 3 rounds ≡ ok (some info)
    → lookup_flow cache flow now later rounds
      ≡ (fresh_entry flow later info ∷ evict_key (key_of flow) cache, ok info)
unfolding lookup_flow look_up
after_answer cache flow now later rounds info miss p = rw (miss, lookup_flow, p) refl

-- The answer that the provider gave for a flow that was not cached is given again to the next
-- lookup of the flow while it is less than `cache_ttl` old, whatever the provider would say then;
-- from that time on the provider is asked.
pub lookup_flow_again :
    (cache : Cache) (flow : FlowKey) (now later : ℕ) (rounds : ℕ → Attempt) (info : ProcessInfo)
    (again later' : ℕ) (rounds' : ℕ → Attempt)
    → cached (key_of flow) cache ≡ none
    → try_provider true 3 rounds ≡ ok (some info)
    → let cache' = (lookup_flow cache flow now later rounds).0 in
      lookup_flow cache' flow again later' rounds' ≡ (
        if ltb again (later + cache_ttl)
        then (cache', ok info)
        else look_up cache' (key_of flow) later' rounds')
unfolding lookup_flow cached
lookup_flow_again cache flow now later rounds info again later' rounds' miss p =
    let cache' : Cache = fresh_entry flow later info ∷ evict_key (key_of flow) cache in
    let hit : cached (key_of flow) cache' ≡ some (fresh_entry flow later info) =
      rw (key_eq_refl (key_of flow)) refl in
    subst
      (λ (c : Cache). lookup_flow c flow again later' rounds' ≡ (
        if ltb again (later + cache_ttl)
        then (c, ok info)
        else look_up c (key_of flow) later' rounds'))
      (sym (
        ap (λ (r : Cache × Outcome Cancelled ProcessInfo). r.0)
          (after_answer cache flow now later rounds info miss p)))
      (rw (hit, lookup_flow) refl)
