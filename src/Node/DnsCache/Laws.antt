-- ===== src/Node/DnsCache/Laws.antt =====
-- cmd/beaconnode/dns_cache.go: the scheduled deletions over a history of calls.
use consensus_proxy.Base.{
  not_both, ℕ, ◌+◌, ◌≤◌, String, true, false, not, List, [], ◌∷◌, str_eq, eq_iff, leb, pos, select,
  exists, Elem, Elem-select_of_Elem, subst, ◌≡◌, refl, sym, ap, ◌∙◌, ◌⊎◌, inl, inr, arith,
  Bool-cases, Option, none, some, ◌&&◌, leb→le,
}
use consensus_proxy.Node.DnsCache.{
  Network, DnsCache, cache_host, cache_lookup, connect, resolve, cached_resolver, expire,
}

-- A history of calls and deletions that ends at a time, from the empty cache.
pub data History (ttl : ℕ) : DnsCache → ℕ → Type 0 where
  start : History ttl (record { entries = λ q. none; expiries = [] }) 0
  call :
      {cache : DnsCache} {t : ℕ} (net : Network) (address : String) (now : ℕ)
      → History ttl cache t
      → t ≤ now
      → History ttl (cached_resolver net (pos ttl) address now cache).0 now
  wake_up :
      {cache : DnsCache} {t : ℕ} (now : ℕ)
      → History ttl cache t
      → t ≤ now
      → History ttl (expire now cache) now

-- The entry of this host has a deletion ahead, within the time to live.
abbrev pub Scheduled : ℕ → DnsCache → ℕ → String → Type 0
Scheduled ttl cache t host =
    (cache.entries host ≡ none) ⊎ ((d : ℕ) × Elem (host, d) cache.expiries × (d ≤ t + ttl))

cache_host-Scheduled :
    (ttl t now : ℕ) (host q : String) (ips : List String) (cache : DnsCache)
    → Scheduled ttl cache t q
    → t ≤ now
    → Scheduled ttl (cache_host host ips (now + ttl) cache) now q
unfolding cache_host
cache_host-Scheduled ttl t now host q ips cache s h = elim (Bool-cases (str_eq q host)) [
  | inl own ↦
      let same : q ≡ host = (eq_iff q host).0 own in
      inr (now + ttl, inl (ap (λ x. (x, now + ttl)) same), omega arith)
  | inr other ↦ rw other (later s)
]
  where
    later :
        Scheduled ttl cache t q
        → (cache.entries q ≡ none)
          ⊎ ((d : ℕ) × Elem (q, d) ((host, now + ttl) ∷ cache.expiries) × (d ≤ now + ttl))
    later (inl e) = inl e
    later (inr (d, e, k)) = inr (d, inr e, omega (arith, k, h))

Scheduled-later :
    (ttl t now : ℕ) (q : String) (cache : DnsCache)
    → Scheduled ttl cache t q
    → t ≤ now
    → Scheduled ttl cache now q
Scheduled-later ttl t now q cache (inl e) h = inl e
Scheduled-later ttl t now q cache (inr (d, e, k)) h = inr (d, e, omega (arith, k, h))

-- A call leaves the cache, or caches one host.
abbrev Caches : ℕ → DnsCache → DnsCache → Type 0
Caches deadline cache cache' =
    (cache' ≡ cache)
    ⊎ ((host : String) × (ips : List String) × (cache' ≡ cache_host host ips deadline cache))

cache_lookup-Caches :
    (host : String) (deadline : ℕ) (cache : DnsCache) (o : Option (List String))
    → Caches deadline cache (cache_lookup host deadline cache o).0
unfolding cache_lookup
cache_lookup-Caches host deadline cache none = inl refl
cache_lookup-Caches host deadline cache (some ips) = inr (host, ips, refl)

resolve-Caches :
    (net : Network) (ttl now : ℕ) (host : String) (cache : DnsCache) (o : Option (List String))
    → Caches (now + ttl) cache (resolve net (pos ttl) host now cache o).0
unfolding resolve
resolve-Caches net ttl now host cache none =
    cache_lookup-Caches host (now + ttl) cache (net.lookup_ip host)
resolve-Caches net ttl now host cache (some []) =
    cache_lookup-Caches host (now + ttl) cache (net.lookup_ip host)
resolve-Caches net ttl now host cache (some (ip ∷ ips)) = inl refl

connect-Caches :
    (net : Network) (ttl now : ℕ) (cache : DnsCache) (o : Option (String × String))
    → Caches (now + ttl) cache (connect net (pos ttl) now cache o).0
unfolding connect
connect-Caches net ttl now cache none = inl refl
connect-Caches net ttl now cache (some (host, port)) =
    resolve-Caches net ttl now host cache (cache.entries host)

call-Scheduled :
    (net : Network) (ttl t now : ℕ) (address q : String) (cache : DnsCache)
    → Scheduled ttl cache t q
    → t ≤ now
    → Scheduled ttl (cached_resolver net (pos ttl) address now cache).0 now q
unfolding cached_resolver
call-Scheduled net ttl t now address q cache s h =
    elim (connect-Caches net ttl now cache (net.split_host_port address)) [
      | inl same ↦
          subst (λ c. Scheduled ttl c now q) (sym same) (Scheduled-later ttl t now q cache s h)
      | inr (host, ips, cached) ↦
          subst (λ c. Scheduled ttl c now q) (sym cached)
            (cache_host-Scheduled ttl t now host q ips cache s h)
    ]

exists-due :
    (q : String) (d now : ℕ) (xs : List (String × ℕ))
    → Elem (q, d) xs
    → d ≤ now
    → exists (λ (x : String × ℕ). str_eq x.0 q && leb x.1 now) xs ≡ true
exists-due q d now [] e h = absurd e
exists-due q d now (x ∷ xs) (inl here) h =
    let host : q ≡ x.0 = ap (λ (y : String × ℕ). y.0) here in
    let time : d ≡ x.1 = ap (λ (y : String × ℕ). y.1) here in
    let same : str_eq x.0 q ≡ true = (eq_iff x.0 q).1 (sym host) in ground (arith, h, time, same)
exists-due q d now (x ∷ xs) (inr there) h = ground (arith, exists-due q d now xs there h)

expire-Scheduled :
    (ttl t now : ℕ) (q : String) (cache : DnsCache)
    → Scheduled ttl cache t q
    → t ≤ now
    → Scheduled ttl (expire now cache) now q
unfolding expire
expire-Scheduled ttl t now q cache s h =
    elim (Bool-cases (exists (λ (x : String × ℕ). str_eq x.0 q && leb x.1 now) cache.expiries)) [
      | inl due ↦ inl (rw due refl)
      | inr not_due ↦ rw not_due (later s not_due)
    ]
  where
    later :
        Scheduled ttl cache t q
        → exists (λ (x : String × ℕ). str_eq x.0 q && leb x.1 now) cache.expiries ≡ false
        → (cache.entries q ≡ none)
          ⊎ ((d : ℕ) × Elem (q, d) (select (λ (x : String × ℕ). not (leb x.1 now)) cache.expiries)
              × (d ≤ now + ttl))
    later (inl e) f = inl e
    later (inr (d, e, k)) f = elim (Bool-cases (leb d now)) [
      | inl past ↦
          absurd (not_both (sym (exists-due q d now cache.expiries e (leb→le d now past)) ∙ f))
      | inr ahead ↦ inr (
        d,
        Elem-select_of_Elem (λ (x : String × ℕ). not (leb x.1 now)) (q, d) cache.expiries e
            (ap not ahead),
        omega (arith, k, h),
      )
    ]

-- In every history of calls and deletions, with time going forward, each cached host has a deletion
-- scheduled, at most the time to live after the end of the history.
pub History-Scheduled :
    {ttl : ℕ} {cache : DnsCache} {t : ℕ} (host : String)
    → History ttl cache t
    → Scheduled ttl cache t host
History-Scheduled host start = inl refl
History-Scheduled {ttl} host (call {cache} {t} net address now history h) =
    call-Scheduled net ttl t now address host cache (History-Scheduled host history) h
History-Scheduled {ttl} host (wake_up {cache} {t} now history h) =
    expire-Scheduled ttl t now host cache (History-Scheduled host history) h
