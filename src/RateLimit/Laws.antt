-- ===== src/RateLimit/Laws.antt =====
-- cmd/ratelimit/ratelimit.go: histories of calls and cleanups, and the middleware.
use consensus_proxy.Base.{
  not_both, ℕ, ◌+◌, ◌<◌, ◌≤◌, String, true, false, List, [], ◌∷◌, ◌++◌, str_eq, eq_iff, eq_refl,
  ltb, leb_ℤ, ℤ, pos, if◌then◌else◌, length, select, subst, ◌≡◌, refl, sym, ap, ◌∙◌, ◌≢◌, ◌↔◌, inl,
  inr, arith, Bool-cases, Option, none, some, ◌&&◌, append-nil, ltb→lt, lt→ltb,
}
use consensus_proxy.RateLimit.{
  ClientBucket, RateLimiter, requests_of, allow, cleanup, swept, expiry,
}
use consensus_proxy.RateLimit.Windows.{
  live, History, start, call, sweep, Recent, Tracks, allow-Outcome, store-Tracks, own-Tracks,
  select-none, All-map,
}

swept-same :
    (w now n t : ℕ) (o : Option ClientBucket)
    → w ≤ expiry
    → now ≤ n
    → Recent o t
    → select (live w n) (elim o [ none ↦ [] | some b ↦ b.requests ])
      ≡ select (live w n) (elim (swept now o) [ none ↦ [] | some b ↦ b.requests ])
swept-same w now n t none small k r = refl
swept-same w now n t (some b) small k (r, _) = elim (Bool-cases (ltb (b.last_seen + expiry) now)) [
  | inr kept ↦ rw kept refl
  | inl gone ↦ rw gone (
      select-none (live w n) b.requests (
        All-map (λ x. x ≤ b.last_seen) (λ x. live w n x ≡ false) b.requests
          (λ x e. ground (arith, e, small, k, ltb→lt (b.last_seen + expiry) now gone)) r))
]

swept-Recent :
    (now t : ℕ) (o : Option ClientBucket) → t ≤ now → Recent o t → Recent (swept now o) now
swept-Recent now t none h r = tt
swept-Recent now t (some b) h (r, k) = elim (Bool-cases (ltb (b.last_seen + expiry) now)) [
  | inr kept ↦ rw kept (r, omega (arith, h, k))
  | inl gone ↦ rw gone tt
]

module _ {limit : ℤ} {w : ℕ} {ip : String} where
  cleanup-Tracks :
      (now t : ℕ) (served : List ℕ) (rl : RateLimiter)
      → w ≤ expiry
      → Tracks limit w ip rl t served
      → t ≤ now
      → Tracks limit w ip (cleanup now rl) now served
  unfolding cleanup
  cleanup-Tracks now t served rl small v h = record {
    rps = v.rps;
    window = v.window;
    same = λ n k.
        v.same n (omega (arith, h, k)) ∙ swept-same w now n t (rl.clients ip) small k v.recent;
    recent = swept-Recent now t (rl.clients ip) h v.recent;
    bounded = λ r n e k. v.bounded r n e (omega (arith, h, k));
  }

  -- A call of the client itself.
  own-call :
      (now t : ℕ) (served : List ℕ) (rl : RateLimiter)
      → Tracks limit w ip rl t served
      → t ≤ now
      → Tracks limit w ip
          (allow ip now rl).0
          now
          (if (allow ip now rl).1 then served ++ now ∷ [] else served)
  own-call now t served rl v h =
      let valid = select (live w now) (requests_of rl ip) in
      elim (allow-Outcome ip now w limit rl v.rps v.window) [
        | inl (_, e) ↦
            let q = own-Tracks [] now t served rl v h (inl refl) in
            rw e (rw (append-nil served, append-nil valid) at q)
        | inr (under, e) ↦ rw e (own-Tracks (now ∷ []) now t served rl v h (inr (refl, under)))
      ]

  call-Tracks :
      (who : String) (now t : ℕ) (served : List ℕ) (rl : RateLimiter)
      → Tracks limit w ip rl t served
      → t ≤ now
      → Tracks limit w ip
          (allow who now rl).0
          now
          (if str_eq who ip && (allow who now rl).1 then served ++ now ∷ [] else served)
  call-Tracks who now t served rl v h = elim (Bool-cases (str_eq who ip)) [
    | inl is_ip ↦
        let same : who ≡ ip = (eq_iff who ip).0 is_ip in
        subst
          (λ x.
            Tracks limit w ip (allow x now rl).0 now
              (if str_eq x ip && (allow x now rl).1 then served ++ now ∷ [] else served))
          (sym same) (rw (eq_refl ip) (own-call now t served rl v h))
    | inr not_ip ↦
        let other : ip ≢ who = λ e. ground (arith, e, not_ip, eq_iff who ip) in
        rw not_ip (elim (allow-Outcome who now w limit rl v.rps v.window) [
          | inl (_, e) ↦ rw e (store-Tracks who _ now t served rl v h other)
          | inr (_, e) ↦ rw e (store-Tracks who _ now t served rl v h other)
        ])
  ]

  History-Tracks :
      {rl : RateLimiter} {t : ℕ} {served : List ℕ}
      → w ≤ expiry
      → History limit w ip rl t served
      → Tracks limit w ip rl t served
  History-Tracks small start = record {
    rps = refl;
    window = refl;
    same = λ n k. refl;
    recent = tt;
    bounded = λ r n e k. omega arith;
  }
  History-Tracks small (call {rl} {t} {served} who now history h) =
      call-Tracks who now t served rl (History-Tracks small history) h
  History-Tracks small (sweep {rl} {t} {served} now history h) =
      cleanup-Tracks now t served rl small (History-Tracks small history) h

  -- In every history of calls and cleanups, with time going forward and a window of at most five
  -- minutes, a client is served at most as often as the limit says in any window that ends at or
  -- after the last of them.
  pub allow-bounded :
      {rl : RateLimiter} {t : ℕ} {served : List ℕ} (r now : ℕ)
      → limit ≡ pos r
      → w ≤ expiry
      → History limit w ip rl t served
      → t ≤ now
      → length (select (live w now) served) ≤ r
  allow-bounded r now e small history h = (History-Tracks small history).bounded r now e h

  -- After any history of calls and cleanups, with time going forward, a window of at most five
  -- minutes and a limit that is not negative, a call is served exactly if its client was served
  -- less often than the limit says in the window that ends with it.
  pub allow_iff :
      {rl : RateLimiter} {t : ℕ} {served : List ℕ} (r now : ℕ)
      → limit ≡ pos r
      → w ≤ expiry
      → History limit w ip rl t served
      → t ≤ now
      → ((allow ip now rl).1 ≡ true) ↔ (length (select (live w now) served) < r)
  allow_iff {rl} {t} {served} r now e small history h =
      let v = History-Tracks small history in
      let valid = select (live w now) (requests_of rl ip) in
      let room : (leb_ℤ limit (pos (length valid)) ≡ false) ↔ (length valid < r) =
        rw e (ground arith) in
      rw (v.same now h) (elim (allow-Outcome ip now w limit rl v.rps v.window) [
        | inl (full, a) ↦ rw a ((λ f. cc), λ k. absurd (not_both (sym full ∙ room.1 k)))
        | inr (under, a) ↦ rw a ((λ f. room.0 under), λ k. refl)
      ])

-- Whatever the window is, a client that was not seen for five minutes is served after a cleanup,
-- under any limit of at least one, however many of its requests are still in the window.
pub allow-cleanup :
    (ip : String) (now r : ℕ) (b : ClientBucket) (rl : RateLimiter)
    → rl.clients ip ≡ some b
    → b.last_seen + expiry < now
    → rl.rps ≡ pos r
    → 0 < r
    → (allow ip now (cleanup now rl)).1 ≡ true
unfolding allow cleanup
allow-cleanup ip now r b rl held unseen limit positive =
    let gone : swept now (some b) ≡ none = rw (lt→ltb (b.last_seen + expiry) now unseen) refl in
    let empty : requests_of (cleanup now rl) ip ≡ [] = ap requests (ap (swept now) held ∙ gone) in
    let room : leb_ℤ rl.rps (pos 0) ≡ false = rw limit (ground (arith, positive)) in
    rw (empty, allow) (rw (room, allow) refl)
  where
    requests : Option ClientBucket → List ℕ
    requests o = elim o [ none ↦ [] | some bucket ↦ bucket.requests ]
