-- ===== src/RateLimit/Windows.antt =====
-- cmd/ratelimit/ratelimit.go: the window of a client, one call at a time.
use consensus_proxy.Base.{
  ℕ, ◌+◌, ◌<◌, ◌≤◌, String, Bool, true, false, List, [], ◌∷◌, ◌++◌, str_eq, eq_iff, eq_refl, ltb,
  leb_ℤ, ℤ, pos, if◌then◌else◌, length, select, All, All-append, select-append, subst, ◌≡◌, refl,
  sym, ap, ◌∙◌, ◌≢◌, ◌⊎◌, inl, inr, arith, Bool-cases, Option, none, some, ◌&&◌, length-append,
}
use consensus_proxy.Config.{Duration}
use consensus_proxy.RateLimit.{
  ClientBucket, RateLimiter, new_rate_limiter, requests_of, is_after_cutoff, allow, cleanup, store,
}

select-select :
    (p q : ℕ → Bool) (xs : List ℕ)
    → ((x : ℕ) → p x ≡ true → q x ≡ true)
    → select p (select q xs) ≡ select p xs
select-select p q [] h = refl
select-select p q (x ∷ xs) h = ground (arith, select-select p q xs h, h x)

length-select : (p : ℕ → Bool) (xs : List ℕ) → length (select p xs) ≤ length xs
length-select p [] = omega arith
length-select p (x ∷ xs) = ground (arith, length-select p xs)

pub select-none : (p : ℕ → Bool) (xs : List ℕ) → All (λ x. p x ≡ false) xs → select p xs ≡ []
select-none p [] h = refl
select-none p (x ∷ xs) h = ground (arith, select-none p xs h.1)

select-All : (P : ℕ → Type 0) (p : ℕ → Bool) (xs : List ℕ) → All P xs → All P (select p xs)
select-All P p [] h = tt
select-All P p (x ∷ xs) h = ground (arith, select-All P p xs h.1)

pub All-map : (P Q : ℕ → Type 0) (xs : List ℕ) → ((x : ℕ) → P x → Q x) → All P xs → All Q xs
All-map P Q [] f h = tt
All-map P Q (x ∷ xs) f h = (f x h.0, All-map P Q xs f h.1)

-- A request is in the window of length `w` that ends at `now`.
abbrev pub live : ℕ → ℕ → ℕ → Bool
live w now t = ltb now (t + w)

-- The client at `ip` over a history of calls and cleanups that ends at a time: the times at which
-- it was served, in order.
pub data History (limit : ℤ) (w : ℕ) (ip : String) : RateLimiter → ℕ → List ℕ → Type 0 where
  start : History limit w ip (new_rate_limiter limit (pos w)) 0 []
  call :
      {rl : RateLimiter} {t : ℕ} {served : List ℕ} (who : String) (now : ℕ)
      → History limit w ip rl t served
      → t ≤ now
      → History limit w ip
          (allow who now rl).0
          now
          (if str_eq who ip && (allow who now rl).1 then served ++ now ∷ [] else served)
  sweep :
      {rl : RateLimiter} {t : ℕ} {served : List ℕ} (now : ℕ)
      → History limit w ip rl t served
      → t ≤ now
      → History limit w ip (cleanup now rl) now served

-- A bucket holds nothing later than it was last seen.
abbrev pub Recent : Option ClientBucket → ℕ → Type 0
Recent none t = Unit
Recent (some b) t = All (λ r. r ≤ b.last_seen) b.requests × (b.last_seen ≤ t)

pub record Tracks (limit : ℤ) (w : ℕ) (ip : String) (rl : RateLimiter) (t : ℕ) (served : List ℕ)
    : Type 0 where
  pub rps : rl.rps ≡ limit
  pub window : rl.window ≡ pos w
  pub same :
      (now : ℕ) → t ≤ now → select (live w now) served ≡ select (live w now) (requests_of rl ip)
  pub recent : Recent (rl.clients ip) t
  pub bounded : (r now : ℕ) → limit ≡ pos r → t ≤ now → length (select (live w now) served) ≤ r

requests_of-store :
    (who ip : String) (b : ClientBucket) (rl : RateLimiter)
    → requests_of (store who b rl) ip ≡ (if str_eq ip who then b.requests else requests_of rl ip)
requests_of-store who ip b rl = ground arith

-- The two outcomes of a call under this limit with these requests in the window.
abbrev pub Outcome : String → ℕ → RateLimiter → ℤ → List ℕ → Type 0
Outcome who now rl limit valid =
    ((leb_ℤ limit (pos (length valid)) ≡ true)
      × (allow who now rl ≡ (store who (record { requests = valid; last_seen = now }) rl, false)))
    ⊎ ((leb_ℤ limit (pos (length valid)) ≡ false)
        × (allow who now rl
            ≡ (store who (record { requests = valid ++ now ∷ []; last_seen = now }) rl, true)))

pub allow-Outcome :
    (who : String) (now w : ℕ) (limit : ℤ) (rl : RateLimiter)
    → rl.rps ≡ limit
    → rl.window ≡ pos w
    → Outcome who now rl limit (select (live w now) (requests_of rl who))
unfolding allow
allow-Outcome who now w limit rl r v =
    let valid = select (is_after_cutoff rl.window now) (requests_of rl who) in
    let raw : Outcome who now rl rl.rps valid =
      elim (Bool-cases (leb_ℤ rl.rps (pos (length valid)))) [
        | inl e ↦ inl (e, rw (e, allow) refl)
        | inr e ↦ inr (e, rw (e, allow) refl)
      ] in
    subst (λ l. Outcome who now rl l (select (live w now) (requests_of rl who))) r
      (subst (Outcome who now rl rl.rps)
        (ap (λ (d : Duration). select (is_after_cutoff d now) (requests_of rl who)) v) raw)

pub under_limit : (r n : ℕ) → leb_ℤ (pos r) (pos n) ≡ false → n < r
under_limit r n h = ground arith

module _ {limit : ℤ} {w : ℕ} {ip : String} where
  -- The client's own call.
  own :
      (now t : ℕ) (served : List ℕ) (rl : RateLimiter)
      → Tracks limit w ip rl t served
      → t ≤ now
      → let valid = select (live w now) (requests_of rl ip) in
        (select (is_after_cutoff rl.window now) (requests_of rl ip) ≡ valid)
        × ((n : ℕ) → now ≤ n → select (live w n) served ≡ select (live w n) valid)
  own now t served rl v h =
      let valid = select (live w now) (requests_of rl ip) in
      (
        ap (λ (d : Duration). select (is_after_cutoff d now) (requests_of rl ip)) v.window,
        λ n k.
            v.same n (omega (arith, h, k))
            ∙ sym (select-select (live w n) (live w now) (requests_of rl ip) (λ x e. ground arith)),
      )

  -- Another client's bucket is not touched.
  pub store-Tracks :
      (who : String) (b : ClientBucket) (now t : ℕ) (served : List ℕ) (rl : RateLimiter)
      → Tracks limit w ip rl t served
      → t ≤ now
      → ip ≢ who
      → Tracks limit w ip (store who b rl) now served
  store-Tracks who b now t served rl v h other = record {
    rps = v.rps;
    window = v.window;
    same = λ n k.
        v.same n (omega (arith, h, k))
        ∙ ap (select (live w n)) (sym (requests_of-store who ip b rl ∙ rw elsewhere refl));
    recent = rw elsewhere (later (rl.clients ip) v.recent);
    bounded = λ r n e k. v.bounded r n e (omega (arith, h, k));
  }
    where
      elsewhere : str_eq ip who ≡ false
      elsewhere = ground (arith, eq_iff ip who)

      later : (o : Option ClientBucket) → Recent o t → Recent o now
      later none e = tt
      later (some b) (e, k) = (e, omega (arith, h, k))

  -- The client's own call: the requests in the window, with this one if it is served.
  pub own-Tracks :
      (extra : List ℕ) (now t : ℕ) (served : List ℕ) (rl : RateLimiter)
      → Tracks limit w ip rl t served
      → t ≤ now
      → (extra ≡ [])
        ⊎ ((extra ≡ now ∷ [])
            × (leb_ℤ limit (pos (length (select (live w now) (requests_of rl ip)))) ≡ false))
      → Tracks limit w ip
          (store ip
            (record {
              requests = select (live w now) (requests_of rl ip) ++ extra;
              last_seen = now;
            })
            rl)
          now
          (served ++ extra)
  own-Tracks extra now t served rl v h which = record {
    rps = v.rps;
    window = v.window;
    same = λ n k.
        select-append (live w n) served extra
        ∙ ap (λ xs. xs ++ select (live w n) extra) ((own now t served rl v h).1 n k)
        ∙ sym (select-append (live w n) valid extra)
        ∙ ap (select (live w n)) (sym (requests_of-store ip ip _ rl ∙ rw here refl));
    recent = rw here (recent, omega arith);
    bounded = bounded;
  }
    where
      valid : List ℕ
      valid = select (live w now) (requests_of rl ip)

      here : str_eq ip ip ≡ true
      here = eq_refl ip

      earlier :
          (o : Option ClientBucket)
          → Recent o t
          → All (λ r. r ≤ now) (elim o [ none ↦ [] | some bucket ↦ bucket.requests ])
      earlier none e = tt
      earlier (some b) (e, k) =
          All-map (λ r. r ≤ b.last_seen) (λ r. r ≤ now) b.requests (λ x f. omega (arith, f, k, h)) e

      new :
          (extra ≡ []) ⊎ ((extra ≡ now ∷ []) × (leb_ℤ limit (pos (length valid)) ≡ false))
          → All (λ r. r ≤ now) extra
      new (inl e) = rw e tt
      new (inr (e, _)) = rw e (omega arith, tt)

      recent : All (λ r. r ≤ now) (valid ++ extra)
      recent =
          All-append (λ r. r ≤ now) valid extra
            (select-All (λ r. r ≤ now) (live w now) (requests_of rl ip)
              (earlier (rl.clients ip) v.recent))
            (new which)

      bounded :
          (r n : ℕ) → limit ≡ pos r → now ≤ n → length (select (live w n) (served ++ extra)) ≤ r
      bounded r n e k =
          let p = live w n in
          let split : length (select p (served ++ extra))
              ≡ length (select p served) + length (select p extra) =
            ap (λ (xs : List ℕ). length xs) (select-append p served extra)
            ∙ length-append (select p served) (select p extra) in
          let before = v.bounded r n e (omega (arith, h, k)) in
          let fewer : length (select p served) ≤ length valid =
            rw ((own now t served rl v h).1 n k) (length-select p valid) in
          elim which [
            | inl none_new ↦
                let zero : length (select p extra) ≡ 0 = rw none_new refl in
                omega (arith, split, before, zero)
            | inr (one_new, under) ↦
                let one : length extra ≡ 1 = rw one_new refl in
                let room : length valid < r = under_limit r (length valid) (rw e at under) in
                omega (arith, split, fewer, one, room, length-select p extra)
          ]
