-- ===== src/Main/Limits.antt =====
-- main.go: the limiter within the running program.
use consensus_proxy.Base.{
  zero, suc, false, append-nil, refl, ℕ, ◌≤◌, String, Bool, true, List, [], ◌∷◌, ◌++◌, str_eq, ℤ,
  pos, if◌then◌else◌, length, select, subst, ◌≡◌, refl, sym, ap, ◌∙◌, inl, inr, arith, Bool-cases,
  Option, none, some, ◌&&◌,
}
use consensus_proxy.Http.{Writer}
use consensus_proxy.RateLimit.{RateLimiter, new_rate_limiter, allow, cleanup, expiry}
use consensus_proxy.RateLimit.Windows.{live, History}
use consensus_proxy.RateLimit.Windows
use consensus_proxy.RateLimit.Laws.{allow-bounded}
use consensus_proxy.Main.{State}
use consensus_proxy.Main.Routes.{
  Incoming, Outside, balanced, chain_over, route, is_proxied, client_of, calls_of, route_over-aside,
  route_over-chain, chain_over-limited,
}
use consensus_proxy.Main.System.{Run, begin, serve, check, clean}

abbrev copies : ℕ → ℕ → List ℕ
copies zero t = []
copies (suc n) t = t ∷ copies n t

-- The times at which requests of a client were handed on to the CORS wrapper and the balancer: each
-- as often as the routes call the wrapped handler for it.
abbrev pub handed_on : {o : Outside} {from s : State} {t : ℕ} → String → Run o from s t → List ℕ
handed_on ip begin = []
handed_on {o} ip (serve {s} i w r h) =
    let before = handed_on ip r in
    if str_eq (client_of o i) ip then before ++ copies (calls_of o i s w) i.at else before
handed_on ip (check arrival reply r order) = handed_on ip r
handed_on ip (clean now r h) = handed_on ip r

-- A counting handler behind a limiter is called once for a granted request, and else not at all.
calls-limited :
    (o : Outside) (i : Incoming) (s : State) (w : Writer) (rl : RateLimiter)
    → is_proxied o i ≡ true
    → s.rate_limiter ≡ some rl
    → calls_of o i s w ≡ (if (allow (client_of o i) i.at rl).1 then 1 else 0)
calls-limited o i s w rl p e =
    ap (λ x. x.1) (route_over-chain o (λ n w'. (suc n, w')) i s.rate_limiter 0 w p)
    ∙ ap (λ limiter. (chain_over o (λ n w'. (suc n, w')) i limiter 0 w).1) e
    ∙ (chain_over-limited o (λ n w'. (suc n, w')) i rl 0 w).1

calls-aside :
    (o : Outside) (i : Incoming) (s : State) (w : Writer)
    → is_proxied o i ≡ false
    → calls_of o i s w ≡ 0
calls-aside o i s w a = (route_over-aside o (λ n w'. (suc n, w')) i s.rate_limiter 0 w a).1

copies-granted :
    (mine granted : Bool) (before : List ℕ) (t : ℕ)
    → (if mine then before ++ copies (if granted then 1 else 0) t else before)
      ≡ (if mine && granted then before ++ t ∷ [] else before)
copies-granted true true before t = refl
copies-granted true false before t = append-nil before
copies-granted false granted before t = refl

copies-none :
    (mine : Bool) (before : List ℕ) (t : ℕ)
    → (if mine then before ++ copies 0 t else before) ≡ before
copies-none true before t = append-nil before
copies-none false before t = refl

-- The limiter of a run has the history of a client's calls.
pub record Tracked (limit : ℤ) (w : ℕ) (ip : String) (s : State) (t : ℕ) (served : List ℕ)
    : Type 0 where
  pub limiter : RateLimiter
  pub last : ℕ
  pub is_limiter : s.rate_limiter ≡ some limiter
  pub before : last ≤ t
  pub history : History limit w ip limiter last served

Run-Tracked :
    {o : Outside} {from s : State} {t : ℕ} (limit : ℤ) (w : ℕ) (ip : String)
    → from.rate_limiter ≡ some (new_rate_limiter limit (pos w))
    → (run : Run o from s t) → Tracked limit w ip s t (handed_on ip run)
unfolding route
Run-Tracked limit w ip e begin = record {
  limiter = new_rate_limiter limit (pos w);
  last = 0;
  is_limiter = e;
  before = omega arith;
  history = Windows.start;
}
Run-Tracked {o} {from} limit w ip e (serve {s} {t} i out r h) =
    let v = Run-Tracked limit w ip e r in
    let mine = str_eq (client_of o i) ip in
    let before = handed_on ip r in
    elim (Bool-cases (is_proxied o i)) [
      | inl p ↦ record {
        limiter = (allow (client_of o i) i.at v.limiter).0;
        last = i.at;
        is_limiter =
            ap (λ x. x.0) (route_over-chain o (balanced i) i s.rate_limiter s.balancer out p)
            ∙ ap (λ limiter. (chain_over o (balanced i) i limiter s.balancer out).0) v.is_limiter
            ∙ (chain_over-limited o (balanced i) i v.limiter s.balancer out).0;
        before = omega arith;
        history =
            subst (History limit w ip (allow (client_of o i) i.at v.limiter).0 i.at)
              (sym (
                ap (λ n. if mine then before ++ copies n i.at else before)
                  (calls-limited o i s out v.limiter p v.is_limiter)
                ∙ copies-granted mine (allow (client_of o i) i.at v.limiter).1 before i.at))
              (Windows.call (client_of o i) i.at v.history (omega (arith, v.before, h)));
      }
      | inr a ↦ record {
        limiter = v.limiter;
        last = v.last;
        is_limiter =
            (route_over-aside o (balanced i) i s.rate_limiter s.balancer out a).0 ∙ v.is_limiter;
        before = omega (arith, v.before, h);
        history =
            subst (History limit w ip v.limiter v.last)
              (sym (
                ap (λ n. if mine then before ++ copies n i.at else before) (calls-aside o i s out a)
                ∙ copies-none mine before i.at))
              v.history;
      }
    ]
Run-Tracked limit w ip e (check arrival reply r order) =
    let v = Run-Tracked limit w ip e r in
    record {
      limiter = v.limiter;
      last = v.last;
      is_limiter = v.is_limiter;
      before = v.before;
      history = v.history;
    }
Run-Tracked limit w ip e (clean {s} {t} now r h) =
    let v = Run-Tracked limit w ip e r in
    record {
      limiter = cleanup now v.limiter;
      last = now;
      is_limiter = ap cleaned v.is_limiter;
      before = omega arith;
      history = Windows.sweep now v.history (omega (arith, v.before, h));
    }
  where
    cleaned : Option RateLimiter → Option RateLimiter
    cleaned limiter = elim limiter [ none ↦ none | some rl ↦ some (cleanup now rl) ]

-- With the limiter of an accepted configuration, as main creates it, and a window of at most five
-- minutes, no run hands on more requests of a client in any window that ends at or after its end
-- than the limit says.
pub handed_on-bounded :
    {o : Outside} {from s : State} {t : ℕ} (r w now : ℕ) (ip : String)
    → from.rate_limiter ≡ some (new_rate_limiter (pos r) (pos w))
    → w ≤ expiry
    → (run : Run o from s t) → t ≤ now
    → length (select (live w now) (handed_on ip run)) ≤ r
handed_on-bounded {o} {from} {s} {t} r w now ip e small run h =
    let v = Run-Tracked (pos r) w ip e run in
    allow-bounded r now refl small v.history (omega (arith, v.before, h))
