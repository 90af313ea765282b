-- ===== src/Balancer/Errors/Concurrent/Threads.antt =====
-- Lists of threads of which one makes a step, and what a thread will still do: the threads of
-- cmd/loadbalancer/http_handler.go's `handleNodeError`.
use consensus_proxy.Base.{
  ℕ, suc, ◌+◌, ◌<◌, ◌≤◌, List, [], ◌∷◌, pos, length, All, ◌≡◌, refl, ap, ◌⊎◌, inl, inr, arith,
}
use consensus_proxy.Balancer.Errors.Concurrent.{
  Next, test_status, add_error, add_failure, store_successes, load_errors, test_primary,
  store_priority, filter_healthy, report_demotion, report_failover, returned, Thread,
}

-- Some thread satisfies a predicate.
abbrev pub Some : (Next → Type 0) → List Thread → Type 0
Some P [] = ⊥
Some P (thread ∷ threads) = P thread.next ⊎ Some P threads

-- The threads that have counted their error.
abbrev pub has_counted : Next → ℕ
has_counted test_status = 0
has_counted add_error = 0
has_counted _ = 1

abbrev pub counted : List Thread → ℕ
counted [] = 0
counted (thread ∷ threads) = has_counted thread.next + counted threads

-- A thread that has counted its error, and will see at least `t` errors or has seen them.
abbrev pub WillDemote : ℕ → Next → Type 0
WillDemote t test_status = ⊥
WillDemote t add_error = ⊥
WillDemote t add_failure = Unit
WillDemote t store_successes = Unit
WillDemote t load_errors = Unit
WillDemote t (test_primary n) = (m : ℕ) × (n ≡ pos m) × (t ≤ m)
WillDemote t store_priority = Unit
WillDemote t filter_healthy = ⊥
WillDemote t report_demotion = ⊥
WillDemote t report_failover = ⊥
WillDemote t returned = ⊥

abbrev pub WillFilter : Next → Type 0
WillFilter filter_healthy = Unit
WillFilter _ = ⊥

-- One thread of a list has made a step.
pub data Stepped (a b : Thread) : List Thread → List Thread → Type 0 where
  head : {xs : List Thread} → Stepped a b (a ∷ xs) (b ∷ xs)
  later : {xs ys : List Thread} (x : Thread) → Stepped a b xs ys → Stepped a b (x ∷ xs) (x ∷ ys)

-- A thread that handles a server error.
abbrev pub IsServerError : Thread → Type 0
IsServerError thread = 500 ≤ thread.status

pub Stepped-IsServerError :
    {a b : Thread} {xs ys : List Thread}
    → Stepped a b xs ys
    → (IsServerError a → IsServerError b)
    → All IsServerError xs
    → IsServerError a × All IsServerError ys
Stepped-IsServerError head f (h, hs) = (h, (f h, hs))
Stepped-IsServerError (later x s) f (h, hs) =
    let (k, ks) = Stepped-IsServerError s f hs in (k, (h, ks))

pub Stepped-counted :
    {a b : Thread} {xs ys : List Thread}
    → Stepped a b xs ys
    → counted ys + has_counted a.next ≡ counted xs + has_counted b.next
Stepped-counted head = omega arith
Stepped-counted (later x s) = omega (arith, Stepped-counted s)

pub Stepped-length :
    {a b : Thread} {xs ys : List Thread} → Stepped a b xs ys → length ys ≡ length xs
Stepped-length head = refl
Stepped-length (later x s) = ap suc (Stepped-length s)

pub counted-length : (xs : List Thread) → counted xs ≤ length xs
counted-length [] = omega arith
counted-length (x ∷ xs) = ground (arith, counted-length xs)

-- Where a thread has not counted yet, fewer have than there are.
pub Stepped-room :
    {a b : Thread} {xs ys : List Thread}
    → Stepped a b xs ys
    → has_counted a.next ≡ 0
    → counted xs < length xs
Stepped-room {a} {b} (head {xs}) h = omega (arith, h, counted-length xs)
Stepped-room (later x s) h = ground (arith, Stepped-room s h)

module _ (P : Next → Type 0) where
  pub Some-Stepped :
      {a b : Thread} {xs ys : List Thread} → Stepped a b xs ys → Some P xs → P a.next ⊎ Some P ys
  Some-Stepped head (inl h) = inl h
  Some-Stepped head (inr h) = inr (inr h)
  Some-Stepped (later x s) (inl h) = inr (inl h)
  Some-Stepped (later x s) (inr h) = elim (Some-Stepped s h) [ inl k ↦ inl k | inr k ↦ inr (inr k) ]

  pub Stepped-Some : {a b : Thread} {xs ys : List Thread} → Stepped a b xs ys → P b.next → Some P ys
  Stepped-Some head h = inl h
  Stepped-Some (later x s) h = inr (Stepped-Some s h)
