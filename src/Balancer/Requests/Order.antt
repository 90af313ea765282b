-- ===== src/Balancer/Requests/Order.antt =====
-- cmd/loadbalancer/http_handler.go: the order in which `handleHTTPRequest` tries the nodes.
use consensus_proxy.Base.{
  ℕ, suc, ◌+◌, ◌<◌, ◌≤◌, true, false, List, [], ◌∷◌, ◌++◌, leb_ℤ, pos, length, ◌≡◌, refl, ap, ◌∙◌,
  ◌≢◌, ◌⊎◌, arith,
}
use consensus_proxy.Balancer.{LoadBalancer}
use consensus_proxy.Balancer.Errors.{name_of, handle_node_error}
use consensus_proxy.Balancer.Errors.Laws.{handle_node_error_frame}
use consensus_proxy.Balancer.Recorder.{copy_to_response_writer}
use consensus_proxy.Balancer.Requests.{
  Environment, is_success, recorder_of, attempt, attempts, handle_http_request,
  handle_success_response, handle_all_nodes_failed,
}
use consensus_proxy.Http.{Writer, http_error}

pub attempt_frame :
    (env : Environment) (i p q : ℕ) (lb : LoadBalancer)
    → let lb' = attempt env i p lb in
      (q ≢ p → lb'.heap q ≡ lb.heap q)
      × (name_of lb' q ≡ name_of lb q)
      × ((lb'.heap q).original_priority ≡ (lb.heap q).original_priority)
      × ((lb'.heap q).priority ≡ (lb.heap q).priority)
      × (lb'.nodes ≡ lb.nodes)
      × (lb'.config ≡ lb.config)
      × (lb'.healthy_nodes ≡ lb.healthy_nodes)
unfolding attempt
attempt_frame env i p q lb = ground arith

module _ (env : Environment) where
  -- A failed attempt, with what it does to the balancer.
  pub failed_attempt : ℕ → ℕ → LoadBalancer → LoadBalancer
  failed_attempt i p lb = handle_node_error p (recorder_of env i p).status_code (attempt env i p lb)

  -- Failed attempts on these nodes, numbered from `i`.
  pub failed_attempts : ℕ → List ℕ → LoadBalancer → LoadBalancer
  failed_attempts i [] lb = lb
  failed_attempts i (p ∷ ps) lb = failed_attempts (suc i) ps (failed_attempt i p lb)

  -- Each of the nodes fails in its attempt.
  abbrev pub Fail : ℕ → List ℕ → Type 0
  Fail i [] = Unit
  Fail i (p ∷ ps) = (is_success (recorder_of env i p).status_code ≡ false) × Fail (suc i) ps

  -- No deadline passes before the attempts below `n` start.
  abbrev pub InTime : LoadBalancer → ℕ → Type 0
  InTime lb n =
      (j : ℕ)
      → j < n
      → (env.expired j ≡ false)
        × (leb_ℤ lb.config.server.request_timeout (pos (env.elapsed j)) ≡ false)

  failed_attempt-config : (i p : ℕ) (lb : LoadBalancer) → (failed_attempt i p lb).config ≡ lb.config
  unfolding failed_attempt
  failed_attempt-config i p lb = ground (
    arith,
    attempt_frame env i p p lb,
    handle_node_error_frame p (recorder_of env i p).status_code p (attempt env i p lb),
  )

  -- One failed round of the loop.
  attempts-fail :
      (m i last p : ℕ) (ps : List ℕ) (lb : LoadBalancer) (w : Writer)
      → lb.config.server.max_retries ≡ pos m
      → i < m
      → (env.expired i ≡ false)
        × (leb_ℤ lb.config.server.request_timeout (pos (env.elapsed i)) ≡ false)
      → is_success (recorder_of env i p).status_code ≡ false
      → attempts env i (p ∷ ps) last lb w
        ≡ attempts env (suc i) ps (recorder_of env i p).status_code (failed_attempt i p lb) w
  unfolding attempts failed_attempt
  attempts-fail m i last p ps lb w hm hi ht hf = ground arith

  attempts-first_success :
      (m i n last p : ℕ) (before after : List ℕ) (lb : LoadBalancer) (w : Writer)
      → lb.config.server.max_retries ≡ pos m
      → i + length before ≡ n
      → n < m
      → InTime lb (n + 1)
      → Fail i before
      → is_success (recorder_of env n p).status_code ≡ true
      → attempts env i (before ++ p ∷ after) last lb w
        ≡ handle_success_response env p
            (recorder_of env n p)
            (attempt env n p (failed_attempts i before lb))
            w
  unfolding attempts failed_attempts
  attempts-first_success m i n last p [] after lb w hm e hi ht hf hs =
      let here : i ≡ n = omega arith in rw here (ground (arith, ht n (omega arith)))
  attempts-first_success m i n last p (q ∷ before) after lb w hm e hi ht hf hs =
      let same : (failed_attempt i q lb).config ≡ lb.config = failed_attempt-config i q lb in
      let now : (env.expired i ≡ false)
          × (leb_ℤ lb.config.server.request_timeout (pos (env.elapsed i)) ≡ false) =
        ht i (omega arith) in
      attempts-fail m i last q (before ++ p ∷ after) lb w hm (omega arith) now hf.0
      ∙ attempts-first_success m (suc i) n (recorder_of env i q).status_code p before after
          (failed_attempt i q lb) w (rw same hm) (omega arith) hi (λ j h. rw same (ht j h)) hf.1 hs

  last_status : ℕ → List ℕ → ℕ → ℕ
  last_status i [] last = last
  last_status i (p ∷ ps) last = last_status (suc i) ps (recorder_of env i p).status_code

  attempts-exhausted :
      (m i n last : ℕ) (tried rest : List ℕ) (lb : LoadBalancer) (w : Writer)
      → lb.config.server.max_retries ≡ pos m
      → i + length tried ≡ n
      → n ≤ m
      → InTime lb n
      → Fail i tried
      → (rest ≡ []) ⊎ (n ≡ m)
      → attempts env i (tried ++ rest) last lb w
        ≡ handle_all_nodes_failed env (last_status i tried last) (failed_attempts i tried lb) w
  unfolding attempts failed_attempts last_status
  attempts-exhausted m i n last [] [] lb w hm e hi ht hf end = refl
  attempts-exhausted m i n last [] (q ∷ rest) lb w hm e hi ht hf end =
      let full : leb_ℤ lb.config.server.max_retries (pos i) ≡ true = ground arith in rw full
  attempts-exhausted m i n last (q ∷ tried) rest lb w hm e hi ht hf end =
      let same : (failed_attempt i q lb).config ≡ lb.config = failed_attempt-config i q lb in
      let now : (env.expired i ≡ false)
          × (leb_ℤ lb.config.server.request_timeout (pos (env.elapsed i)) ≡ false) =
        ht i (omega arith) in
      attempts-fail m i last q (tried ++ rest) lb w hm (omega arith) now hf.0
      ∙ attempts-exhausted m (suc i) n (recorder_of env i q).status_code tried rest
          (failed_attempt i q lb) w (rw same hm) (omega arith) hi (λ j h. rw same (ht j h)) hf.1 end

  -- The client gets the recorded response of the first healthy node that succeeds, if its place is
  -- below the limit on attempts and no deadline passes before; that node's error run ends.
  pub handle_http_request-first_success :
      (m n p : ℕ) (before after : List ℕ) (lb : LoadBalancer) (w : Writer)
      → lb.config.server.max_retries ≡ pos m
      → lb.healthy_nodes ≡ before ++ p ∷ after
      → length before ≡ n
      → n < m
      → InTime lb (n + 1)
      → Fail 0 before
      → is_success (recorder_of env n p).status_code ≡ true
      → let s = handle_http_request env lb w in
        (s.writer ≡ copy_to_response_writer (recorder_of env n p) w)
        × ((s.balancer.heap p).consecutive_errors ≡ pos 0)
  unfolding handle_http_request handle_success_response
  handle_http_request-first_success m n p before after lb w hm hl hn hi ht hf hs =
      rw
        (ap (λ ps. attempts env 0 ps 0 lb w) hl
          ∙ attempts-first_success m 0 n 0 p before after lb w hm (omega arith) hi ht hf hs)
        (refl, ground arith)

  -- The client gets the status 502 if every healthy node within the limit on attempts fails, and no
  -- deadline passes before the last of these attempts starts.
  pub handle_http_request-exhausted :
      (m n : ℕ) (tried rest : List ℕ) (lb : LoadBalancer) (w : Writer)
      → lb.config.server.max_retries ≡ pos m
      → lb.healthy_nodes ≡ tried ++ rest
      → length tried ≡ n
      → n ≤ m
      → InTime lb n
      → Fail 0 tried
      → (rest ≡ []) ⊎ (n ≡ m)
      → (handle_http_request env lb w).writer ≡ http_error "All beacon nodes unavailable" 502 w
  unfolding handle_http_request handle_all_nodes_failed
  handle_http_request-exhausted m n tried rest lb w hm hl hn hi ht hf end =
      ap (λ s. s.writer)
        (ap (λ ps. attempts env 0 ps 0 lb w) hl
          ∙ attempts-exhausted m 0 n 0 tried rest lb w hm (omega arith) hi ht hf end)

  attempts-silent :
      (m i n last p : ℕ) (before after : List ℕ) (lb : LoadBalancer) (w : Writer)
      → lb.config.server.max_retries ≡ pos m
      → i + length before ≡ n
      → n < m
      → InTime lb n
      → Fail i before
      → env.expired n ≡ true
      → (attempts env i (before ++ p ∷ after) last lb w).writer ≡ w
  unfolding attempts
  attempts-silent m i n last p [] after lb w hm e hi ht hf late =
      let here : i ≡ n = omega arith in rw here (ground arith)
  attempts-silent m i n last p (q ∷ before) after lb w hm e hi ht hf late =
      let same : (failed_attempt i q lb).config ≡ lb.config = failed_attempt-config i q lb in
      let now : (env.expired i ≡ false)
          × (leb_ℤ lb.config.server.request_timeout (pos (env.elapsed i)) ≡ false) =
        ht i (omega arith) in
      ap (λ s. s.writer)
        (attempts-fail m i last q (before ++ p ∷ after) lb w hm (omega arith) now hf.0)
      ∙ attempts-silent m (suc i) n (recorder_of env i q).status_code p before after
          (failed_attempt i q lb) w (rw same hm) (omega arith) hi (λ j h. rw same (ht j h)) hf.1
          late

  -- The bug: when the request's time is up before an attempt starts, nothing is written. After any
  -- number of failed attempts in time, where one more is allowed and a healthy node is left, the
  -- client's writer is as it was.
  pub handle_http_request-silent :
      (m n p : ℕ) (before after : List ℕ) (lb : LoadBalancer) (w : Writer)
      → lb.config.server.max_retries ≡ pos m
      → lb.healthy_nodes ≡ before ++ p ∷ after
      → length before ≡ n
      → n < m
      → InTime lb n
      → Fail 0 before
      → env.expired n ≡ true
      → (handle_http_request env lb w).writer ≡ w
  unfolding handle_http_request
  handle_http_request-silent m n p before after lb w hm hl hn hi ht hf late =
      ap (λ ps. (attempts env 0 ps 0 lb w).writer) hl
      ∙ attempts-silent m 0 n 0 p before after lb w hm (omega arith) hi ht hf late
