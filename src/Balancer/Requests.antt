-- ===== src/Balancer/Requests.antt =====
-- cmd/loadbalancer/http_handler.go: a request is tried on the healthy nodes in turn. The clock,
-- the request's context and what each node's reverse proxy does are an `Environment`.
pub mod Laws
pub mod Trimming
pub mod Order
pub mod Bounds
pub mod Attempts
use consensus_proxy.Base.{
  ℕ, suc, ◌+◌, Bool, List, [], ◌∷◌, leb, ltb, leb_ℤ, pos, if◌then◌else◌, All, ◌&&◌,
}
use consensus_proxy.Http.{Writer, http_error}
use consensus_proxy.Node.{increment_requests, reset_errors}
use consensus_proxy.Balancer.{
  LoadBalancer, modify, emit, incr, timing, text, number, get_healthy_nodes,
}
use consensus_proxy.Balancer.Errors.{
  name_of, handle_node_error, http_status_success_min, http_status_success_max,
}
use consensus_proxy.Balancer.Recorder.{
  ResponseRecorder, new_recorder, Call, record_calls, copy_to_response_writer,
}

pub record Environment : Type 0 where
  -- Whether the overall context is done when attempt `i` is about to start.
  pub expired : ℕ → Bool
  -- `time.Since(start)` when attempt `i` computes the time that remains.
  pub elapsed : ℕ → ℕ
  -- The calls on the recorder in attempt `i` on the node at `p`.
  pub calls : ℕ → ℕ → List Call
  pub attempt_duration : ℕ → ℕ
  pub total_duration : ℕ

-- The balancer afterwards and the client's writer.
pub record Served : Type 0 where
  pub balancer : LoadBalancer
  pub writer : Writer

-- The success test.
abbrev pub is_success : ℕ → Bool
is_success status = leb http_status_success_min status && ltb status http_status_success_max

module _ (env : Environment) where
  -- `attemptNodeRequest`: the recorder of attempt `i` on the node at `p`.
  abbrev pub recorder_of : ℕ → ℕ → ResponseRecorder
  recorder_of i p = record_calls new_recorder (env.calls i p)

  -- `recordAttemptMetrics`
  abbrev pub record_attempt_metrics : ℕ → ℕ → ℕ → LoadBalancer → LoadBalancer
  record_attempt_metrics i p status lb =
      emit
        (timing "request.attempt_duration" (env.attempt_duration i) (
          ("node", text (name_of lb p))
          ∷ ("status_code", number status)
          ∷ ("attempt", number (i + 1))
          ∷ []))
        lb

  -- The request is counted, and the attempt recorded.
  pub attempt : ℕ → ℕ → LoadBalancer → LoadBalancer
  attempt i p lb =
      record_attempt_metrics i p (recorder_of i p).status_code (modify p increment_requests lb)

  -- `handleSuccessResponse`
  pub handle_success_response : ℕ → ResponseRecorder → LoadBalancer → Writer → Served
  handle_success_response p rr lb w =
      let lb' = modify p reset_errors lb in
      let tags =
        ("node", text (name_of lb' p))
        ∷ ("status_code", number rr.status_code)
        ∷ ("result", text "success")
        ∷ [] in
      record {
        balancer =
            emit (incr "request.success" (("node", text (name_of lb' p)) ∷ []))
              (emit (timing "request.duration" env.total_duration tags) lb');
        writer = copy_to_response_writer rr w;
      }

  -- `handleAllNodesFailed`, and the answer 502.
  pub handle_all_nodes_failed : ℕ → LoadBalancer → Writer → Served
  handle_all_nodes_failed last_status lb w =
      let tags =
        ("node", text "all")
        ∷ ("status_code", number last_status)
        ∷ ("result", text "failure")
        ∷ [] in
      record {
        balancer =
            emit (incr "request.failure" [])
              (emit (timing "request.duration" env.total_duration tags) lb);
        writer = http_error "All beacon nodes unavailable" 502 w;
      }

  -- The loop of `handleHTTPRequest` from attempt `i` on, over the rest of the healthy nodes.
  pub attempts : ℕ → List ℕ → ℕ → LoadBalancer → Writer → Served
  unfolding attempt handle_success_response handle_all_nodes_failed
  attempts i [] last_status lb w = handle_all_nodes_failed last_status lb w
  attempts i (p ∷ ps) last_status lb w =
      let rr = recorder_of i p in
      let lb' = attempt i p lb in
      let rest = attempts (suc i) ps rr.status_code (handle_node_error p rr.status_code lb') w in
      if leb_ℤ lb.config.server.max_retries (pos i)
      then handle_all_nodes_failed last_status lb w
      else if env.expired i
      then record { balancer = lb; writer = w }
      else if leb_ℤ lb.config.server.request_timeout (pos (env.elapsed i))
      then record { balancer = lb; writer = http_error "Request timeout" 504 w }
      else if is_success rr.status_code
      then handle_success_response p rr lb' w
      else rest

  -- `handleHTTPRequest`
  pub handle_http_request : LoadBalancer → Writer → Served
  unfolding attempts
  handle_http_request lb w = attempts 0 (get_healthy_nodes lb) 0 lb w
