-- ===== src/Balancer/Tests/Requests.antt =====
-- Requests and failed attempts on two nodes: cmd/loadbalancer/http_handler.go.
use consensus_proxy.Base.{
  ℕ, take, ◌≤◌, true, false, List, [], ◌∷◌, pos, length, ◌≡◌, refl, inl, arith, ◌==◌, if◌then◌else◌,
}
use consensus_proxy.Http.{fresh_writer, http_error}
use consensus_proxy.Http.Headers.{lookup}
use consensus_proxy.Balancer.Errors.{name_of, without_name, handle_node_error}
use consensus_proxy.Balancer.Errors.Threshold.{failures, Counts, failures_demote}
use consensus_proxy.Balancer.Recorder.{
  Call, status, chunk, header_values, new_recorder, record_calls, copy_to_response_writer,
}
use consensus_proxy.Balancer.Recorder.Laws.{
  first_status, direct_calls, copy-record_calls, record_calls_informational,
}
use consensus_proxy.Balancer.Requests.{Environment, handle_http_request, recorder_of}
use consensus_proxy.Balancer.Requests.Laws.{IsAnswer, handle_http_request-IsAnswer}
use consensus_proxy.Balancer.Requests.Order.{
  handle_http_request-first_success, handle_http_request-exhausted, handle_http_request-silent,
}
use consensus_proxy.Balancer.Requests.Attempts.{
  attempted, then_names, handle_http_request-attempted,
}
use consensus_proxy.Balancer.Tests.{two_nodes}

-- The node 0 answers 503, the node 1 answers 200.
abbrev second_answers : Environment
second_answers = record {
  expired = λ i. false;
  elapsed = λ i. 0;
  calls = λ i p. if p == 0 then status 503 ∷ [] else status 200 ∷ chunk (1 ∷ 2 ∷ []) ∷ [];
  attempt_duration = λ i. 4;
  total_duration = 9;
}

abbrev none_answers : Environment
none_answers = record second_answers { calls = λ i p. status 500 ∷ [] }

-- The time is up after the first attempt.
abbrev late : Environment
late = record none_answers { expired = λ i. if i == 0 then false else true }

first_success_example :
    let s = handle_http_request second_answers two_nodes fresh_writer in
    (s.writer ≡ copy_to_response_writer (recorder_of second_answers 1 1) fresh_writer)
    × ((s.balancer.heap 1).consecutive_errors ≡ pos 0)
unfolding record_calls
first_success_example =
    handle_http_request-first_success second_answers 3 1 1 (0 ∷ []) [] two_nodes fresh_writer refl
      refl refl (omega arith) (λ j h. (refl, refl)) (refl, tt) refl

exhausted_example :
    (handle_http_request none_answers two_nodes fresh_writer).writer
    ≡ http_error "All beacon nodes unavailable" 502 fresh_writer
unfolding record_calls
exhausted_example =
    handle_http_request-exhausted none_answers 3 2 (0 ∷ 1 ∷ []) [] two_nodes fresh_writer refl refl
      refl (omega arith) (λ j h. (refl, refl)) (refl, (refl, tt)) (inl refl)

silent_example : (handle_http_request late two_nodes fresh_writer).writer ≡ fresh_writer
unfolding record_calls
silent_example =
    handle_http_request-silent late 3 1 1 (0 ∷ []) [] two_nodes fresh_writer refl refl refl
      (omega arith) (λ j h. (ground arith, refl)) (refl, tt) refl

answer_example :
    IsAnswer none_answers (handle_http_request none_answers two_nodes fresh_writer).writer.status
answer_example = handle_http_request-IsAnswer none_answers two_nodes fresh_writer refl

attempts_example :
    (n : ℕ) × (n ≤ 3)
    × (n ≤ length two_nodes.healthy_nodes)
    × (attempted (handle_http_request none_answers two_nodes fresh_writer).balancer.metrics
        ≡ then_names
            (name_of two_nodes)
            (take n two_nodes.healthy_nodes)
            (attempted two_nodes.metrics))
attempts_example = handle_http_request-attempted none_answers 3 two_nodes fresh_writer refl

two_nodes-Counts : Counts 0 0 5 two_nodes
two_nodes-Counts = record { primary = refl; errors = refl; threshold = refl; small = omega arith }

demote_example :
    let lb' = handle_node_error 0 502 (failures 0 (500 ∷ 500 ∷ 500 ∷ 500 ∷ []) two_nodes) in
    ((lb'.heap 0).priority ≡ length two_nodes.nodes)
    × (lb'.healthy_nodes ≡ without_name two_nodes (name_of two_nodes 0) two_nodes.healthy_nodes)
demote_example =
    failures_demote 0 0 5 502 (500 ∷ 500 ∷ 500 ∷ 500 ∷ []) two_nodes two_nodes-Counts
      (omega arith, (omega arith, (omega arith, (omega arith, tt)))) (omega arith) (omega arith)

abbrev answer : List Call
answer = header_values "Etag" ("x" ∷ []) ∷ status 200 ∷ chunk (5 ∷ []) ∷ chunk (6 ∷ 7 ∷ []) ∷ []

copy_example :
    let w = copy_to_response_writer (record_calls new_recorder answer) fresh_writer in
    let direct = direct_calls fresh_writer answer in
    (w.status ≡ direct.status)
    × (w.body ≡ direct.body)
    × (lookup "Etag" w.header ≡ lookup "Etag" direct.header)
unfolding first_status
copy_example = copy-record_calls answer "Etag" tt (omega arith, tt) (λ e. ground (arith, e))

informational_example : (record_calls new_recorder (status 103 ∷ status 200 ∷ [])).status_code ≡ 103
informational_example = record_calls_informational 103 (status 200 ∷ []) (omega arith) (omega arith)
