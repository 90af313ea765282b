-- ===== src/Balancer/Recorder.antt =====
-- cmd/loadbalancer/response_recorder.go: the response of one attempt is recorded, and copied to
-- the client when the attempt succeeds. What the reverse proxy does with the recorder is a list
-- of calls.
pub mod Laws
use consensus_proxy.Base.{ℕ, String, List, [], ◌∷◌, ◌++◌, if◌then◌else◌, ◌==◌, length}
use consensus_proxy.Http.{Bytes, Writer, write_header, write}
use consensus_proxy.Http.Headers.{Header, insert}

pub record ResponseRecorder : Type 0 where
  pub status_code : ℕ
  pub header : Header
  pub body : Bytes

abbrev pub new_recorder : ResponseRecorder
new_recorder = record { status_code = 0; header = []; body = [] }

-- `WriteHeader`
pub rr_write_header : ℕ → ResponseRecorder → ResponseRecorder
rr_write_header c rr = if rr.status_code == 0 then record rr { status_code = c } else rr

-- `Write`, with the number of bytes taken.
pub rr_write : Bytes → ResponseRecorder → ResponseRecorder × ℕ
rr_write b rr =
    let rr' = (if rr.status_code == 0 then record rr { status_code = 200 } else rr) in
    (record rr' { body = rr'.body ++ b }, length b)

-- A call on a `ResponseWriter`; `header_values` is an assignment to the map that `Header` returns.
pub data Call : Type 0 where
  header_values : String → List String → Call
  status : ℕ → Call
  chunk : Bytes → Call

pub record_call : ResponseRecorder → Call → ResponseRecorder
unfolding rr_write_header rr_write
record_call rr (header_values k vs) = record rr { header = insert k vs rr.header }
record_call rr (status c) = rr_write_header c rr
record_call rr (chunk b) = (rr_write b rr).0

unfoldable pub record_calls : ResponseRecorder → List Call → ResponseRecorder
unfolding record_call
record_calls rr [] = rr
record_calls rr (c ∷ cs) = record_calls (record_call rr c) cs

-- `for k, v := range rr.header { w.Header()[k] = v }`
pub copy_headers : Header → Header → Header
copy_headers [] to = to
copy_headers ((k, v) ∷ from) to = copy_headers from (insert k v to)

-- `copyToResponseWriter`
pub copy_to_response_writer : ResponseRecorder → Writer → Writer
copy_to_response_writer rr w =
    let w' = record w { header = copy_headers rr.header w.header } in
    write rr.body (if rr.status_code == 0 then w' else write_header rr.status_code w')
