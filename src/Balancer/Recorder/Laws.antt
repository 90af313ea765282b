-- ===== src/Balancer/Recorder/Laws.antt =====
-- cmd/loadbalancer/response_recorder.go: the recorder against a writer that takes the same calls
-- directly.
use consensus_proxy.Base.{
  ℕ, ◌<◌, ◌≤◌, String, List, [], ◌∷◌, ◌++◌, eq_iff, if◌then◌else◌, ◌≡◌, refl, ◌≢◌, arith, ◌==◌,
  none, some, ◌⊎◌, inl, inr, ◌||◌, append-nil, append_assoc,
}
use consensus_proxy.Http.{Bytes, Writer, is_informational, fresh_writer, write_header, write}
use consensus_proxy.Http.Headers.{Header, IsMap, insert, lookup, lookup-insert, insert-IsMap}
use consensus_proxy.Balancer.Recorder.{
  ResponseRecorder, new_recorder, Call, header_values, status, chunk, record_call, record_calls,
  copy_headers, copy_to_response_writer,
}

-- The first status that is written, where a chunk stands for the status 200; 0 if there is none.
unfoldable pub first_status : List Call → ℕ
first_status [] = 0
first_status (header_values k vs ∷ cs) = first_status cs
first_status (status c ∷ cs) = if c == 0 then first_status cs else c
first_status (chunk b ∷ cs) = 200

pub written : List Call → Bytes
written [] = []
written (header_values k vs ∷ cs) = written cs
written (status c ∷ cs) = written cs
written (chunk b ∷ cs) = b ++ written cs

record_calls_from :
    (rr : ResponseRecorder) (cs : List Call)
    → ((record_calls rr cs).status_code
        ≡ (if rr.status_code == 0 then first_status cs else rr.status_code))
      × ((record_calls rr cs).body ≡ rr.body ++ written cs)
unfolding record_calls record_call first_status written
record_calls_from rr [] = ground (arith, append-nil rr.body)
record_calls_from rr (header_values k vs ∷ cs) =
    record_calls_from (record_call rr (header_values k vs)) cs
record_calls_from rr (status c ∷ cs) =
    ground (arith, record_calls_from (record_call rr (status c)) cs)
record_calls_from rr (chunk b ∷ cs) =
    ground
      (arith, record_calls_from (record_call rr (chunk b)) cs, append_assoc rr.body b (written cs))

-- A recorder keeps the first status and all the bytes, in order.
pub record_calls_lem :
    (cs : List Call)
    → ((record_calls new_recorder cs).status_code ≡ first_status cs)
      × ((record_calls new_recorder cs).body ≡ written cs)
record_calls_lem cs = record_calls_from new_recorder cs

-- The same call on the client's writer: a header that is set after the status is not sent.
pub direct_call : Writer → Call → Writer
direct_call w (header_values k vs) =
    if w.status == 0 then record w { header = insert k vs w.header } else w
direct_call w (status c) = write_header c w
direct_call w (chunk b) = write b w

pub direct_calls : Writer → List Call → Writer
direct_calls w [] = w
direct_calls w (c ∷ cs) = direct_calls (direct_call w c) cs

abbrev pub NoHeaders : List Call → Type 0
NoHeaders [] = Unit
NoHeaders (header_values k vs ∷ cs) = ⊥
NoHeaders (_ ∷ cs) = NoHeaders cs

-- Every header is set before the status and the first chunk.
abbrev pub HeadersFirst : List Call → Type 0
HeadersFirst [] = Unit
HeadersFirst (header_values k vs ∷ cs) = HeadersFirst cs
HeadersFirst (status c ∷ cs) = NoHeaders cs
HeadersFirst (chunk b ∷ cs) = NoHeaders cs

-- No status is informational.
abbrev pub AllFinal : List Call → Type 0
AllFinal [] = Unit
AllFinal (status c ∷ cs) = (200 ≤ c) × AllFinal cs
AllFinal (_ ∷ cs) = AllFinal cs

-- A recorder and a writer that took the same calls.
record Agree (rr : ResponseRecorder) (w : Writer) : Type 0 where
  status : rr.status_code ≡ w.status
  body : rr.body ≡ w.body
  header : rr.header ≡ w.header
  map_keys : IsMap rr.header

Agree-later :
    (rr : ResponseRecorder) (w : Writer) (cs : List Call)
    → Agree rr w
    → NoHeaders cs
    → AllFinal cs
    → Agree (record_calls rr cs) (direct_calls w cs)
unfolding record_calls record_call direct_calls direct_call write write_header
Agree-later rr w [] a h f = a
Agree-later rr w (header_values k vs ∷ cs) a h f = absurd h
Agree-later rr w (status c ∷ cs) a h f =
    Agree-later (record_call rr (status c)) (direct_call w (status c)) cs (ground arith) h f.1
Agree-later rr w (chunk b ∷ cs) a h f =
    Agree-later (record_call rr (chunk b)) (direct_call w (chunk b)) cs (ground arith) h f

Agree-first :
    (rr : ResponseRecorder) (w : Writer) (cs : List Call)
    → Agree rr w
    → rr.status_code ≡ 0
    → HeadersFirst cs
    → AllFinal cs
    → Agree (record_calls rr cs) (direct_calls w cs)
unfolding record_calls record_call direct_calls direct_call write write_header
Agree-first rr w [] a z h f = a
Agree-first rr w (header_values k vs ∷ cs) a z h f =
    Agree-first (record_call rr (header_values k vs)) (direct_call w (header_values k vs)) cs
      (ground (arith, insert-IsMap k vs rr.header)) z h f
Agree-first rr w (status c ∷ cs) a z h f =
    Agree-later (record_call rr (status c)) (direct_call w (status c)) cs (ground arith) h f.1
Agree-first rr w (chunk b ∷ cs) a z h f =
    Agree-later (record_call rr (chunk b)) (direct_call w (chunk b)) cs (ground arith) h f

lookup-nil : (k : String) → lookup k [] ≡ none
unfolding lookup
lookup-nil k = refl

lookup-copy_headers :
    (j : String) (from to : Header)
    → IsMap from
    → lookup j (copy_headers from to)
      ≡ (elim (lookup j from) [ none ↦ lookup j to | some v ↦ some v ])
unfolding copy_headers lookup
lookup-copy_headers j [] to m = refl
lookup-copy_headers j ((k, v) ∷ from) to m =
    ground
      (arith, lookup-copy_headers j from (insert k v to) m.1, lookup-insert j k v to, eq_iff k j)

first_status-IsFinal :
    (cs : List Call) → AllFinal cs → (first_status cs ≡ 0) ⊎ (200 ≤ first_status cs)
unfolding first_status
first_status-IsFinal [] f = inl refl
first_status-IsFinal (header_values k vs ∷ cs) f = first_status-IsFinal cs f
first_status-IsFinal (status c ∷ cs) f = inr (ground (arith, f.0))
first_status-IsFinal (chunk b ∷ cs) f = inr (omega arith)

-- What the client gets from a recorded response is what it would get with no recorder in between,
-- if the node answers, sends no informational status, and sets its headers before the status and
-- the body: status, body and every header.
pub copy-record_calls :
    (cs : List Call) (k : String)
    → HeadersFirst cs
    → AllFinal cs
    → first_status cs ≢ 0
    → let w = copy_to_response_writer (record_calls new_recorder cs) fresh_writer in
      let direct = direct_calls fresh_writer cs in
      (w.status ≡ direct.status)
      × (w.body ≡ direct.body)
      × (lookup k w.header ≡ lookup k direct.header)
unfolding copy_to_response_writer write write_header
copy-record_calls cs k h final sent =
    let rr = record_calls new_recorder cs in
    let direct = direct_calls fresh_writer cs in
    let fresh : Agree new_recorder fresh_writer = record {
      status = refl;
      body = refl;
      header = refl;
      map_keys = tt;
    } in
    let a : Agree rr direct = Agree-first new_recorder fresh_writer cs fresh refl h final in
    let nothing : lookup k [] ≡ none = lookup-nil k in
    ground (
      arith,
      a.status,
      a.body,
      a.header,
      record_calls_lem cs,
      lookup-copy_headers k rr.header [] a.map_keys,
      nothing,
      first_status-IsFinal cs final,
    )

-- A copy sends the recorded status, and 200 where none was recorded, or an informational one.
pub copy_to_response_writer-status :
    (rr : ResponseRecorder) (w : Writer)
    → w.status ≡ 0
    → (copy_to_response_writer rr w).status
      ≡ (if rr.status_code == 0 || is_informational rr.status_code then 200 else rr.status_code)
unfolding copy_to_response_writer write write_header
copy_to_response_writer-status rr w h = ground arith

-- The bug: the recorder takes an informational status for the final one. Whatever calls follow it,
-- the recorded status stays what it is.
pub record_calls_informational :
    (c : ℕ) (cs : List Call)
    → 100 ≤ c
    → c < 200
    → (record_calls new_recorder (status c ∷ cs)).status_code ≡ c
unfolding first_status
record_calls_informational c cs lo hi = ground (arith, record_calls_lem (status c ∷ cs))
