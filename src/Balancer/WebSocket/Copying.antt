-- ===== src/Balancer/WebSocket/Copying.antt =====
-- cmd/loadbalancer/websocket_handler.go: the two goroutines of `proxyWebSocketMessages`, one for
-- each direction. A round of a goroutine reads a message from one connection and writes it to the
-- other; what the connections answer comes with the step. The rounds of the two are interleaved in
-- any order; a goroutine ends with its first error.
use consensus_proxy.Base.{
  ℕ, String, Bool, true, false, List, [], ◌∷◌, ◌++◌, if◌then◌else◌, ◌≡◌, refl, ap, ◌∙◌, ◌⊎◌, inl,
  inr, arith, append_assoc,
}
use consensus_proxy.Http.{Bytes}

pub data Direction : Type 0 where
  client_to_upstream upstream_to_client : Direction

abbrev pub Message : Type 0
Message = ℕ × Bytes

-- The errors that the goroutines send.
pub data CopyError : Type 0 where
  client_read_error upstream_write_error upstream_read_error client_write_error : String → CopyError

-- What a round meets.
pub data Round : Type 0 where
  read_fails : String → Round
  write_fails : Message → String → Round
  copies : Message → Round

pub read_error : Direction → String → CopyError
read_error client_to_upstream e = client_read_error e
read_error upstream_to_client e = upstream_read_error e

pub write_error : Direction → String → CopyError
write_error client_to_upstream e = upstream_write_error e
write_error upstream_to_client e = client_write_error e

-- The messages that each side was sent, the errors in the channel, and which goroutines run.
pub record Copied : Type 0 where
  pub to_upstream : List Message
  pub to_client : List Message
  pub errors : List CopyError
  pub client_runs : Bool
  pub upstream_runs : Bool

abbrev pub runs : Direction → Copied → Bool
runs client_to_upstream c = c.client_runs
runs upstream_to_client c = c.upstream_runs

abbrev pub deliver : Direction → Message → Copied → Copied
deliver client_to_upstream m c = record c { to_upstream = c.to_upstream ++ m ∷ [] }
deliver upstream_to_client m c = record c { to_client = c.to_client ++ m ∷ [] }

-- The goroutine sends its error and returns.
abbrev pub stop : Direction → CopyError → Copied → Copied
stop client_to_upstream e c = record c { errors = c.errors ++ e ∷ []; client_runs = false }
stop upstream_to_client e c = record c { errors = c.errors ++ e ∷ []; upstream_runs = false }

pub run_round : Direction → Round → Copied → Copied
unfolding read_error write_error
run_round d (read_fails e) c = stop d (read_error d e) c
run_round d (write_fails m e) c = stop d (write_error d e) c
run_round d (copies m) c = deliver d m c

-- One round of the goroutine of a direction, if it has not returned.
pub copy_round : Direction → Round → Copied → Copied
unfolding run_round
copy_round d r c = if runs d c then run_round d r c else c

-- Rounds in the order in which they happen.
pub copy_messages : List (Direction × Round) → Copied → Copied
unfolding copy_round
copy_messages [] c = c
copy_messages ((d, r) ∷ rs) c = copy_messages rs (copy_round d r c)

-- The messages that one side was sent.
abbrev pub sent : Direction → Copied → List Message
sent client_to_upstream c = c.to_upstream
sent upstream_to_client c = c.to_client

abbrev pub same_direction : Direction → Direction → Bool
same_direction client_to_upstream client_to_upstream = true
same_direction upstream_to_client upstream_to_client = true
same_direction _ _ = false

-- The message that a round reads.
abbrev pub read_by : Round → List Message
read_by (read_fails e) = []
read_by (write_fails m e) = m ∷ []
read_by (copies m) = m ∷ []

-- The messages that are read in a direction, in order.
pub read_in : Direction → List (Direction × Round) → List Message
read_in d [] = []
read_in d ((e, r) ∷ rs) =
    let rest = read_in d rs in if same_direction d e then read_by r ++ rest else rest

abbrev pub IsPrefix : List Message → List Message → Type 0
IsPrefix a b = (rest : List Message) × (a ++ rest ≡ b)

-- A goroutine that has returned sends nothing more.
stopped_round :
    (d e : Direction) (r : Round) (c : Copied)
    → runs d c ≡ false
    → (runs d (copy_round e r c) ≡ false) × (sent d (copy_round e r c) ≡ sent d c)
unfolding copy_round run_round
stopped_round client_to_upstream client_to_upstream r c h = ground arith
stopped_round upstream_to_client upstream_to_client r c h = ground arith
stopped_round client_to_upstream upstream_to_client (read_fails e) c h = ground arith
stopped_round client_to_upstream upstream_to_client (write_fails m e) c h = ground arith
stopped_round client_to_upstream upstream_to_client (copies m) c h = ground arith
stopped_round upstream_to_client client_to_upstream (read_fails e) c h = ground arith
stopped_round upstream_to_client client_to_upstream (write_fails m e) c h = ground arith
stopped_round upstream_to_client client_to_upstream (copies m) c h = ground arith

stopped :
    (d : Direction) (rs : List (Direction × Round)) (c : Copied)
    → runs d c ≡ false
    → sent d (copy_messages rs c) ≡ sent d c
unfolding copy_messages
stopped d [] c h = refl
stopped d ((e, r) ∷ rs) c h =
    let (still, same) = stopped_round d e r c h in stopped d rs (copy_round e r c) still ∙ same

-- A round sends what it reads, or its goroutine has returned.
copy_round-sent :
    (d e : Direction) (r : Round) (c : Copied) (rest : List Message)
    → let c' = copy_round e r c in
      (sent d c' ++ rest ≡ sent d c ++ (if same_direction d e then read_by r ++ rest else rest))
      ⊎ ((runs d c' ≡ false) × (sent d c' ≡ sent d c))
unfolding copy_round run_round
copy_round-sent client_to_upstream client_to_upstream (read_fails e) c rest = ground arith
copy_round-sent client_to_upstream client_to_upstream (write_fails m e) c rest = ground arith
copy_round-sent client_to_upstream client_to_upstream (copies m) c rest =
    ground (arith, append_assoc c.to_upstream (m ∷ []) rest)
copy_round-sent upstream_to_client upstream_to_client (read_fails e) c rest = ground arith
copy_round-sent upstream_to_client upstream_to_client (write_fails m e) c rest = ground arith
copy_round-sent upstream_to_client upstream_to_client (copies m) c rest =
    ground (arith, append_assoc c.to_client (m ∷ []) rest)
copy_round-sent client_to_upstream upstream_to_client (read_fails e) c rest = ground arith
copy_round-sent client_to_upstream upstream_to_client (write_fails m e) c rest = ground arith
copy_round-sent client_to_upstream upstream_to_client (copies m) c rest = ground arith
copy_round-sent upstream_to_client client_to_upstream (read_fails e) c rest = ground arith
copy_round-sent upstream_to_client client_to_upstream (write_fails m e) c rest = ground arith
copy_round-sent upstream_to_client client_to_upstream (copies m) c rest = ground arith

copy_messages-sent :
    (d : Direction) (rs : List (Direction × Round)) (c : Copied)
    → IsPrefix (sent d (copy_messages rs c)) (sent d c ++ read_in d rs)
unfolding copy_messages read_in
copy_messages-sent d [] c = ([], refl)
copy_messages-sent d ((e, r) ∷ rs) c =
    let c' = copy_round e r c in
    let more = (if same_direction d e then read_by r ++ read_in d rs else read_in d rs) in
    elim (copy_round-sent d e r c (read_in d rs)) [
      | inl same ↦ let (rest, split) = copy_messages-sent d rs c' in (rest, split ∙ same)
      | inr (halted, same) ↦
          (more, ap (λ (xs : List Message). xs ++ more) (stopped d rs c' halted ∙ same))
    ]

-- Both goroutines are started.
abbrev pub nothing_copied : Copied
nothing_copied = record {
  to_upstream = [];
  to_client = [];
  errors = [];
  client_runs = true;
  upstream_runs = true;
}

-- However the two goroutines interleave, each side is sent a prefix of what was read from the
-- other: the messages as they are, in order, with none left out and none repeated.
pub copy_messages-IsPrefix :
    (d : Direction) (rs : List (Direction × Round))
    → IsPrefix (sent d (copy_messages rs nothing_copied)) (read_in d rs)
copy_messages-IsPrefix client_to_upstream rs =
    copy_messages-sent client_to_upstream rs nothing_copied
copy_messages-IsPrefix upstream_to_client rs =
    copy_messages-sent upstream_to_client rs nothing_copied
