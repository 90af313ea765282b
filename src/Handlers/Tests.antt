-- ===== src/Handlers/Tests.antt =====
-- Small runs of cmd/handlers.
use consensus_proxy.Base.{ℕ, ◌+◌, String, [], ◌≡◌, ◌≢◌, ◌⊎◌}
use consensus_proxy.Http.{Writer, fresh_writer}
use consensus_proxy.Http.Headers.{header_get}
use consensus_proxy.Handlers.{cors_handler, cors_headers}
use consensus_proxy.Handlers.Laws.{last_given, cors_handler_lem}

abbrev counting : ℕ → Writer → ℕ × Writer
counting n w = (n + 1, w)

abbrev preflight : String
preflight = "OPTIONS"

cors_example :
    (w' : Writer) × (((preflight ≡ "OPTIONS")
        × (cors_handler counting preflight 0 fresh_writer
            ≡ (let out : ℕ × Writer = (0, w') in out)))
      ⊎ ((preflight ≢ "OPTIONS")
          × (cors_handler counting preflight 0 fresh_writer ≡ counting 0 w')))
    × (w'.status ≡ 0)
    × (w'.body ≡ [])
    × ((j : String) → header_get j w'.header ≡ last_given j cors_headers (header_get j []))
cors_example = cors_handler_lem counting preflight 0 fresh_writer
