-- ===== src/Handlers.antt =====
-- cmd/handlers: the CORS wrapper and the health endpoint. A wrapped handler is any effect on a state
-- and on the client's writer.
pub mod Laws
pub mod Tests
use consensus_proxy.Base.{◌*◌, ◌/◌, ◌-◌, String, List, [], ◌∷◌, str_eq, if◌then◌else◌}
use consensus_proxy.Http.{Writer, write_header, write, bytes_of}
use consensus_proxy.Http.Headers.{Header, header_set}

-- An `http.Handler` for a request, over the state that it changes.
abbrev pub Handler : Type 0 → Type 0
Handler S = S → Writer → S × Writer

-- The headers that `NewCORSHandler` sets, in order.
abbrev pub cors_headers : List (String × String)
cors_headers =
    ("X-Content-Type-Options", "nosniff")
    ∷ ("X-Frame-Options", "DENY")
    ∷ ("X-XSS-Protection", "1; mode=block")
    ∷ ("Referrer-Policy", "strict-origin-when-cross-origin")
    ∷ ("Content-Security-Policy", "default-src 'self'")
    ∷ ("Access-Control-Allow-Origin", "*")
    ∷ ("Access-Control-Allow-Methods", "GET, POST, PUT, DELETE, OPTIONS")
    ∷ ("Access-Control-Allow-Headers", "Content-Type, Authorization")
    ∷ []

unfoldable pub set_all : List (String × String) → Header → Header
set_all [] h = h
set_all ((k, v) ∷ kvs) h = set_all kvs (header_set k v h)

-- The handler that `NewCORSHandler` returns, for a request's method.
unfoldable pub cors_handler : {S : Type 0} → Handler S → String → Handler S
unfolding set_all
cors_handler next method s w =
    let w' = record w { header = set_all cors_headers w.header } in
    if str_eq method "OPTIONS" then (s, w') else next s w'

-- `HealthzHandler`
unfoldable pub healthz_handler : Writer → Writer
healthz_handler w =
    let w' = record w { header = header_set "Content-Type" "application/json" w.header } in
    write (bytes_of "{\"status\":\"ok\"}") (write_header 200 w')
