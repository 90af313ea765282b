-- ===== src/Http.antt =====
-- The part of Go's net/http that the proxy writes to: header maps, the client's `ResponseWriter`
-- and `http.Error`. A header map is an association list whose keys are in canonical form; a body
-- is a list of bytes.
pub mod Headers
pub mod Texts
use Prim.Native.Char.{code}
use consensus_proxy.Base.{
  ℕ, String, List, [], ◌∷◌, ◌++◌, if◌then◌else◌, ◌==◌, arith, ◌≡◌, ◌≤◌, Bool, not, ◌&&◌, leb, ltb,
}
use Headers.{Header, header_set, header_del}

abbrev pub Bytes : Type 0
Bytes = List ℕ

-- The bytes of an ASCII text.
abbrev pub bytes_of : String → Bytes
bytes_of String.[] = []
bytes_of (String.◌∷◌ c s) = code c ∷ bytes_of s

-- A `ResponseWriter`: `status` is 0 until a final status is written.
pub record Writer : Type 0 where
  pub header : Header
  pub status : ℕ
  pub body : Bytes

abbrev pub fresh_writer : Writer
fresh_writer = record { header = []; status = 0; body = [] }

-- A status that is sent at once, and not as the final one.
abbrev pub is_informational : ℕ → Bool
is_informational c = leb 100 c && ltb c 200 && not (c == 101)

-- `WriteHeader`: only the first call with a final status counts. The informational responses
-- before it are not kept.
unfoldable pub write_header : ℕ → Writer → Writer
write_header c w = if w.status == 0 && not (is_informational c) then record w { status = c } else w

-- `Write`: sends the status 200 if none was sent.
unfoldable pub write : Bytes → Writer → Writer
unfolding write_header
write b w = let w' = write_header 200 w in record w' { body = w'.body ++ b }

-- `http.Error`: the message is followed by a newline.
unfoldable pub http_error : String → ℕ → Writer → Writer
unfolding write_header write
http_error message c w =
    let h = header_del "Content-Length" w.header in
    let h' = header_set "Content-Type" "text/plain; charset=utf-8" h in
    let h'' = header_set "X-Content-Type-Options" "nosniff" h' in
    write (bytes_of message ++ (10 ∷ [])) (write_header c (record w { header = h'' }))

pub http_error-status :
    (message : String) (c : ℕ) (w : Writer)
    → w.status ≡ 0
    → 200 ≤ c
    → (http_error message c w).status ≡ c
unfolding http_error
http_error-status message c w h k = ground arith
