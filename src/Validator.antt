-- ===== src/Validator.antt =====
-- cmd/validator/validator.go: the endpoint patterns, their compilation and the check of a path.
-- Paths and patterns are lists of code points. `regexp` is modelled for what the patterns use:
-- `^`, literal characters, `[^/]+` and `$`.
pub mod Patterns
pub mod Matching
pub mod Paths
pub mod Accepting
pub mod Slashes
pub mod Tests
use consensus_proxy.Base.{
  ℕ, zero, suc, ◌+◌, String, Bool, true, false, not, ◌&&◌, ◌||◌, List, [], ◌∷◌, ◌++◌, ◌==◌,
  if◌then◌else◌, leb, map, exists,
}
use consensus_proxy.Http.{Bytes, bytes_of}
use Patterns.{patterns}

-- A piece of a compiled pattern: a character, or one or more characters other than a slash.
pub data Piece : Type 0 where
  char : ℕ → Piece
  segment : Piece

abbrev pub slash : ℕ
slash = b'/'

abbrev has_prefix : Bytes → Bytes → Bool
has_prefix [] s = true
has_prefix (c ∷ p) [] = false
has_prefix (c ∷ p) (d ∷ s) = c == d && has_prefix p s

-- A pattern's text after its `^`, with the number of characters that a piece has yet to skip.
compile_body : ℕ → Bytes → List Piece
compile_body skip [] = []
compile_body (suc k) (c ∷ s) = compile_body k s
compile_body zero (c ∷ s) = elim (has_prefix (bytes_of "[^/]+") (c ∷ s)) [
  | true ↦ segment ∷ compile_body 4 s
  | false ↦ elim (c == b'$') [ true ↦ [] | false ↦ char c ∷ compile_body zero s ]
]

-- `regexp.MustCompile`, for a pattern between `^` and `$`.
unfoldable pub compile : String → List Piece
unfolding compile_body
compile p = compile_body 1 (bytes_of p)

pub record BeaconEndpointValidator : Type 0 where
  pub valid_paths : List (List Piece)

-- `NewBeaconEndpointValidator`
unfoldable pub new_beacon_endpoint_validator : BeaconEndpointValidator
unfolding compile
new_beacon_endpoint_validator = record { valid_paths = map compile patterns }

-- `MatchString`, for a pattern that spans the whole text.
unfoldable pub match_string : List Piece → Bytes → Bool
match_string [] [] = true
match_string [] (d ∷ s) = false
match_string (char c ∷ ps) [] = false
match_string (char c ∷ ps) (d ∷ s) = c == d && match_string ps s
match_string (segment ∷ ps) [] = false
match_string (segment ∷ ps) (d ∷ s) =
    not (d == slash) && (match_string ps s || match_string (segment ∷ ps) s)

-- `unicode.IsSpace`
unfoldable pub is_space : ℕ → Bool
is_space c =
    leb 9 c && leb c 13
    || (c == 32
        || (c == 0x85
            || (c == 0xa0
                || (c == 0x1680
                    || (leb 0x2000 c && leb c 0x200a
                        || (c == 0x2028
                            || (c == 0x2029 || (c == 0x202f || (c == 0x205f || c == 0x3000)))))))))

unfoldable pub trim_left : (ℕ → Bool) → Bytes → Bytes
trim_left p [] = []
trim_left p (c ∷ s) = if p c then trim_left p s else c ∷ s

-- A character in front of a trimmed rest.
unfoldable pub keep : (ℕ → Bool) → ℕ → Bytes → Bytes
keep p c [] = if p c then [] else c ∷ []
keep p c (d ∷ s) = c ∷ d ∷ s

unfoldable pub trim_right : (ℕ → Bool) → Bytes → Bytes
unfolding keep
trim_right p [] = []
trim_right p (c ∷ s) = keep p c (trim_right p s)

-- The path without outer white space, and then without trailing slashes.
unfoldable pub normalize : Bytes → Bytes
unfolding trim_left trim_right is_space
normalize path = trim_right (λ c. c == slash) (trim_right is_space (trim_left is_space path))

abbrev pub is_empty : Bytes → Bool
is_empty [] = true
is_empty (c ∷ s) = false

-- `IsValidBeaconEndpoint`
unfoldable pub is_valid_beacon_endpoint : BeaconEndpointValidator → Bytes → Bool
unfolding normalize match_string
is_valid_beacon_endpoint v path =
    let path' = normalize path in
    if is_empty path' then false else exists (λ p. match_string p path') v.valid_paths

-- `GetValidationError`
unfoldable pub get_validation_error : BeaconEndpointValidator → Bytes → Bytes
unfolding is_valid_beacon_endpoint
get_validation_error v path =
    if not (is_valid_beacon_endpoint v path)
    then bytes_of "Invalid Beacon Chain API endpoint: " ++ path
    else []
