-- ===== src/Validator/Tests.antt =====
-- Paths that the validator accepts and refuses: cmd/validator/validator.go.
use consensus_proxy.Base.{true, false, ◌≡◌, refl, ◌↔◌}
use consensus_proxy.Http.{Bytes, bytes_of}
use consensus_proxy.Validator.{
  compile, match_string, new_beacon_endpoint_validator, is_valid_beacon_endpoint,
}
use consensus_proxy.Validator.Matching.{Matches, match_string_iff}
use consensus_proxy.Validator.Accepting.{IsEndpoint, is_valid_beacon_endpoint_iff}

accepts :
    is_valid_beacon_endpoint new_beacon_endpoint_validator
      (bytes_of " /eth/v1/beacon/states/head/root// ")
    ≡ true
unfolding is_valid_beacon_endpoint new_beacon_endpoint_validator
accepts = refl

refuses :
    (is_valid_beacon_endpoint new_beacon_endpoint_validator (bytes_of "/eth/v1/beacon/states//root")
      ≡ false)
    × (is_valid_beacon_endpoint new_beacon_endpoint_validator
          (bytes_of "/eth/v1/beacon/states/a/b/root")
        ≡ false)
    × (is_valid_beacon_endpoint new_beacon_endpoint_validator (bytes_of "/eth/v1/node/health2")
        ≡ false)
unfolding is_valid_beacon_endpoint new_beacon_endpoint_validator
refuses = (refl, refl, refl)

abbrev genesis : Bytes
genesis = bytes_of "/eth/v1/beacon/genesis"

genesis-valid : is_valid_beacon_endpoint new_beacon_endpoint_validator genesis ≡ true
unfolding is_valid_beacon_endpoint new_beacon_endpoint_validator
genesis-valid = refl

match_example :
    (match_string (compile "^/a/[^/]+$") (bytes_of "/a/b") ≡ true)
    ↔ Matches (compile "^/a/[^/]+$") (bytes_of "/a/b")
match_example = match_string_iff (compile "^/a/[^/]+$") (bytes_of "/a/b")

valid_iff_example :
    (is_valid_beacon_endpoint new_beacon_endpoint_validator genesis ≡ true) ↔ IsEndpoint genesis
valid_iff_example = is_valid_beacon_endpoint_iff genesis
