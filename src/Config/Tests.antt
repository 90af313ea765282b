-- ===== src/Config/Tests.antt =====
-- Loading and validating small configurations: cmd/config/config.go.
use consensus_proxy.Base.{[], ◌∷◌, str_eq, if◌then◌else◌, ◌≡◌, refl, ◌↔◌, none, some}
use consensus_proxy.Config.{Config, get_default_config, set_parsed_nodes}
use consensus_proxy.Config.Validation.{validate}
use consensus_proxy.Config.Validation.Laws.{IsValid, validate_iff}
use consensus_proxy.Config.Loading.{Section, decoded, load, loaded}
use consensus_proxy.Config.Loading.Laws.{load_lem}

abbrev pub one_beacon : Section
one_beacon name =
    if str_eq name "a"
    then some (record { url = some "http://a"; beacon_type = some "teku" })
    else none

abbrev pub named : Config
named = record get_default_config { beacons = record { nodes = "a" ∷ []; parsed_nodes = [] } }

abbrev pub parsed : Config
parsed = record named {
  beacons = record {
    nodes = "a" ∷ [];
    parsed_nodes = record { name = "a"; url = "http://a"; beacon_type = "teku" } ∷ [];
  };
}

parsed-load : load (decoded (some one_beacon) named) ≡ loaded parsed
unfolding load set_parsed_nodes
parsed-load = refl

validate_example : (validate parsed ≡ none) ↔ IsValid parsed
validate_example = validate_iff parsed

pub parsed-validate : validate parsed ≡ none
parsed-validate =
    (validate_iff parsed).1 (load_lem (some one_beacon) named parsed refl parsed-load).0
