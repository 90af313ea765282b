-- ===== src/Config/Loading.antt =====
-- cmd/config/config.go: `Load`, `LoadOrDefault` and `parseBeaconConfigs`. The file system and
-- the TOML decoder are arguments: what they give is a `ConfigFile`.
pub mod Laws
use consensus_proxy.Base.{
  ◌+◌, String, List, [], ◌∷◌, ◌++◌, str_eq, if◌then◌else◌, length, ◌==◌, Option, none, some,
}
use consensus_proxy.Config.{Config, NodeConfig, get_default_config, set_parsed_nodes}
use consensus_proxy.Config.Validation.{ConfigError, validate}

pub data Loaded (E A : Type 0) : Type 0 where
  failed : E → Loaded E A
  loaded : A → Loaded E A

-- A beacon's table: its entries that are texts.
pub record RawBeacon : Type 0 where
  pub url : Option String
  pub beacon_type : Option String

-- The tables of the beacons section, by name.
abbrev pub Section : Type 0
Section = String → Option RawBeacon

pub data ParseError : Type 0 where
  section_not_found : ParseError
  beacon_not_found url_required : String → ParseError

-- The round of the loop for one name.
pub parse_node : Section → String → Loaded ParseError NodeConfig
parse_node s beacon_name = elim (s beacon_name) [
  | none ↦ failed (beacon_not_found beacon_name)
  | some raw ↦ elim raw.url [
    | none ↦ failed (url_required beacon_name)
    | some url ↦
        if str_eq url ""
        then failed (url_required beacon_name)
        else loaded (record {
          name = beacon_name;
          url = url;
          beacon_type = elim raw.beacon_type [ none ↦ "" | some t ↦ t ];
        })
  ]
]

pub parse_nodes : Section → List String → List NodeConfig → Loaded ParseError (List NodeConfig)
unfolding parse_node
parse_nodes s [] nodes = loaded nodes
parse_nodes s (beacon_name ∷ names) nodes = elim (parse_node s beacon_name) [
  | failed e ↦ failed e
  | loaded node ↦ parse_nodes s names (nodes ++ node ∷ [])
]

-- `parseBeaconConfigs`. What it leaves in a configuration that it refuses is not used.
pub parse_beacon_configs : Option Section → Config → Loaded ParseError Config
unfolding parse_nodes
parse_beacon_configs raw c = if length c.beacons.nodes == 0 then loaded c else elim raw [
  | none ↦ failed section_not_found
  | some s ↦ elim (parse_nodes s c.beacons.nodes []) [
    | failed e ↦ failed e
    | loaded nodes ↦ loaded (record c { beacons = set_parsed_nodes c.beacons nodes })
  ]
]

-- A file: its beacons section, and the configuration that is decoded over the defaults.
pub data ConfigFile : Type 0 where
  missing : ConfigFile
  undecodable : String → ConfigFile
  decoded : Option Section → Config → ConfigFile

pub data LoadError : Type 0 where
  config_file_not_found : LoadError
  decode_failed : String → LoadError
  parse_failed : ParseError → LoadError
  invalid_configuration : ConfigError → LoadError

-- The validation of a parsed configuration.
pub check_parsed : Loaded ParseError Config → Loaded LoadError Config
unfolding validate
check_parsed (failed e) = failed (parse_failed e)
check_parsed (loaded c) = elim (validate c) [
  | some e ↦ failed (invalid_configuration e)
  | none ↦ loaded c
]

-- `Load`
unfoldable pub load : ConfigFile → Loaded LoadError Config
unfolding check_parsed parse_beacon_configs
load missing = failed config_file_not_found
load (undecodable e) = failed (decode_failed e)
load (decoded raw c) = check_parsed (parse_beacon_configs raw c)

-- `LoadOrDefault`
unfoldable pub load_or_default : ConfigFile → Config
unfolding load
load_or_default file = elim (load file) [ failed e ↦ get_default_config | loaded c ↦ c ]
