-- ===== src/Config/Loading/Laws.antt =====
-- cmd/config/config.go: the configuration that `Load` and `LoadOrDefault` return.
use consensus_proxy.Base.{
  length-zero, suc, String, List, [], ◌∷◌, ◌++◌, length, subst, ◌≡◌, refl, sym, ap, ◌∙◌, ◌⊎◌, inl,
  inr, arith, ◌==◌, Bool-cases, Option-cases, Option, none, some, append-nil, append_assoc,
}
use consensus_proxy.Config.{Config, NodeConfig, get_all_nodes, get_default_config, set_parsed_nodes}
use consensus_proxy.Config.Validation.{validate}
use consensus_proxy.Config.Validation.Laws.{IsValid, validate_iff}
use consensus_proxy.Config.Loading.{
  Loaded, failed, loaded, Section, ParseError, section_not_found, parse_node, parse_nodes,
  parse_beacon_configs, ConfigFile, missing, undecodable, decoded, LoadError, check_parsed, load,
  load_or_default,
}

Loaded-cases :
    {E A : Type 0} (x : Loaded E A) → ((e : E) × (x ≡ failed e)) ⊎ ((a : A) × (x ≡ loaded a))
Loaded-cases (failed e) = inl (e, refl)
Loaded-cases (loaded a) = inr (a, refl)

loaded-injective :
    {E A : Type 0} {a b : A} → (let x : Loaded E A = loaded a in x) ≡ loaded b → a ≡ b
loaded-injective h = cc

failed_not_loaded :
    {E A : Type 0} {e : E} {a : A} → (let x : Loaded E A = failed e in x) ≡ loaded a → ⊥
failed_not_loaded h = cc

abbrev pub names_of : List NodeConfig → List String
names_of [] = []
names_of (n ∷ ns) = n.name ∷ names_of ns

names_of-append : (a b : List NodeConfig) → names_of (a ++ b) ≡ names_of a ++ names_of b
names_of-append [] b = refl
names_of-append (x ∷ a) b = ap (◌∷◌ x.name) (names_of-append a b)

parse_node_name :
    (s : Section) (name : String) (n : NodeConfig) → parse_node s name ≡ loaded n → n.name ≡ name
unfolding parse_node
parse_node_name s name n h = ground (arith, h)

parse_nodes_names :
    (s : Section) (names : List String) (acc ns : List NodeConfig)
    → parse_nodes s names acc ≡ loaded ns
    → names_of ns ≡ names_of acc ++ names
unfolding parse_nodes
parse_nodes_names s [] acc ns h =
    ap names_of (sym (loaded-injective h)) ∙ sym (append-nil (names_of acc))
parse_nodes_names s (name ∷ names) acc ns h = elim (Loaded-cases (parse_node s name)) [
  | inl (e, refused) ↦ absurd (failed_not_loaded (rw (refused, parse_nodes) at h))
  | inr (n, parsed) ↦
      let rest = parse_nodes_names s names (acc ++ n ∷ []) ns (rw (parsed, parse_nodes) at h) in
      let named = parse_node_name s name n parsed in
      rest
      ∙ ap (λ xs. xs ++ names) (names_of-append acc (n ∷ []))
      ∙ append_assoc (names_of acc) (n.name ∷ []) names
      ∙ rw named refl
]

check_parsed_lem :
    (p : Loaded ParseError Config) (c : Config)
    → check_parsed p ≡ loaded c
    → (p ≡ loaded c) × (validate c ≡ none)
unfolding check_parsed
check_parsed_lem (failed e) c h = cc
check_parsed_lem (loaded d) c h = elim (Option-cases (validate d)) [
  | inl e ↦
      let same : d ≡ c = loaded-injective (rw (e, check_parsed) at h) in
      (ap (λ x. loaded x) same, subst (λ x. validate x ≡ none) same e)
  | inr (x, e) ↦ absurd (failed_not_loaded (rw (e, check_parsed) at h))
]

parse_beacon_configs_names :
    (raw : Option Section) (c d : Config)
    → c.beacons.parsed_nodes ≡ []
    → parse_beacon_configs raw c ≡ loaded d
    → (names_of (get_all_nodes d) ≡ c.beacons.nodes) × (d.beacons.nodes ≡ c.beacons.nodes)
unfolding parse_beacon_configs set_parsed_nodes
parse_beacon_configs_names raw c d fresh h = elim (Bool-cases (length c.beacons.nodes == 0)) [
  | inl none_named ↦
      let same : c ≡ d = loaded-injective (rw none_named at h) in
      subst Named same (ap names_of fresh ∙ sym (length-zero c.beacons.nodes none_named), refl)
  | inr named ↦ listed raw (rw named at h)
]
  where
    Named : Config → Type 0
    Named x = (names_of (get_all_nodes x) ≡ c.beacons.nodes) × (x.beacons.nodes ≡ c.beacons.nodes)

    listed :
        (raw : Option Section)
        → (elim raw [
          | none ↦ failed section_not_found
          | some s ↦ elim (parse_nodes s c.beacons.nodes []) [
            | failed e ↦ failed e
            | loaded nodes ↦ loaded (record c { beacons = set_parsed_nodes c.beacons nodes })
          ]
        ])
          ≡ loaded d
        → Named d
    listed none h = absurd (failed_not_loaded h)
    listed (some s) h = elim (Loaded-cases (parse_nodes s c.beacons.nodes [])) [
      | inl (e, refused) ↦ absurd (failed_not_loaded (rw refused at h))
      | inr (nodes, parsed) ↦
          let same : record c { beacons = set_parsed_nodes c.beacons nodes } ≡ d =
            loaded-injective (rw parsed at h) in
          subst Named same (parse_nodes_names s c.beacons.nodes [] nodes parsed, refl)
    ]

-- A file that loads, with the beacons section not parsed before, gives a valid configuration, with
-- one node for each name of the list, in the order of the list.
pub load_lem :
    (raw : Option Section) (c d : Config)
    → c.beacons.parsed_nodes ≡ []
    → load (decoded raw c) ≡ loaded d
    → IsValid d × (names_of (get_all_nodes d) ≡ c.beacons.nodes)
unfolding load
load_lem raw c d fresh h =
    let (parsed, valid) = check_parsed_lem (parse_beacon_configs raw c) d h in
    ((validate_iff d).0 valid, (parse_beacon_configs_names raw c d fresh parsed).0)

-- A file that does not load is replaced by the defaults.
pub load_or_default-cases :
    (file : ConfigFile) (e : LoadError)
    → load file ≡ failed e
    → load_or_default file ≡ get_default_config
unfolding load_or_default
load_or_default-cases file e h = rw (h, load_or_default) refl

-- Only a file that is there and decoded loads.
pub load-decoded :
    (file : ConfigFile) (d : Config)
    → load file ≡ loaded d
    → (raw : Option Section) × (c : Config) × (file ≡ decoded raw c)
unfolding load
load-decoded missing d h = absurd (failed_not_loaded h)
load-decoded (undecodable e) d h = absurd (failed_not_loaded h)
load-decoded (decoded raw c) d h = (raw, c, refl)

pub load-outcome :
    (file : ConfigFile)
    → ((e : LoadError) × (load file ≡ failed e)) ⊎ ((d : Config) × (load file ≡ loaded d))
load-outcome file = Loaded-cases (load file)

pub load_or_default-loaded :
    (file : ConfigFile) (d : Config) → load file ≡ loaded d → load_or_default file ≡ d
unfolding load_or_default
load_or_default-loaded file d h = rw (h, load_or_default) refl

pub length-names_of : (ns : List NodeConfig) → length (names_of ns) ≡ length ns
length-names_of [] = refl
length-names_of (n ∷ ns) = ap suc (length-names_of ns)
