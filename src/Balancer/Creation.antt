-- ===== src/Balancer/Creation.antt =====
-- cmd/loadbalancer/loadbalancer.go: the balancer that `New` creates.
pub mod Names
use consensus_proxy.Base.{
  ap, length-zero, ℕ, suc, ◌+◌, ◌<◌, String, Bool, false, List, [], ◌∷◌, ◌++◌, pos, length, Elem,
  Distinct, Elem-append, subst, ◌≡◌, refl, sym, ◌∙◌, ◌≢◌, ◌⊎◌, inl, inr, arith, ◌==◌, Bool-cases,
}
use consensus_proxy.Config.{Config, NodeConfig, get_all_nodes}
use consensus_proxy.Node.{BeaconNode}
use consensus_proxy.Balancer.{
  LoadBalancer, Result, Built, add_node, build_nodes, new, ok, err, no_nodes_configured,
  no_valid_nodes, update,
}
use consensus_proxy.Balancer.WellFormed.{IsWellFormed, max_int}

-- What holds of a balancer that was just created.
pub record IsFresh (lb : LoadBalancer) : Type 0 where
  pub well_formed : IsWellFormed lb
  pub some_node : lb.nodes ≢ []
  pub none_healthy : lb.healthy_nodes ≡ []
  pub ranks :
      (p : ℕ)
      → Elem p lb.nodes
      → ((lb.heap p).priority ≡ p)
        × ((lb.heap p).original_priority ≡ p)
        × ((lb.heap p).consecutive_errors ≡ pos 0)

-- The nodes that were built from the configurations below `i`.
record IsBuilt (b : Built) (i : ℕ) : Type 0 where
  below : (p : ℕ) → Elem p b.nodes → p < i
  distinct : Distinct b.nodes
  ranks :
      (p : ℕ)
      → Elem p b.nodes
      → ((b.heap p).priority ≡ p)
        × ((b.heap p).original_priority ≡ p)
        × ((b.heap p).consecutive_errors ≡ pos 0)

append-Distinct : (xs : List ℕ) (x : ℕ) → Distinct xs → ¬ Elem x xs → Distinct (xs ++ x ∷ [])
append-Distinct [] x d n = (λ e. e, tt)
append-Distinct (y ∷ xs) x d n =
    ((λ e. other (Elem-append y xs (x ∷ []) e)), append-Distinct xs x d.1 (λ e. n (inr e)))
  where
    other : Elem y xs ⊎ Elem y (x ∷ []) → ⊥
    other (inl e) = d.0 e
    other (inr (inl e)) = n (inl (sym e))
    other (inr (inr e)) = e

ok_injective : {a b : LoadBalancer} → ok a ≡ ok b → a ≡ b
ok_injective h = cc

module _ (url_parses : String → Bool) (now : ℕ) where
  -- The node for a configuration whose URL parses.
  abbrev node_of : NodeConfig → ℕ → BeaconNode
  node_of nc i = record {
    name = nc.name;
    url = nc.url;
    consecutive_errors = pos 0;
    consecutive_successes = pos 0;
    total_failures = pos 0;
    requests = pos 0;
    last_check = now;
    priority = i;
    original_priority = i;
  }

  add_node-cases :
      (b : Built) (i : ℕ) (nc : NodeConfig)
      → (add_node url_parses now b i nc ≡ b)
        ⊎ (add_node url_parses now b i nc
            ≡ record { heap = update b.heap i (node_of nc i); nodes = b.nodes ++ i ∷ [] })
  unfolding add_node
  add_node-cases b i nc = elim (Bool-cases (url_parses nc.url)) [
    | inl e ↦ inr (rw (e, add_node) refl)
    | inr e ↦ inl (rw (e, add_node) refl)
  ]

  extended-IsBuilt :
      (b : Built) (i : ℕ) (nc : NodeConfig)
      → IsBuilt b i
      → IsBuilt
          (record { heap = update b.heap i (node_of nc i); nodes = b.nodes ++ i ∷ [] })
          (suc i)
  extended-IsBuilt b i nc v = record {
    below = λ p e. below p (Elem-append p b.nodes (i ∷ []) e);
    distinct = append-Distinct b.nodes i v.distinct (λ e. absurd (omega (arith, v.below i e)));
    ranks = λ p e. ranks p (Elem-append p b.nodes (i ∷ []) e);
  }
    where
      below : (p : ℕ) → Elem p b.nodes ⊎ Elem p (i ∷ []) → p < suc i
      below p (inl e) = omega (arith, v.below p e)
      below p (inr e) = ground arith

      ranks :
          (p : ℕ)
          → Elem p b.nodes ⊎ Elem p (i ∷ [])
          → let n = update b.heap i (node_of nc i) p in
            (n.priority ≡ p) × (n.original_priority ≡ p) × (n.consecutive_errors ≡ pos 0)
      ranks p (inl e) = ground (arith, v.below p e, v.ranks p e)
      ranks p (inr e) = ground arith

  add_node-IsBuilt :
      (b : Built) (i : ℕ) (nc : NodeConfig)
      → IsBuilt b i
      → IsBuilt (add_node url_parses now b i nc) (suc i)
  add_node-IsBuilt b i nc v = elim (add_node-cases b i nc) [
    | inl same ↦
        subst (λ c. IsBuilt c (suc i)) (sym same)
          (record {
            below = λ p e. omega (arith, v.below p e);
            distinct = v.distinct;
            ranks = v.ranks;
          })
    | inr same ↦ subst (λ c. IsBuilt c (suc i)) (sym same) (extended-IsBuilt b i nc v)
  ]

  build_nodes-IsBuilt :
      (b : Built) (i : ℕ) (ncs : List NodeConfig)
      → IsBuilt b i
      → IsBuilt (build_nodes url_parses now b i ncs) (i + length ncs)
  unfolding build_nodes
  build_nodes-IsBuilt b i [] v = let e : i + length {A = NodeConfig} [] ≡ i = omega arith in rw e v
  build_nodes-IsBuilt b i (nc ∷ ncs) v =
      let e : i + suc (length ncs) ≡ suc i + length ncs = omega arith in
      rw e (
        build_nodes-IsBuilt (add_node url_parses now b i nc) (suc i) ncs
          (add_node-IsBuilt b i nc v))

  made : BeaconNode → Config → LoadBalancer
  made blank cfg =
      let b =
        build_nodes url_parses now (record { heap = λ _. blank; nodes = [] }) 0
          (get_all_nodes cfg) in
      record { heap = b.heap; nodes = b.nodes; config = cfg; metrics = []; healthy_nodes = [] }

  made-IsBuilt :
      (blank : BeaconNode) (cfg : Config)
      → IsBuilt
          (build_nodes url_parses now
            (record { heap = λ _. blank; nodes = [] })
            0
            (get_all_nodes cfg))
          (0 + length (get_all_nodes cfg))
  made-IsBuilt blank cfg =
      build_nodes-IsBuilt (record { heap = λ _. blank; nodes = [] }) 0 (get_all_nodes cfg)
        (record { below = λ p e. absurd e; distinct = tt; ranks = λ p e. absurd e })

  made-IsFresh :
      (blank : BeaconNode) (cfg : Config)
      → length (get_all_nodes cfg) < max_int
      → (made blank cfg).nodes ≢ []
      → IsFresh (made blank cfg)
  unfolding made
  made-IsFresh blank cfg small some_node =
      let v = made-IsBuilt blank cfg in
      record {
        well_formed = record {
          distinct = v.distinct;
          listed = λ q e. absurd e;
          bounded = λ q e. omega (arith, v.below q e, v.ranks q e);
          ranked = λ q r e f same. omega (arith, v.ranks q e, v.ranks r f);
        };
        some_node = some_node;
        none_healthy = refl;
        ranks = v.ranks;
      }

  new-cases :
      (blank : BeaconNode) (cfg : Config)
      → ((get_all_nodes cfg ≡ []) × (new url_parses now blank cfg ≡ err no_nodes_configured))
        ⊎ (((made blank cfg).nodes ≡ []) × (new url_parses now blank cfg ≡ err no_valid_nodes))
        ⊎ (((made blank cfg).nodes ≢ []) × (new url_parses now blank cfg ≡ ok (made blank cfg)))
  unfolding new made
  new-cases blank cfg = elim (Bool-cases (length (get_all_nodes cfg) == 0)) [
    | inl e ↦ inl (length-zero (get_all_nodes cfg) e, simp e refl)
    | inr e ↦
        let b =
          build_nodes url_parses now (record { heap = λ _. blank; nodes = [] }) 0
            (get_all_nodes cfg) in
        elim (Bool-cases (length b.nodes == 0)) [
          | inl z ↦ inr (inl (length-zero b.nodes z, simp (e, z) refl))
          | inr z ↦ inr (inr ((λ empty. not_zero b.nodes empty z), simp (e, z) refl))
        ]
  ]
    where
      not_zero : (xs : List ℕ) → xs ≡ [] → (length xs == 0) ≡ false → ⊥
      not_zero [] e h = cc
      not_zero (x ∷ xs) e h = cc

  -- A balancer that `New` returns for fewer than 2^63 - 1 configurations is well-formed: there is a
  -- node, each node's priority is its place in the configuration, no error is counted, and no node
  -- is taken for healthy yet.
  pub new-IsFresh :
      (blank : BeaconNode) (cfg : Config) (lb : LoadBalancer)
      → length (get_all_nodes cfg) < max_int
      → new url_parses now blank cfg ≡ ok lb
      → IsFresh lb
  new-IsFresh blank cfg lb small e = elim (new-cases blank cfg) [
    | inl (_, refused) ↦ cc
    | inr (inl (_, refused)) ↦ cc
    | inr (inr (some_node, done)) ↦
        let same : made blank cfg ≡ lb = ok_injective (sym done ∙ e) in
        subst IsFresh same (made-IsFresh blank cfg small some_node)
  ]

  pub new-config :
      (blank : BeaconNode) (cfg : Config) (lb : LoadBalancer)
      → new url_parses now blank cfg ≡ ok lb
      → lb.config ≡ cfg
  unfolding made
  new-config blank cfg lb e = elim (new-cases blank cfg) [
    | inl (_, refused) ↦ cc
    | inr (inl (_, refused)) ↦ cc
    | inr (inr (_, done)) ↦ sym (ap config_of (sym done ∙ e))
  ]
    where
      config_of : Result LoadBalancer → Config
      config_of (ok a) = a.config
      config_of (err x) = cfg
