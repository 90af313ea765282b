-- ===== src/Balancer/Creation/Names.antt =====
-- cmd/loadbalancer/loadbalancer.go: the names of the nodes that `New` creates.
use consensus_proxy.Base.{
  ℕ, suc, ◌<◌, String, Bool, List, [], ◌∷◌, ◌++◌, Elem, Distinct, Elem-append, subst, ◌≡◌, sym, ◌∙◌,
  ◌⊎◌, inl, inr, arith,
}
use consensus_proxy.Config.{Config, NodeConfig, get_all_nodes}
use consensus_proxy.Config.Loading.Laws.{names_of}
use consensus_proxy.Node.{BeaconNode}
use consensus_proxy.Balancer.{LoadBalancer, Built, add_node, build_nodes, update, new, ok}
use consensus_proxy.Balancer.Settled.{NamesDiffer}
use consensus_proxy.Balancer.Creation.{add_node-cases, node_of, made, new-cases, ok_injective}

-- The nodes that were built from the configurations below `i`, and the names still to come.
record IsNamed (b : Built) (i : ℕ) (names : List String) : Type 0 where
  below : (q : ℕ) → Elem q b.nodes → q < i
  apart : (q : ℕ) → Elem q b.nodes → ¬ Elem (b.heap q).name names
  differ : (q r : ℕ) → Elem q b.nodes → Elem r b.nodes → (b.heap q).name ≡ (b.heap r).name → q ≡ r

module _ (url_parses : String → Bool) (now : ℕ) where
  extended-IsNamed :
      (b : Built) (i : ℕ) (nc : NodeConfig) (names : List String)
      → ¬ Elem nc.name names
      → IsNamed b i (nc.name ∷ names)
      → IsNamed
          (record {
            heap = update b.heap i (node_of url_parses now nc i);
            nodes = b.nodes ++ i ∷ [];
          })
          (suc i)
          names
  extended-IsNamed b i nc names once v = record {
    below = λ q e. ground (arith, cases q e, v.below q);
    apart = λ q e. elim (cases q e) [
      | inl old ↦ subst (λ s. ¬ Elem s names) (sym (old_name q old)) (λ h. v.apart q old (inr h))
      | inr new ↦ subst (λ s. ¬ Elem s names) (sym (new_name q new)) once
    ];
    differ = λ q r e f same. elim (cases q e) [
      | inl old ↦ elim (cases r f) [
        | inl old' ↦ v.differ q r old old' (sym (old_name q old) ∙ same ∙ old_name r old')
        | inr new' ↦ absurd (v.apart q old (inl (sym (old_name q old) ∙ same ∙ new_name r new')))
      ]
      | inr new ↦ elim (cases r f) [
        | inl old' ↦
            absurd (v.apart r old' (inl (sym (old_name r old') ∙ sym same ∙ new_name q new)))
        | inr new' ↦ new ∙ sym new'
      ]
    ];
  }
    where
      heap : ℕ → BeaconNode
      heap = update b.heap i (node_of url_parses now nc i)

      cases : (q : ℕ) → Elem q (b.nodes ++ i ∷ []) → Elem q b.nodes ⊎ (q ≡ i)
      cases q e = ground (arith, Elem-append q b.nodes (i ∷ []) e)

      old_name : (q : ℕ) → Elem q b.nodes → (heap q).name ≡ (b.heap q).name
      old_name q e = ground (arith, v.below q e)

      new_name : (q : ℕ) → q ≡ i → (heap q).name ≡ nc.name
      new_name q e = ground arith

  add_node-IsNamed :
      (b : Built) (i : ℕ) (nc : NodeConfig) (names : List String)
      → ¬ Elem nc.name names
      → IsNamed b i (nc.name ∷ names)
      → IsNamed (add_node url_parses now b i nc) (suc i) names
  add_node-IsNamed b i nc names once v = elim (add_node-cases url_parses now b i nc) [
    | inl same ↦
        subst (λ c. IsNamed c (suc i) names) (sym same)
          (record {
            below = λ q e. omega (arith, v.below q e);
            apart = λ q e h. v.apart q e (inr h);
            differ = v.differ;
          })
    | inr same ↦
        subst (λ c. IsNamed c (suc i) names) (sym same) (extended-IsNamed b i nc names once v)
  ]

  build_nodes-IsNamed :
      (b : Built) (i : ℕ) (ncs : List NodeConfig)
      → Distinct (names_of ncs)
      → IsNamed b i (names_of ncs)
      → (q r : ℕ)
      → let b' = build_nodes url_parses now b i ncs in
        Elem q b'.nodes → Elem r b'.nodes → (b'.heap q).name ≡ (b'.heap r).name → q ≡ r
  unfolding build_nodes
  build_nodes-IsNamed b i [] d v q r = v.differ q r
  build_nodes-IsNamed b i (nc ∷ ncs) d v q r =
      build_nodes-IsNamed (add_node url_parses now b i nc) (suc i) ncs d.1
        (add_node-IsNamed b i nc (names_of ncs) d.0 v) q r

  -- Where no name stands twice in the configuration, no two nodes of the balancer have the same.
  pub new-NamesDiffer :
      (blank : BeaconNode) (cfg : Config) (lb : LoadBalancer)
      → Distinct (names_of (get_all_nodes cfg))
      → new url_parses now blank cfg ≡ ok lb
      → NamesDiffer lb
  unfolding made
  new-NamesDiffer blank cfg lb d e = elim (new-cases url_parses now blank cfg) [
    | inl (_, refused) ↦ cc
    | inr (inl (_, refused)) ↦ cc
    | inr (inr (_, done)) ↦ subst NamesDiffer (ok_injective (sym done ∙ e)) (
        build_nodes-IsNamed (record { heap = λ _. blank; nodes = [] }) 0 (get_all_nodes cfg) d
          (record { below = λ q m. absurd m; apart = λ q m. absurd m; differ = λ q r m. absurd m }))
  ]
