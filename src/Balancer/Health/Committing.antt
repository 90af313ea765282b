-- ===== src/Balancer/Health/Committing.antt =====
-- cmd/loadbalancer/health_check.go: failback and restored priorities, step by step.
use consensus_proxy.Base.{
  eq_iff, ℕ, true, false, not, List, [], ◌∷◌, str_eq, Elem, subst, ◌≡◌, refl, sym, ap, ◌∙◌, ◌≢◌,
  ◌⊎◌, inl, inr, arith, Bool-cases, Option, none, some, ◌&&◌,
}
use consensus_proxy.Balancer.{LoadBalancer}
use consensus_proxy.Balancer.Errors.{name_of}
use consensus_proxy.Balancer.Kept.{IsKept, IsKept-refl, IsKept-trans}
use consensus_proxy.Balancer.Health.{
  failback, should_failback, perform_failback, restore_priority, restore_priorities,
}

abbrev pub priority_of : LoadBalancer → ℕ → ℕ
priority_of lb p = (lb.heap p).priority

abbrev pub original_of : LoadBalancer → ℕ → ℕ
original_of lb p = (lb.heap p).original_priority

-- A failback changes the two nodes that it names, and no name, original priority or list.
failback_frame :
    (o c q : ℕ) (lb : LoadBalancer)
    → let lb' = failback o c lb in
      (name_of lb' q ≡ name_of lb q)
      × (original_of lb' q ≡ original_of lb q)
      × (lb'.nodes ≡ lb.nodes)
      × (lb'.config ≡ lb.config)
      × (lb'.healthy_nodes ≡ lb.healthy_nodes)
      × ((lb'.heap q).consecutive_successes ≡ (lb.heap q).consecutive_successes)
      × (q ≢ o → q ≢ c → lb'.heap q ≡ lb.heap q)
      × (priority_of lb' c ≡ original_of lb c)
unfolding failback
failback_frame o c q lb = ground arith

-- A failback happens, or nothing does.
perform_failback-cases :
    (original current : Option ℕ) (lb : LoadBalancer)
    → ((o : ℕ) × (c : ℕ) × (original ≡ some o)
        × (current ≡ some c)
        × (should_failback lb original ≡ true)
        × (perform_failback original current lb ≡ failback o c lb))
      ⊎ (perform_failback original current lb ≡ lb)
unfolding perform_failback
perform_failback-cases none current lb = inr refl
perform_failback-cases (some o) none lb = inr refl
perform_failback-cases (some o) (some c) lb =
    elim (Bool-cases (should_failback lb (some o) && not (str_eq (name_of lb c) (name_of lb o)))) [
      | inl e ↦ inl (o, c, refl, refl, ground arith, rw e refl)
      | inr e ↦ inr (rw e refl)
    ]

-- What the three steps keep: identities and the healthy nodes.
pub record Keeps (lb lb' : LoadBalancer) : Type 0 where
  pub kept : IsKept lb lb'
  pub healthy : lb'.healthy_nodes ≡ lb.healthy_nodes
  pub successes : (q : ℕ) → (lb'.heap q).consecutive_successes ≡ (lb.heap q).consecutive_successes

pub Keeps-refl : (lb : LoadBalancer) → Keeps lb lb
Keeps-refl lb = record { kept = IsKept-refl lb; healthy = refl; successes = λ q. refl }

pub Keeps-trans : {a b c : LoadBalancer} → Keeps a b → Keeps b c → Keeps a c
Keeps-trans k l = record {
  kept = IsKept-trans k.kept l.kept;
  healthy = l.healthy ∙ k.healthy;
  successes = λ q. l.successes q ∙ k.successes q;
}

failback-Keeps : (o c : ℕ) (lb : LoadBalancer) → Keeps lb (failback o c lb)
failback-Keeps o c lb = record {
  kept = record {
    names = λ q. (failback_frame o c q lb).0;
    originals = λ q. (failback_frame o c q lb).1;
    nodes = (failback_frame o c 0 lb).2;
    config = (failback_frame o c 0 lb).3;
  };
  healthy = (failback_frame o c 0 lb).4;
  successes = λ q. (failback_frame o c q lb).5;
}

pub perform_failback-Keeps :
    (original current : Option ℕ) (lb : LoadBalancer)
    → Keeps lb (perform_failback original current lb)
perform_failback-Keeps original current lb = elim (perform_failback-cases original current lb) [
  | inl (o, c, _, _, _, e) ↦ subst (Keeps lb) (sym e) (failback-Keeps o c lb)
  | inr e ↦ subst (Keeps lb) (sym e) (Keeps-refl lb)
]

-- A node that is neither the original nor the current primary is left alone.
pub perform_failback_other :
    (original current : Option ℕ) (q : ℕ) (lb : LoadBalancer)
    → original ≢ some q
    → current ≢ some q
    → (perform_failback original current lb).heap q ≡ lb.heap q
perform_failback_other original current q lb ho hc =
    elim (perform_failback-cases original current lb) [
      | inl (o, c, eo, ec, _, e) ↦
          ap (λ b. b.heap q) e
          ∙ (failback_frame o c q lb).6 (λ s. ho (eo ∙ ap {B = Option ℕ} some (sym s)))
              (λ s. hc (ec ∙ ap {B = Option ℕ} some (sym s)))
      | inr e ↦ ap (λ b. b.heap q) e
    ]

-- Without enough successes of the original primary nothing happens.
pub perform_failback_early :
    (original current : Option ℕ) (lb : LoadBalancer)
    → should_failback lb original ≡ false
    → perform_failback original current lb ≡ lb
perform_failback_early original current lb h = elim (perform_failback-cases original current lb) [
  | inl (o, c, _, _, t, e) ↦ cc
  | inr e ↦ e
]

restore_priority_frame :
    (p q : ℕ) (lb : LoadBalancer)
    → let lb' = restore_priority p lb in
      (name_of lb' q ≡ name_of lb q)
      × (original_of lb' q ≡ original_of lb q)
      × (lb'.nodes ≡ lb.nodes)
      × (lb'.config ≡ lb.config)
      × (lb'.healthy_nodes ≡ lb.healthy_nodes)
      × ((lb'.heap q).consecutive_successes ≡ (lb.heap q).consecutive_successes)
      × (q ≢ p → lb'.heap q ≡ lb.heap q)
      × (priority_of lb' p ≡ original_of lb p)
      × (priority_of lb q ≡ original_of lb q → priority_of lb' q ≡ original_of lb q)
unfolding restore_priority
restore_priority_frame p q lb = ground arith

pub restore_priorities-Keeps :
    (ps : List ℕ) (lb : LoadBalancer) → Keeps lb (restore_priorities ps lb)
unfolding restore_priorities
restore_priorities-Keeps [] lb = Keeps-refl lb
restore_priorities-Keeps (p ∷ ps) lb =
    Keeps-trans one (restore_priorities-Keeps ps (restore_priority p lb))
  where
    one : Keeps lb (restore_priority p lb)
    one = record {
      kept = record {
        names = λ q. (restore_priority_frame p q lb).0;
        originals = λ q. (restore_priority_frame p q lb).1;
        nodes = (restore_priority_frame p p lb).2;
        config = (restore_priority_frame p p lb).3;
      };
      healthy = (restore_priority_frame p p lb).4;
      successes = λ q. (restore_priority_frame p q lb).5;
    }

pub restore_priorities_other :
    (ps : List ℕ) (q : ℕ) (lb : LoadBalancer)
    → ¬ Elem q ps
    → (restore_priorities ps lb).heap q ≡ lb.heap q
unfolding restore_priorities
restore_priorities_other [] q lb h = refl
restore_priorities_other (p ∷ ps) q lb h =
    restore_priorities_other ps q (restore_priority p lb) (λ e. h (inr e))
    ∙ (restore_priority_frame p q lb).6 (λ e. h (inl e))

restore_priorities_settled :
    (ps : List ℕ) (q : ℕ) (lb : LoadBalancer)
    → priority_of lb q ≡ original_of lb q
    → priority_of (restore_priorities ps lb) q ≡ original_of lb q
unfolding restore_priorities
restore_priorities_settled [] q lb h = h
restore_priorities_settled (p ∷ ps) q lb h =
    ground (
      arith,
      restore_priority_frame p q lb,
      restore_priorities_settled ps q (restore_priority p lb),
    )

-- Every node of the list gets its original priority.
pub restore_priorities_lem :
    (ps : List ℕ) (q : ℕ) (lb : LoadBalancer)
    → Elem q ps
    → priority_of (restore_priorities ps lb) q ≡ original_of lb q
unfolding restore_priorities
restore_priorities_lem [] q lb e = absurd e
restore_priorities_lem (p ∷ ps) q lb (inl here) =
    ground (
      arith,
      restore_priority_frame p q lb,
      restore_priorities_settled ps q (restore_priority p lb),
    )
restore_priorities_lem (p ∷ ps) q lb (inr later) =
    restore_priorities_lem ps q (restore_priority p lb) later ∙ (restore_priority_frame p q lb).1

-- A failback that is due gives the current primary its own priority.
pub perform_failback_due :
    (o s : ℕ) (lb : LoadBalancer)
    → should_failback lb (some o) ≡ true
    → name_of lb s ≢ name_of lb o
    → priority_of (perform_failback (some o) (some s) lb) s ≡ original_of lb s
unfolding perform_failback failback
perform_failback_due o s lb due differ =
    ground (arith, due, differ, eq_iff (name_of lb s) (name_of lb o))
