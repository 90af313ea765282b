-- ===== src/Balancer/Health/Promoting.antt =====
-- cmd/loadbalancer/health_check.go: the promotion of a backup where there is no primary.
use consensus_proxy.Base.{
  ℕ, ◌<◌, ◌≤◌, Bool, true, false, List, [], ◌∷◌, ltb, Elem, find_first-some, subst, ◌≡◌, refl, sym,
  ap, ◌∙◌, ◌≢◌, ◌⊎◌, inl, inr, arith, ◌==◌, Bool-cases, Option-cases, Option, none, some, ◌&&◌,
}
use consensus_proxy.Balancer.{LoadBalancer}
use consensus_proxy.Balancer.Errors.{name_of}
use consensus_proxy.Balancer.WellFormed.{max_int}
use consensus_proxy.Balancer.Health.Committing.{Keeps, Keeps-refl, priority_of, original_of}
use consensus_proxy.Balancer.Health.{
  lowest_backup, node_to_promote, promote, promote_if_none, find_original_primary,
}

promote_frame :
    (p q : ℕ) (lb : LoadBalancer)
    → let lb' = promote (some p) lb in
      (name_of lb' q ≡ name_of lb q)
      × (original_of lb' q ≡ original_of lb q)
      × (lb'.nodes ≡ lb.nodes)
      × (lb'.config ≡ lb.config)
      × (lb'.healthy_nodes ≡ lb.healthy_nodes)
      × ((lb'.heap q).consecutive_successes ≡ (lb.heap q).consecutive_successes)
      × (q ≢ p → lb'.heap q ≡ lb.heap q)
      × (priority_of lb' p ≡ 0)
      × (priority_of lb q ≡ 0 → priority_of lb' q ≡ 0)
unfolding promote
promote_frame p q lb = ground arith

-- A promotion happens, or nothing does.
promote_if_none-cases :
    (primary : Option ℕ) (backups : List ℕ) (lb : LoadBalancer)
    → ((p : ℕ) × (primary ≡ none)
        × (node_to_promote lb backups ≡ some p)
        × (promote_if_none primary backups lb ≡ promote (some p) lb))
      ⊎ (promote_if_none primary backups lb ≡ lb)
unfolding promote_if_none promote
promote_if_none-cases (some x) backups lb = inr refl
promote_if_none-cases none backups lb = elim (Option-cases (node_to_promote lb backups)) [
  | inl e ↦ inr (ap (λ o. promote o lb) e)
  | inr (p, e) ↦ inl (p, refl, e, ap (λ o. promote o lb) e)
]

promote-Keeps : (p : ℕ) (lb : LoadBalancer) → Keeps lb (promote (some p) lb)
promote-Keeps p lb = record {
  kept = record {
    names = λ q. (promote_frame p q lb).0;
    originals = λ q. (promote_frame p q lb).1;
    nodes = (promote_frame p p lb).2;
    config = (promote_frame p p lb).3;
  };
  healthy = (promote_frame p p lb).4;
  successes = λ q. (promote_frame p q lb).5;
}

pub promote_if_none-Keeps :
    (primary : Option ℕ) (backups : List ℕ) (lb : LoadBalancer)
    → Keeps lb (promote_if_none primary backups lb)
promote_if_none-Keeps primary backups lb = elim (promote_if_none-cases primary backups lb) [
  | inl (p, _, _, e) ↦ subst (Keeps lb) (sym e) (promote-Keeps p lb)
  | inr e ↦ subst (Keeps lb) (sym e) (Keeps-refl lb)
]

-- A primary stays one.
pub promote_if_none_primary :
    (primary : Option ℕ) (backups : List ℕ) (q : ℕ) (lb : LoadBalancer)
    → priority_of lb q ≡ 0
    → priority_of (promote_if_none primary backups lb) q ≡ 0
promote_if_none_primary primary backups q lb h = elim (promote_if_none-cases primary backups lb) [
  | inl (p, _, _, e) ↦ ap (λ b. priority_of b q) e ∙ (promote_frame p q lb).8 h
  | inr e ↦ ap (λ b. priority_of b q) e ∙ h
]

-- Any other node keeps its priority.
pub promote_if_none_rank :
    (primary : Option ℕ) (backups : List ℕ) (q : ℕ) (lb : LoadBalancer)
    → let lb' = promote_if_none primary backups lb in
      (priority_of lb' q ≡ 0) ⊎ (priority_of lb' q ≡ priority_of lb q)
promote_if_none_rank primary backups q lb = elim (promote_if_none-cases primary backups lb) [
  | inl (p, _, _, e) ↦ ground (arith, ap (λ b. priority_of b q) e, promote_frame p q lb)
  | inr e ↦ inr (ap (λ b. priority_of b q) e)
]

module _ (lb : LoadBalancer) where
  lowest_backup-found :
      (ps : List ℕ) (lowest x : ℕ) → (y : ℕ) × (lowest_backup lb ps lowest (some x) ≡ some y)
  unfolding lowest_backup
  lowest_backup-found [] lowest x = (x, refl)
  lowest_backup-found (p ∷ ps) lowest x =
      let n = priority_of lb p in
      elim (Bool-cases (ltb n lowest && ltb 0 n)) [
        | inl e ↦ rw (e, lowest_backup) (lowest_backup-found ps n p)
        | inr e ↦ rw (e, lowest_backup) (lowest_backup-found ps lowest x)
      ]

  -- The search finds a node if one has a positive priority below the start value.
  lowest_backup-some :
      (ps : List ℕ) (lowest b : ℕ)
      → Elem b ps
      → 0 < priority_of lb b
      → priority_of lb b < lowest
      → (y : ℕ) × (lowest_backup lb ps lowest none ≡ some y)
  unfolding lowest_backup
  lowest_backup-some [] lowest b e h k = absurd e
  lowest_backup-some (p ∷ ps) lowest b e h k =
      let n = priority_of lb p in
      elim (Bool-cases (ltb n lowest && ltb 0 n)) [
        | inl better ↦ rw (better, lowest_backup) (lowest_backup-found ps n p)
        | inr worse ↦
            let later : Elem b ps = ground arith in
            rw (worse, lowest_backup) (lowest_backup-some ps lowest b later h k)
      ]

  -- The best node so far has the lowest priority so far.
  abbrev Best : ℕ → Option ℕ → Type 0
  Best lowest none = Unit
  Best lowest (some x) = priority_of lb x ≡ lowest

  abbrev is_better : ℕ → ℕ → Bool
  is_better p lowest = ltb (priority_of lb p) lowest && ltb 0 (priority_of lb p)

  -- The two branches of a round.
  lowest_backup-cases :
      (p : ℕ) (ps : List ℕ) (lowest : ℕ) (found : Option ℕ)
      → ((is_better p lowest ≡ true)
          × (lowest_backup lb (p ∷ ps) lowest found
              ≡ lowest_backup lb ps (priority_of lb p) (some p)))
        ⊎ ((is_better p lowest ≡ false)
            × (lowest_backup lb (p ∷ ps) lowest found ≡ lowest_backup lb ps lowest found))
  unfolding lowest_backup
  lowest_backup-cases p ps lowest found = elim (Bool-cases (is_better p lowest)) [
    | inl e ↦ inl (e, rw (e, lowest_backup) refl)
    | inr e ↦ inr (e, rw (e, lowest_backup) refl)
  ]

  lowest_backup-le :
      (ps : List ℕ) (lowest : ℕ) (found : Option ℕ) (y : ℕ)
      → Best lowest found
      → lowest_backup lb ps lowest found ≡ some y
      → priority_of lb y ≤ lowest
  lowest_backup-le [] lowest none y b e = unfold lowest_backup in cc
  lowest_backup-le [] lowest (some x) y b e = unfold lowest_backup in ground arith
  lowest_backup-le (p ∷ ps) lowest found y b e = elim (lowest_backup-cases p ps lowest found) [
    | inl (better, same) ↦
        ground (arith, lowest_backup-le ps (priority_of lb p) (some p) y refl (sym same ∙ e))
    | inr (_, same) ↦ lowest_backup-le ps lowest found y b (sym same ∙ e)
  ]

  lowest_backup-Elem :
      (ps : List ℕ) (lowest : ℕ) (found : Option ℕ) (y : ℕ)
      → lowest_backup lb ps lowest found ≡ some y
      → Elem y ps ⊎ (found ≡ some y)
  lowest_backup-Elem [] lowest found y e = unfold lowest_backup in inr e
  lowest_backup-Elem (p ∷ ps) lowest found y e = elim (lowest_backup-cases p ps lowest found) [
    | inl (_, same) ↦
        ground (arith, lowest_backup-Elem ps (priority_of lb p) (some p) y (sym same ∙ e))
    | inr (_, same) ↦ ground (arith, lowest_backup-Elem ps lowest found y (sym same ∙ e))
  ]

  lowest_backup-least :
      (ps : List ℕ) (lowest : ℕ) (found : Option ℕ) (y q : ℕ)
      → Best lowest found
      → lowest_backup lb ps lowest found ≡ some y
      → Elem q ps
      → 0 < priority_of lb q
      → priority_of lb y ≤ priority_of lb q
  lowest_backup-least [] lowest found y q b e eq hq = absurd eq
  lowest_backup-least (p ∷ ps) lowest found y q b e eq hq =
      elim (lowest_backup-cases p ps lowest found) [
        | inl (better, same) ↦
            let e' : lowest_backup lb ps (priority_of lb p) (some p) ≡ some y = sym same ∙ e in
            ground (
              arith,
              lowest_backup-le ps (priority_of lb p) (some p) y refl e',
              lowest_backup-least ps (priority_of lb p) (some p) y q refl e',
            )
        | inr (worse, same) ↦
            let e' : lowest_backup lb ps lowest found ≡ some y = sym same ∙ e in
            ground (
              arith,
              lowest_backup-le ps lowest found y b e',
              lowest_backup-least ps lowest found y q b e',
            )
      ]

  -- With a healthy backup there is a node to promote: the original primary, if it is one of them,
  -- and otherwise the one with the lowest positive priority.
  pub node_to_promote_lem :
      (backups : List ℕ) (b : ℕ)
      → Elem b backups
      → 0 < priority_of lb b
      → priority_of lb b < max_int
      → (y : ℕ) × (node_to_promote lb backups ≡ some y)
        × Elem y backups
        × ((original_of lb y ≡ 0)
            ⊎ ((q : ℕ)
                → Elem q backups
                → 0 < priority_of lb q
                → priority_of lb y ≤ priority_of lb q))
  unfolding node_to_promote
  node_to_promote_lem backups b e h k = elim (Option-cases (find_original_primary lb backups)) [
    | inl missing ↦
        let (y, found) = lowest_backup-some backups max_int b e h k in
        (
          y,
          rw (missing, node_to_promote) found,
          no_start y (lowest_backup-Elem backups max_int none y found),
          inr (λ q eq hq. lowest_backup-least backups max_int none y q tt found eq hq),
        )
    | inr (o, found) ↦
        let original = λ (p : ℕ). (lb.heap p).original_priority == 0 in
        let (member, zero_original) = find_first-some original o backups found in
        (o, rw (found, node_to_promote) refl, member, inl (ground (arith, zero_original)))
  ]
    where
      no_start : (y : ℕ) → Elem y backups ⊎ (none ≡ some y) → Elem y backups
      no_start y (inl m) = m
      no_start y (inr bad) = cc

-- Where there was no primary, the promoted node is one.
pub promote_if_none_promotes :
    (backups : List ℕ) (y : ℕ) (lb : LoadBalancer)
    → node_to_promote lb backups ≡ some y
    → priority_of (promote_if_none none backups lb) y ≡ 0
unfolding promote_if_none
promote_if_none_promotes backups y lb e =
    ap (λ o. priority_of (promote o lb) y) e ∙ (promote_frame y y lb).7
