-- ===== src/Http/Texts.antt =====
-- The functions of Go's strings package that the proxy uses, on lists of characters.
use consensus_proxy.Base.{
  not_both, ℕ, Bool, true, false, [], ◌∷◌, ◌++◌, if◌then◌else◌, subst, ◌≡◌, refl, sym, ap, ◌↔◌, inl,
  inr, arith, ◌==◌, Option-cases, Option, none, some,
}
use consensus_proxy.Http.{Bytes}

unfoldable pub strip_prefix : Bytes → Bytes → Option Bytes
strip_prefix [] s = some s
strip_prefix (c ∷ p) [] = none
strip_prefix (c ∷ p) (d ∷ s) = if c == d then strip_prefix p s else none

-- `strings.Replace(s, old, new, 1)`, for an `old` that is not empty.
unfoldable pub replace_first : Bytes → Bytes → Bytes → Bytes
replace_first old new [] = []
replace_first old new (c ∷ s) = elim (strip_prefix old (c ∷ s)) [
  | some rest ↦ new ++ rest
  | none ↦ c ∷ replace_first old new s
]

-- `strings.Contains(s, old)`, for an `old` that is not empty.
unfoldable pub occurs : Bytes → Bytes → Bool
unfolding strip_prefix
occurs old [] = false
occurs old (c ∷ s) = elim (strip_prefix old (c ∷ s)) [ some rest ↦ true | none ↦ occurs old s ]

pub replace_first_absent : (old new s : Bytes) → occurs old s ≡ false → replace_first old new s ≡ s
unfolding replace_first occurs
replace_first_absent old new [] h = refl
replace_first_absent old new (c ∷ s) h = elim (Option-cases (strip_prefix old (c ∷ s))) [
  | inl e ↦
      rw (e, replace_first) (ap (◌∷◌ c) (replace_first_absent old new s (rw (e, occurs) at h)))
  | inr (rest, e) ↦ absurd (not_both (rw (e, occurs) at h))
]

strip_prefix-some : (p s rest : Bytes) → strip_prefix p s ≡ some rest → s ≡ p ++ rest
unfolding strip_prefix
strip_prefix-some [] s rest e = cc
strip_prefix-some (c ∷ p) [] rest e = absurd (cc)
strip_prefix-some (c ∷ p) (d ∷ s) rest e = ground (arith, strip_prefix-some p s rest)

strip_prefix-append : (p rest : Bytes) → strip_prefix p (p ++ rest) ≡ some rest
unfolding strip_prefix
strip_prefix-append [] rest = refl
strip_prefix-append (c ∷ p) rest = ground (arith, strip_prefix-append p rest)

occurs-found :
    (old s : Bytes) → occurs old s ≡ true → (a : Bytes) × (b : Bytes) × (s ≡ a ++ (old ++ b))
unfolding occurs
occurs-found old [] h = absurd (not_both (sym h))
occurs-found old (c ∷ s) h = elim (Option-cases (strip_prefix old (c ∷ s))) [
  | inl e ↦
      let (a, b, split) = occurs-found old s (rw (e, occurs) at h) in (c ∷ a, b, ap (◌∷◌ c) split)
  | inr (rest, e) ↦ ([], rest, strip_prefix-some old (c ∷ s) rest e)
]

occurs-at : (c : ℕ) (old a b : Bytes) → occurs (c ∷ old) (a ++ ((c ∷ old) ++ b)) ≡ true
unfolding occurs
occurs-at c old [] b = rw (strip_prefix-append (c ∷ old) b, occurs) refl
occurs-at c old (d ∷ a) b =
    elim (Option-cases (strip_prefix (c ∷ old) (d ∷ (a ++ ((c ∷ old) ++ b))))) [
      | inl e ↦ rw (e, occurs) (occurs-at c old a b)
      | inr (rest, e) ↦ rw (e, occurs) refl
    ]

-- A text is contained where it stands between two others.
pub occurs_iff :
    (c : ℕ) (old s : Bytes)
    → (occurs (c ∷ old) s ≡ true) ↔ ((a : Bytes) × (b : Bytes) × (s ≡ a ++ ((c ∷ old) ++ b)))
occurs_iff c old s = (
  occurs-found (c ∷ old) s,
  λ (a, b, e). subst (λ t. occurs (c ∷ old) t ≡ true) (sym e) (occurs-at c old a b),
)
