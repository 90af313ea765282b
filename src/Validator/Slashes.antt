-- ===== src/Validator/Slashes.antt =====
-- cmd/validator/validator.go: trailing slashes of a path.
use consensus_proxy.Base.{
  ℕ, Bool, true, false, [], ◌∷◌, ◌++◌, ◌≡◌, refl, sym, ap, ◌∙◌, ◌⊎◌, inl, inr, arith, ◌==◌,
  Bool-cases,
}
use consensus_proxy.Http.{Bytes}
use consensus_proxy.Validator.{
  slash, is_valid_beacon_endpoint, normalize, BeaconEndpointValidator, trim_left, trim_right, keep,
  is_space,
}

keep-append :
    (p : ℕ → Bool) (c : ℕ) (d : ℕ) (s : Bytes) → keep p c (s ++ d ∷ []) ≡ c ∷ (s ++ d ∷ [])
unfolding keep
keep-append p c d [] = refl
keep-append p c d (e ∷ s) = refl

trim_right-drop :
    (p : ℕ → Bool) (c : ℕ) (s : Bytes) → p c ≡ true → trim_right p (s ++ c ∷ []) ≡ trim_right p s
unfolding trim_right
trim_right-drop p c [] h = ground arith
trim_right-drop p c (d ∷ s) h = ap (keep p d) (trim_right-drop p c s h)

trim_right-stop :
    (p : ℕ → Bool) (c : ℕ) (s : Bytes) → p c ≡ false → trim_right p (s ++ c ∷ []) ≡ s ++ c ∷ []
unfolding trim_right
trim_right-stop p c [] h = ground arith
trim_right-stop p c (d ∷ s) h = ap (keep p d) (trim_right-stop p c s h) ∙ keep-append p d c s

trim_left-append :
    (p : ℕ → Bool) (s t : Bytes)
    → ((trim_left p s ≡ []) × (trim_left p (s ++ t) ≡ trim_left p t))
      ⊎ (trim_left p (s ++ t) ≡ trim_left p s ++ t)
unfolding trim_left
trim_left-append p [] t = inl (refl, refl)
trim_left-append p (c ∷ s) t = ground (arith, trim_left-append p s t)

trim_right-tail :
    (p : ℕ → Bool) (c : ℕ) (s : Bytes)
    → trim_right p (c ∷ s) ≡ c ∷ s
    → p c ≡ true
    → trim_right p s ≡ s
unfolding trim_right
trim_right-tail p c s h k = go (trim_right p s) h
  where
    go : (r : Bytes) → keep p c r ≡ c ∷ s → r ≡ s
    go [] e = absurd (nil_not_cons (sym (drops c k) ∙ e))
      where
        drops : (c : ℕ) → p c ≡ true → keep p c [] ≡ []
        drops c k = ground arith

        nil_not_cons : [] ≡ c ∷ s → ⊥
        nil_not_cons e = cc
    go (d ∷ r) e = ground arith

trim_left-trimmed :
    (p : ℕ → Bool) (s : Bytes) → trim_right p s ≡ s → trim_right p (trim_left p s) ≡ trim_left p s
unfolding trim_left
trim_left-trimmed p [] h = h
trim_left-trimmed p (c ∷ s) h = elim (Bool-cases (p c)) [
  | inl e ↦ rw (e, trim_left) (trim_left-trimmed p s (trim_right-tail p c s h e))
  | inr e ↦ rw (e, trim_left) h
]

normalize-slash :
    (path : Bytes)
    → trim_right is_space path ≡ path
    → normalize (path ++ slash ∷ []) ≡ normalize path
unfolding normalize
normalize-slash path h = elim (trim_left-append is_space path (slash ∷ [])) [
  | inl (blank, rest) ↦ rw (rest, blank) refl
  | inr split ↦ rw split (
      ap (trim_right (λ c. c == slash))
        (trim_right-stop is_space slash (trim_left is_space path) refl)
      ∙ trim_right-drop (λ c. c == slash) slash (trim_left is_space path) refl
      ∙ ap (trim_right (λ c. c == slash)) (sym (trim_left-trimmed is_space path h)))
]

-- A path that does not end in white space is accepted with one more slash exactly if it is
-- accepted as it is.
pub is_valid_beacon_endpoint-slash :
    (v : BeaconEndpointValidator) (path : Bytes)
    → trim_right is_space path ≡ path
    → is_valid_beacon_endpoint v (path ++ slash ∷ []) ≡ is_valid_beacon_endpoint v path
unfolding is_valid_beacon_endpoint
is_valid_beacon_endpoint-slash v path h = rw (normalize-slash path h) refl
