-- ===== src/Validator/Accepting.antt =====
-- cmd/validator/validator.go: the paths that `IsValidBeaconEndpoint` accepts, described without its
-- trimming functions.
use consensus_proxy.Base.{
  not_both, ℕ, String, Bool, true, false, List, [], ◌∷◌, ◌++◌, Elem, All, subst, ◌≡◌, refl, sym, ap,
  ◌∙◌, ◌↔◌, inl, inr, arith, ◌==◌, Bool-cases, map,
}
use consensus_proxy.Http.{Bytes, bytes_of}
use consensus_proxy.Validator.{
  slash, is_space, is_valid_beacon_endpoint, normalize, new_beacon_endpoint_validator, compile,
  trim_left, trim_right, keep,
}
use consensus_proxy.Validator.Patterns.{patterns}
use consensus_proxy.Validator.Matching.{Matches}
use consensus_proxy.Validator.Paths.{accepted_iff, valid_prefix}

-- The last character passes a test.
abbrev pub EndsIn : (ℕ → Bool) → Bytes → Type 0
EndsIn p [] = ⊥
EndsIn p (c ∷ []) = p c ≡ true
EndsIn p (c ∷ d ∷ s) = EndsIn p (d ∷ s)

abbrev pub is_slash : ℕ → Bool
is_slash c = c == slash

abbrev pub AllOf : (ℕ → Bool) → Bytes → Type 0
AllOf p s = All (λ c. p c ≡ true) s

-- A text of one of the patterns, with slashes behind it, and white space around all that.
pub record IsEndpoint (path : Bytes) : Type 0 where
  pub before : Bytes
  pub text : Bytes
  pub slashes : Bytes
  pub after : Bytes
  pub pattern_text : String
  pub is_path : path ≡ before ++ ((text ++ slashes) ++ after)
  pub space_before : AllOf is_space before
  pub space_after : AllOf is_space after
  pub all_slashes : AllOf is_slash slashes
  pub no_more_space : ¬ EndsIn is_space (text ++ slashes)
  pub no_more_slash : ¬ EndsIn is_slash text
  pub is_pattern : Elem pattern_text patterns
  pub matches : Matches (compile pattern_text) text

module _ (p : ℕ → Bool) where
  trim_right-split :
      (s : Bytes)
      → (after : Bytes) × (s ≡ trim_right p s ++ after)
        × AllOf p after
        × (¬ EndsIn p (trim_right p s))
  unfolding trim_right keep
  trim_right-split [] = ([], refl, tt, λ e. e)
  trim_right-split (c ∷ s) =
      let (after, e, all, stops) = trim_right-split s in kept (trim_right p s) after e all stops
    where
      kept :
          (r after : Bytes)
          → s ≡ r ++ after
          → AllOf p after
          → ¬ EndsIn p r
          → (x : Bytes) × (c ∷ s ≡ keep p c r ++ x) × AllOf p x × (¬ EndsIn p (keep p c r))
      kept [] after e all stops = elim (Bool-cases (p c)) [
        | inl t ↦ rw (t, keep) (c ∷ after, ap (◌∷◌ c) e, (t, all), λ h. h)
        | inr f ↦ rw (f, keep) (after, ap (◌∷◌ c) e, all, λ h. not_both (sym h ∙ f))
      ]
      kept (d ∷ r) after e all stops = (after, ap (◌∷◌ c) e, all, stops)

  trim_left-split : (s : Bytes) → (before : Bytes) × (s ≡ before ++ trim_left p s) × AllOf p before
  unfolding trim_left
  trim_left-split [] = ([], refl, tt)
  trim_left-split (c ∷ s) = elim (Bool-cases (p c)) [
    | inl t ↦
        let (before, e, all) = trim_left-split s in
        rw (t, trim_left) (c ∷ before, ap (◌∷◌ c) e, (t, all))
    | inr f ↦ rw (f, trim_left) ([], refl, tt)
  ]

  trim_right-all : (s : Bytes) → AllOf p s → trim_right p s ≡ []
  unfolding trim_right keep
  trim_right-all [] all = refl
  trim_right-all (c ∷ s) (t, all) = rw (trim_right-all s all, keep) (rw t refl)

  trim_right-back : (u after : Bytes) → AllOf p after → ¬ EndsIn p u → trim_right p (u ++ after) ≡ u
  unfolding trim_right keep
  trim_right-back [] after all stops = trim_right-all after all
  trim_right-back (c ∷ []) after all stops =
      ap (keep p c) (trim_right-all after all) ∙ ground (arith, stops)
  trim_right-back (c ∷ d ∷ u) after all stops =
      ap (keep p c) (trim_right-back (d ∷ u) after all stops)

  trim_left-back :
      (before x : Bytes) (c : ℕ) (t : Bytes)
      → x ≡ c ∷ t
      → p c ≡ false
      → AllOf p before
      → trim_left p (before ++ x) ≡ x
  unfolding trim_left
  trim_left-back [] x c t e f all = rw e (rw f refl)
  trim_left-back (b ∷ before) x c t e f (h, all) = rw h (trim_left-back before x c t e f all)

Elem-of_Elem-map :
    {A B : Type 0} (f : A → B) (b : B) (xs : List A)
    → Elem b (map f xs)
    → (a : A) × Elem a xs × (b ≡ f a)
Elem-of_Elem-map f b [] e = absurd e
Elem-of_Elem-map f b (x ∷ xs) (inl e) = (x, inl refl, e)
Elem-of_Elem-map f b (x ∷ xs) (inr e) = let (a, m, h) = Elem-of_Elem-map f b xs e in (a, inr m, h)

Elem-map_of_Elem :
    {A B : Type 0} (f : A → B) (a : A) (xs : List A) → Elem a xs → Elem (f a) (map f xs)
Elem-map_of_Elem f a [] e = absurd e
Elem-map_of_Elem f a (x ∷ xs) (inl e) = inl (ap f e)
Elem-map_of_Elem f a (x ∷ xs) (inr e) = inr (Elem-map_of_Elem f a xs e)

normalized :
    (path : Bytes) (f : IsEndpoint path) (t : Bytes) → f.text ≡ b'/' ∷ t → normalize path ≡ f.text
unfolding normalize
normalized path f t e =
    ap (λ s. trim_right is_slash (trim_right is_space s))
      (ap (trim_left is_space) f.is_path
        ∙ trim_left-back is_space f.before ((f.text ++ f.slashes) ++ f.after) b'/'
            ((t ++ f.slashes) ++ f.after) (ap (λ s. (s ++ f.slashes) ++ f.after) e) refl
            f.space_before)
    ∙ ap (trim_right is_slash)
        (trim_right-back is_space (f.text ++ f.slashes) f.after f.space_after f.no_more_space)
    ∙ trim_right-back is_slash f.text f.slashes f.all_slashes f.no_more_slash

-- A path is accepted exactly if it is a text of one of the patterns, with any number of slashes
-- behind it and white space around all that, where the text does not end in a slash and what the
-- white space surrounds does not end in white space.
pub is_valid_beacon_endpoint_iff :
    (path : Bytes)
    → (is_valid_beacon_endpoint new_beacon_endpoint_validator path ≡ true) ↔ IsEndpoint path
unfolding normalize new_beacon_endpoint_validator
is_valid_beacon_endpoint_iff path = (there, back)
  where
    there : is_valid_beacon_endpoint new_beacon_endpoint_validator path ≡ true → IsEndpoint path
    there h =
        let (piece, member, m) = (accepted_iff path).0 h in
        let (s, is_pattern, compiled) = Elem-of_Elem-map compile piece patterns member in
        let v = trim_left is_space path in
        let u = trim_right is_space v in
        let (before, left, space) = trim_left-split is_space path in
        let (after, right, space', stops) = trim_right-split is_space v in
        let (slashes, cut, all, stops') = trim_right-split is_slash u in
        record {
          before = before;
          text = trim_right is_slash u;
          slashes = slashes;
          after = after;
          pattern_text = s;
          is_path = left ∙ ap (λ x. before ++ x) (right ∙ ap (λ x. x ++ after) cut);
          space_before = space;
          space_after = space';
          all_slashes = all;
          no_more_space = subst (λ x. ¬ EndsIn is_space x) cut stops;
          no_more_slash = stops';
          is_pattern = is_pattern;
          matches = subst (λ q. Matches q (trim_right is_slash u)) compiled m;
        }

    back : IsEndpoint path → is_valid_beacon_endpoint new_beacon_endpoint_validator path ≡ true
    back f =
        let member = Elem-map_of_Elem compile f.pattern_text patterns f.is_pattern in
        let (t, split) = valid_prefix (compile f.pattern_text) f.text member f.matches in
        let same = normalized path f (bytes_of "eth/v" ++ t) split in
        (accepted_iff path).1 (
          compile f.pattern_text,
          member,
          subst (Matches (compile f.pattern_text)) (sym same) f.matches,
        )
