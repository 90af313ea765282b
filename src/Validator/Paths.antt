-- ===== src/Validator/Paths.antt =====
-- cmd/validator/validator.go: the paths that `IsValidBeaconEndpoint` accepts.
use mathlib.Core.Path.{ap₂}
use consensus_proxy.Base.{
  ℕ, ◌+◌, Bool, true, false, List, [], ◌∷◌, ◌++◌, if◌then◌else◌, exists, Elem, All, ◌≡◌, refl, sym,
  ◌∙◌, ◌≢◌, ◌↔◌, inl, inr, arith, ◌==◌, Bool-cases, ◌&&◌,
}
use consensus_proxy.Http.{Bytes, bytes_of}
use consensus_proxy.Validator.{
  Piece, char, segment, slash, match_string, is_valid_beacon_endpoint, normalize,
  new_beacon_endpoint_validator, BeaconEndpointValidator, is_empty,
}
use consensus_proxy.Validator.Matching.{Matches, match_string_iff}

-- A number of slashes, in a text and in a pattern.
pub count_slashes : Bytes → ℕ
count_slashes [] = 0
count_slashes (c ∷ s) = (if c == slash then 1 else 0) + count_slashes s

pub pattern_slashes : List Piece → ℕ
pattern_slashes [] = 0
pattern_slashes (char c ∷ ps) = (if c == slash then 1 else 0) + pattern_slashes ps
pattern_slashes (segment ∷ ps) = pattern_slashes ps

count_slashes-append : (s t : Bytes) → count_slashes (s ++ t) ≡ count_slashes s + count_slashes t
unfolding count_slashes
count_slashes-append [] t = omega arith
count_slashes-append (c ∷ s) t = omega (arith, count_slashes-append s t)

count_slashes-none : (s : Bytes) → All (λ c. c ≢ slash) s → count_slashes s ≡ 0
unfolding count_slashes
count_slashes-none [] a = refl
count_slashes-none (c ∷ s) a = ground (arith, count_slashes-none s a.1)

-- A wildcard takes one segment: a text has as many slashes as its pattern.
Matches-count : (ps : List Piece) (s : Bytes) → Matches ps s → count_slashes s ≡ pattern_slashes ps
unfolding count_slashes pattern_slashes
Matches-count [] s m = rw m refl
Matches-count (char c ∷ ps) s (t, e, m) = rw e (omega (arith, Matches-count ps t m))
Matches-count (segment ∷ ps) s (w, t, e, _, clean, m) =
    rw e (omega (arith, count_slashes-append w t, count_slashes-none w clean, Matches-count ps t m))

-- The text that a pattern begins with.
abbrev BeginsWith : Bytes → List Piece → Type 0
BeginsWith [] ps = Unit
BeginsWith (c ∷ p) [] = ⊥
BeginsWith (c ∷ p) (char d ∷ ps) = (c ≡ d) × BeginsWith p ps
BeginsWith (c ∷ p) (segment ∷ ps) = ⊥

Matches-prefix :
    (p : Bytes) (ps : List Piece) (s : Bytes)
    → BeginsWith p ps
    → Matches ps s
    → (t : Bytes) × (s ≡ p ++ t)
Matches-prefix [] ps s b m = (s, refl)
Matches-prefix (c ∷ p) [] s b m = absurd b
Matches-prefix (c ∷ p) (char d ∷ ps) s b (t, e, m) =
    let (rest, split) = Matches-prefix p ps t b.1 m in (rest, e ∙ ap₂ ◌∷◌ (sym b.0) split)
Matches-prefix (c ∷ p) (segment ∷ ps) s b m = absurd b

exists-Elem :
    {A : Type 0} (p : A → Bool) (xs : List A)
    → exists p xs ≡ true
    → (a : A) × Elem a xs × (p a ≡ true)
exists-Elem p [] h = cc
exists-Elem p (x ∷ xs) h = elim (Bool-cases (p x)) [
  | inl e ↦ (x, inl refl, e)
  | inr e ↦
      let later : exists p xs ≡ true = ground arith in
      let (a, member, passed) = exists-Elem p xs later in (a, inr member, passed)
]

Elem-exists :
    {A : Type 0} (p : A → Bool) (a : A) (xs : List A) → Elem a xs → p a ≡ true → exists p xs ≡ true
Elem-exists p a [] e h = absurd e
Elem-exists p a (x ∷ xs) (inl e) h = rw (← e) (ground arith)
Elem-exists p a (x ∷ xs) (inr e) h = ground (arith, Elem-exists p a xs e h)

begins_with : Bytes → List Piece → Bool
begins_with [] ps = true
begins_with (c ∷ p) [] = false
begins_with (c ∷ p) (char d ∷ ps) = c == d && begins_with p ps
begins_with (c ∷ p) (segment ∷ ps) = false

begins_with_sound : (p : Bytes) (ps : List Piece) → begins_with p ps ≡ true → BeginsWith p ps
unfolding begins_with
begins_with_sound [] ps h = tt
begins_with_sound (c ∷ p) [] h = cc
begins_with_sound (c ∷ p) (char d ∷ ps) h = (ground arith, begins_with_sound p ps (ground arith))
begins_with_sound (c ∷ p) (segment ∷ ps) h = cc

all_begin : List (List Piece) → Bool
all_begin [] = true
all_begin (p ∷ ps) = begins_with (bytes_of "/eth/v") p && all_begin ps

and_left : (a b : Bool) → a && b ≡ true → a ≡ true
and_left a b h = ground arith

and_right : (a b : Bool) → a && b ≡ true → b ≡ true
and_right a b h = ground arith

all_begin_sound :
    (ps : List (List Piece)) (p : List Piece)
    → all_begin ps ≡ true
    → Elem p ps
    → BeginsWith (bytes_of "/eth/v") p
unfolding all_begin
all_begin_sound [] p h e = absurd e
all_begin_sound (q ∷ ps) p h (inl e) =
    begins_with_sound (bytes_of "/eth/v") p
      (rw e (and_left (begins_with (bytes_of "/eth/v") q) (all_begin ps) h))
all_begin_sound (q ∷ ps) p h (inr e) =
    all_begin_sound ps p (and_right (begins_with (bytes_of "/eth/v") q) (all_begin ps) h) e

valid_paths-begin : all_begin new_beacon_endpoint_validator.valid_paths ≡ true
unfolding all_begin begins_with new_beacon_endpoint_validator
valid_paths-begin = refl

pub valid_prefix :
    (p : List Piece) (s : Bytes)
    → Elem p new_beacon_endpoint_validator.valid_paths
    → Matches p s
    → (t : Bytes) × (s ≡ bytes_of "/eth/v" ++ t)
valid_prefix p s e m =
    Matches-prefix (bytes_of "/eth/v") p s
      (all_begin_sound new_beacon_endpoint_validator.valid_paths p valid_paths-begin e) m

module _ (v : BeaconEndpointValidator) where
  accepted-exists :
      (path : Bytes)
      → is_valid_beacon_endpoint v path ≡ true
      → exists (λ p. match_string p (normalize path)) v.valid_paths ≡ true
  unfolding is_valid_beacon_endpoint
  accepted-exists path h = go (normalize path) h
    where
      go :
          (s : Bytes)
          → (if is_empty s then false else exists (λ p. match_string p s) v.valid_paths) ≡ true
          → exists (λ p. match_string p s) v.valid_paths ≡ true
      go [] e = cc
      go (c ∷ s) e = e

  exists-accepted :
      (path : Bytes) (c : ℕ) (t : Bytes)
      → normalize path ≡ c ∷ t
      → exists (λ p. match_string p (normalize path)) v.valid_paths ≡ true
      → is_valid_beacon_endpoint v path ≡ true
  unfolding is_valid_beacon_endpoint
  exists-accepted path c t e h = go (normalize path) e h
    where
      go :
          (s : Bytes)
          → s ≡ c ∷ t
          → exists (λ p. match_string p s) v.valid_paths ≡ true
          → (if is_empty s then false else exists (λ p. match_string p s) v.valid_paths) ≡ true
      go [] e h = cc
      go (d ∷ s) e h = h

-- A path is accepted exactly if, without outer white space and trailing slashes, it is a text of
-- one of the patterns.
pub accepted_iff :
    (path : Bytes)
    → (is_valid_beacon_endpoint new_beacon_endpoint_validator path ≡ true) ↔ (
        (p : List Piece) × Elem p new_beacon_endpoint_validator.valid_paths
        × Matches p (normalize path))
accepted_iff path = (there, back)
  where
    v : BeaconEndpointValidator
    v = new_beacon_endpoint_validator

    there :
        is_valid_beacon_endpoint v path ≡ true
        → (p : List Piece) × Elem p v.valid_paths × Matches p (normalize path)
    there h =
        let (p, member, passed) =
          exists-Elem (λ p. match_string p (normalize path)) v.valid_paths
            (accepted-exists v path h) in
        (p, member, (match_string_iff p (normalize path)).0 passed)

    back :
        ((p : List Piece) × Elem p v.valid_paths × Matches p (normalize path))
        → is_valid_beacon_endpoint v path ≡ true
    back (p, member, m) =
        let (t, split) = valid_prefix p (normalize path) member m in
        exists-accepted v path b'/' (bytes_of "eth/v" ++ t) split (
          Elem-exists (λ q. match_string q (normalize path)) p v.valid_paths member
            ((match_string_iff p (normalize path)).1 m))

-- An accepted path lies under `/eth/v`, and its wildcards take one segment each: it has exactly as
-- many slashes as one of the patterns.
pub is_valid_beacon_endpoint_shape :
    (path : Bytes)
    → is_valid_beacon_endpoint new_beacon_endpoint_validator path ≡ true
    → ((t : Bytes) × (normalize path ≡ bytes_of "/eth/v" ++ t))
      × ((p : List Piece) × Elem p new_beacon_endpoint_validator.valid_paths
          × (count_slashes (normalize path) ≡ pattern_slashes p))
is_valid_beacon_endpoint_shape path h =
    let (p, member, m) = (accepted_iff path).0 h in
    (valid_prefix p (normalize path) member m, (p, member, Matches-count p (normalize path) m))
