-- ===== src/Validator/Matching.antt =====
-- cmd/validator/validator.go: the matcher against the texts of a pattern.
use consensus_proxy.Base.{
  ℕ, true, List, [], ◌∷◌, ◌++◌, All, ◌≡◌, refl, ap, ◌≢◌, ◌↔◌, inl, inr, arith, Bool-cases,
}
use consensus_proxy.Http.{Bytes}
use consensus_proxy.Validator.{Piece, char, segment, slash, match_string}

-- The texts of a pattern.
abbrev pub Matches : List Piece → Bytes → Type 0
Matches [] s = s ≡ []
Matches (char c ∷ ps) s = (t : Bytes) × (s ≡ c ∷ t) × Matches ps t
Matches (segment ∷ ps) s =
    (w : Bytes) × (t : Bytes) × (s ≡ w ++ t) × (w ≢ []) × All (λ c. c ≢ slash) w × Matches ps t

cons_not_nil : (c : ℕ) (s : Bytes) → c ∷ s ≢ []
cons_not_nil c s e = cc

match_string_sound : (ps : List Piece) (s : Bytes) → match_string ps s ≡ true → Matches ps s
unfolding match_string
match_string_sound [] [] h = refl
match_string_sound [] (d ∷ s) h = cc
match_string_sound (char c ∷ ps) [] h = cc
match_string_sound (char c ∷ ps) (d ∷ s) h =
    (s, ground arith, match_string_sound ps s (ground arith))
match_string_sound (segment ∷ ps) [] h = cc
match_string_sound (segment ∷ ps) (d ∷ s) h = elim (Bool-cases (match_string ps s)) [
  | inl here ↦
      (d ∷ [], s, refl, cons_not_nil d [], (ground arith, tt), match_string_sound ps s here)
  | inr there ↦
      let (w, t, split, _, clean, rest) = match_string_sound (segment ∷ ps) s (ground arith) in
      (d ∷ w, t, ap (◌∷◌ d) split, cons_not_nil d w, (ground arith, clean), rest)
]

match_segment :
    (ps : List Piece) (w t : Bytes)
    → w ≢ []
    → All (λ c. c ≢ slash) w
    → match_string ps t ≡ true
    → match_string (segment ∷ ps) (w ++ t) ≡ true
unfolding match_string
match_segment ps [] t n a h = absurd (n refl)
match_segment ps (c ∷ []) t n a h = ground arith
match_segment ps (c ∷ d ∷ w) t n a h =
    ground (arith, match_segment ps (d ∷ w) t (cons_not_nil d w) a.1 h)

match_string_complete : (ps : List Piece) (s : Bytes) → Matches ps s → match_string ps s ≡ true
unfolding match_string
match_string_complete [] s m = rw m refl
match_string_complete (char c ∷ ps) s (t, e, m) =
    rw e (ground (arith, match_string_complete ps t m))
match_string_complete (segment ∷ ps) s (w, t, e, n, a, m) =
    rw e (match_segment ps w t n a (match_string_complete ps t m))

-- The matcher accepts exactly the texts of the pattern.
pub match_string_iff : (ps : List Piece) (s : Bytes) → (match_string ps s ≡ true) ↔ Matches ps s
match_string_iff ps s = (match_string_sound ps s, match_string_complete ps s)
