-- ===== src/Base/Lists.antt =====
-- Lists over the native numbers, predicates on lists, filtering by a Boolean test.
use Prim.Native.Nat.{ℕ, zero, suc, ◌+◌}
use mathlib.Core.Path.{◌≡◌, refl}
use mathlib.Core.Logic.{◌⊎◌, inl, inr}
use mathlib.Core.Bool.{Bool, true, false, ◌||◌}
use mathlib.Core.Option.{Option, none, some}
use mathlib.Core.List.{List, [], ◌∷◌, ◌++◌}
use native.Mathlib.Omega.{arith}
use consensus_proxy.Base.Tests.{if◌then◌else◌, ◌==◌, ==_iff}

module _ {ℓ} {A : Type ℓ} where
  abbrev pub length : List A → ℕ
  length [] = 0
  length (x ∷ xs) = suc (length xs)

  pub length-append : (xs ys : List A) → length (xs ++ ys) ≡ length xs + length ys
  length-append [] ys = omega arith
  length-append (x ∷ xs) ys = omega (arith, length-append xs ys)

  pub length-zero : (xs : List A) → (length xs == 0) ≡ true → xs ≡ []
  length-zero [] h = refl
  length-zero (x ∷ xs) h = absurd (omega (arith, (==_iff (suc (length xs)) 0).0 h))

  abbrev pub take : ℕ → List A → List A
  take zero xs = []
  take (suc n) [] = []
  take (suc n) (x ∷ xs) = x ∷ take n xs

  -- The elements that pass a test, in order.
  abbrev pub select : (A → Bool) → List A → List A
  select p [] = []
  select p (x ∷ xs) = if p x then x ∷ select p xs else select p xs

  -- The first element that passes a test: a `for` loop that ends by `break`.
  abbrev pub find_first : (A → Bool) → List A → Option A
  find_first p [] = none
  find_first p (x ∷ xs) = if p x then some x else find_first p xs

  abbrev pub exists : (A → Bool) → List A → Bool
  exists p [] = false
  exists p (x ∷ xs) = p x || exists p xs

-- Membership, by recursion.
abbrev pub Elem : {A : Type 0} → A → List A → Type 0
Elem a [] = ⊥
Elem a (x ∷ xs) = (a ≡ x) ⊎ Elem a xs

module _ {ℓ κ} {A : Type ℓ} (P : A → Type κ) where
  abbrev pub All : List A → Type κ
  All [] = Unit
  All (x ∷ xs) = P x × All xs

  pub All-append : (xs ys : List A) → All xs → All ys → All (xs ++ ys)
  All-append [] ys hx hy = hy
  All-append (x ∷ xs) ys hx hy = (hx.0, All-append xs ys hx.1 hy)

module _ {A : Type 0} where
  -- A selection holds exactly the elements that pass the test.
  pub Elem-of_Elem-select :
      (p : A → Bool) (a : A) (xs : List A) → Elem a (select p xs) → Elem a xs × (p a ≡ true)
  Elem-of_Elem-select p a [] e = absurd e
  Elem-of_Elem-select p a (x ∷ xs) e = ground (arith, Elem-of_Elem-select p a xs)

  pub Elem-select_of_Elem :
      (p : A → Bool) (a : A) (xs : List A) → Elem a xs → p a ≡ true → Elem a (select p xs)
  Elem-select_of_Elem p a [] e h = absurd e
  Elem-select_of_Elem p a (x ∷ xs) e h = ground (arith, Elem-select_of_Elem p a xs)

  pub Elem-append : (a : A) (xs ys : List A) → Elem a (xs ++ ys) → Elem a xs ⊎ Elem a ys
  Elem-append a [] ys e = inr e
  Elem-append a (x ∷ xs) ys e = ground (arith, Elem-append a xs ys)

  pub Elem-append_left : (a : A) (xs ys : List A) → Elem a xs → Elem a (xs ++ ys)
  Elem-append_left a [] ys e = absurd e
  Elem-append_left a (x ∷ xs) ys e = ground (arith, Elem-append_left a xs ys)

  pub Elem-append_right : (a : A) (xs ys : List A) → Elem a ys → Elem a (xs ++ ys)
  Elem-append_right a [] ys e = e
  Elem-append_right a (x ∷ xs) ys e = inr (Elem-append_right a xs ys e)

  -- What `find_first` returns passes the test and is in the list; it fails only if nothing passes.
  pub find_first-some :
      (p : A → Bool) (a : A) (xs : List A) → find_first p xs ≡ some a → Elem a xs × (p a ≡ true)
  find_first-some p a [] e = cc
  find_first-some p a (x ∷ xs) e = ground (arith, find_first-some p a xs)

  pub find_first-none :
      (p : A → Bool) (a : A) (xs : List A) → find_first p xs ≡ none → Elem a xs → p a ≡ false
  find_first-none p a [] e h = absurd h
  find_first-none p a (x ∷ xs) e h = ground (arith, find_first-none p a xs)

  pub exists-Elem :
      (p : A → Bool) (xs : List A) → exists p xs ≡ true → (a : A) × Elem a xs × (p a ≡ true)
  exists-Elem p [] e = cc
  exists-Elem p (x ∷ xs) e = split (p x) refl (λ h. exists-Elem p xs h)
    where
      split :
          (t : Bool)
          → p x ≡ t
          → (exists p xs ≡ true → (a : A) × Elem a xs × (p a ≡ true))
          → (a : A) × Elem a (x ∷ xs) × (p a ≡ true)
      split true here later = (x, inl refl, here)
      split false other later = let (a, m, h) = later (rw other at e) in (a, inr m, h)

  pub exists_of_Elem :
      (p : A → Bool) (a : A) (xs : List A) → Elem a xs → p a ≡ true → exists p xs ≡ true
  exists_of_Elem p a [] e h = absurd e
  exists_of_Elem p a (x ∷ xs) e h = ground (arith, exists_of_Elem p a xs)

  -- No element stands twice.
  abbrev pub Distinct : List A → Type 0
  Distinct [] = Unit
  Distinct (x ∷ xs) = (¬ Elem x xs) × Distinct xs

  pub select-append :
      (p : A → Bool) (xs ys : List A) → select p (xs ++ ys) ≡ select p xs ++ select p ys
  select-append p [] ys = refl
  select-append p (x ∷ xs) ys = ground (arith, select-append p xs ys)

  pub select-Distinct : (p : A → Bool) (xs : List A) → Distinct xs → Distinct (select p xs)
  select-Distinct p [] d = tt
  select-Distinct p (x ∷ xs) d =
      ground (arith, select-Distinct p xs d.1, Elem-of_Elem-select p x xs)

  -- An order of arrival: it loses nothing, adds nothing and repeats nothing.
  pub record Reorders (arrival : List A → List A) : Type 0 where
    pub from : (a : A) (xs : List A) → Elem a (arrival xs) → Elem a xs
    pub into : (a : A) (xs : List A) → Elem a xs → Elem a (arrival xs)
    pub distinct : (xs : List A) → Distinct xs → Distinct (arrival xs)
