-- ===== src/Balancer/Startup/Sorting.antt =====
-- cmd/loadbalancer/health_check.go: `sort.Slice` on the healthy nodes, by a number.
use mathlib.Core.Path.{ap₂}
use consensus_proxy.Base.{
  ℕ, ◌≤◌, true, false, List, [], ◌∷◌, leb, if◌then◌else◌, Elem, Distinct, subst, ◌≡◌, refl, sym,
  ◌∙◌, ◌⊎◌, inl, inr, arith, Bool-cases,
}

module _ (rank : ℕ → ℕ) where
  unfoldable pub insert_by : ℕ → List ℕ → List ℕ
  insert_by x [] = x ∷ []
  insert_by x (y ∷ ys) = if leb (rank x) (rank y) then x ∷ y ∷ ys else y ∷ insert_by x ys

  unfoldable pub sort_by : List ℕ → List ℕ
  unfolding insert_by
  sort_by [] = []
  sort_by (x ∷ xs) = insert_by x (sort_by xs)

  abbrev pub IsSorted : List ℕ → Type 0
  IsSorted [] = Unit
  IsSorted (x ∷ xs) = ((y : ℕ) → Elem y xs → rank x ≤ rank y) × IsSorted xs

  Elem-insert_by : (x q : ℕ) (ys : List ℕ) → Elem q (insert_by x ys) → (q ≡ x) ⊎ Elem q ys
  unfolding insert_by
  Elem-insert_by x q [] e = ground arith
  Elem-insert_by x q (y ∷ ys) e = ground (arith, Elem-insert_by x q ys)

  insert_by-Elem : (x q : ℕ) (ys : List ℕ) → (q ≡ x) ⊎ Elem q ys → Elem q (insert_by x ys)
  unfolding insert_by
  insert_by-Elem x q [] e = ground arith
  insert_by-Elem x q (y ∷ ys) e = ground (arith, insert_by-Elem x q ys)

  -- Sorting keeps the elements.
  pub Elem-sort_by : (q : ℕ) (xs : List ℕ) → Elem q (sort_by xs) → Elem q xs
  unfolding sort_by
  Elem-sort_by q [] e = e
  Elem-sort_by q (x ∷ xs) e = ground (arith, Elem-insert_by x q (sort_by xs) e, Elem-sort_by q xs)

  pub sort_by-Elem : (q : ℕ) (xs : List ℕ) → Elem q xs → Elem q (sort_by xs)
  unfolding sort_by
  sort_by-Elem q [] e = e
  sort_by-Elem q (x ∷ xs) (inl e) = insert_by-Elem x q (sort_by xs) (inl e)
  sort_by-Elem q (x ∷ xs) (inr e) = insert_by-Elem x q (sort_by xs) (inr (sort_by-Elem q xs e))

  insert_by-IsSorted : (x : ℕ) (ys : List ℕ) → IsSorted ys → IsSorted (insert_by x ys)
  unfolding insert_by
  insert_by-IsSorted x [] s = (λ y e. absurd e, tt)
  insert_by-IsSorted x (y ∷ ys) s = elim (Bool-cases (leb (rank x) (rank y))) [
    | inl e ↦ rw (e, insert_by) ((λ z m. below z e m), s)
    | inr e ↦ rw (e, insert_by) ((λ z m. above z e m), insert_by-IsSorted x ys s.1)
  ]
    where
      below : (z : ℕ) → leb (rank x) (rank y) ≡ true → Elem z (y ∷ ys) → rank x ≤ rank z
      below z e (inl m) = ground arith
      below z e (inr m) = ground (arith, s.0 z m)

      above : (z : ℕ) → leb (rank x) (rank y) ≡ false → Elem z (insert_by x ys) → rank y ≤ rank z
      above z e m = elim (Elem-insert_by x z ys m) [
        | inl here ↦ ground arith
        | inr later ↦ s.0 z later
      ]

  pub sort_by-IsSorted : (xs : List ℕ) → IsSorted (sort_by xs)
  unfolding sort_by
  sort_by-IsSorted [] = tt
  sort_by-IsSorted (x ∷ xs) = insert_by-IsSorted x (sort_by xs) (sort_by-IsSorted xs)

  insert_by-Distinct : (x : ℕ) (ys : List ℕ) → ¬ Elem x ys → Distinct ys → Distinct (insert_by x ys)
  unfolding insert_by
  insert_by-Distinct x [] n d = (λ e. e, tt)
  insert_by-Distinct x (y ∷ ys) n d = elim (Bool-cases (leb (rank x) (rank y))) [
    | inl e ↦ rw (e, insert_by) (n, d)
    | inr e ↦
        rw (e, insert_by)
          ((λ m. other (Elem-insert_by x y ys m)), insert_by-Distinct x ys (λ m. n (inr m)) d.1)
  ]
    where
      other : (y ≡ x) ⊎ Elem y ys → ⊥
      other (inl e) = n (inl (sym e))
      other (inr m) = d.0 m

  pub sort_by-Distinct : (xs : List ℕ) → Distinct xs → Distinct (sort_by xs)
  unfolding sort_by
  sort_by-Distinct [] d = tt
  sort_by-Distinct (x ∷ xs) d =
      insert_by-Distinct x (sort_by xs) (λ m. d.0 (Elem-sort_by x xs m)) (sort_by-Distinct xs d.1)

  -- Two sorted lists of the same elements, whose ranks differ, are the same list.
  pub IsSorted-unique :
      (xs ys : List ℕ)
      → IsSorted xs
      → IsSorted ys
      → Distinct xs
      → Distinct ys
      → ((q : ℕ) → Elem q xs → Elem q ys)
      → ((q : ℕ) → Elem q ys → Elem q xs)
      → ((q r : ℕ) → Elem q xs → Elem r xs → rank q ≡ rank r → q ≡ r)
      → xs ≡ ys
  IsSorted-unique [] [] s t d c f g inj = refl
  IsSorted-unique [] (y ∷ ys) s t d c f g inj = absurd (g y (inl refl))
  IsSorted-unique (x ∷ xs) [] s t d c f g inj = absurd (f x (inl refl))
  IsSorted-unique (x ∷ xs) (y ∷ ys) s t d c f g inj = ap₂ ◌∷◌ head (
      IsSorted-unique xs ys s.1 t.1 d.1 c.1 (λ q m. later q m (f q (inr m)))
        (λ q m. later' q m (g q (inr m))) (λ q r m n. inj q r (inr m) (inr n)))
    where
      le_head : Elem y (x ∷ xs) → rank x ≤ rank y
      le_head (inl e) = ground arith
      le_head (inr m) = s.0 y m

      ge_head : Elem x (y ∷ ys) → rank y ≤ rank x
      ge_head (inl e) = ground arith
      ge_head (inr m) = t.0 x m

      head : x ≡ y
      head =
          inj x y (inl refl) (g y (inl refl))
            (omega (arith, le_head (g y (inl refl)), ge_head (f x (inl refl))))

      later : (q : ℕ) → Elem q xs → Elem q (y ∷ ys) → Elem q ys
      later q m (inl e) = absurd (d.0 (subst (λ z. Elem z xs) (e ∙ sym head) m))
      later q m (inr n) = n

      later' : (q : ℕ) → Elem q ys → Elem q (x ∷ xs) → Elem q xs
      later' q m (inl e) = absurd (c.0 (subst (λ z. Elem z ys) (e ∙ head) m))
      later' q m (inr n) = n
