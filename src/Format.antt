-- ===== src/Format.antt =====
-- Go's fmt verbs that the proxy uses: `%d` of an integer, and the byte lists that they give. The
-- digits are produced on fuel; one more than the number is enough.
use consensus_proxy.Base.{
  ℕ, zero, suc, ◌+◌, ◌*◌, ◌/◌, ◌%◌, ◌-◌, ◌<◌, [], ◌∷◌, ltb, ℤ, pos, negsuc, if◌then◌else◌, ◌≡◌, ap,
  ◌∙◌, inl, inr, arith, Bool-cases, ltb→lt,
}
use consensus_proxy.Http.{Bytes}

pub digits : ℕ → ℕ → Bytes → Bytes
digits zero n acc = acc
digits (suc fuel) n acc =
    let acc' = (b'0' + n % 10) ∷ acc in
    let rest = digits fuel (n / 10) acc' in if ltb n 10 then acc' else rest

pub decimal : ℕ → Bytes
unfolding digits
decimal n = digits (suc n) n []

-- `%d`
unfoldable pub decimal_ℤ : ℤ → Bytes
unfolding decimal
decimal_ℤ (pos n) = decimal n
decimal_ℤ (negsuc n) = b'-' ∷ decimal (suc n)

-- The number that digits stand for, after those that stand for `n`.
pub read_digits : ℕ → Bytes → ℕ
read_digits n [] = n
read_digits n (c ∷ s) = read_digits (n * 10 + (c - b'0')) s

read_digits-digits :
    (fuel n : ℕ) (acc : Bytes) → n < fuel → read_digits 0 (digits fuel n acc) ≡ read_digits n acc
unfolding digits read_digits
read_digits-digits zero n acc h = absurd (omega arith)
read_digits-digits (suc fuel) n acc h = elim (Bool-cases (ltb n 10)) [
  | inl small ↦ rw small (ap (λ m. read_digits m acc) (one n (ltb→lt n 10 small)))
  | inr large ↦ rw large (
      read_digits-digits fuel (n / 10) ((b'0' + n % 10) ∷ acc) (ground (arith, large, h))
      ∙ ap (λ m. read_digits m acc) (more n))
]
  where
    one : (n : ℕ) → n < 10 → 0 * 10 + ((b'0' + n % 10) - b'0') ≡ n
    one n h = omega arith

    more : (n : ℕ) → (n / 10) * 10 + ((b'0' + n % 10) - b'0') ≡ n
    more n = omega arith

-- The digits of a number read back as the number.
pub read_digits-decimal : (n : ℕ) → read_digits 0 (decimal n) ≡ n
unfolding decimal read_digits
read_digits-decimal n = read_digits-digits (suc n) n [] (omega arith)
