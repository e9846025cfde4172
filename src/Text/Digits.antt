-- ===== src/Text/Digits.antt =====
-- The digits of a number and their fuel.
use pylar_framework.Text.{digits, str}
use pylar_framework.Prelude.{Bool-cases, arith, inl, inr, ltb, suc, zero, ℕ, ◌/◌, ◌<◌, ◌≡◌, ◌≤◌}

digits-enough : (f g n : ℕ) → n < f → n < g → digits f n ≡ digits g n
unfolding digits
digits-enough zero g n lt lt' = absurd (omega (arith, lt))
digits-enough (suc f) zero n lt lt' = absurd (omega (arith, lt'))
digits-enough (suc f) (suc g) n lt lt' = elim (Bool-cases (ltb n 10)) [
  | inl one_digit ↦ rw one_digit
  | inr more ↦
      let big : 10 ≤ n = ground arith in
      rw (more, digits-enough f g (n / 10) (omega arith) (omega arith))
]

-- The text of a number is that of its digits on any fuel above the number.
pub str-digits : (fuel n : ℕ) → n < fuel → str n ≡ digits fuel n
unfolding str
str-digits fuel n lt = digits-enough (suc n) fuel n (omega arith) lt
