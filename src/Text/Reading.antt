-- ===== src/Text/Reading.antt =====
-- Reading a number from its decimal digits, which is what `int` does with them.
use Prim.Native.Char.{code}
use Prim.Native.String.{slice, ◌++◌ as ◌<>◌}
use text.Mathlib.TextLemmas.{nil-append, cons-append}
use pylar_framework.Text.{digits, str}
use pylar_framework.Prelude.{
  Bool-cases, String, arith, inl, inr, ltb, refl, suc, zero, ℕ, ◌%◌, ◌*◌, ◌+◌, ◌-◌, ◌/◌, ◌<◌, ◌∙◌,
  ◌≡◌, ◌≤◌,
}

read_from : ℕ → String → ℕ
read_from n String.[] = n
read_from n (String.◌∷◌ c s) = read_from (n * 10 + (code c - 48)) s

unfoldable pub read_number : String → ℕ
unfolding read_from
read_number s = read_from 0 s

read_from-append : (s t : String) (n : ℕ) → read_from n (s <> t) ≡ read_from (read_from n s) t
unfolding read_from
read_from-append String.[] t n = rw nil-append refl
read_from-append (String.◌∷◌ c s) t n =
    rw cons-append (read_from-append s t (n * 10 + (code c - 48)))

read_from-digit : (n d : ℕ) → d < 10 → read_from n (slice "0123456789" d (d + 1)) ≡ n * 10 + d
unfolding read_from
read_from-digit n zero h = refl
read_from-digit n (suc zero) h = refl
read_from-digit n (suc (suc zero)) h = refl
read_from-digit n (suc (suc (suc zero))) h = refl
read_from-digit n (suc (suc (suc (suc zero)))) h = refl
read_from-digit n (suc (suc (suc (suc (suc zero))))) h = refl
read_from-digit n (suc (suc (suc (suc (suc (suc zero)))))) h = refl
read_from-digit n (suc (suc (suc (suc (suc (suc (suc zero))))))) h = refl
read_from-digit n (suc (suc (suc (suc (suc (suc (suc (suc zero)))))))) h = refl
read_from-digit n (suc (suc (suc (suc (suc (suc (suc (suc (suc zero))))))))) h = refl
read_from-digit n (suc (suc (suc (suc (suc (suc (suc (suc (suc (suc d)))))))))) h =
    absurd (omega (arith, h))

read_from-digits : (fuel n : ℕ) → n < fuel → read_from 0 (digits fuel n) ≡ n
unfolding digits
read_from-digits zero n h = absurd (omega (arith, h))
read_from-digits (suc fuel) n h = elim (Bool-cases (ltb n 10)) [
  | inl one_digit ↦ rw one_digit (read_from-digit 0 n (ground arith) ∙ omega arith)
  | inr more ↦
      let big : 10 ≤ n = ground arith in
      rw
        (
          more,
          read_from-append,
          read_from-digits fuel (n / 10) (omega (arith, h, big)),
          read_from-digit (n / 10) (n % 10) (omega arith),
        )
        (omega arith)
]

-- A number is read back from its text.
pub read_number-str : (n : ℕ) → read_number (str n) ≡ n
unfolding read_number str
read_number-str n = read_from-digits (suc n) n (omega arith)
