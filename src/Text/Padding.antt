-- ===== src/Text/Padding.antt =====
-- The text of a number, filled with zeros to a width.
use Prim.Native.String.{slice, ◌++◌ as ◌<>◌}
use Prim.Native.Nat.{◌^◌}
use native.Mathlib.Omega.{pow_step}
use text.Mathlib.TextLemmas.{nil-append, cons-append}
use pylar_framework.Text.{digits, str, is_ascii, len, all_decimal, zeros, zfill}
use pylar_framework.Prelude.{
  Bool-cases, String, arith, inl, inr, ltb, refl, suc, true, zero, ℕ, ◌%◌, ◌*◌, ◌+◌, ◌-◌, ◌/◌, ◌<◌,
  ◌≡◌, ◌≤◌,
}

-- A text of decimal digits only, and how long it is.
abbrev IsNumeral : ℕ → String → Type 0
IsNumeral n s = (len s ≡ n) × (all_decimal s ≡ true)

pub all_decimal-ascii : (s : String) → all_decimal s ≡ true → is_ascii s ≡ true
unfolding all_decimal is_ascii
all_decimal-ascii String.[] h = refl
all_decimal-ascii (String.◌∷◌ c s) h = ground (arith, all_decimal-ascii s)

pub len-append : (s t : String) → len (s <> t) ≡ len s + len t
unfolding len
len-append String.[] t = rw nil-append (omega arith)
len-append (String.◌∷◌ c s) t = rw cons-append (omega (arith, len-append s t))

all_decimal-append :
    (s t : String) → all_decimal s ≡ true → all_decimal t ≡ true → all_decimal (s <> t) ≡ true
unfolding all_decimal
all_decimal-append String.[] t h k = rw nil-append k
all_decimal-append (String.◌∷◌ c s) t h k = rw cons-append (ground (arith, all_decimal-append s t))

append-IsNumeral :
    (m n k : ℕ) (s t : String) → m + n ≡ k → IsNumeral m s → IsNumeral n t → IsNumeral k (s <> t)
append-IsNumeral m n k s t e (a, h) (b, h') =
    (omega (arith, len-append s t), all_decimal-append s t h h')

digit-IsNumeral : (n : ℕ) → n < 10 → IsNumeral 1 (slice "0123456789" n (n + 1))
unfolding len all_decimal
digit-IsNumeral zero h = (refl, refl)
digit-IsNumeral (suc zero) h = (refl, refl)
digit-IsNumeral (suc (suc zero)) h = (refl, refl)
digit-IsNumeral (suc (suc (suc zero))) h = (refl, refl)
digit-IsNumeral (suc (suc (suc (suc zero)))) h = (refl, refl)
digit-IsNumeral (suc (suc (suc (suc (suc zero))))) h = (refl, refl)
digit-IsNumeral (suc (suc (suc (suc (suc (suc zero)))))) h = (refl, refl)
digit-IsNumeral (suc (suc (suc (suc (suc (suc (suc zero))))))) h = (refl, refl)
digit-IsNumeral (suc (suc (suc (suc (suc (suc (suc (suc zero)))))))) h = (refl, refl)
digit-IsNumeral (suc (suc (suc (suc (suc (suc (suc (suc (suc zero))))))))) h = (refl, refl)
digit-IsNumeral (suc (suc (suc (suc (suc (suc (suc (suc (suc (suc n)))))))))) h =
    absurd (omega (arith, h))

zeros-IsNumeral : (n : ℕ) → IsNumeral n (zeros n)
unfolding zeros len all_decimal
zeros-IsNumeral zero = (refl, refl)
zeros-IsNumeral (suc n) =
    append-IsNumeral 1 n (suc n) "0" (zeros n) (omega arith) (refl, refl) (zeros-IsNumeral n)

-- The number of digits.
digits-IsNumeral :
    (fuel d n : ℕ) → n < fuel → n < 10 ^ suc d → (m : ℕ) × (m ≤ suc d) × IsNumeral m (digits fuel n)
unfolding digits
digits-IsNumeral zero d n h k = absurd (omega (arith, h))
digits-IsNumeral (suc fuel) zero n h k =
    let small : n < 10 = k in
    let one_digit : ltb n 10 ≡ true = ground (arith, small) in
    rw one_digit (1, omega arith, digit-IsNumeral n small)
digits-IsNumeral (suc fuel) (suc d) n h k = elim (Bool-cases (ltb n 10)) [
  | inl one_digit ↦ rw one_digit (1, omega arith, digit-IsNumeral n (ground arith))
  | inr more ↦
      let big : 10 ≤ n = ground arith in
      let step : 10 ^ suc (suc d) ≡ 10 * 10 ^ suc d = pow_step 10 (suc d) in
      let (m, le, there) =
        digits-IsNumeral fuel d (n / 10) (omega (arith, h, big)) (omega (arith, k, step)) in
      rw more (
        suc m,
        omega (arith, le),
        append-IsNumeral m 1 (suc m) (digits fuel (n / 10)) _ (omega arith) there
            (digit-IsNumeral (n % 10) (omega arith)),
      )
]

-- A number below 10 ^ width, filled with zeros, is a text of just `width` decimal digits.
pub zfill-str :
    (width n : ℕ)
    → 0 < width
    → n < 10 ^ width
    → (len (zfill (str n) width) ≡ width) × (all_decimal (zfill (str n) width) ≡ true)
unfolding zfill str
zfill-str zero n h k = absurd (omega (arith, h))
zfill-str (suc d) n h k =
    let (m, le, there) = digits-IsNumeral (suc n) d n (omega arith) k in
    append-IsNumeral (suc d - m) m (suc d) _ _ (omega (arith, le))
      (rw there.0 (zeros-IsNumeral (suc d - m))) there
