-- ===== src/Examples/OneTime.antt =====
-- One-time codes of six digits.
use pylar_framework.Text.{all_decimal}
use pylar_framework.Auth.Totp.{returned, World, hotp, verify}
use pylar_framework.Auth.Totp.Window
use pylar_framework.Prelude.{[], arith, pos, refl, some, true, ℕ, ◌%◌, ◌+◌, ◌/◌, ◌∷◌, ◌≡◌, ◌≤◌}

-- A digest that depends on the counter.
abbrev world : World
world = record {
  b32decode = λ secret. some (7 ∷ []);
  hmac_sha1 = λ key counter.
      1
      ∷ 2
      ∷ counter % 256
      ∷ 4
      ∷ 5
      ∷ 6
      ∷ 7
      ∷ 8
      ∷ 9
      ∷ 10
      ∷ 11
      ∷ 12
      ∷ 13
      ∷ 14
      ∷ 15
      ∷ 16
      ∷ 17
      ∷ 18
      ∷ 19
      ∷ 16
      ∷ [];
  isdigit = λ s. all_decimal s;
}

-- A code that was shown at 100 s is entered at 125 s, in the next step.
verify-current_code_example : verify world "GEZDGNBV" "909060" 125 1 6 30 ≡ returned true
unfolding pylar_framework.Auth.Totp.current_code hotp pylar_framework.Text.zfill
    pylar_framework.Text.str
verify-current_code_example =
    Window.verify-current_code world "GEZDGNBV" "909060" 100 125 1 6 30 (λ s h. h) (omega arith)
      refl (omega arith) (omega arith) (omega arith) (omega arith)

verify-accepted_code_example :
    (c : ℕ) × (125 / 30 ≤ c + 1)
    × (c ≤ 125 / 30 + 1)
    × (hotp world "GEZDGNBV" (pos c) 6 ≡ returned "909060")
unfolding pylar_framework.Auth.Totp.current_code hotp pylar_framework.Text.zfill
    pylar_framework.Text.str
verify-accepted_code_example = Window.verify-accepted_code world "GEZDGNBV" "909060" 125 1 6 30 (
    Window.verify-current_code world "GEZDGNBV" "909060" 100 125 1 6 30 (λ s h. h) (omega arith)
      refl (omega arith) (omega arith) (omega arith) (omega arith))
