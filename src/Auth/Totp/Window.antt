-- ===== src/Auth/Totp/Window.antt =====
-- Which codes are accepted.
use Prim.Native.Nat.{◌^◌}
use native.Mathlib.Nat.{mod-lt, one-le-pow}
use pylar_framework.Text.{len, is_ascii, all_decimal, compare_digest}
use pylar_framework.Text.Padding.{zfill-str, all_decimal-ascii}
use pylar_framework.Prelude.Int.{pos_part, neg_part, -ℤ_parts, eq_of_parts}
use pylar_framework.Auth.Totp.{
  Outcome, returned, bad_secret, bad_counter, bad_text, World, pad_b32, code_of, hotp_with, hotp,
  current_code, match_code, match_any, next_counter, verify,
}
use pylar_framework.Prelude.{
  Bool, Bool-cases, List, Option-cases, String, ap, arith, eq_iff, inl, inr, lt→ltb, negsuc, not,
  pos, refl, some, suc, sym, true, zero, ℕ, ℤ, ◌+◌, ◌-ℤ◌, ◌-◌, ◌/◌, ◌<◌, ◌==◌, ◌||◌, ◌∙◌, ◌≡◌, ◌≤◌,
  ◌⊎◌,
}

module _ (w : World) where
  code_of-IsNumeral :
      (digits : ℕ) (digest : List ℕ)
      → 0 < digits
      → (len (code_of w digits digest) ≡ digits) × (all_decimal (code_of w digits digest) ≡ true)
  unfolding code_of
  code_of-IsNumeral digits digest h =
      zfill-str digits _ h (mod-lt _ (one-le-pow digits 10 (omega arith)))

  code_of-ascii :
      (digits : ℕ) (digest : List ℕ) → 0 < digits → is_ascii (code_of w digits digest) ≡ true
  code_of-ascii digits digest h = all_decimal-ascii _ (code_of-IsNumeral digits digest h).1

  hotp-key :
      (secret code : String) (counter : ℤ) (digits : ℕ)
      → hotp w secret counter digits ≡ returned code
      → (key : List ℕ) × (w.b32decode (pad_b32 secret) ≡ some key)
        × (hotp_with w key counter digits ≡ returned code)
  unfolding hotp
  hotp-key secret code counter digits h = elim (Option-cases (w.b32decode (pad_b32 secret))) [
    | inl bad ↦
        let never : bad_secret ≡ returned code = rw (bad, hotp) at h in
        absurd (ground (arith, never))
    | inr (key, good) ↦ (key, good, rw (good, hotp) at h)
  ]

  hotp_with-code :
      (key : List ℕ) (code : String) (n digits : ℕ)
      → hotp_with w key (pos n) digits ≡ returned code
      → code ≡ code_of w digits (w.hmac_sha1 key n)
  unfolding hotp_with
  hotp_with-code key code n digits h = ground (arith, h)

  hotp-pos :
      (secret : String) (key : List ℕ) (n digits : ℕ)
      → w.b32decode (pad_b32 secret) ≡ some key
      → n < 2 ^ 64
      → hotp w secret (pos n) digits ≡ returned (code_of w digits (w.hmac_sha1 key n))
  unfolding hotp hotp_with
  hotp-pos secret key n digits h lt = rw (h, hotp, lt→ltb n (2 ^ 64) lt) refl

  -- A round goes on to accept, if its code is the right one or the rounds behind it accept.
  match_code-accepts :
      (expected code : String) (rest : Outcome Bool)
      → is_ascii expected ≡ true
      → is_ascii code ≡ true
      → (expected ≡ code) ⊎ (rest ≡ returned true)
      → match_code w (returned expected) code rest ≡ returned true
  unfolding match_code compare_digest
  match_code-accepts expected code rest h k hit = ground (arith, h, k, hit, eq_iff expected code)

  match_code-accepted :
      (o : Outcome String) (code : String) (rest : Outcome Bool)
      → match_code w o code rest ≡ returned true
      → (o ≡ returned code) ⊎ (rest ≡ returned true)
  unfolding match_code compare_digest
  match_code-accepted (returned expected) code rest h = ground (arith, h, eq_iff expected code)
  match_code-accepted bad_secret code rest h = ground (arith, h)
  match_code-accepted bad_counter code rest h = ground (arith, h)
  match_code-accepted bad_text code rest h = ground (arith, h)

  match_any-matches :
      (secret : String) (key : List ℕ) (code : String) (digits n s i : ℕ)
      → w.b32decode (pad_b32 secret) ≡ some key
      → 0 < digits
      → s + n ≤ 2 ^ 64
      → i < n
      → is_ascii code ≡ true
      → code_of w digits (w.hmac_sha1 key (s + i)) ≡ code
      → match_any w secret code digits n (pos s) ≡ returned true
  unfolding match_any next_counter
  match_any-matches secret key code digits zero s i good h le lt k e = absurd (omega (arith, lt))
  match_any-matches secret key code digits (suc n) s zero good h le lt k e =
      rw (hotp-pos secret key s digits good (omega arith)) (
        match_code-accepts _ code _ (code_of-ascii digits (w.hmac_sha1 key s) h) k
          (inl (ap (λ c. code_of w digits (w.hmac_sha1 key c)) (omega arith) ∙ e)))
  match_any-matches secret key code digits (suc n) s (suc i) good h le lt k e =
      rw (hotp-pos secret key s digits good (omega arith)) (
        match_code-accepts _ code _ (code_of-ascii digits (w.hmac_sha1 key s) h) k (
          inr (
            match_any-matches secret key code digits n (suc s) i good h (omega arith) (omega arith)
              k (ap (λ c. code_of w digits (w.hmac_sha1 key c)) (omega arith) ∙ e))))

  next_counter-parts :
      (c : ℤ)
      → pos_part (next_counter w c) + neg_part c ≡ pos_part c + neg_part (next_counter w c) + 1
  unfolding next_counter
  next_counter-parts (pos n) = omega arith
  next_counter-parts (negsuc zero) = refl
  next_counter-parts (negsuc (suc n)) = omega arith

  first_match :
      (secret code : String) (digits n : ℕ) (counter : ℤ)
      → hotp w secret counter digits ≡ returned code
      → (c : ℕ) × (pos_part counter ≤ c + neg_part counter)
        × (c + neg_part counter < pos_part counter + suc n)
        × (hotp w secret (pos c) digits ≡ returned code)
  unfolding hotp_with
  first_match secret code digits n (pos c) h = (c, omega arith, omega arith, h)
  first_match secret code digits n (negsuc c) h =
      let (key, good, never) = hotp-key secret code (negsuc c) digits h in
      absurd (ground (arith, never))

  match_any-matched :
      (secret code : String) (digits n : ℕ) (counter : ℤ)
      → match_any w secret code digits n counter ≡ returned true
      → (c : ℕ) × (pos_part counter ≤ c + neg_part counter)
        × (c + neg_part counter < pos_part counter + n)
        × (hotp w secret (pos c) digits ≡ returned code)
  unfolding match_any
  match_any-matched secret code digits zero counter h = absurd (ground (arith, h))
  match_any-matched secret code digits (suc n) counter h =
      elim (match_code-accepted (hotp w secret counter digits) code _ h) [
        | inl hit ↦ first_match secret code digits n counter hit
        | inr later ↦
            let (c, le, lt, found) =
              match_any-matched secret code digits n (next_counter w counter) later in
            (
              c,
              omega (arith, le, next_counter-parts counter),
              omega (arith, lt, next_counter-parts counter),
              found,
            )
      ]

  -- The counters of a window that starts with the number 0 or later.
  window_start :
      (counter window : ℕ) → window ≤ counter → pos counter -ℤ pos window ≡ pos (counter - window)
  window_start counter window le =
      eq_of_parts _ _ (omega (arith, -ℤ_parts (pos counter) (pos window), le))

  -- A code that is shown at one time is accepted at any other whose step is at most the window away,
  -- if a code has a digit, `isdigit` takes decimal digits, and no counter of the window is negative
  -- or past 64 bits.
  pub verify-current_code :
      (secret code : String) (shown now window digits step : ℕ)
      (decimal : (s : String) → all_decimal s ≡ true → w.isdigit s ≡ true)
      → 0 < digits
      → current_code w secret shown digits step ≡ returned code
      → window ≤ now / step
      → now / step + window < 2 ^ 64
      → shown / step ≤ now / step + window
      → now / step ≤ shown / step + window
      → verify w secret code now window digits step ≡ returned true
  unfolding verify current_code
  verify-current_code secret code shown now window digits step decimal h made low high late early =
      let (key, good, coded) = hotp-key secret code (pos (shown / step)) digits made in
      let same = hotp_with-code key code (shown / step) digits coded in
      let numeral = code_of-IsNumeral digits (w.hmac_sha1 key (shown / step)) h in
      let size : len code ≡ digits = ap len same ∙ numeral.0 in
      let plain : all_decimal code ≡ true = ap all_decimal same ∙ numeral.1 in
      let found =
        match_any-matches secret key code digits (window + window + 1) (now / step - window)
          (shown / step + window - now / step) good h (omega arith) (omega arith)
          (all_decimal-ascii code plain)
          (ap (λ c. code_of w digits (w.hmac_sha1 key c)) (omega arith) ∙ sym same) in
      rw (decimal code plain, window_start (now / step) window low) (ground (arith, size, found))

  -- A code that is accepted is that of a counter at most the window away from the present one.
  pub verify-accepted_code :
      (secret code : String) (now window digits step : ℕ)
      → verify w secret code now window digits step ≡ returned true
      → (c : ℕ) × (now / step ≤ c + window)
        × (c ≤ now / step + window)
        × (hotp w secret (pos c) digits ≡ returned code)
  unfolding verify
  verify-accepted_code secret code now window digits step h =
      elim (Bool-cases (not (w.isdigit code) || not (len code == digits))) [
        | inl malformed ↦ absurd (ground (arith, h, malformed))
        | inr formed ↦
            let (c, le, lt, found) =
              match_any-matched secret code digits (window + window + 1)
                (pos (now / step) -ℤ pos window) (rw formed at h) in
            (
              c,
              omega (arith, le, lt, -ℤ_parts (pos (now / step)) (pos window)),
              omega (arith, le, lt, -ℤ_parts (pos (now / step)) (pos window)),
              found,
            )
      ]
