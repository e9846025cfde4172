-- ===== src/Auth/Totp.antt =====
-- pylar/auth/totp.py: one-time codes over time, and recovery codes. HMAC-SHA1, base 32, SHA-256,
-- `isdigit`, `upper` and `isalnum` are parameters. A time is a number of seconds, a window is not
-- negative.
pub mod Window
pub mod Recovery
use Prim.Native.Char.{Char}
use Prim.Native.Nat.{◌^◌}
use Prim.Native.String.{◌++◌ as ◌<>◌}
use pylar_framework.Text.{str, zfill, len, compare_digest}
use pylar_framework.Prelude.{
  Bool, List, Option, String, [], false, get_or, if◌then◌else◌, ltb, negsuc, none, not, pos, some,
  suc, true, zero, ℕ, ℤ, ◌%◌, ◌*◌, ◌+◌, ◌-ℤ◌, ◌-◌, ◌/◌, ◌==◌, ◌||◌, ◌∷◌,
}

-- What a call comes to: its value, or an exception (`binascii.Error`, `struct.error`, `TypeError`).
pub data Outcome (A : Type 0) : Type 0 where
  returned : A → Outcome A
  bad_secret bad_counter bad_text : Outcome A

unfoldable pub repeat_text : String → ℕ → String
repeat_text s zero = ""
repeat_text s (suc n) = s <> repeat_text s n

-- secret + "=" * (-len(secret) % 8)
unfoldable pub pad_b32 : String → String
unfolding repeat_text
pad_b32 secret = secret <> repeat_text "=" ((8 - len secret % 8) % 8)

-- struct.unpack(">I", digest[offset:offset + 4])[0] & 0x7FFF_FFFF
unfoldable pub truncated : List ℕ → ℕ → ℕ
truncated digest offset =
    (((get_or digest offset 0 * 256 + get_or digest (offset + 1) 0) * 256
          + get_or digest (offset + 2) 0)
        * 256
      + get_or digest (offset + 3) 0)
    % 2 ^ 31

-- The last byte of a digest of 20.
unfoldable pub digest_offset : List ℕ → ℕ
digest_offset digest = get_or digest 19 0 % 16

-- The parts of the standard library that a code is made with.
pub record World : Type 0 where
  pub b32decode : String → Option (List ℕ)
  pub hmac_sha1 : List ℕ → ℕ → List ℕ
  pub isdigit : String → Bool

module _ (w : World) where
  unfoldable pub code_of : ℕ → List ℕ → String
  unfolding truncated digest_offset
  code_of digits digest = zfill (str (truncated digest (digest_offset digest) % 10 ^ digits)) digits

  -- struct.pack(">Q", counter) takes counters of 64 bits.
  unfoldable pub hotp_with : List ℕ → ℤ → ℕ → Outcome String
  unfolding code_of
  hotp_with key (negsuc n) digits = bad_counter
  hotp_with key (pos n) digits =
      if ltb n (2 ^ 64) then returned (code_of digits (w.hmac_sha1 key n)) else bad_counter

  unfoldable pub hotp : String → ℤ → ℕ → Outcome String
  unfolding hotp_with
  hotp secret counter digits = elim (w.b32decode (pad_b32 secret)) [
    | none ↦ bad_secret
    | some key ↦ hotp_with key counter digits
  ]

  unfoldable pub current_code : String → ℕ → ℕ → ℕ → Outcome String
  current_code secret now digits step = hotp secret (pos (now / step)) digits

  unfoldable pub next_counter : ℤ → ℤ
  next_counter (pos n) = pos (suc n)
  next_counter (negsuc zero) = pos 0
  next_counter (negsuc (suc n)) = negsuc n

  -- A round of the loop of `verify`, and what the others come to.
  unfoldable pub match_code : Outcome String → String → Outcome Bool → Outcome Bool
  match_code (returned expected) code rest = elim (compare_digest expected code) [
    | none ↦ bad_text
    | some same ↦ if same then returned true else rest
  ]
  match_code bad_secret code rest = bad_secret
  match_code bad_counter code rest = bad_counter
  match_code bad_text code rest = bad_text

  unfoldable pub match_any : String → String → ℕ → ℕ → ℤ → Outcome Bool
  unfolding match_code next_counter
  match_any secret code digits zero counter = returned false
  match_any secret code digits (suc n) counter =
      match_code (hotp secret counter digits) code
        (match_any secret code digits n (next_counter counter))

  unfoldable pub verify : String → String → ℕ → ℕ → ℕ → ℕ → Outcome Bool
  unfolding match_any
  verify secret code now window digits step =
      if not (w.isdigit code) || not (len code == digits)
      then returned false
      else match_any secret code digits (window + window + 1) (pos (now / step) -ℤ pos window)

match_hash : Option Bool → String → Outcome (Option String) → Outcome (Option String)
match_hash none stored rest = bad_text
match_hash (some true) stored rest = returned (some stored)
match_hash (some false) stored rest = rest

unfoldable pub find_hash : String → List String → Outcome (Option String)
unfolding match_hash
find_hash target [] = returned none
find_hash target (stored ∷ hashes) =
    match_hash (compare_digest stored target) stored (find_hash target hashes)

module _ (upper : String → String) (is_alnum : Char → Bool) (sha256 : String → String) where
  keep_alnum : String → String
  keep_alnum String.[] = ""
  keep_alnum (String.◌∷◌ c s) =
      let rest = keep_alnum s in if is_alnum c then String.◌∷◌ c rest else rest

  unfoldable pub normalise_recovery : String → String
  unfolding keep_alnum
  normalise_recovery code = keep_alnum (upper code)

  unfoldable pub hash_recovery_code : String → String
  hash_recovery_code code = sha256 (normalise_recovery code)

  unfoldable pub verify_recovery_code : String → List String → Outcome (Option String)
  unfolding find_hash
  verify_recovery_code candidate hashes = find_hash (hash_recovery_code candidate) hashes
