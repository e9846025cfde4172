-- ===== src/Auth/Signed.antt =====
-- pylar/auth/signed.py: `UrlSigner`. HMAC-SHA256 with its hex digest, `urlencode` and the parsing of
-- `int` are parameters. A time is a number of microseconds, a lifetime may be negative. `verify`
-- takes the query that the request was parsed into.
pub mod RoundTrip
pub mod Authentic
use Prim.Native.String.{◌++◌ as ◌<>◌}
use pylar_framework.Dict
use pylar_framework.Dict.{Dict}
use pylar_framework.Dict.Sorted.{sorted}
use pylar_framework.Text.{str, compare_digest}
use pylar_framework.Prelude.{
  Bool, Option, String, false, if◌then◌else◌, ltb, negsuc, none, pos, some, str_eq, true, ℕ, ℤ, ◌*◌,
  ◌+ℤ◌, ◌+◌, ◌/◌,
}

pub data Verdict : Type 0 where
  accepted : Dict String → Verdict
  missing_signature invalid_signature expired_signature type_error : Verdict

-- int(seconds), which rounds to 0, for a time in microseconds; and its text
unfoldable pub seconds_text : ℤ → String
seconds_text (pos n) = str (n / 1000000)
seconds_text (negsuc n) = if ltb n 999999 then "0" else "-" <> str ((n + 1) / 1000000)

-- time.time() > expires
unfoldable pub is_late : ℕ → ℤ → Bool
is_late now (pos expires) = ltb (expires * 1000000) now
is_late now (negsuc n) = true

unfoldable pub with_expiry : ℕ → Option ℤ → Dict String → Dict String
unfolding seconds_text
with_expiry now none params = params
with_expiry now (some lifetime) params =
    Dict.put params "expires" (seconds_text (pos now +ℤ lifetime))

module _ (read_int : String → Option ℤ) where
  unfoldable pub check_time : Option ℤ → Dict String → ℕ → Verdict
  check_time none payload now = invalid_signature
  check_time (some expires) payload now =
      if is_late now expires then expired_signature else accepted (Dict.remove payload "expires")

  unfoldable pub check_expiry : Option String → Dict String → ℕ → Verdict
  unfolding check_time
  check_expiry none payload now = accepted (Dict.remove payload "expires")
  check_expiry (some text) payload now = check_time (read_int text) payload now

  unfoldable pub check_digest : Option Bool → Dict String → ℕ → Verdict
  check_digest none payload now = type_error
  check_digest (some false) payload now = invalid_signature
  check_digest (some true) payload now = check_expiry (Dict.get payload "expires") payload now

module _ (hmac : String → String → String) (urlencode : Dict String → String) where
  unfoldable pub canonical : String → Dict String → String
  canonical path payload = path <> "?" <> urlencode (sorted payload)

  unfoldable pub compute_signature : String → String → Dict String → String
  compute_signature key path payload = hmac key (canonical path payload)

  -- The payload of `sign` with its signature.
  unfoldable pub signed_payload : String → String → Dict String → Option ℤ → ℕ → Dict String
  signed_payload key path params expires_in now =
      let payload = with_expiry now expires_in params in
      Dict.put payload "signature" (compute_signature key path payload)

  unfoldable pub sign : String → String → Dict String → Option ℤ → ℕ → String
  sign key path params expires_in now =
      path <> "?" <> urlencode (sorted (signed_payload key path params expires_in now))

  module _ (read_int : String → Option ℤ) where
    unfoldable pub check_signature : Option String → String → String → Dict String → ℕ → Verdict
    unfolding check_digest
    check_signature none key path payload now = missing_signature
    check_signature (some signature) key path payload now =
        if str_eq signature ""
        then missing_signature
        else check_digest read_int (compare_digest signature (compute_signature key path payload))
            payload now

    unfoldable pub verify : String → String → Dict String → ℕ → Verdict
    verify key path query now =
        check_signature (Dict.get query "signature") key path (Dict.remove query "signature") now
