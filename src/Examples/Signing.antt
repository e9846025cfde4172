-- ===== src/Examples/Signing.antt =====
-- A link that is valid for a minute.
use pylar_framework.Dict
use pylar_framework.Dict.{Dict}
use pylar_framework.Dict.Sorted.{sorted}
use pylar_framework.Text.{is_ascii, str}
use pylar_framework.Dict.Unique.{Unique}
use pylar_framework.Text.Reading.{read_number, read_number-str}
use pylar_framework.Auth.Signed.{
  accepted, expired_signature, compute_signature, signed_payload, verify,
}
use pylar_framework.Auth.Signed.RoundTrip
use pylar_framework.Auth.Signed.Authentic
use Prim.Native.String.{◌++◌ as ◌<>◌}
use pylar_framework.Prelude.{
  Bool-cases, Option, String, [], arith, eq_iff, false, if◌then◌else◌, inl, inr, pos, refl, some,
  str_eq, true, ℕ, ℤ, ◌∷◌, ◌≡◌,
}

abbrev params : Dict String
params = ("user", "42") ∷ []

abbrev urlencode : Dict String → String
urlencode [] = ""
urlencode ((k, v) ∷ d) = k <> "=" <> v <> "&" <> urlencode d

-- An HMAC that tells one message from the others.
abbrev hmac : String → String → String
hmac key message = if str_eq message "/verify?expires=61&user=42&" then "a1" else "b2"

hmac-ascii : (message : String) → is_ascii (hmac "k" message) ≡ true
unfolding is_ascii
hmac-ascii message = elim (Bool-cases (str_eq message "/verify?expires=61&user=42&")) [
  | inl same ↦ rw same refl
  | inr other ↦ rw other refl
]

hmac-filled : (message : String) → str_eq (hmac "k" message) "" ≡ false
hmac-filled message = elim (Bool-cases (str_eq message "/verify?expires=61&user=42&")) [
  | inl same ↦ rw same refl
  | inr other ↦ rw other refl
]

abbrev read_int : String → Option ℤ
read_int s = some (pos (read_number s))

reads : (n : ℕ) → read_int (str n) ≡ some (pos n)
reads n = rw read_number-str refl

-- The query lists the parameters in another order.
abbrev query : Dict String
query = ("signature", "a1") ∷ ("user", "42") ∷ ("expires", "61") ∷ []

query-Unique : Unique query
unfolding Dict.get
query-Unique = (refl, (refl, (refl, tt)))

params-Unique : Unique params
unfolding Dict.get
params-Unique = (refl, tt)

-- What `sign` makes.
signed :
    signed_payload hmac urlencode "k" "/verify" params (some (pos 60000000)) 1000000
    ≡ (("user", "42") ∷ ("expires", "61") ∷ ("signature", "a1") ∷ [])
unfolding signed_payload Dict.put pylar_framework.Auth.Signed.with_expiry
    pylar_framework.Prelude.◌+ℤ◌ compute_signature str pylar_framework.Auth.Signed.canonical sorted
signed = refl

same_entries :
    (i : String)
    → Dict.get query i
      ≡ Dict.get
          (signed_payload hmac urlencode "k" "/verify" params (some (pos 60000000)) 1000000)
          i
unfolding Dict.get
same_entries i = rw signed (
    ground (
      arith,
      eq_iff "signature" i,
      eq_iff "user" i,
      eq_iff "expires" i,
      eq_iff "signature" "user",
      eq_iff "user" "expires",
      eq_iff "signature" "expires",
    ))

verify-sign_example :
    (payload : Dict String) × (verify hmac urlencode read_int "k" "/verify" query 60500000
      ≡ accepted payload)
    × (sorted payload ≡ sorted params)
unfolding Dict.get pylar_framework.Prelude.◌+ℤ◌
verify-sign_example =
    RoundTrip.verify-sign hmac urlencode read_int "k" "/verify" params (some (pos 60000000)) 1000000
      query hmac-ascii hmac-filled params-Unique refl query-Unique same_entries 60500000 reads refl
      (61000000, refl, omega arith)

verify-sign_late_example :
    verify hmac urlencode read_int "k" "/verify" query 61000001 ≡ expired_signature
unfolding Dict.get pylar_framework.Prelude.◌+ℤ◌
verify-sign_late_example =
    RoundTrip.verify-sign_late hmac urlencode read_int "k" "/verify" params (some (pos 60000000))
      1000000 query hmac-ascii hmac-filled params-Unique refl query-Unique same_entries 61000001
      61000000 (pos 60000000) reads refl refl (omega arith)

verify-accepted_example :
    (Dict.get query "signature"
      ≡ some (hmac "k" ("/verify" <> "?" <> urlencode (sorted (Dict.remove query "signature")))))
    × ((("user", "42") ∷ []) ≡ Dict.remove (Dict.remove query "signature") "expires")
    × Authentic.IsCurrent read_int 60500000 (Dict.get (Dict.remove query "signature") "expires")
unfolding verify pylar_framework.Auth.Signed.check_signature Dict.get
    pylar_framework.Text.compare_digest compute_signature pylar_framework.Auth.Signed.canonical
    sorted Dict.remove pylar_framework.Auth.Signed.check_expiry pylar_framework.Auth.Signed.is_late
    read_number
verify-accepted_example =
    Authentic.verify-accepted hmac urlencode read_int "k" "/verify" query (("user", "42") ∷ [])
      60500000 refl
