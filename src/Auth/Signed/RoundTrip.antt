-- ===== src/Auth/Signed/RoundTrip.antt =====
-- A signed link that is verified again.
use pylar_framework.Dict
use pylar_framework.Dict.{Dict}
use pylar_framework.Dict.Laws.{get-put, get-remove}
use pylar_framework.Dict.Unique.{Unique, put-Unique, remove-Unique}
use pylar_framework.Dict.Sorted.{sorted, sorted-same}
use pylar_framework.Text.{str, is_ascii, compare_digest_self}
use Prim.Native.String.{◌++◌ as ◌<>◌}
use pylar_framework.Auth.Signed.{
  accepted, expired_signature, seconds_text, is_late, with_expiry, canonical, compute_signature,
  signed_payload, check_expiry, check_signature, verify,
}
use pylar_framework.Prelude.{
  Bool-cases, Option, String, ap, arith, eq_iff, false, if◌then◌else◌, inl, inr, ltb, none, pos,
  refl, some, str_eq, true, ℕ, ℤ, ◌*◌, ◌+ℤ◌, ◌/◌, ◌<◌, ◌∙◌, ◌≡◌, ◌≤◌,
}

with_expiry-signature :
    (now : ℕ) (lifetime : Option ℤ) (params : Dict String)
    → Dict.get params "signature" ≡ none
    → Dict.get (with_expiry now lifetime params) "signature" ≡ none
unfolding with_expiry
with_expiry-signature now none params h = h
with_expiry-signature now (some lifetime) params h =
    rw get-put ground (arith, eq_iff "expires" "signature", h)

with_expiry-Unique :
    (now : ℕ) (lifetime : Option ℤ) (params : Dict String)
    → Unique params
    → Unique (with_expiry now lifetime params)
unfolding with_expiry
with_expiry-Unique now none params u = u
with_expiry-Unique now (some lifetime) params u = put-Unique params "expires" _ u

get-with_expiry :
    (now : ℕ) (lifetime : Option ℤ) (params : Dict String) (i : String)
    → str_eq "expires" i ≡ false
    → Dict.get (with_expiry now lifetime params) i ≡ Dict.get params i
unfolding with_expiry
get-with_expiry now none params i h = refl
get-with_expiry now (some lifetime) params i h = rw (get-put, h) refl

-- The keys of a signed link but for its signature are those of its payload.
get-unsigned :
    (q payload : Dict String) (signature i : String)
    → Dict.get payload "signature" ≡ none
    → Dict.get q i ≡ Dict.get (Dict.put payload "signature" signature) i
    → Dict.get (Dict.remove q "signature") i ≡ Dict.get payload i
get-unsigned q payload signature i h same = rw get-remove (
    let there : Dict.get q i
        ≡ (if str_eq "signature" i then some signature else Dict.get payload i) =
      same ∙ get-put payload "signature" i signature in
    ground (arith, eq_iff "signature" i, h, there))

-- Without the framework's two keys the entries are the caller's.
sorted-unexpired :
    (q params : Dict String) (now : ℕ) (lifetime : Option ℤ)
    → Unique q
    → Unique params
    → Dict.get params "expires" ≡ none
    → ((i : String) → Dict.get q i ≡ Dict.get (with_expiry now lifetime params) i)
    → sorted (Dict.remove q "expires") ≡ sorted params
sorted-unexpired q params now lifetime u v h same =
    sorted-same (Dict.remove q "expires") params (remove-Unique q "expires" u) v (λ i.
      rw get-remove (elim (Bool-cases (str_eq "expires" i)) [
        | inl framework ↦ ground (arith, eq_iff "expires" i, framework, h)
        | inr other ↦ rw other (same i ∙ get-with_expiry now lifetime params i other)
      ]))

module _ (hmac : String → String → String) (urlencode : Dict String → String)
    (read_int : String → Option ℤ) where
  check_signature-genuine :
      (key path signature : String) (payload : Dict String) (now : ℕ)
      → compute_signature hmac urlencode key path payload ≡ signature
      → is_ascii signature ≡ true
      → str_eq signature "" ≡ false
      → check_signature hmac urlencode read_int (some signature) key path payload now
        ≡ check_expiry read_int (Dict.get payload "expires") payload now
  unfolding check_signature
  check_signature-genuine key path signature payload now h text filled =
      rw (filled, h, compare_digest_self signature text) refl

-- The lifetime of a link has no end, or its last whole second is not over.
abbrev pub IsInTime : ℕ → ℕ → Option ℤ → Type 0
IsInTime now now' none = Unit
IsInTime now now' (some lifetime) =
    (deadline : ℕ) × (pos now +ℤ lifetime ≡ pos deadline) × (now' ≤ deadline / 1000000 * 1000000)

module _ (read_int : String → Option ℤ) (now now' : ℕ) where
  check_expiry-timely :
      (lifetime : Option ℤ) (params rest : Dict String)
      (ints : (n : ℕ) → read_int (str n) ≡ some (pos n))
      → Dict.get params "expires" ≡ none
      → IsInTime now now' lifetime
      → check_expiry read_int (Dict.get (with_expiry now lifetime params) "expires") rest now'
        ≡ accepted (Dict.remove rest "expires")
  unfolding check_expiry with_expiry seconds_text is_late
  check_expiry-timely none params rest ints h timely = rw h refl
  check_expiry-timely (some lifetime) params rest ints h (deadline, e, le) =
      let timely : ltb (deadline / 1000000 * 1000000) now' ≡ false = ground (arith, le) in
      rw (get-put, e, ints, timely) refl

  check_expiry-late :
      (deadline : ℕ) (lifetime : Option ℤ) (l : ℤ) (params rest : Dict String)
      (ints : (n : ℕ) → read_int (str n) ≡ some (pos n))
      → lifetime ≡ some l
      → pos now +ℤ l ≡ pos deadline
      → deadline / 1000000 * 1000000 < now'
      → check_expiry read_int (Dict.get (with_expiry now lifetime params) "expires") rest now'
        ≡ expired_signature
  unfolding check_expiry with_expiry seconds_text is_late
  check_expiry-late deadline lifetime l params rest ints given e lt =
      let late : ltb (deadline / 1000000 * 1000000) now' ≡ true = ground (arith, lt) in
      rw (given, get-put, e, ints, late) refl

-- A link that `sign` made, its query read into a dict with the same entries.
module _ (hmac : String → String → String) (urlencode : Dict String → String)
    (read_int : String → Option ℤ) (key path : String) (params : Dict String) (lifetime : Option ℤ)
    (now : ℕ) (query : Dict String) (text : (message : String) → is_ascii (hmac key message) ≡ true)
    (filled : (message : String) → str_eq (hmac key message) "" ≡ false) (u : Unique params)
    (free : Dict.get params "signature" ≡ none) (v : Unique query)
    (same : (i : String)
      → Dict.get query i
        ≡ Dict.get (signed_payload hmac urlencode key path params lifetime now) i) where
  agrees :
      (i : String)
      → Dict.get (Dict.remove query "signature") i ≡ Dict.get (with_expiry now lifetime params) i
  unfolding signed_payload
  agrees i =
      get-unsigned query (with_expiry now lifetime params) _ i
        (with_expiry-signature now lifetime params free) (same i)

  signature_found :
      Dict.get query "signature"
      ≡ some (compute_signature hmac urlencode key path (with_expiry now lifetime params))
  unfolding signed_payload
  signature_found = same "signature" ∙ get-put _ "signature" "signature" _

  signature_same :
      compute_signature hmac urlencode key path (Dict.remove query "signature")
      ≡ compute_signature hmac urlencode key path (with_expiry now lifetime params)
  unfolding compute_signature canonical
  signature_same =
      ap (λ entries. hmac key (path <> "?" <> urlencode entries))
        (sorted-same (Dict.remove query "signature") (with_expiry now lifetime params)
          (remove-Unique query "signature" v) (with_expiry-Unique now lifetime params u) agrees)

  -- The signature of a link is accepted, and what is left is the look at its time.
  verify-signed :
      (now' : ℕ)
      → verify hmac urlencode read_int key path query now'
        ≡ check_expiry read_int
            (Dict.get (with_expiry now lifetime params) "expires")
            (Dict.remove query "signature")
            now'
  unfolding verify compute_signature
  verify-signed now' =
      rw (signature_found, ← agrees "expires")
        (check_signature-genuine hmac urlencode read_int key path _ (Dict.remove query "signature")
          now' signature_same (text _) (filled _))

  unexpired_same :
      Dict.get params "expires" ≡ none
      → sorted (Dict.remove (Dict.remove query "signature") "expires") ≡ sorted params
  unexpired_same h =
      sorted-unexpired (Dict.remove query "signature") params now lifetime
        (remove-Unique query "signature" v) u h agrees

  -- A link that was signed for good, or whose time is not over, is accepted, and gives back the
  -- parameters that were signed, if neither of them has one of the framework's two keys. The link
  -- may list them in any order. A lifetime ends at the whole second in which it is over, an HMAC is
  -- an ASCII text that is not empty, and `int` reads the text of a number.
  pub verify-sign :
      (now' : ℕ) (ints : (n : ℕ) → read_int (str n) ≡ some (pos n))
      → Dict.get params "expires" ≡ none
      → IsInTime now now' lifetime
      → (payload : Dict String) × (verify hmac urlencode read_int key path query now'
          ≡ accepted payload)
        × (sorted payload ≡ sorted params)
  unfolding check_expiry
  verify-sign now' ints h timely = (
    Dict.remove (Dict.remove query "signature") "expires",
    verify-signed now'
        ∙ check_expiry-timely read_int now now' lifetime params (Dict.remove query "signature") ints
            h timely,
    unexpired_same h,
  )

  -- Once the whole second in which its lifetime ends is over, a link is refused as expired.
  pub verify-sign_late :
      (now' deadline : ℕ) (l : ℤ) (ints : (n : ℕ) → read_int (str n) ≡ some (pos n))
      → lifetime ≡ some l
      → pos now +ℤ l ≡ pos deadline
      → deadline / 1000000 * 1000000 < now'
      → verify hmac urlencode read_int key path query now' ≡ expired_signature
  unfolding check_expiry with_expiry
  verify-sign_late now' deadline l ints given e late =
      verify-signed now'
      ∙ check_expiry-late read_int now now' deadline lifetime l params
          (Dict.remove query "signature") ints given e late
