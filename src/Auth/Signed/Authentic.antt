-- ===== src/Auth/Signed/Authentic.antt =====
-- What a link that is accepted has.
use Prim.Native.String.{◌++◌ as ◌<>◌}
use pylar_framework.Dict
use pylar_framework.Dict.Sorted.{sorted}
use pylar_framework.Dict.{Dict}
use pylar_framework.Text.{is_ascii, compare_digest}
use pylar_framework.Auth.Signed.{
  accepted, invalid_signature, expired_signature, type_error, is_late, compute_signature, canonical,
  check_time, check_expiry, check_digest, check_signature, verify,
}
use pylar_framework.Prelude.{
  Bool-cases, Option, Option-cases, String, ap, arith, eq_iff, false, inl, inr, negsuc, none, pos,
  refl, some, str_eq, ℕ, ℤ, ◌&&◌, ◌*◌, ◌∙◌, ◌≡◌, ◌≤◌,
}

abbrev pub IsCurrent : (String → Option ℤ) → ℕ → Option String → Type 0
IsCurrent read_int now none = Unit
IsCurrent read_int now (some text) =
    (expires : ℕ) × (read_int text ≡ some (pos expires)) × (now ≤ expires * 1000000)

timely-IsCurrent :
    (read_int : String → Option ℤ) (now : ℕ) (text : String) (expires : ℤ)
    → read_int text ≡ some expires
    → is_late now expires ≡ false
    → IsCurrent read_int now (some text)
unfolding is_late
timely-IsCurrent read_int now text (pos n) there timely = (n, there, ground (arith, timely))
timely-IsCurrent read_int now text (negsuc n) there timely = absurd (ground (arith, timely))

check_expiry-accepted :
    (read_int : String → Option ℤ) (text : Option String) (payload r : Dict String) (now : ℕ)
    → check_expiry read_int text payload now ≡ accepted r
    → (r ≡ Dict.remove payload "expires") × IsCurrent read_int now text
unfolding check_expiry check_time
check_expiry-accepted read_int none payload r now h = (ground (arith, h), tt)
check_expiry-accepted read_int (some text) payload r now h = elim (Option-cases (read_int text)) [
  | inl unread ↦
      let never : invalid_signature ≡ accepted r = rw (unread, check_time) at h in
      absurd (ground (arith, never))
  | inr (expires, there) ↦ elim (Bool-cases (is_late now expires)) [
    | inl late ↦
        let never : expired_signature ≡ accepted r = rw (there, check_time, late) at h in
        absurd (ground (arith, never))
    | inr timely ↦
        let same : accepted (Dict.remove payload "expires") ≡ accepted r =
          rw (there, check_time, timely) at h in
        (ground (arith, same), timely-IsCurrent read_int now text expires there timely)
  ]
]

module _ (hmac : String → String → String) (urlencode : Dict String → String)
    (read_int : String → Option ℤ) (key path : String) where
  check_digest-accepted :
      (expected signature : String) (payload r : Dict String) (now : ℕ)
      → expected ≡ compute_signature hmac urlencode key path payload
      → check_digest read_int (compare_digest signature expected) payload now ≡ accepted r
      → (◌≡◌ {A = Option String}
          (some signature)
          (some (compute_signature hmac urlencode key path payload)))
        × (r ≡ Dict.remove payload "expires")
        × IsCurrent read_int now (Dict.get payload "expires")
  unfolding check_digest compare_digest
  check_digest-accepted expected signature payload r now e h =
      elim (Bool-cases (is_ascii signature && is_ascii expected)) [
        | inl ascii ↦ elim (Bool-cases (str_eq signature expected)) [
          | inl equal ↦
              let (same, current) =
                check_expiry-accepted read_int (Dict.get payload "expires") payload r now
                  (rw (ascii, equal) at h) in
              (ap some ((eq_iff signature expected).0 equal ∙ e), same, current)
          | inr other ↦
              let never : invalid_signature ≡ accepted r = rw (ascii, other) at h in
              absurd (ground (arith, never))
        ]
        | inr wide ↦
            let never : type_error ≡ accepted r = rw wide at h in absurd (ground (arith, never))
      ]

  check_signature-accepted :
      (signature : Option String) (payload r : Dict String) (now : ℕ)
      → check_signature hmac urlencode read_int signature key path payload now ≡ accepted r
      → (signature ≡ some (compute_signature hmac urlencode key path payload))
        × (r ≡ Dict.remove payload "expires")
        × IsCurrent read_int now (Dict.get payload "expires")
  unfolding check_signature check_digest compare_digest
  check_signature-accepted none payload r now h = absurd (ground (arith, h))
  check_signature-accepted (some signature) payload r now h =
      elim (Bool-cases (str_eq signature "")) [
        | inl empty ↦ absurd (ground (arith, h, empty))
        | inr filled ↦ check_digest-accepted _ signature payload r now refl (rw filled at h)
      ]

  -- A query that is accepted has just the signature that the key gives to its path, "?" and its
  -- other parameters in the order of their names; its time, if it has one, is a number of seconds that
  -- is not over; what is given back are its
  -- other parameters without the time.
  pub verify-accepted :
      (query r : Dict String) (now : ℕ)
      → verify hmac urlencode read_int key path query now ≡ accepted r
      → (Dict.get query "signature"
          ≡ some (hmac key (path <> "?" <> urlencode (sorted (Dict.remove query "signature")))))
        × (r ≡ Dict.remove (Dict.remove query "signature") "expires")
        × IsCurrent read_int now (Dict.get (Dict.remove query "signature") "expires")
  unfolding verify compute_signature canonical
  verify-accepted query r now h =
      check_signature-accepted (Dict.get query "signature") (Dict.remove query "signature") r now h
