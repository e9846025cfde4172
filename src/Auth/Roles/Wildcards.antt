-- ===== src/Auth/Roles/Wildcards.antt =====
-- What a code with a wildcard grants: "posts.*" grants what starts with "posts.".
use Prim.Native.String.{◌++◌ as ◌<>◌}
use text.Mathlib.Text.{starts_with}
use text.Mathlib.TextEquality.{starts_with_iff}
use text.Mathlib.TextLemmas.{nil-append, cons-append}
use pylar_framework.Text.{len, ends_with, take_text}
use pylar_framework.Text.Padding.{len-append}
use pylar_framework.Auth.Roles.{grants}
use pylar_framework.Prelude.{
  Bool, Bool-cases, String, ap, arith, eq_iff, false, inl, inr, refl, str_eq, subst, suc, sym, true,
  ◌&&◌, ◌-◌, ◌∙◌, ◌≡◌,
}

-- The held code is a text with ".*" behind it, and the code is this text with a dot and any rest.
abbrev pub IsWildcard : String → String → Type 0
IsWildcard held code =
    (start : String) × (rest : String) × (held ≡ start <> ".*") × (code ≡ (start <> ".") <> rest)

ends_with-split :
    (s suffix : String) → ends_with s suffix ≡ true → (start : String) × (s ≡ start <> suffix)
unfolding ends_with
ends_with-split String.[] suffix h = ("", (eq_iff "" suffix).0 h ∙ sym (rw nil-append refl))
ends_with-split (String.◌∷◌ c s) suffix h = elim (Bool-cases (str_eq (String.◌∷◌ c s) suffix)) [
  | inl whole ↦ ("", (eq_iff (String.◌∷◌ c s) suffix).0 whole ∙ sym (rw nil-append refl))
  | inr part ↦
      let (start, same) = ends_with-split s suffix (rw part at h) in
      (String.◌∷◌ c start, ap (String.◌∷◌ c) same ∙ sym (rw cons-append refl))
]

take_text-star : (start : String) → take_text (suc (len start)) (start <> ".*") ≡ start <> "."
unfolding take_text len
take_text-star String.[] = rw nil-append refl
take_text-star (String.◌∷◌ c s) =
    rw (cons-append, cons-append) (ap (String.◌∷◌ c) (take_text-star s))

take_text-wildcard :
    (start : String) → take_text (len (start <> ".*") - 1) (start <> ".*") ≡ start <> "."
unfolding len
take_text-wildcard start =
    ap (λ n. take_text n (start <> ".*")) (omega (arith, len-append start ".*"))
    ∙ take_text-star start

both : (a b : Bool) → a && b ≡ true → (a ≡ true) × (b ≡ true)
both true true h = (refl, refl)
both true false h = absurd (ground (arith, h))
both false b h = absurd (ground (arith, h))

prefix-IsWildcard :
    (held code start : String)
    → held ≡ start <> ".*"
    → starts_with code (take_text (len held - 1) held) ≡ true
    → IsWildcard held code
prefix-IsWildcard held code start same begins =
    let cut = ap (λ t. take_text (len t - 1) t) same ∙ take_text-wildcard start in
    let (rest, code_is) =
      (starts_with_iff code (start <> ".")).0 (subst (λ t. starts_with code t ≡ true) cut begins) in
    (start, rest, same, sym code_is)

pub grants-IsWildcard : (held code : String) → grants held code ≡ true → IsWildcard held code
unfolding grants
grants-IsWildcard held code h =
    let (ends, begins) =
      both (ends_with held ".*") (starts_with code (take_text (len held - 1) held)) h in
    let (start, same) = ends_with-split held ".*" ends in
    prefix-IsWildcard held code start same begins
