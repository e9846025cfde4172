-- ===== src/Auth/Tokens/Admission.antt =====
-- Which requests are authenticated.
use Prim.Native.Char.{Char, code}
use Prim.Native.String.{◌++◌ as ◌<>◌}
use text.Mathlib.Text.{starts_with}
use text.Mathlib.TextEquality.{Char-path}
use text.Mathlib.TextLemmas.{nil-append, cons-append}
use pylar_framework.Text.{split_once}
use pylar_framework.Auth.Tokens.Abilities.{Says, Covers, ability_list-Says, can_by-Covers}
use pylar_framework.Auth.Tokens.{
  ApiToken, World, Handled, passed, authenticated, unauthorized, can, is_expired, find_token, lacks,
  stamped, ability_list, admit_user, admit, bearer, handle,
}
use pylar_framework.Prelude.{
  ==_iff, Bool-cases, List, Option, Option-cases, String, [], ap, arith, eq_iff, false, inl, inr,
  none, refl, some, str_eq, subst, sym, true, ℕ, ◌<◌, ◌==◌, ◌∙◌, ◌∷◌, ◌≡◌, ◌⊎◌,
}

abbrev pub IsRow : ApiToken → List ApiToken → Type 0
IsRow token [] = ⊥
IsRow token (row ∷ rows) = (row ≡ token) ⊎ IsRow token rows

-- The ability that the route asks for, if it asks for one.
abbrev pub IsAble : World → Option String → ApiToken → Type 0
IsAble w none row = Unit
IsAble w (some required) row =
    (required ≡ "") ⊎ ((abilities : List String) × Says w row abilities × Covers abilities required)

abbrev pub IsLive : ℕ → Option ℕ → Type 0
IsLive now none = Unit
IsLive now (some expires) = now < expires

-- The text behind "Bearer", in any case, and a space, stripped; it is not empty.
abbrev pub IsBearer : World → String → String → Type 0
IsBearer w auth plaintext =
    (starts_with (w.lower auth) "bearer " ≡ true)
    × ((scheme : String) × (rest : String) × (auth ≡ scheme <> String.◌∷◌ " " rest)
        × (plaintext ≡ w.strip rest))
    × (str_eq plaintext "" ≡ false)

abbrev joined : Option (String × String) → String
joined none = ""
joined (some (a, b)) = a <> String.◌∷◌ " " b

split_once-joins : (s a b : String) → split_once b' ' s ≡ some (a, b) → s ≡ a <> String.◌∷◌ " " b
unfolding split_once
split_once-joins String.[] a b h = absurd (ground (arith, h))
split_once-joins (String.◌∷◌ c s) a b h = elim (Bool-cases (code c == b' ')) [
  | inl space ↦
      let here : some ("", s) ≡ some (a, b) = rw space at h in
      (ap (λ (d : Char). String.◌∷◌ d s) (Char-path c " " ((==_iff (code c) b' ').0 space))
        ∙ sym (nil-append (String.◌∷◌ " " s))
        ∙ ap joined here)
  | inr other ↦ elim (Option-cases (split_once b' ' s)) [
    | inl unsplit ↦
        let never : none ≡ some (a, b) = rw (other, unsplit) at h in absurd (ground (arith, never))
    | inr ((start, rest), split) ↦
        let there : some (String.◌∷◌ c start, rest) ≡ some (a, b) = rw (other, split) at h in
        let ih = split_once-joins s start rest split in
        (ap (String.◌∷◌ c) ih ∙ sym (cons-append c start (String.◌∷◌ " " rest)) ∙ ap joined there)
  ]
]

abbrev token_in : ApiToken → Handled → ApiToken
token_in default (authenticated user token) = token
token_in default _ = default

abbrev user_in : String → Handled → String
user_in default (authenticated user token) = user
user_in default _ = default

module _ (w : World) where
  find_token-IsRow :
      (hash : String) (tokens : List ApiToken) (token : ApiToken)
      → find_token w hash tokens ≡ some token
      → IsRow token tokens × (token.token_hash ≡ hash)
  unfolding find_token
  find_token-IsRow hash [] token h = absurd (ground (arith, h))
  find_token-IsRow hash (row ∷ rows) token h = elim (Bool-cases (str_eq row.token_hash hash)) [
    | inl hit ↦
        let same : row ≡ token = ground (arith, rw hit at h) in
        (
          inl same,
          ap (λ (t : ApiToken). t.token_hash) (sym same) ∙ (eq_iff row.token_hash hash).0 hit,
        )
    | inr miss ↦
        let (there, hashed) = find_token-IsRow hash rows token (rw miss at h) in (inr there, hashed)
  ]

  lacks-IsAble :
      (required : Option String) (token : ApiToken)
      → lacks w required token ≡ false
      → IsAble w required token
  unfolding lacks can
  lacks-IsAble none token h = tt
  lacks-IsAble (some required) token h = elim (Bool-cases (str_eq required "")) [
    | inl empty ↦ inl ((eq_iff required "").0 empty)
    | inr asked ↦
        let able : can w required token ≡ true = ground (arith, h, asked) in
        inr (
          ability_list w token,
          ability_list-Says w token,
          can_by-Covers w required (ability_list w token) able,
        )
  ]

  is_expired-IsLive :
      (now : ℕ) (row : ApiToken) → is_expired w now row ≡ false → IsLive now row.expires_at
  unfolding is_expired
  is_expired-IsLive now row h = elim (Option-cases row.expires_at) [
    | inl forever ↦ rw forever tt
    | inr (expires, until) ↦ rw until (ground (arith, h, until))
  ]

  admit_user-authenticated :
      (row : ApiToken) (found : Option String) (now : ℕ) (tokens : List ApiToken) (user : String)
      (token : ApiToken)
      → (admit_user w found row now tokens).0 ≡ authenticated user token
      → (token ≡ record row { last_used_at = some now }) × (found ≡ some user)
  unfolding admit_user stamped
  admit_user-authenticated row none now tokens user token h = absurd (ground (arith, h))
  admit_user-authenticated row (some u) now tokens user token h =
      (sym (ap (token_in row) h), ap some (ap (user_in u) h))

  admit-authenticated :
      (required : Option String) (found : Option ApiToken) (now : ℕ) (tokens : List ApiToken)
      (user : String) (token : ApiToken)
      → (admit w required found now tokens).0 ≡ authenticated user token
      → (row : ApiToken) × (found ≡ some row)
        × (token ≡ record row { last_used_at = some now })
        × IsLive now row.expires_at
        × IsAble w required row
        × (w.resolve row ≡ some user)
  unfolding admit admit_user
  admit-authenticated required none now tokens user token h = absurd (ground (arith, h))
  admit-authenticated required (some row) now tokens user token h =
      elim (Bool-cases (is_expired w now row)) [
        | inl late ↦
            let never : unauthorized "invalid_or_expired_token" ≡ authenticated user token =
              rw late at h in
            absurd (ground (arith, never))
        | inr live ↦ elim (Bool-cases (lacks w required row)) [
          | inl poor ↦
              let never : unauthorized "token_missing_ability" ≡ authenticated user token =
                rw (live, poor) at h in
              absurd (ground (arith, never))
          | inr able ↦
              let (same, owner) =
                admit_user-authenticated row (w.resolve row) now tokens user token
                  (rw (live, able) at h) in
              (
                row,
                refl,
                same,
                is_expired-IsLive now row live,
                lacks-IsAble required row able,
                owner,
              )
        ]
      ]

  bearer-IsBearer :
      (auth plaintext : String) → bearer w auth ≡ some plaintext → IsBearer w auth plaintext
  unfolding bearer
  bearer-IsBearer auth plaintext h = elim (Bool-cases (starts_with (w.lower auth) "bearer ")) [
    | inr other ↦
        let never : none ≡ some plaintext = rw (other, bearer) at h in
        absurd (ground (arith, never))
    | inl begins ↦ elim (Option-cases (split_once b' ' auth)) [
      | inl unsplit ↦
          let never : none ≡ some plaintext = rw (begins, bearer, unsplit) at h in
          absurd (ground (arith, never))
      | inr ((scheme, rest), split) ↦ elim (Bool-cases (str_eq (w.strip rest) "")) [
        | inl empty ↦
            let never : none ≡ some plaintext = rw (begins, bearer, split, empty) at h in
            absurd (ground (arith, never))
        | inr filled ↦
            let same : some (w.strip rest) ≡ some plaintext =
              rw (begins, bearer, split, filled) at h in
            let text : w.strip rest ≡ plaintext = ground (arith, same) in
            (
              begins,
              (scheme, rest, split_once-joins auth scheme rest split, sym text),
              subst (λ (t : String). str_eq t "" ≡ false) text filled,
            )
      ]
    ]
  ]

  -- A request that is authenticated carries, behind "Bearer" and a space, a text whose hash is that of
  -- a row: the row has no time of expiry or one that is to come; where the route asks for an ability,
  -- the row's abilities are no list or an empty one, or one of them is "*", the ability, or a wildcard
  -- for it; its user is the one that the request gets, with the row as its token and the present time
  -- as the token's last use.
  pub handle-authenticated :
      (required : Option String) (auth : String) (now : ℕ) (tokens : List ApiToken) (user : String)
      (token : ApiToken)
      → (handle w required auth now tokens).0 ≡ authenticated user token
      → (plaintext : String) × (row : ApiToken) × IsBearer w auth plaintext
        × IsRow row tokens
        × (row.token_hash ≡ w.hash_token plaintext)
        × (token ≡ record row { last_used_at = some now })
        × IsLive now row.expires_at
        × IsAble w required row
        × (w.resolve row ≡ some user)
  unfolding handle
  handle-authenticated required auth now tokens user token h = elim (Option-cases (bearer w auth)) [
    | inl anonymous ↦
        let never : passed ≡ authenticated user token = rw (anonymous, handle) at h in
        absurd (ground (arith, never))
    | inr (plaintext, carried) ↦
        let (row, found, same, live, able, owner) =
          admit-authenticated required (find_token w (w.hash_token plaintext) tokens) now tokens
            user token (rw (carried, handle) at h) in
        let (there, hashed) = find_token-IsRow (w.hash_token plaintext) tokens row found in
        (
          plaintext,
          row,
          bearer-IsBearer auth plaintext carried,
          there,
          hashed,
          same,
          live,
          able,
          owner,
        )
  ]
