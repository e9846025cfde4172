-- ===== src/Auth/Tokens.antt =====
-- pylar/auth/tokens.py: API tokens and the middleware that reads them. The table is the list of its
-- rows. JSON, SHA-256, `lower` and `strip` are parameters, and so is the lookup of the user that a
-- token belongs to. A time is a number of microseconds.
pub mod Admission
pub mod Abilities
use Prim.Native.String.{◌++◌ as ◌<>◌}
use text.Mathlib.Text.{starts_with}
use pylar_framework.Text.{split_once}
use pylar_framework.Auth.Roles.{grants, among}
use pylar_framework.Prelude.{
  Bool, List, Option, String, [], false, if◌then◌else◌, leb, none, not, some, str_eq, true, ℕ, ◌&&◌,
  ◌++◌, ◌+◌, ◌||◌, ◌∷◌,
}

pub record ApiToken : Type 0 where
  pub tokenable_type : String
  pub tokenable_id : String
  pub name : String
  pub token_hash : String
  pub abilities : Option String
  pub last_used_at : Option ℕ
  pub expires_at : Option ℕ
  pub created_at : ℕ

-- What the middleware calls: `parse` gives the texts of a JSON array, or nothing where the text is no
-- JSON or no array; `resolve` gives the user of a token, if there is one; `saves` tells whether the
-- write of a row succeeds.
pub record World : Type 0 where
  pub parse : String → Option (List String)
  pub dumps : List String → String
  pub hash_token : String → String
  pub lower : String → String
  pub strip : String → String
  pub resolve : ApiToken → Option String
  pub saves : ApiToken → Bool

pub data Minted : Type 0 where
  minted : String → ApiToken → Minted
  value_error : Minted

-- How the middleware answers: it passes the request on, with a user
-- and the token or without them, or refuses it.
pub data Handled : Type 0 where
  passed : Handled
  authenticated : String → ApiToken → Handled
  unauthorized : String → Handled

or_empty_list : Option (List String) → List String
or_empty_list none = []
or_empty_list (some abilities) = abilities

-- getattr(self, "abilities", None) or "[]"
raw_abilities : Option String → String
raw_abilities none = "[]"
raw_abilities (some raw) = if str_eq raw "" then "[]" else raw

module _ (w : World) where
  unfoldable pub ability_list : ApiToken → List String
  unfolding or_empty_list raw_abilities
  ability_list token = or_empty_list (w.parse (raw_abilities token.abilities))

  unfoldable pub any_grants : List String → String → Bool
  any_grants [] ability = false
  any_grants (granted ∷ abilities) ability = grants granted ability || any_grants abilities ability

  unfoldable pub can_by : List String → String → Bool
  unfolding any_grants
  can_by [] ability = true
  can_by (a ∷ abilities) ability =
      if among "*" (a ∷ abilities)
      then true
      else if among ability (a ∷ abilities)
      then true
      else any_grants (a ∷ abilities) ability

  unfoldable pub can : String → ApiToken → Bool
  unfolding can_by
  can ability token = can_by (ability_list token) ability

  unfoldable pub is_expired : ℕ → ApiToken → Bool
  is_expired now token = elim token.expires_at [ none ↦ false | some expires ↦ leb expires now ]

  expiry : Option ℕ → Option ℕ → ℕ → Option ℕ
  expiry expires_at none now = expires_at
  expiry expires_at (some lifetime) now = some (now + lifetime)

  has_both : Option ℕ → Option ℕ → Bool
  has_both (some expires_at) (some lifetime) = true
  has_both _ _ = false

  unfoldable pub create_api_token :
      String
      → String
      → String
      → String
      → Option (List String)
      → Option ℕ
      → Option ℕ
      → ℕ
      → List ApiToken
      → Minted × List ApiToken
  unfolding expiry has_both or_empty_list
  create_api_token plaintext type id name abilities expires_at expires_in now tokens =
      let token : ApiToken = record {
        tokenable_type = type;
        tokenable_id = id;
        name = name;
        token_hash = w.hash_token plaintext;
        abilities = some (w.dumps (or_empty_list abilities));
        last_used_at = none;
        expires_at = expiry expires_at expires_in now;
        created_at = now;
      } in
      if has_both expires_at expires_in
      then (value_error, tokens)
      else (minted plaintext token, tokens ++ token ∷ [])

  unfoldable pub find_token : String → List ApiToken → Option ApiToken
  find_token hash [] = none
  find_token hash (token ∷ tokens) =
      if str_eq token.token_hash hash then some token else find_token hash tokens

  unfoldable pub stamped : ℕ → ApiToken → ApiToken
  stamped now token = record token { last_used_at = some now }

  unfoldable pub touch : String → ℕ → List ApiToken → List ApiToken
  unfolding stamped
  touch hash now [] = []
  touch hash now (token ∷ tokens) =
      let rest = touch hash now tokens in
      if str_eq token.token_hash hash then stamped now token ∷ tokens else token ∷ rest

  unfoldable pub touch_last_used : ApiToken → ℕ → List ApiToken → List ApiToken
  unfolding touch
  touch_last_used token now tokens =
      if w.saves token then touch token.token_hash now tokens else tokens

  lacks : Option String → ApiToken → Bool
  lacks none token = false
  lacks (some required) token = not (str_eq required "") && not (can required token)

  admit_user : Option String → ApiToken → ℕ → List ApiToken → Handled × List ApiToken
  unfolding touch_last_used stamped
  admit_user none token now tokens = (unauthorized "tokenable_missing", tokens)
  admit_user (some user) token now tokens =
      (authenticated user (stamped now token), touch_last_used token now tokens)

  unfoldable pub admit :
      Option String → Option ApiToken → ℕ → List ApiToken → Handled × List ApiToken
  unfolding lacks admit_user
  admit required none now tokens = (unauthorized "invalid_or_expired_token", tokens)
  admit required (some token) now tokens =
      if is_expired now token
      then (unauthorized "invalid_or_expired_token", tokens)
      else if lacks required token
      then (unauthorized "token_missing_ability", tokens)
      else admit_user (w.resolve token) token now tokens

  -- auth.split(" ", 1)[1].strip()
  unfoldable pub bearer : String → Option String
  bearer auth =
      if starts_with (w.lower auth) "bearer "
      then elim (split_once b' ' auth) [
        | none ↦ none
        | some (scheme, rest) ↦ if str_eq (w.strip rest) "" then none else some (w.strip rest)
      ]
      else none

  -- TokenMiddleware.handle, for the header of a request
  unfoldable pub handle : Option String → String → ℕ → List ApiToken → Handled × List ApiToken
  handle required auth now tokens = elim (bearer auth) [
    | none ↦ (passed, tokens)
    | some plaintext ↦ admit required (find_token (w.hash_token plaintext) tokens) now tokens
  ]
