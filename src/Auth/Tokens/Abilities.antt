-- ===== src/Auth/Tokens/Abilities.antt =====
-- What a token is able to do.
use pylar_framework.Auth.Roles.{grants, among}
use pylar_framework.Auth.Roles.Granting.{Any, among-Any}
use pylar_framework.Auth.Roles.Wildcards.{IsWildcard, grants-IsWildcard}
use pylar_framework.Auth.Tokens.{
  ApiToken, World, ability_list, raw_abilities, or_empty_list, any_grants, can_by,
}
use pylar_framework.Prelude.{
  Bool-cases, List, Option, String, [], arith, eq_iff, false, inl, inr, none, refl, some, str_eq,
  true, ◌∷◌, ◌≡◌, ◌⊎◌,
}

-- The text of a row's abilities: "[]" where it has none.
abbrev pub IsText : Option String → String → Type 0
IsText none text = text ≡ "[]"
IsText (some raw) text = ((raw ≡ "") × (text ≡ "[]")) ⊎ ((str_eq raw "" ≡ false) × (text ≡ raw))

-- The abilities that a row says, of which a text that is no JSON list says none.
abbrev pub Says : World → ApiToken → List String → Type 0
Says w row abilities =
    (text : String) × IsText row.abilities text
    × ((w.parse text ≡ some abilities) ⊎ ((w.parse text ≡ none) × (abilities ≡ [])))

-- No ability is said, which means all, or one of them is "*", the ability, or a wildcard for it.
abbrev pub Covers : List String → String → Type 0
Covers abilities ability =
    (abilities ≡ [])
    ⊎ Any (λ (a : String). (a ≡ "*") ⊎ ((a ≡ ability) ⊎ IsWildcard a ability)) abilities

raw_abilities-IsText : (w : World) (raw : Option String) → IsText raw (raw_abilities raw)
unfolding raw_abilities
raw_abilities-IsText w none = refl
raw_abilities-IsText w (some raw) = elim (Bool-cases (str_eq raw "")) [
  | inl empty ↦ rw empty (inl ((eq_iff raw "").0 empty, refl))
  | inr filled ↦ rw filled (inr (refl, refl))
]

or_empty_list-cases :
    (parsed : Option (List String))
    → (parsed ≡ some (or_empty_list parsed)) ⊎ ((parsed ≡ none) × (or_empty_list parsed ≡ []))
unfolding or_empty_list
or_empty_list-cases none = inr (refl, refl)
or_empty_list-cases (some abilities) = inl refl

pub ability_list-Says : (w : World) (row : ApiToken) → Says w row (ability_list w row)
unfolding ability_list
ability_list-Says w row = (
  raw_abilities row.abilities,
  raw_abilities-IsText w row.abilities,
  or_empty_list-cases (w.parse (raw_abilities row.abilities)),
)

Any-map :
    {P Q : String → Type 0} (xs : List String) → ((x : String) → P x → Q x) → Any P xs → Any Q xs
Any-map [] f h = h
Any-map (x ∷ xs) f (inl p) = inl (f x p)
Any-map (x ∷ xs) f (inr h) = inr (Any-map xs f h)

any_grants-Any :
    (w : World) (ability : String) (xs : List String)
    → any_grants w xs ability ≡ true
    → Any (λ (a : String). IsWildcard a ability) xs
unfolding any_grants
any_grants-Any w ability [] h = absurd (ground (arith, h))
any_grants-Any w ability (x ∷ xs) h = elim (Bool-cases (grants x ability)) [
  | inl hit ↦ inl (grants-IsWildcard x ability hit)
  | inr miss ↦ inr (any_grants-Any w ability xs (rw miss at h))
]

pub can_by-Covers :
    (w : World) (ability : String) (abilities : List String)
    → can_by w abilities ability ≡ true
    → Covers abilities ability
unfolding can_by
can_by-Covers w ability [] h = inl refl
can_by-Covers w ability (a ∷ rest) h = elim (Bool-cases (among "*" (a ∷ rest))) [
  | inl star ↦ inr (Any-map (a ∷ rest) (λ x e. inl e) (among-Any "*" (a ∷ rest) star))
  | inr no_star ↦ elim (Bool-cases (among ability (a ∷ rest))) [
    | inl exact ↦ inr (Any-map (a ∷ rest) (λ x e. inr (inl e)) (among-Any ability (a ∷ rest) exact))
    | inr wild ↦ inr (
        Any-map (a ∷ rest) (λ x p. inr (inr p))
          (any_grants-Any w ability (a ∷ rest) (rw (no_star, wild) at h)))
  ]
]
