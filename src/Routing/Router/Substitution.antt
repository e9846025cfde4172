-- ===== src/Routing/Router/Substitution.antt =====
-- What `url_for` puts into the path of a route that is given by its pieces.

use Prim.Native.String.{◌++◌ as ◌<>◌}
use pylar_framework.Dict
use pylar_framework.Dict.{Dict}
use pylar_framework.Text.{len}
use pylar_framework.Routing.Router.{
  add_text, add_used, check_extras, substitute_path, Url, url, raised, missing_parameter,
  unused_parameters, among, all_used,
}
use pylar_framework.Routing.Router.Rendering.{
  Piece, literal, placeholder, converted, shown, IsPath, fill_with, fill, render-shown,
}
use pylar_framework.Prelude.{
  Bool-cases, List, Option, String, [], ap, arith, eq_iff, false, inl, inr, none, refl, some, subst,
  sym, true, ◌∙◌, ◌∷◌, ◌≡◌, ◌⊎◌,
}

abbrev prepend : String → Option String → Option String
prepend s none = none
prepend s (some rest) = some (s <> rest)

abbrev replaced : Option String → Option String → Option String
replaced none rest = none
replaced (some value) rest = prepend value rest

-- Each placeholder is replaced by its parameter, if all have one, and each text stays.
abbrev pub filled : Dict String → List Piece → Option String
filled params [] = some ""
filled params (literal s ∷ pieces) = prepend s (filled params pieces)
filled params (placeholder name ∷ pieces) = replaced (Dict.get params name) (filled params pieces)
filled params (converted name converter ∷ pieces) =
    replaced (Dict.get params name) (filled params pieces)

abbrev pub names : List Piece → List String
names [] = []
names (literal s ∷ pieces) = names pieces
names (placeholder name ∷ pieces) = name ∷ names pieces
names (converted name converter ∷ pieces) = name ∷ names pieces

abbrev pub IsIn : String → List String → Type 0
IsIn x [] = ⊥
IsIn x (y ∷ ys) = (y ≡ x) ⊎ IsIn x ys

abbrev pub AllIn : List String → List String → Type 0
AllIn [] ys = Unit
AllIn (x ∷ xs) ys = IsIn x ys × AllIn xs ys

-- What the URL of a path is: an exception where a placeholder has no parameter, or a parameter has no
-- placeholder, and else the filled text.
pub data Substituted (params : Dict String) (pieces : List Piece) : Url → Type 0 where
  missing : filled params pieces ≡ none → Substituted params pieces (raised missing_parameter)
  unused :
      (text key : String)
      → filled params pieces ≡ some text
      → IsIn key (Dict.keys params)
      → ¬ IsIn key (names pieces)
      → Substituted params pieces (raised unused_parameters)
  whole :
      (text : String)
      → filled params pieces ≡ some text
      → AllIn (Dict.keys params) (names pieces)
      → Substituted params pieces (url text)

with_names : Option String → List String → Option (String × List String)
with_names none used = none
with_names (some text) used = some (text, used)

add_text-with_names :
    (s : String) (text : Option String) (used : List String)
    → add_text s (with_names text used) ≡ with_names (prepend s text) used
unfolding add_text with_names
add_text-with_names s none used = refl
add_text-with_names s (some text) used = refl

fill_with-with_names :
    (name : String) (value text : Option String) (used : List String)
    → fill_with name value (with_names text used) ≡ with_names (replaced value text) (name ∷ used)
unfolding add_text add_used with_names
fill_with-with_names name none text used = refl
fill_with-with_names name (some value) none used = refl
fill_with-with_names name (some value) (some text) used = refl

fill-filled :
    (params : Dict String) (pieces : List Piece)
    → fill params pieces ≡ with_names (filled params pieces) (names pieces)
unfolding with_names
fill-filled params [] = refl
fill-filled params (literal s ∷ pieces) =
    ap (add_text s) (fill-filled params pieces)
    ∙ add_text-with_names s (filled params pieces) (names pieces)
fill-filled params (placeholder name ∷ pieces) =
    ap (fill_with name (Dict.get params name)) (fill-filled params pieces)
    ∙ fill_with-with_names name (Dict.get params name) (filled params pieces) (names pieces)
fill-filled params (converted name converter ∷ pieces) =
    ap (fill_with name (Dict.get params name)) (fill-filled params pieces)
    ∙ fill_with-with_names name (Dict.get params name) (filled params pieces) (names pieces)

among-IsIn : (x : String) (ys : List String) → among x ys ≡ true → IsIn x ys
unfolding among
among-IsIn x [] h = absurd (ground (arith, h))
among-IsIn x (y ∷ ys) h = ground (arith, h, eq_iff y x, among-IsIn x ys)

among-absent : (x : String) (ys : List String) → among x ys ≡ false → ¬ IsIn x ys
unfolding among
among-absent x [] h there = there
among-absent x (y ∷ ys) h (inl same) = ground (arith, h, same, eq_iff y x)
among-absent x (y ∷ ys) h (inr later) = among-absent x ys (ground (arith, h)) later

all_used-AllIn : (keys used : List String) → all_used keys used ≡ true → AllIn keys used
unfolding all_used
all_used-AllIn [] used h = tt
all_used-AllIn (k ∷ keys) used h =
    (among-IsIn k used (ground (arith, h)), all_used-AllIn keys used (ground (arith, h)))

all_used-absent :
    (keys used : List String)
    → all_used keys used ≡ false
    → (key : String) × IsIn key keys × ¬ IsIn key used
unfolding all_used
all_used-absent [] used h = absurd (ground (arith, h))
all_used-absent (k ∷ keys) used h = elim (Bool-cases (among k used)) [
  | inr absent ↦ (k, inl refl, among-absent k used absent)
  | inl there ↦
      let (key, listed, absent) = all_used-absent keys used (rw there at h) in
      (key, inr listed, absent)
]

check_extras-Substituted :
    (params : Dict String) (pieces : List Piece) (text : Option String)
    → filled params pieces ≡ text
    → Substituted params pieces (check_extras params (with_names text (names pieces)))
unfolding check_extras with_names
check_extras-Substituted params pieces none h = missing h
check_extras-Substituted params pieces (some text) h =
    elim (Bool-cases (all_used (Dict.keys params) (names pieces))) [
      | inl all_there ↦
          rw all_there (whole text h (all_used-AllIn (Dict.keys params) (names pieces) all_there))
      | inr extra ↦
          let (key, listed, absent) = all_used-absent (Dict.keys params) (names pieces) extra in
          rw extra (unused text key h listed absent)
    ]

-- For the path of a route that is written from pieces, the URL has each placeholder replaced by the
-- parameter of its name and each text as it stands; a placeholder without a parameter and a parameter
-- without a placeholder raise.
pub substitute_path-shown :
    (params : Dict String) (pieces : List Piece)
    → IsPath pieces
    → Substituted params pieces (substitute_path (shown pieces) params)
unfolding substitute_path
substitute_path-shown params pieces h =
    let rendered = render-shown params (len (shown pieces)) pieces h (omega arith) in
    subst (λ (f : Option (String × List String)). Substituted params pieces (check_extras params f))
      (sym (rendered ∙ fill-filled params pieces))
      (check_extras-Substituted params pieces (filled params pieces) refl)
