-- ===== src/Routing/Router/Rendering.antt =====
-- How the pieces of a path are read back from its text, and replaced.
use Prim.Native.Char.{Char, code}
use Prim.Native.String.{◌++◌ as ◌<>◌}
use text.Mathlib.TextLemmas.{nil-append, cons-append}
use pylar_framework.Dict
use pylar_framework.Dict.{Dict}
use pylar_framework.Text.{len}
use pylar_framework.Text.Padding.{len-append}
use pylar_framework.Routing.Router.{
  take_until, ends_name, ends_converter, close_placeholder, match_placeholder, add_text, add_used,
  render,
}
use pylar_framework.Prelude.{
  Bool, List, Option, Option-cases, String, [], ap, arith, false, inl, inr, none, refl, some,
  str_eq, suc, zero, ℕ, ◌-◌, ◌==◌, ◌∙◌, ◌∷◌, ◌≡◌, ◌≤◌,
}

-- A piece of a path: text, `{name}` or `{name:converter}`.
pub data Piece : Type 0 where
  literal placeholder : String → Piece
  converted : String → String → Piece

abbrev pub shown : List Piece → String
shown [] = ""
shown (literal s ∷ pieces) = s <> shown pieces
shown (placeholder name ∷ pieces) = String.◌∷◌ "{" (name <> String.◌∷◌ "}" (shown pieces))
shown (converted name converter ∷ pieces) =
    String.◌∷◌ "{" (name <> String.◌∷◌ ":" (converter <> String.◌∷◌ "}" (shown pieces)))

-- No character of a text passes the test.
abbrev pub IsFree : (ℕ → Bool) → String → Type 0
IsFree test String.[] = Unit
IsFree test (String.◌∷◌ c s) = (test (code c) ≡ false) × IsFree test s

abbrev pub opens : ℕ → Bool
opens c = c == b'{'

-- Text has no "{"; a name is not empty and has no ":" and no "}"; a converter is not empty and has
-- no "}".
abbrev pub IsPath : List Piece → Type 0
IsPath [] = Unit
IsPath (literal s ∷ pieces) = IsFree opens s × IsPath pieces
IsPath (placeholder name ∷ pieces) =
    (str_eq name "" ≡ false) × IsFree ends_name name × IsPath pieces
IsPath (converted name converter ∷ pieces) =
    (str_eq name "" ≡ false)
    × IsFree ends_name name
    × (str_eq converter "" ≡ false)
    × IsFree ends_converter converter
    × IsPath pieces

abbrev pub fill_with :
    String → Option String → Option (String × List String) → Option (String × List String)
fill_with name none rest = none
fill_with name (some value) rest = add_text value (add_used name rest)

-- Each placeholder is replaced by its parameter, and each text stays; the names are listed.
abbrev pub fill : Dict String → List Piece → Option (String × List String)
fill params [] = some ("", [])
fill params (literal s ∷ pieces) = add_text s (fill params pieces)
fill params (placeholder name ∷ pieces) = fill_with name (Dict.get params name) (fill params pieces)
fill params (converted name converter ∷ pieces) =
    fill_with name (Dict.get params name) (fill params pieces)

take_until-free :
    (stop : ℕ → Bool) (s rest : String)
    → IsFree stop s
    → (take_until stop rest ≡ ("", rest))
    → take_until stop (s <> rest) ≡ (s, rest)
unfolding take_until
take_until-free stop String.[] rest h stops = rw nil-append stops
take_until-free stop (String.◌∷◌ c s) rest (free, h) stops =
    rw (cons-append, free, take_until-free stop s rest h stops) refl

add_text-nil : (found : Option (String × List String)) → add_text "" found ≡ found
unfolding add_text
add_text-nil none = refl
add_text-nil (some (rendered, used)) = rw nil-append refl

add_text-add_text :
    (c : Char) (s : String) (found : Option (String × List String))
    → add_text (String.◌∷◌ c "") (add_text s found) ≡ add_text (String.◌∷◌ c s) found
unfolding add_text
add_text-add_text c s none = refl
add_text-add_text c s (some (rendered, used)) = rw (cons-append, nil-append, cons-append) refl

match_placeholder-plain :
    (name rest : String)
    → str_eq name "" ≡ false
    → IsFree ends_name name
    → match_placeholder (name <> String.◌∷◌ "}" rest) ≡ some (name, rest)
unfolding match_placeholder close_placeholder take_until ends_name
match_placeholder-plain name rest h free =
    rw (take_until-free ends_name name (String.◌∷◌ "}" rest) free refl, h) refl

match_placeholder-converted :
    (name converter rest : String)
    → str_eq name "" ≡ false
    → IsFree ends_name name
    → str_eq converter "" ≡ false
    → IsFree ends_converter converter
    → match_placeholder (name <> String.◌∷◌ ":" (converter <> String.◌∷◌ "}" rest))
      ≡ some (name, rest)
unfolding match_placeholder close_placeholder take_until ends_name ends_converter
match_placeholder-converted name converter rest h free h' free' =
    rw
      (
        take_until-free ends_name name (String.◌∷◌ ":" (converter <> String.◌∷◌ "}" rest)) free
            refl,
        h,
        take_until-free ends_converter converter (String.◌∷◌ "}" rest) free' refl,
        h',
      )
      refl

render-literal :
    (params : Dict String) (fuel : ℕ) (s rest : String)
    → IsFree opens s
    → len s ≤ fuel
    → render fuel params (s <> rest) ≡ add_text s (render (fuel - len s) params rest)
unfolding render len
render-literal params fuel String.[] rest h le =
    rw (nil-append, add_text-nil) (ap (λ g. render g params rest) (omega arith))
render-literal params zero (String.◌∷◌ c s) rest h le = absurd (omega (arith, le))
render-literal params (suc fuel) (String.◌∷◌ c s) rest (plain, h) le =
    let step : suc fuel - suc (len s) ≡ fuel - len s = omega arith in
    rw
      (
        cons-append,
        plain,
        render-literal params fuel s rest h (omega (arith, le)),
        add_text-add_text,
        step,
      )
      refl

render-empty : (params : Dict String) (fuel : ℕ) → render fuel params "" ≡ some ("", [])
unfolding render
render-empty params zero = refl
render-empty params (suc fuel) = refl

render-placeholder :
    (params : Dict String) (fuel : ℕ) (s name rest : String)
    → match_placeholder s ≡ some (name, rest)
    → render (suc fuel) params (String.◌∷◌ "{" s)
      ≡ fill_with name (Dict.get params name) (render fuel params rest)
unfolding render
render-placeholder params fuel s name rest h = elim (Option-cases (Dict.get params name)) [
  | inl absent ↦ rw (h, render, absent) refl
  | inr (value, there) ↦ rw (h, render, there) refl
]

pub render-shown :
    (params : Dict String) (fuel : ℕ) (pieces : List Piece)
    → IsPath pieces
    → len (shown pieces) ≤ fuel
    → render fuel params (shown pieces) ≡ fill params pieces
unfolding len
render-shown params fuel [] h le = render-empty params fuel
render-shown params fuel (literal s ∷ pieces) (plain, h) le =
    render-literal params fuel s (shown pieces) plain
      (omega (arith, le, len-append s (shown pieces)))
    ∙ rw
        (render-shown params (fuel - len s) pieces h
          (omega (arith, le, len-append s (shown pieces))))
        refl
render-shown params zero (placeholder name ∷ pieces) h le = absurd (omega (arith, le))
render-shown params (suc fuel) (placeholder name ∷ pieces) (named, free, h) le =
    render-placeholder params fuel _ name (shown pieces)
      (match_placeholder-plain name (shown pieces) named free)
    ∙ rw
        (render-shown params fuel pieces h
          (omega (arith, le, len-append name (String.◌∷◌ "}" (shown pieces)))))
        refl
render-shown params zero (converted name converter ∷ pieces) h le = absurd (omega (arith, le))
render-shown params (suc fuel) (converted name converter ∷ pieces) (named, free, typed, free', h)
      le =
    render-placeholder params fuel _ name (shown pieces)
      (match_placeholder-converted name converter (shown pieces) named free typed free')
    ∙ rw
        (render-shown params fuel pieces h (
          omega (
            arith,
            le,
            len-append name (String.◌∷◌ ":" (converter <> String.◌∷◌ "}" (shown pieces))),
            len-append converter (String.◌∷◌ "}" (shown pieces)),
          )))
        refl
