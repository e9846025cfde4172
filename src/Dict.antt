-- ===== src/Dict.antt =====
-- Python's `dict` with string keys: an association list in insertion order, each key once.
-- `d[k] = v` on a key that is there keeps its place; `d.pop(k, None)` drops it.
pub mod Laws
pub mod Unique
pub mod Sorted
pub mod Every
use pylar_framework.Prelude.{
  Bool, List, Option, String, [], false, if◌then◌else◌, none, some, str_eq, true, ◌∷◌,
}

abbrev pub Dict {ℓ} : Type ℓ → Type ℓ
Dict V = List (String × V)

module _ {ℓ} {V : Type ℓ} where
  -- d.get(k)
  unfoldable pub get : Dict V → String → Option V
  get [] k = none
  get ((j, v) ∷ d) k = if str_eq j k then some v else get d k

  -- k in d
  unfoldable pub has : Dict V → String → Bool
  unfolding get
  has d k = elim (get d k) [ none ↦ false | some v ↦ true ]

  -- d[k] = v
  unfoldable pub put : Dict V → String → V → Dict V
  put [] k v = (k, v) ∷ []
  put ((j, w) ∷ d) k v = if str_eq j k then (k, v) ∷ d else (j, w) ∷ put d k v

  -- d.pop(k, None)
  unfoldable pub remove : Dict V → String → Dict V
  remove [] k = []
  remove ((j, w) ∷ d) k = let rest = remove d k in if str_eq j k then rest else (j, w) ∷ rest

  -- {k: v for k, v in d.items() if test(v)}
  unfoldable pub keep : (V → Bool) → Dict V → Dict V
  keep test [] = []
  keep test ((j, w) ∷ d) = let rest = keep test d in if test w then (j, w) ∷ rest else rest

  -- d.keys()
  unfoldable pub keys : Dict V → List String
  keys [] = []
  keys ((j, w) ∷ d) = j ∷ keys d

  -- d.values()
  unfoldable pub values : Dict V → List V
  values [] = []
  values ((j, w) ∷ d) = w ∷ values d
