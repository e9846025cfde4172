-- ===== src/Dict/Unique.antt =====
-- Dicts in which no key stands twice, and filters by value.
use pylar_framework.Dict.{Dict, get, put, remove, keep}
use pylar_framework.Dict.Laws.{get-put, get-remove}
use pylar_framework.Prelude.{
  Bool, Option, String, [], arith, eq_iff, if◌then◌else◌, none, refl, some, ◌∷◌, ◌≡◌,
}

-- Each entry's key is absent from the entries behind it.
abbrev pub Unique {ℓ} : {V : Type ℓ} → Dict V → Type ℓ
Unique [] = Unit
Unique ((k, v) ∷ d) = (get d k ≡ none) × Unique d

abbrev pub keep_value {ℓ} : {V : Type ℓ} → (V → Bool) → Option V → Option V
keep_value test none = none
keep_value test (some v) = if test v then some v else none

module _ {ℓ} {V : Type ℓ} where
  pub put-Unique : (d : Dict V) (k : String) (v : V) → Unique d → Unique (put d k v)
  unfolding put get
  put-Unique [] k v u = (refl, tt)
  put-Unique ((j, w) ∷ d) k v u =
      ground (arith, put-Unique d k v u.1, get-put d k j v, eq_iff j k, eq_iff k j)

  pub remove-Unique : (d : Dict V) (k : String) → Unique d → Unique (remove d k)
  unfolding remove get
  remove-Unique [] k u = tt
  remove-Unique ((j, w) ∷ d) k u = ground (arith, remove-Unique d k u.1, get-remove d k j)

  pub get-keep :
      (test : V → Bool) (d : Dict V) (k : String)
      → Unique d
      → get (keep test d) k ≡ keep_value test (get d k)
  unfolding get keep
  get-keep test [] k u = refl
  get-keep test ((j, w) ∷ d) k u =
      ground (arith, get-keep test d k u.1, get-keep test d j u.1, eq_iff j k)

  pub keep-Unique : (test : V → Bool) (d : Dict V) → Unique d → Unique (keep test d)
  unfolding keep get
  keep-Unique test [] u = tt
  keep-Unique test ((j, w) ∷ d) u = ground (arith, keep-Unique test d u.1, get-keep test d j u.1)
