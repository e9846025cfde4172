-- ===== src/Dict/Every.antt =====
-- A property of all values of a dict.
use pylar_framework.Dict.{Dict, get, put, remove}
use pylar_framework.Prelude.{Bool-cases, String, [], arith, inl, inr, some, str_eq, subst, ◌∷◌, ◌≡◌}

abbrev pub Every {ℓ κ} : {V : Type ℓ} → (V → Type κ) → Dict V → Type κ
Every P [] = Unit
Every P ((k, v) ∷ d) = P v × Every P d

module _ {ℓ κ} {V : Type ℓ} (P : V → Type κ) where
  pub put-Every : (d : Dict V) (k : String) (v : V) → P v → Every P d → Every P (put d k v)
  unfolding put
  put-Every [] k v p h = (p, tt)
  put-Every ((j, w) ∷ d) k v p (q, h) = elim (Bool-cases (str_eq j k)) [
    | inl same ↦ rw same (p, h)
    | inr other ↦ rw other (q, put-Every d k v p h)
  ]

  pub remove-Every : (d : Dict V) (k : String) → Every P d → Every P (remove d k)
  unfolding remove
  remove-Every [] k h = tt
  remove-Every ((j, w) ∷ d) k (q, h) = elim (Bool-cases (str_eq j k)) [
    | inl same ↦ rw same (remove-Every d k h)
    | inr other ↦ rw other (q, remove-Every d k h)
  ]

  pub get-Every : (d : Dict V) (k : String) (v : V) → get d k ≡ some v → Every P d → P v
  unfolding get
  get-Every [] k v e h = absurd (ground (arith, e))
  get-Every ((j, w) ∷ d) k v e (q, h) = elim (Bool-cases (str_eq j k)) [
    | inl same ↦ subst P (ground (arith, rw same at e)) q
    | inr other ↦ get-Every d k v (rw other at e) h
  ]
