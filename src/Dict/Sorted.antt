-- ===== src/Dict/Sorted.antt =====
-- `sorted(d.items())`: the entries of a dict in the order of their keys, which are compared code
-- point by code point. No key stands twice in a dict, so that the values are never compared.
use Prim.Native.Char.{code}
use pylar_framework.Dict.{Dict, get}
use pylar_framework.Dict.Unique.{Unique}
use text.Mathlib.TextEquality.{Char-path}
use pylar_framework.Prelude.{
  Bool, Bool-cases, Option, String, [], arith, eq_iff, eq_refl, false, if◌then◌else◌, inl, inr, ltb,
  none, refl, some, str_eq, sym, true, ◌==◌, ◌∙◌, ◌∷◌, ◌≡◌,
}

-- j < k, for texts
unfoldable pub precedes : String → String → Bool
precedes String.[] String.[] = false
precedes String.[] (String.◌∷◌ d t) = true
precedes (String.◌∷◌ c s) String.[] = false
precedes (String.◌∷◌ c s) (String.◌∷◌ d t) =
    let rest = precedes s t in
    if ltb (code c) (code d) then true else if code c == code d then rest else false

precedes_irrefl : (k : String) → precedes k k ≡ false
unfolding precedes
precedes_irrefl String.[] = refl
precedes_irrefl (String.◌∷◌ c s) = ground (arith, precedes_irrefl s)

precedes_trans : (i j k : String) → precedes i j ≡ true → precedes j k ≡ true → precedes i k ≡ true
unfolding precedes
precedes_trans String.[] String.[] k h h' = ground (arith, h)
precedes_trans String.[] (String.◌∷◌ d t) String.[] h h' = ground (arith, h')
precedes_trans String.[] (String.◌∷◌ d t) (String.◌∷◌ e u) h h' = refl
precedes_trans (String.◌∷◌ c s) String.[] k h h' = ground (arith, h)
precedes_trans (String.◌∷◌ c s) (String.◌∷◌ d t) String.[] h h' = ground (arith, h')
precedes_trans (String.◌∷◌ c s) (String.◌∷◌ d t) (String.◌∷◌ e u) h h' =
    ground (arith, precedes_trans s t u)

precedes_total : (j k : String) → precedes j k ≡ false → precedes k j ≡ false → j ≡ k
unfolding precedes
precedes_total String.[] String.[] h h' = refl
precedes_total String.[] (String.◌∷◌ d t) h h' = ground (arith, h)
precedes_total (String.◌∷◌ c s) String.[] h h' = ground (arith, h')
precedes_total (String.◌∷◌ c s) (String.◌∷◌ d t) h h' =
    ground (arith, precedes_total s t, Char-path c d)

module _ {ℓ} {V : Type ℓ} where
  unfoldable pub insert : String → V → Dict V → Dict V
  unfolding precedes
  insert k v [] = (k, v) ∷ []
  insert k v ((j, w) ∷ d) =
      let rest = insert k v d in if precedes k j then (k, v) ∷ (j, w) ∷ d else (j, w) ∷ rest

  unfoldable pub sorted : Dict V → Dict V
  unfolding insert
  sorted [] = []
  sorted ((k, v) ∷ d) = insert k v (sorted d)

  -- All keys of a dict stand behind the given one.
  abbrev AllAfter : String → Dict V → Type 0
  AllAfter k [] = Unit
  AllAfter k ((j, v) ∷ d) = (precedes k j ≡ true) × AllAfter k d

  abbrev IsSorted : Dict V → Type 0
  IsSorted [] = Unit
  IsSorted ((k, v) ∷ d) = AllAfter k d × IsSorted d

  AllAfter-trans : (i j : String) (d : Dict V) → precedes i j ≡ true → AllAfter j d → AllAfter i d
  AllAfter-trans i j [] h a = tt
  AllAfter-trans i j ((k, v) ∷ d) h (b, a) = (precedes_trans i j k h b, AllAfter-trans i j d h a)

  get_AllAfter : (k : String) (d : Dict V) → AllAfter k d → get d k ≡ none
  unfolding get
  get_AllAfter k [] a = refl
  get_AllAfter k ((j, v) ∷ d) (b, a) =
      ground (arith, eq_iff j k, precedes_irrefl k, get_AllAfter k d a)

  get-insert :
      (k i : String) (v : V) (d : Dict V)
      → get d k ≡ none
      → get (insert k v d) i ≡ (if str_eq k i then some v else get d i)
  unfolding get insert
  get-insert k i v [] h = refl
  get-insert k i v ((j, w) ∷ d) h =
      ground (arith, get-insert k i v d, eq_iff j k, eq_iff k i, eq_iff j i)

  pub get-sorted : (d : Dict V) (i : String) → Unique d → get (sorted d) i ≡ get d i
  unfolding get sorted
  get-sorted [] i u = refl
  get-sorted ((k, v) ∷ d) i (a, u) =
      ground (arith, get-insert k i v (sorted d) (get-sorted d k u ∙ a), get-sorted d i u)

  AllAfter-insert :
      (i k : String) (v : V) (d : Dict V)
      → precedes i k ≡ true
      → AllAfter i d
      → AllAfter i (insert k v d)
  unfolding insert
  AllAfter-insert i k v [] h a = (h, tt)
  AllAfter-insert i k v ((j, w) ∷ d) h (b, a) = ground (arith, AllAfter-insert i k v d h a)

  insert-IsSorted :
      (k : String) (v : V) (d : Dict V) → get d k ≡ none → IsSorted d → IsSorted (insert k v d)
  unfolding insert get
  insert-IsSorted k v [] h s = (tt, tt)
  insert-IsSorted k v ((j, w) ∷ d) h (a, s) =
      let apart : str_eq j k ≡ false = ground (arith, h) in
      let behind : get d k ≡ none = ground (arith, h) in
      elim (Bool-cases (precedes k j)) [
        | inl first ↦ rw first ((first, AllAfter-trans k j d first a), (a, s))
        | inr later ↦ elim (Bool-cases (precedes j k)) [
          | inl second ↦ rw later (AllAfter-insert j k v d second a, insert-IsSorted k v d behind s)
          | inr neither ↦ absurd (ground (arith, eq_iff j k, precedes_total k j later neither))
        ]
      ]

  sorted-IsSorted : (d : Dict V) → Unique d → IsSorted (sorted d)
  unfolding sorted
  sorted-IsSorted [] u = tt
  sorted-IsSorted ((k, v) ∷ d) (a, u) =
      insert-IsSorted k v (sorted d) (get-sorted d k u ∙ a) (sorted-IsSorted d u)

  get_first : (k : String) (v : V) (d : Dict V) → get ((k, v) ∷ d) k ≡ some v
  unfolding get
  get_first k v d = rw (eq_refl k)

  never_there : {v : V} → ¬ (◌≡◌ {A = Option V} none (some v))
  never_there h = ground (arith, h)

  IsSorted-same_key :
      (k j : String) (v w : V) (d e : Dict V)
      → k ≡ j
      → AllAfter k d
      → AllAfter j e
      → ((i : String) → get ((k, v) ∷ d) i ≡ get ((j, w) ∷ e) i)
      → (((i : String) → get d i ≡ get e i) → d ≡ e)
      → ◌≡◌ {A = Dict V} ((k, v) ∷ d) ((j, w) ∷ e)
  unfolding get
  IsSorted-same_key k j v w d e one a b same rest =
      let behind : (i : String) → get d i ≡ get e i = λ i.
        ground (arith, same i, eq_iff k i, eq_iff j i, get_AllAfter k d a, get_AllAfter j e b) in
      ground (arith, one, rest behind, same k, eq_refl k, eq_refl j)

  IsSorted-same :
      (d e : Dict V) → IsSorted d → IsSorted e → ((i : String) → get d i ≡ get e i) → d ≡ e
  unfolding get
  IsSorted-same [] [] s t same = refl
  IsSorted-same [] ((j, w) ∷ e) s t same = absurd (never_there (same j ∙ get_first j w e))
  IsSorted-same ((k, v) ∷ d) [] s t same = absurd (never_there (sym (same k) ∙ get_first k v d))
  IsSorted-same ((k, v) ∷ d) ((j, w) ∷ e) (a, s) (b, t) same = elim (Bool-cases (precedes k j)) [
    | inl first ↦ absurd (
        never_there (
          sym (get_AllAfter k ((j, w) ∷ e) (first, AllAfter-trans k j e first b))
          ∙ sym (same k)
          ∙ get_first k v d))
    | inr later ↦ elim (Bool-cases (precedes j k)) [
      | inl second ↦ absurd (
          never_there (
            sym (get_AllAfter j ((k, v) ∷ d) (second, AllAfter-trans j k d second a))
            ∙ same j
            ∙ get_first j w e))
      | inr neither ↦
          IsSorted-same_key k j v w d e (precedes_total k j later neither) a b same
            (IsSorted-same d e s t)
    ]
  ]

  -- Two dicts with the same entries have the same sorted items, whatever their order.
  pub sorted-same :
      (d e : Dict V)
      → Unique d
      → Unique e
      → ((i : String) → get d i ≡ get e i)
      → sorted d ≡ sorted e
  sorted-same d e u u' same =
      IsSorted-same (sorted d) (sorted e) (sorted-IsSorted d u) (sorted-IsSorted e u')
        (λ i. get-sorted d i u ∙ same i ∙ sym (get-sorted e i u'))
