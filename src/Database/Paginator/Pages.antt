-- ===== src/Database/Paginator/Pages.antt =====
-- The pages of a query that does not change meanwhile, taken together.
use pylar_framework.Dict.{Dict}
use pylar_framework.Database.Paginator.{Paginator, paginate, last_page, ceil_div}
use native.Mathlib.Nat.{lt-div-mul-add}
use pylar_framework.Prelude.{
  Bool-cases, List, String, [], ap, arith, drop, false, inl, inr, length, max, min, refl, subst,
  suc, sym, take, zero, ℕ, ◌*◌, ◌++◌, ◌+◌, ◌-◌, ◌/◌, ◌<◌, ◌==◌, ◌∙◌, ◌∷◌, ◌≡◌, ◌≤◌,
}

module _ {ℓ} {A : Type ℓ} where
  abbrev nil : List A
  nil = []

  take-empty : (n : ℕ) → take n nil ≡ nil
  take-empty zero = refl
  take-empty (suc n) = refl

  drop-empty : (n : ℕ) → drop n nil ≡ nil
  drop-empty zero = refl
  drop-empty (suc n) = refl

  take_add : (n m : ℕ) (xs : List A) → take (n + m) xs ≡ take n xs ++ take m (drop n xs)
  take_add zero m xs = ground arith
  take_add (suc n) m [] = rw (take-empty, drop-empty, take-empty)
  take_add (suc n) m (x ∷ xs) =
      let e : suc n + m ≡ suc (n + m) = omega arith in
      ap (λ k. take k (x ∷ xs)) e ∙ ap (λ ys. x ∷ ys) (take_add n m xs)

  take_all : (n : ℕ) (xs : List A) → length xs ≤ n → take n xs ≡ xs
  take_all zero [] le = refl
  take_all zero (x ∷ xs) le = absurd (omega (arith, le))
  take_all (suc n) [] le = refl
  take_all (suc n) (x ∷ xs) le = ap (λ ys. x ∷ ys) (take_all n xs (omega arith))

-- No rows are counted.
length_zero {ℓ} : {A : Type ℓ} (xs : List A) → length xs ≡ 0 → xs ≡ []
length_zero [] e = refl
length_zero (x ∷ xs) e = absurd (omega (arith, e))

-- The last page is not before the end of the rows.
le-ceil_div : (total size : ℕ) → 0 < size → total ≤ ceil_div total size * size
unfolding ceil_div
le-ceil_div total size ge = omega (arith, lt-div-mul-add {a = total + size - 1} ge)

le-max : (total size n : ℕ) → total ≤ n * size → total ≤ max 1 n * size
le-max total size zero le = omega (arith, le)
le-max total size (suc n) le =
    let e : max 1 (suc n) ≡ suc n = omega arith in subst (λ k. total ≤ k * size) (sym e) le

module _ {ℓ} {A : Type ℓ} (count : ℕ) (select : ℕ → ℕ → List A) (per_page : ℕ) (path : String)
    (query_params : Dict String) where
  abbrev pub page : ℕ → Paginator A
  page n = paginate count select n per_page path query_params

  -- The rows of the pages 1 to n, one after the other.
  unfoldable pub pages_up_to : ℕ → List A
  pages_up_to zero = []
  pages_up_to (suc n) = pages_up_to n ++ (page (suc n)).items

  module _ (rows : List A) (counted : count ≡ length rows)
      (selected : (limit offset : ℕ) → select limit offset ≡ take limit (drop offset rows)) where
    last_page-page : 0 < count → last_page (page 1) ≡ max 1 (ceil_div count (max 1 per_page))
    unfolding paginate last_page
    last_page-page some_rows =
        let counts : (count == 0) ≡ false = ground arith in
        let sized : (max 1 per_page == 0) ≡ false = ground arith in rw (counts, sized, counts)

    items-page :
        (n : ℕ)
        → 0 < count
        → n < last_page (page 1)
        → (page (suc n)).items ≡ take (max 1 per_page) (drop (n * max 1 per_page) rows)
    unfolding paginate ceil_div
    items-page n some_rows lt =
        let counts : (count == 0) ≡ false = ground arith in
        let last = max 1 ((count + max 1 per_page - 1) / max 1 per_page) in
        let below : n < last = subst (λ k. n < k) (last_page-page some_rows) lt in
        let at : min (max 1 (suc n)) last - 1 ≡ n = omega arith in rw (counts, at, selected)

    pages_up_to-take :
        (n : ℕ)
        → 0 < count
        → n ≤ last_page (page 1)
        → pages_up_to n ≡ take (n * max 1 per_page) rows
    unfolding pages_up_to
    pages_up_to-take zero some_rows le = ground arith
    pages_up_to-take (suc n) some_rows le =
        rw (pages_up_to-take n some_rows (omega arith), items-page n some_rows (omega arith))
          (sym (take_add (n * max 1 per_page) (max 1 per_page) rows)
            ∙ ap (λ k. take k rows) (omega arith))

    -- For a query that does not change meanwhile, where its count is the number of its rows and a
    -- limit and an offset select a part of them: the pages from the first to the last one are the
    -- rows of the query, in their order, each once, whatever the size of the page.
    pub pages_up_to-last_page : pages_up_to (last_page (page 1)) ≡ rows
    unfolding pages_up_to last_page paginate
    pages_up_to-last_page = elim (Bool-cases (count == 0)) [
      | inl none_counted ↦
          let no_rows = length_zero rows (ground arith) in
          rw (no_rows, none_counted, last_page, none_counted)
      | inr counts ↦
          let some_rows : 0 < count = ground arith in
          let size = max 1 per_page in
          let enough =
            le-max count size (ceil_div count size) (le-ceil_div count size (omega arith)) in
          pages_up_to-take (last_page (page 1)) some_rows (omega arith)
          ∙ rw (last_page-page some_rows)
              (take_all (max 1 (ceil_div count size) * size) rows (omega (arith, enough, counted)))
    ]
