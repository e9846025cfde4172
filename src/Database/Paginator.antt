-- ===== src/Database/Paginator.antt =====
-- pylar/database/paginator.py, and the methods of queryset.py that make paginators. `urlencode` of
-- the standard library is a parameter. A page number and a count is never negative.
pub mod Range
pub mod Pages
use text.Mathlib.Text.{find?}
use Prim.Native.String.{◌++◌ as ◌<>◌}
use pylar_framework.Dict
use pylar_framework.Text.{str}
use pylar_framework.Dict.{Dict}
use pylar_framework.Prelude.{
  Bool, List, Option, String, [], if◌then◌else◌, leb, length, ltb, max, min, none, some, str_eq,
  suc, take, zero, ℕ, ◌*◌, ◌++◌, ◌+◌, ◌-◌, ◌/◌, ◌==◌, ◌||◌, ◌∷◌,
}

pub record Paginator {ℓ} (A : Type ℓ) : Type ℓ where
  pub items : List A
  pub total : ℕ
  pub per_page : ℕ
  pub current_page : ℕ
  pub path : String
  pub query_params : Dict String

pub record SimplePaginator {ℓ} (A : Type ℓ) : Type ℓ where
  pub items : List A
  pub per_page : ℕ
  pub current_page : ℕ
  pub more : Bool
  pub path : String
  pub query_params : Dict String

-- math.ceil(total / per_page), for counts that a float holds exactly
unfoldable pub ceil_div : ℕ → ℕ → ℕ
ceil_div total per_page = (total + per_page - 1) / per_page

-- range(start, start + n), as entries of a page list
unfoldable pub page_run : ℕ → ℕ → List (Option ℕ)
page_run start zero = []
page_run start (suc n) = some start ∷ page_run (start + 1) n

-- What stands before the run of pages, and what stands behind it.
unfoldable pub front_pages : ℕ → List (Option ℕ)
front_pages start = if ltb 1 start then some 1 ∷ (if ltb 2 start then none ∷ [] else []) else []

unfoldable pub back_pages : ℕ → ℕ → List (Option ℕ)
back_pages end last =
    if ltb end last
    then (if ltb end (last - 1) then none ∷ some last ∷ [] else some last ∷ [])
    else []

-- The target page in place of the `page` parameter
unfoldable pub page_url : (Dict String → String) → String → Dict String → ℕ → String
page_url urlencode path query_params page =
    let query = urlencode (Dict.put query_params "page" (str page)) in
    if str_eq path ""
    then "?" <> query
    else elim (find? path "?") [ some at ↦ path <> "&" <> query | none ↦ path <> "?" <> query ]

unfoldable pub simple_page_url : (Dict String → String) → String → Dict String → ℕ → String
simple_page_url urlencode path query_params page =
    let query = urlencode (Dict.put query_params "page" (str page)) in
    if str_eq path "" then "?" <> query else path <> "?" <> query

module _ {ℓ} {A : Type ℓ} where
  unfoldable pub last_page : Paginator A → ℕ
  last_page p = if p.total == 0 || p.per_page == 0 then 1 else max 1 (ceil_div p.total p.per_page)

  unfoldable pub is_empty : Paginator A → Bool
  is_empty p = length p.items == 0

  unfoldable pub first_item : Paginator A → ℕ
  first_item p = if is_empty p then 0 else (p.current_page - 1) * p.per_page + 1

  unfoldable pub last_item : Paginator A → ℕ
  last_item p = if is_empty p then 0 else first_item p + length p.items - 1

  unfoldable pub has_more_pages : Paginator A → Bool
  has_more_pages p = ltb p.current_page (last_page p)

  unfoldable pub on_first_page : Paginator A → Bool
  on_first_page p = leb p.current_page 1

  unfoldable pub page_range : ℕ → Paginator A → List (Option ℕ)
  page_range window p =
      let last = last_page p in
      let start = max 1 (p.current_page - window) in
      let end = min last (p.current_page + window) in
      if leb last 1
      then some 1 ∷ []
      else front_pages start ++ page_run start (end + 1 - start) ++ back_pages end last

  unfoldable pub url_for_page : (Dict String → String) → ℕ → Paginator A → String
  url_for_page urlencode page p = page_url urlencode p.path p.query_params page

  unfoldable pub previous_page_url : (Dict String → String) → Paginator A → Option String
  previous_page_url urlencode p =
      if on_first_page p then none else some (url_for_page urlencode (p.current_page - 1) p)

  unfoldable pub next_page_url : (Dict String → String) → Paginator A → Option String
  next_page_url urlencode p =
      if has_more_pages p then some (url_for_page urlencode (p.current_page + 1) p) else none

  unfoldable pub simple_previous_page_url :
      (Dict String → String) → SimplePaginator A → Option String
  simple_previous_page_url urlencode p =
      if leb p.current_page 1
      then none
      else some (simple_page_url urlencode p.path p.query_params (p.current_page - 1))

  unfoldable pub simple_next_page_url : (Dict String → String) → SimplePaginator A → Option String
  simple_next_page_url urlencode p =
      if p.more
      then some (simple_page_url urlencode p.path p.query_params (p.current_page + 1))
      else none

  -- QuerySet.paginate: the count of the query, and its rows by limit and offset.
  unfoldable pub paginate : ℕ → (ℕ → ℕ → List A) → ℕ → ℕ → String → Dict String → Paginator A
  paginate count select page per_page path query_params =
      let size = max 1 per_page in
      let last = max 1 ((count + size - 1) / size) in
      let at = min (max 1 page) last in
      if count == 0
      then record {
        items = [];
        total = 0;
        per_page = size;
        current_page = 1;
        path = path;
        query_params = query_params;
      }
      else record {
        items = select size ((at - 1) * size);
        total = count;
        per_page = size;
        current_page = at;
        path = path;
        query_params = query_params;
      }

  -- QuerySet.simple_paginate: one row more than a page tells whether there is a next page.
  unfoldable pub simple_paginate :
      (ℕ → ℕ → List A) → ℕ → ℕ → String → Dict String → SimplePaginator A
  simple_paginate select page per_page path query_params =
      let size = max 1 per_page in
      let at = max 1 page in
      let rows = select (size + 1) ((at - 1) * size) in
      record {
        items = take size rows;
        per_page = size;
        current_page = at;
        more = ltb size (length rows);
        path = path;
        query_params = query_params;
      }
