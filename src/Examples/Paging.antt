-- ===== src/Examples/Paging.antt =====
-- Pages of five rows.
use pylar_framework.Database.Paginator.{Paginator, page_range, last_page}
use pylar_framework.Database.Paginator.Range
use pylar_framework.Database.Paginator.Pages
use pylar_framework.Prelude.{
  List, [], arith, drop, leb, refl, take, ℕ, ◌&&◌, ◌+◌, ◌-◌, ◌==◌, ◌||◌, ◌∷◌, ◌≡◌,
}

abbrev rows : List ℕ
rows = 11 ∷ 12 ∷ 13 ∷ 14 ∷ 15 ∷ []

abbrev select : ℕ → ℕ → List ℕ
select limit offset = take limit (drop offset rows)

pages_up_to-last_page_example :
    Pages.pages_up_to 5 select 2 "" [] (last_page (Pages.page 5 select 2 "" [] 1)) ≡ rows
pages_up_to-last_page_example =
    Pages.pages_up_to-last_page 5 select 2 "" [] rows refl (λ limit offset. refl)

abbrev middle : Paginator ℕ
middle = record {
  items = 1 ∷ [];
  total = 99;
  per_page = 1;
  current_page = 5;
  path = "";
  query_params = [];
}

lists-page_range_run : Range.lists 7 (page_range 2 middle) ≡ (
    7 == 1
    || 7 == last_page middle
    || (leb 1 7 && leb 7 (last_page middle) && leb (5 - 2) 7 && leb 7 (5 + 2)))
unfolding last_page pylar_framework.Database.Paginator.ceil_div
lists-page_range_run = Range.lists-page_range 2 7 middle (omega arith) (omega arith)
