-- ===== src/Database/Paginator/Range.antt =====
-- Which pages the navigation lists.
use pylar_framework.Database.Paginator.{
  Paginator, page_run, front_pages, back_pages, last_page, page_range,
}
use pylar_framework.Prelude.{
  Bool, Bool-cases, List, Option, [], arith, false, inl, inr, leb, ltb, max, min, none, refl, some,
  suc, zero, ℕ, ◌&&◌, ◌++◌, ◌+◌, ◌-◌, ◌<◌, ◌==◌, ◌||◌, ◌∷◌, ◌≡◌, ◌≤◌,
}

-- The page is listed.
unfoldable pub lists : ℕ → List (Option ℕ) → Bool
lists p [] = false
lists p (none ∷ es) = lists p es
lists p (some q ∷ es) = q == p || lists p es

lists-append : (p : ℕ) (xs ys : List (Option ℕ)) → lists p (xs ++ ys) ≡ lists p xs || lists p ys
unfolding lists
lists-append p [] ys = refl
lists-append p (none ∷ xs) ys = lists-append p xs ys
lists-append p (some q ∷ xs) ys = ground (arith, lists-append p xs ys)

lists-page_run : (p start n : ℕ) → lists p (page_run start n) ≡ leb start p && ltb p (start + n)
unfolding lists page_run
lists-page_run p start zero = ground arith
lists-page_run p start (suc n) = ground (arith, lists-page_run p (start + 1) n)

lists-front_pages : (p start : ℕ) → lists p (front_pages start) ≡ ltb 1 start && p == 1
unfolding lists front_pages
lists-front_pages p start = ground arith

lists-back_pages : (p end last : ℕ) → lists p (back_pages end last) ≡ ltb end last && p == last
unfolding lists back_pages
lists-back_pages p end last = ground arith

-- The three parts are the pages that are wanted.
covered :
    (p current window last start end : ℕ)
    → 1 ≤ current
    → current ≤ last
    → 1 < last
    → start ≡ max 1 (current - window)
    → end ≡ min last (current + window)
    → ((ltb 1 start && p == 1) || (leb start p && ltb p (start + (end + 1 - start))))
        || (ltb end last && p == last)
      ≡ (p == 1
          || p == last
          || (leb 1 p && leb p last && leb (current - window) p && leb p (current + window)))
covered p current window last start end ge le more s e = ground arith

-- For a current page that exists, the navigation lists the first page, the last page and the pages
-- that are at most `window` away from the current one, and no other page.
pub lists-page_range {ℓ} :
    {A : Type ℓ} (window p : ℕ) (pages : Paginator A)
    → 1 ≤ pages.current_page
    → pages.current_page ≤ last_page pages
    → lists p (page_range window pages) ≡ (
        p == 1
        || p == last_page pages
        || (leb 1 p
            && leb p (last_page pages)
            && leb (pages.current_page - window) p
            && leb p (pages.current_page + window)))
unfolding page_range lists
lists-page_range window p pages ge le =
    let last = last_page pages in
    let start = max 1 (pages.current_page - window) in
    let end = min last (pages.current_page + window) in
    let run = page_run start (end + 1 - start) in
    elim (Bool-cases (leb last 1)) [
      | inl one ↦ rw one (ground arith)
      | inr more ↦
          rw
            (
              more,
              lists-append p (front_pages start ++ run) (back_pages end last),
              lists-append p (front_pages start) run,
              lists-front_pages p start,
              lists-back_pages p end last,
              lists-page_run p start (end + 1 - start),
            )
            (covered p pages.current_page window last start end ge le (ground arith) refl refl)
    ]
