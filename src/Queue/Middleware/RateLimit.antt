-- ===== src/Queue/Middleware/RateLimit.antt =====
-- The rate limiter over a cache whose driver has no native counters.
use pylar_framework.Cache.Contract.{null, int, CacheStore}
use pylar_framework.Cache.Facade.{Cache, done, increment}
use pylar_framework.Cache.Facade.Views.{view, IsValid}
use pylar_framework.Cache.Facade.Counting.{
  IsPinned, increment-IsValid, increment_absent, increment_pins,
}
use pylar_framework.Queue.Middleware.{Next, admits, rate_limited, handle_all}
use pylar_framework.Prelude.{
  Bool-cases, List, String, [], ap, arith, false, if◌then◌else◌, inl, inr, length, ltb, lt→ltb, min,
  pos, refl, some, true, ℕ, ◌+ℤ◌, ◌+◌, ◌-◌, ◌<◌, ◌∙◌, ◌∷◌, ◌≡◌, ◌≤◌,
}

-- Times in order, from `start` on.
abbrev pub IsAscending : ℕ → List ℕ → Type 0
IsAscending start [] = Unit
IsAscending start (t ∷ ts) = (start ≤ t) × IsAscending t ts

abbrev pub AllBefore : ℕ → List ℕ → Type 0
AllBefore until [] = Unit
AllBefore until (t ∷ ts) = (t < until) × AllBefore until ts

pos_succ : (n : ℕ) → pos n +ℤ pos 1 ≡ pos (n + 1)
unfolding ◌+ℤ◌
pos_succ n = ground arith

admits_succ : (n max_calls : ℕ) → admits max_calls (done (pos (n + 1))) ≡ ltb n max_calls
unfolding admits
admits_succ n max_calls = ground arith

module _ (driver : CacheStore) (key : String) where
  -- The jobs do not write the limiter's key, and leave the cache valid.
  pub record LeavesAlone (next_call : Next driver) : Type 0 where
    pub valid :
        (now : ℕ) (c : Cache driver.State) → IsValid driver c → IsValid driver (next_call now c).1
    pub untouched :
        (now t : ℕ) (c : Cache driver.State)
        → now ≤ t
        → view driver (next_call now c).1 key t ≡ view driver c key t

  module _ (next_call : Next driver) (alone : LeavesAlone next_call) (max_calls window : ℕ) where
    -- The count decides whether the job runs.
    rate_limited_lem :
        (now n : ℕ) (c : Cache driver.State)
        → (increment driver key (pos 1) (some window) now c).0 ≡ done (pos n +ℤ pos 1)
        → rate_limited driver key max_calls window now next_call c ≡ (
            let c' = (increment driver key (pos 1) (some window) now c).1 in
            if ltb n max_calls
            then (true, (next_call now c').0, (next_call now c').1)
            else (false, done tt, c'))
    unfolding rate_limited
    rate_limited_lem now n c count = rw (count, pos_succ, admits_succ)

    after : ℕ → Cache driver.State → Cache driver.State
    after now c = (rate_limited driver key max_calls window now next_call c).2

    -- The counter is there: the job runs exactly if the limit is not passed, and the counter goes up
    -- and loses its expiry.
    rate_limited_present :
        (n now : ℕ) (c : Cache driver.State)
        → IsValid driver c
        → view driver c key now ≡ int (pos n)
        → ((rate_limited driver key max_calls window now next_call c).0 ≡ ltb n max_calls)
          × IsValid driver (after now c)
          × IsPinned driver (after now c) key now (pos (n + 1))
    unfolding after
    rate_limited_present n now c valid present =
        let c' = (increment driver key (pos 1) (some window) now c).1 in
        let (count, pinned) =
          increment_pins driver key (pos n) (pos 1) (some window) now c valid present in
        let pinned' : IsPinned driver c' key now (pos (n + 1)) =
          λ t le. pinned t le ∙ ap int (pos_succ n) in
        let valid' = increment-IsValid driver key (pos 1) (some window) now c valid in
        elim (Bool-cases (ltb n max_calls)) [
          | inl runs ↦
              rw (after, rate_limited_lem now n c count, runs)
                (
                  refl,
                  alone.valid now c' valid',
                  λ t le. alone.untouched now t c' le ∙ pinned' t le,
                )
          | inr dropped ↦
              rw (after, rate_limited_lem now n c count, dropped) (refl, valid', pinned')
        ]

    -- The counter is absent: it starts at one and lives for the window.
    rate_limited_absent :
        (now : ℕ) (c : Cache driver.State)
        → IsValid driver c
        → view driver c key now ≡ null
        → ((rate_limited driver key max_calls window now next_call c).0 ≡ ltb 0 max_calls)
          × IsValid driver (after now c)
          × ((t : ℕ) → now ≤ t → t < now + window → view driver (after now c) key t ≡ int (pos 1))
    unfolding after
    rate_limited_absent now c valid absent =
        let c' = (increment driver key (pos 1) (some window) now c).1 in
        let hit = λ (t : ℕ) (le : now ≤ t).
          increment_absent driver key (pos 1) window now t c valid absent le in
        let first : (t : ℕ) → now ≤ t → t < now + window → view driver c' key t ≡ int (pos 1) =
          λ t le lt. (hit t le).1 ∙ rw (lt→ltb _ _ lt, pos_succ) in
        let valid' = increment-IsValid driver key (pos 1) (some window) now c valid in
        elim (Bool-cases (ltb 0 max_calls)) [
          | inl runs ↦
              rw (after, rate_limited_lem now 0 c (hit now (omega arith)).0, runs)
                (
                  refl,
                  alone.valid now c' valid',
                  λ t le lt. alone.untouched now t c' le ∙ first t le lt,
                )
          | inr dropped ↦
              rw (after, rate_limited_lem now 0 c (hit now (omega arith)).0, dropped)
                (refl, valid', first)
        ]

    abbrev pub runs_of : List ℕ → Cache driver.State → ℕ
    runs_of times c = (handle_all driver key max_calls window next_call times c).0

    -- From a counter with no expiry the rest of the limit is left, for ever.
    runs_of-rest :
        (n start : ℕ) (times : List ℕ) (c : Cache driver.State)
        → IsValid driver c
        → IsPinned driver c key start (pos n)
        → IsAscending start times
        → runs_of times c ≡ min (length times) (max_calls - n)
    unfolding handle_all after
    runs_of-rest n start [] c valid pinned asc = omega arith
    runs_of-rest n start (now ∷ times) c valid pinned asc =
        let (ran, valid', pinned') = rate_limited_present n now c valid (pinned now asc.0) in
        let rest = runs_of-rest (n + 1) now times (after now c) valid' pinned' asc.1 in
        ground (arith, ran, rest)

    -- On a valid cache where the counter is absent, a job and any further ones within its window: just
    -- the first `max_calls` many of them run, or all if they are fewer.
    pub runs_in_window :
        (first : ℕ) (times : List ℕ) (c : Cache driver.State)
        → IsValid driver c
        → view driver c key first ≡ null
        → IsAscending first times
        → AllBefore (first + window) times
        → runs_of (first ∷ times) c ≡ min (length times + 1) max_calls
    unfolding handle_all after
    runs_in_window first [] c valid absent asc before =
        let (ran, valid', shown) = rate_limited_absent first c valid absent in ground (arith, ran)
    runs_in_window first (second ∷ times) c valid absent (le, asc) (lt, before) =
        let (ran, valid', shown) = rate_limited_absent first c valid absent in
        let (ran', valid'', pinned) =
          rate_limited_present 1 second (after first c) valid' (shown second le lt) in
        let rest = runs_of-rest 2 second times (after second (after first c)) valid'' pinned asc in
        ground (arith, ran, ran', rest)

    -- A job that comes while the counter is there and has reached the limit, and any jobs after it: none
    -- of them runs, however long after the window that is.
    pub runs_none :
        (n now : ℕ) (times : List ℕ) (c : Cache driver.State)
        → IsValid driver c
        → view driver c key now ≡ int (pos n)
        → max_calls ≤ n
        → IsAscending now times
        → runs_of (now ∷ times) c ≡ 0
    unfolding handle_all after
    runs_none n now times c valid present full asc =
        let (ran, valid', pinned) = rate_limited_present n now c valid present in
        let rest = runs_of-rest (n + 1) now times (after now c) valid' pinned asc in
        ground (arith, ran, rest)
