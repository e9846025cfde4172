-- ===== src/Cache/Facade/Counting.antt =====
-- The counters of the facade, which the rate limiters build on.
use pylar_framework.Cache.Contract.{Value, null, int, CacheStore}
use pylar_framework.Cache.Facade.{Cache, done, get, increment, bump}
use pylar_framework.Cache.Facade.Views.{
  view, IsValid, get-eq-view, view-get, get-IsValid, put-IsValid, view-put_self, view-put_ne,
}
use pylar_framework.Prelude.{
  Option, String, false, if◌then◌else◌, ltb, none, pos, refl, some, str_eq, ℕ, ℤ, ◌+ℤ◌, ◌+◌, ◌∙◌,
  ◌≡◌, ◌≤◌,
}

module _ (driver : CacheStore) where
  -- The counter at `k` reads `n` at every time from `start` on: it has no expiry.
  abbrev pub IsPinned : Cache driver.State → String → ℕ → ℤ → Type 0
  IsPinned c k start n = (t : ℕ) → start ≤ t → view driver c k t ≡ int n

  pub increment-IsValid :
      (k : String) (by : ℤ) (ttl : Option ℕ) (now : ℕ) (c : Cache driver.State)
      → IsValid driver c
      → IsValid driver (increment driver k by ttl now c).1
  unfolding increment
  increment-IsValid k by ttl now c h =
      bump-IsValid (get driver k now c).0 (get driver k now c).1 (get-IsValid driver k now c h)
    where
      bump-IsValid :
          (v : Value) (c' : Cache driver.State)
          → IsValid driver c'
          → IsValid driver (bump driver k by ttl now v c').1
      bump-IsValid null c' h' = put-IsValid driver k _ ttl now c' h'
      bump-IsValid (int n) c' h' = put-IsValid driver k _ none now c' h'
      bump-IsValid _ c' h' = h'

  -- The first hit returns `by`, which is then there until the time to live is over.
  pub increment_absent :
      (k : String) (by : ℤ) (ttl now t : ℕ) (c : Cache driver.State)
      → IsValid driver c
      → view driver c k now ≡ null
      → now ≤ t
      → ((increment driver k by (some ttl) now c).0 ≡ done (pos 0 +ℤ by))
        × (view driver (increment driver k by (some ttl) now c).1 k t
            ≡ (if ltb t (now + ttl) then int (pos 0 +ℤ by) else null))
  unfolding increment bump
  increment_absent k by ttl now t c h absent le =
      let e = get-eq-view driver k now c ∙ absent in
      rw e (
        refl,
        view-put_self driver k _ (some ttl) now t (get driver k now c).1
            (get-IsValid driver k now c h) le,
      )

  pub increment_pins :
      (k : String) (n by : ℤ) (ttl : Option ℕ) (now : ℕ) (c : Cache driver.State)
      → IsValid driver c
      → view driver c k now ≡ int n
      → ((increment driver k by ttl now c).0 ≡ done (n +ℤ by))
        × IsPinned (increment driver k by ttl now c).1 k now (n +ℤ by)
  unfolding increment bump
  increment_pins k n by ttl now c h present =
      let e = get-eq-view driver k now c ∙ present in
      rw e (
        refl,
        λ t le.
            view-put_self driver k _ none now t (get driver k now c).1
              (get-IsValid driver k now c h) le,
      )

  -- Another hit returns the sum, and the sum is there at every later time: it has no expiry,
  -- whatever time to live the call and the calls before it asked for.
  pub increment_present :
      (k : String) (n by : ℤ) (ttl : Option ℕ) (now t : ℕ) (c : Cache driver.State)
      → IsValid driver c
      → view driver c k now ≡ int n
      → now ≤ t
      → ((increment driver k by ttl now c).0 ≡ done (n +ℤ by))
        × (view driver (increment driver k by ttl now c).1 k t ≡ int (n +ℤ by))
  increment_present k n by ttl now t c h present le =
      let (count, pinned) = increment_pins k n by ttl now c h present in (count, pinned t le)

  bump_ne :
      (k j : String) (by : ℤ) (ttl : Option ℕ) (now t : ℕ) (v : Value) (c : Cache driver.State)
      → IsValid driver c
      → str_eq k j ≡ false
      → now ≤ t
      → view driver (bump driver k by ttl now v c).1 j t ≡ view driver c j t
  unfolding bump
  bump_ne k j by ttl now t null c h ne le = view-put_ne driver k j _ ttl now t c h le ne
  bump_ne k j by ttl now t (int n) c h ne le = view-put_ne driver k j _ none now t c h le ne
  bump_ne k j by ttl now t _ c h ne le = refl

  -- A hit at one key leaves the other keys alone.
  pub increment_ne :
      (k j : String) (by : ℤ) (ttl : Option ℕ) (now t : ℕ) (c : Cache driver.State)
      → IsValid driver c
      → str_eq k j ≡ false
      → now ≤ t
      → view driver (increment driver k by ttl now c).1 j t ≡ view driver c j t
  unfolding increment
  increment_ne k j by ttl now t c h ne le =
      bump_ne k j by ttl now t (get driver k now c).0 (get driver k now c).1
        (get-IsValid driver k now c h) ne le
      ∙ view-get driver k j now t c h le
