-- ===== src/Cache/Stampede/Released.antt =====
-- What a caller of `remember_with_lock` finds and leaves.
use Prim.Native.String.{◌++◌ as ◌<>◌}
use pylar_framework.Cache.Contract.{Value, is_null, null, CacheStore}
use pylar_framework.Cache.Facade.{Cache, Outcome, done, raised, Factory, get, store_made}
use pylar_framework.Cache.Facade.Views.{
  view, IsValid, get-eq-view, view-get, get-IsValid, put-IsValid, view-put_ne,
}
use pylar_framework.Cache.Lock.{CacheLock, Wake, claim, acquire, acquire_loop, release}
use pylar_framework.Cache.Lock.Released.{release-frees, claim-shown}
use pylar_framework.Cache.Stampede.{
  release_after, compute_locked, with_lock, stampede_lock, remember_with_lock,
}
use pylar_framework.Text.{len}
use pylar_framework.Text.Padding.{len-append}
use pylar_framework.Prelude.{
  Bool, Bool-cases, List, Option, String, [], ap, arith, eq_iff, false, inl, inr, none, refl, some,
  str_eq, subst, true, ℕ, ◌+◌, ◌∙◌, ◌∷◌, ◌≡◌, ◌≤◌,
}

-- The key of the lock is another one.
stampede-ne : (key : String) → str_eq key (key <> ":stampede") ≡ false
unfolding len
stampede-ne key = elim (Bool-cases (str_eq key (key <> ":stampede"))) [
  | inl same ↦
      let longer : len key ≡ len key + len ":stampede" =
        ap len ((eq_iff key (key <> ":stampede")).0 same) ∙ len-append key ":stampede" in
      absurd (omega (arith, longer))
  | inr other ↦ other
]

module _ (driver : CacheStore) (key : String) (ttl : Option ℕ) (factory : Factory driver) where
  -- If another caller has stored the value by the time at which the lock is held, it is returned, and
  -- the factory does not run: what is returned is the same for all factories.
  pub remember_with_lock-shared :
      (lock_ttl now at : ℕ) (token : String) (wakes : List (Wake driver.State)) (b : Bool)
      (lock : CacheLock) (c c' : Cache driver.State)
      → is_null (view driver c key now) ≡ true
      → acquire driver true none wakes now
          (stampede_lock driver key token lock_ttl)
          (get driver key now c).1
        ≡ (some (done b), lock, c')
      → is_null (view driver c' key at) ≡ false
      → remember_with_lock driver key ttl factory lock_ttl token wakes now at c ≡ (
        some (done (view driver c' key at)),
        at,
        (release driver at lock (get driver key at c').1).1,
      )
  unfolding remember_with_lock with_lock release_after compute_locked
  remember_with_lock-shared lock_ttl now at token wakes b lock c c' miss won there =
      rw (get-eq-view driver key now c, miss, won, get-eq-view driver key at c', there) refl

  store_made_time :
      (made : Outcome Value) (later : ℕ) (c : Cache driver.State)
      → (store_made driver key ttl made later c).1 ≡ later
  unfolding store_made
  store_made_time (raised error) later c = refl
  store_made_time (done value) later c = refl

  -- What the block under the lock does to the lock's key.
  store_made-kept :
      (made : Outcome Value) (later u : ℕ) (c : Cache driver.State)
      → IsValid driver c
      → later ≤ u
      → IsValid driver (store_made driver key ttl made later c).2
        × (view driver (store_made driver key ttl made later c).2 (key <> ":stampede") u
            ≡ view driver c (key <> ":stampede") u)
  unfolding store_made
  store_made-kept (raised error) later u c valid le = (valid, refl)
  store_made-kept (done value) later u c valid le = (
    put-IsValid driver key value ttl later c valid,
    view-put_ne driver key (key <> ":stampede") value ttl later u c valid le (stampede-ne key),
  )

  acquire-free :
      (wakes : List (Wake driver.State)) (now : ℕ) (lock : CacheLock) (c : Cache driver.State)
      → (claim driver now lock c).0 ≡ true
      → acquire driver true none wakes now lock c
        ≡ (some (done true), (claim driver now lock c).1, (claim driver now lock c).2)
  unfolding acquire acquire_loop
  acquire-free [] now lock c h = rw h refl
  acquire-free (wake ∷ wakes) now lock c h = rw h refl

  module _ (at : ℕ)
      (stays : (c : Cache driver.State) → IsValid driver c → IsValid driver (factory at c).2)
      (forward : (c : Cache driver.State) → at ≤ (factory at c).1)
      (apart : (c : Cache driver.State) (u : ℕ)
        → at ≤ u
        → view driver (factory at c).2 (key <> ":stampede") u
          ≡ view driver c (key <> ":stampede") u) where
    compute_locked-kept :
        (c : Cache driver.State) (u : ℕ)
        → IsValid driver c
        → (compute_locked driver key ttl factory at c).1 ≤ u
        → IsValid driver (compute_locked driver key ttl factory at c).2
          × (view driver (compute_locked driver key ttl factory at c).2 (key <> ":stampede") u
              ≡ view driver c (key <> ":stampede") u)
          × (at ≤ u)
    unfolding compute_locked
    compute_locked-kept c u valid le =
        let c' = (get driver key at c).1 in
        let valid' = get-IsValid driver key at c valid in
        elim (Bool-cases (is_null (get driver key at c).0)) [
          | inl miss ↦
              let made = factory at c' in
              let late : made.1 ≤ u =
                subst (λ m. m ≤ u) (store_made_time made.0 made.1 made.2) (rw miss at le) in
              let (valid'', same) = store_made-kept made.0 made.1 u made.2 (stays c' valid') late in
              let there : at ≤ u = omega (arith, forward c', late) in
              rw miss (
                valid'',
                same
                    ∙ apart c' u there
                    ∙ view-get driver key (key <> ":stampede") at u c valid there,
                there,
              )
          | inr hit ↦
              let there : at ≤ u = rw hit at le in
              rw hit (valid', view-get driver key (key <> ":stampede") at u c valid there, there)
        ]

    -- A caller that misses and finds the lock free returns a value or the factory's exception, and
    -- from then on the lock's key is absent, if the factory keeps the cache valid, leaves that key
    -- alone and the clock does not go back.
    pub remember_with_lock-released :
        (lock_ttl now t : ℕ) (token : String) (wakes : List (Wake driver.State))
        (c : Cache driver.State)
        → IsValid driver c
        → is_null (view driver c key now) ≡ true
        → is_null (view driver c (key <> ":stampede") now) ≡ true
        → now ≤ at
        → (remember_with_lock driver key ttl factory lock_ttl token wakes now at c).1 ≤ t
        → ((r : Outcome Value) × ((remember_with_lock driver key ttl factory lock_ttl token wakes
                now at c).0
              ≡ some r))
          × (view driver
                (remember_with_lock driver key ttl factory lock_ttl token wakes now at c).2
                (key <> ":stampede")
                t
              ≡ null)
    unfolding remember_with_lock with_lock release_after stampede_lock
    remember_with_lock-released lock_ttl now t token wakes c valid miss free le later =
        let c' = (get driver key now c).1 in
        let valid' = get-IsValid driver key now c valid in
        let lock = stampede_lock driver key token lock_ttl in
        let free' =
          ap is_null (view-get driver key (key <> ":stampede") now now c valid (omega arith))
          ∙ free in
        let shown =
          λ (u : ℕ) (after : now ≤ u). claim-shown driver now u lock c' valid' free' after in
        let (got, held, valid'', _) = shown now (omega arith) in
        let won = acquire-free wakes now lock c' got in
        let c2 = (claim driver now lock c').2 in
        let block = compute_locked driver key ttl factory at c2 in
        let held_lock : CacheLock = record lock { held = true } in
        let whole : remember_with_lock driver key ttl factory lock_ttl token wakes now at c
            ≡ release_after driver held_lock block =
          rw (get-eq-view driver key now c, miss, won, held) refl in
        let after : block.1 ≤ t =
          subst (λ (out : Option (Outcome Value) × ℕ × Cache driver.State). out.1 ≤ t) whole
            later in
        let kept = λ (u : ℕ) (behind : block.1 ≤ u). compute_locked-kept c2 u valid'' behind in
        let start = kept block.1 (omega arith) in
        rw whole (
          (block.0, refl),
          release-frees driver now lock_ttl block.1 t held_lock block.2 start.0 refl
              (λ u behind. (kept u behind).1 ∙ (shown u (omega (arith, (kept u behind).2, le))).3)
              after,
        )
