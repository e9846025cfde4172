-- ===== src/Cache/Lock/Released.antt =====
-- What a release leaves of the key of a lock.
use pylar_framework.Cache.Contract.{is_null, null, text, alive, CacheStore}
use pylar_framework.Cache.Facade.{Cache}
use pylar_framework.Cache.Facade.Views.{
  view, IsValid, get-eq-view, view-get, view-forget, add-eq-absent, view-add, add-IsValid,
}
use pylar_framework.Cache.Lock.{CacheLock, claim, release_between, release, is_token}
use pylar_framework.Prelude.{
  Bool-cases, arith, eq_refl, false, inl, inr, refl, some, true, ℕ, ◌∙◌, ◌≡◌, ◌≤◌,
}

module _ (driver : CacheStore) where
  -- A lock that is held, and whose claim is what the key shows until it runs out, leaves the key
  -- absent from its release on.
  pub release-frees :
      (start ttl now t : ℕ) (lock : CacheLock) (c : Cache driver.State)
      → IsValid driver c
      → lock.held ≡ true
      → ((u : ℕ) → now ≤ u → view driver c lock.key u ≡ alive (text lock.token) (some ttl) start u)
      → now ≤ t
      → view driver (release driver now lock c).1 lock.key t ≡ null
  unfolding release release_between
  release-frees start ttl now t lock c valid held own le =
      elim (Bool-cases (is_token lock.token (view driver c lock.key now))) [
        | inl mine ↦
            rw (held, get-eq-view driver lock.key now c, mine)
              (view-forget driver lock.key lock.key t _ ∙ rw eq_refl refl)
        | inr other ↦
            rw (held, get-eq-view driver lock.key now c, other)
              (view-get driver lock.key lock.key now t c valid le
                ∙ ground (arith, own now, own t, other, eq_refl lock.token))
      ]

  -- A claim on an absent key is held, and its token is what the key shows until it runs out.
  pub claim-shown :
      (now t : ℕ) (lock : CacheLock) (c : Cache driver.State)
      → IsValid driver c
      → is_null (view driver c lock.key now) ≡ true
      → now ≤ t
      → ((claim driver now lock c).0 ≡ true)
        × ((claim driver now lock c).1 ≡ record lock { held = true })
        × IsValid driver (claim driver now lock c).2
        × (view driver (claim driver now lock c).2 lock.key t
            ≡ alive (text lock.token) (some lock.ttl) now t)
  unfolding claim
  claim-shown now t lock c valid absent le =
      let added = add-eq-absent driver lock.key (text lock.token) (some lock.ttl) now c ∙ absent in
      (
        added,
        rw added refl,
        add-IsValid driver lock.key (text lock.token) (some lock.ttl) now c valid,
        view-add driver lock.key lock.key (text lock.token) (some lock.ttl) now t c valid le
            ∙ rw (absent, eq_refl) refl,
      )

  -- A claim on a key that is there fails, and changes nothing that a reader sees.
  pub claim-refused :
      (now : ℕ) (lock : CacheLock) (c : Cache driver.State)
      → is_null (view driver c lock.key now) ≡ false
      → ((claim driver now lock c).0 ≡ false) × ((claim driver now lock c).1 ≡ lock)
  unfolding claim
  claim-refused now lock c present =
      let added = add-eq-absent driver lock.key (text lock.token) (some lock.ttl) now c ∙ present in
      (added, rw added refl)
