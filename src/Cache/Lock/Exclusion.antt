-- ===== src/Cache/Lock/Exclusion.antt =====
-- Mutual exclusion of the locks on one key: any number of owners claim and release it, in any
-- order, and time passes between. Only locks write to the key, and nothing interrupts a claim or a
-- release.
use pylar_framework.Cache.Contract.{is_null, Value, null, text, CacheStore}
use pylar_framework.Cache.Facade.{Cache, get, add, forget}
use pylar_framework.Cache.Facade.Views.{
  view, IsValid, get-eq-view, view-get, get-IsValid, forget-IsValid, add-eq-absent, view-add,
  add-IsValid,
}
use pylar_framework.Cache.Memory.{MemoryCacheStore}
use pylar_framework.Cache.Memory.Driver.{memory}
use pylar_framework.Cache.Lock.{CacheLock, claim, release_between, release, is_token}
use pylar_framework.Prelude.{
  Bool, Bool-cases, List, String, [], ap, arith, eq_iff, eq_refl, false, if◌then◌else◌, inl, inr,
  refl, some, str_eq, true, ℕ, ◌+◌, ◌<◌, ◌∙◌, ◌∷◌, ◌≡◌, ◌≤◌, ◌⊎◌,
}

-- A lock object that is held, and the time at which its claim runs out.
pub record Lease : Type 0 where
  pub lock : CacheLock
  pub until : ℕ

pub record System (S : Type 0) : Type 0 where
  pub cache : Cache S
  pub now : ℕ
  pub leases : List Lease

-- The leases of the other lock objects.
unfoldable pub without : String → List Lease → List Lease
without token [] = []
without token (l ∷ ls) =
    let rest = without token ls in if str_eq l.lock.token token then rest else l ∷ rest

unfoldable pub new_leases : Bool → ℕ → CacheLock → List Lease → List Lease
new_leases true now lock ls = record { lock = lock; until = now + lock.ttl } ∷ ls
new_leases false now lock ls = ls

-- A lock object that does not hold the key releases nothing.
unfoldable pub kept_leases : CacheLock → List Lease → List Lease
unfolding without
kept_leases lock ls = if lock.held then without lock.token ls else ls

is_null→null : (v : Value) → is_null v ≡ true → v ≡ null
is_null→null null h = refl
is_null→null _ h = cc

is_token→text : (token : String) (v : Value) → is_token token v ≡ true → v ≡ text token
is_token→text token (text s) h = ground (arith, eq_iff s token)
is_token→text token null h = cc
is_token→text token _ h = cc

module _ (driver : CacheStore) (key : String) where
  -- A lock object on the key.
  abbrev pub lock_on : String → ℕ → Bool → CacheLock
  lock_on token ttl held = record { key = key; token = token; ttl = ttl; held = held }

  -- A lock object claims the key, whether that succeeds or not.
  abbrev pub claimed : CacheLock → System driver.State → System driver.State
  claimed lock s =
      let (acquired, lock', c') = claim driver s.now lock s.cache in
      record { cache = c'; now = s.now; leases = new_leases acquired s.now lock' s.leases }

  abbrev pub released : CacheLock → System driver.State → System driver.State
  released lock s = record {
    cache = (release driver s.now lock s.cache).1;
    now = s.now;
    leases = kept_leases lock s.leases;
  }

  -- One step: a lock object claims the key, or releases it, or the clock goes on.
  pub data Step (s : System driver.State) : System driver.State → Type 0 where
    claims : (token : String) (ttl : ℕ) (held : Bool) → Step s (claimed (lock_on token ttl held) s)
    releases :
        (token : String) (ttl : ℕ) (held : Bool) → Step s (released (lock_on token ttl held) s)
    waits : (n : ℕ) → Step s (record s { now = s.now + n })

  pub data Reach (s : System driver.State) : System driver.State → Type 0 where
    here : Reach s s
    next : {t u : System driver.State} → Reach s t → Step t u → Reach s u

  -- A claim that has not run out is the one that the key shows, until it runs out.
  abbrev pub Shows : Cache driver.State → ℕ → Lease → Type 0
  Shows c now l = (t : ℕ) → now ≤ t → t < l.until → view driver c key t ≡ text l.lock.token

  abbrev pub AllShow : Cache driver.State → ℕ → List Lease → Type 0
  AllShow c now [] = Unit
  AllShow c now (l ∷ ls) = Shows c now l × AllShow c now ls

  pub record IsExclusive (s : System driver.State) : Type 0 where
    pub valid : IsValid driver s.cache
    pub shown : AllShow s.cache s.now s.leases

  later-AllShow :
      (c : Cache driver.State) (now n : ℕ) (ls : List Lease)
      → AllShow c now ls
      → AllShow c (now + n) ls
  later-AllShow c now n [] h = tt
  later-AllShow c now n (l ∷ ls) h =
      (λ t le lt. h.0 t (omega arith) lt, later-AllShow c now n ls h.1)

  -- Where the key looks the same, the leases are shown as before.
  same-AllShow :
      (c c' : Cache driver.State) (now : ℕ) (ls : List Lease)
      → ((t : ℕ) → now ≤ t → view driver c' key t ≡ view driver c key t)
      → AllShow c now ls
      → AllShow c' now ls
  same-AllShow c c' now [] e h = tt
  same-AllShow c c' now (l ∷ ls) e h =
      (λ t le lt. e t le ∙ h.0 t le lt, same-AllShow c c' now ls e h.1)

  -- Where the key is absent now, every lease has run out.
  absent-AllShow :
      (c c' : Cache driver.State) (now : ℕ) (ls : List Lease)
      → view driver c key now ≡ null
      → AllShow c now ls
      → AllShow c' now ls
  absent-AllShow c c' now [] e h = tt
  absent-AllShow c c' now (l ∷ ls) e h = (
    λ t le lt. absurd (cc (e, h.0 now (omega arith) (omega arith))),
    absent-AllShow c c' now ls e h.1,
  )

  -- Where the key shows a token now, the leases of other tokens have run out.
  other-AllShow :
      (c c' : Cache driver.State) (now : ℕ) (token : String) (ls : List Lease)
      → view driver c key now ≡ text token
      → AllShow c now ls
      → AllShow c' now (without token ls)
  unfolding without
  other-AllShow c c' now token [] e h = tt
  other-AllShow c c' now token (l ∷ ls) e h = elim (Bool-cases (str_eq l.lock.token token)) [
    | inl same ↦ rw same (other-AllShow c c' now token ls e h.1)
    | inr ne ↦ rw ne (
      λ t le lt. ground (arith, e, eq_iff l.lock.token token, h.0 now),
      other-AllShow c c' now token ls e h.1,
    )
  ]

  without-AllShow :
      (c : Cache driver.State) (now : ℕ) (token : String) (ls : List Lease)
      → AllShow c now ls
      → AllShow c now (without token ls)
  unfolding without
  without-AllShow c now token [] h = tt
  without-AllShow c now token (l ∷ ls) h = ground (arith, without-AllShow c now token ls h.1)

  claim-IsExclusive :
      (token : String) (ttl : ℕ) (held : Bool) (s : System driver.State)
      → IsExclusive s
      → IsExclusive (claimed (lock_on token ttl held) s)
  unfolding claim new_leases
  claim-IsExclusive token ttl held s h =
      let c' = (add driver key (text token) (some ttl) s.now s.cache).1 in
      let valid' = add-IsValid driver key (text token) (some ttl) s.now s.cache h.valid in
      let see = λ (t : ℕ) (le : s.now ≤ t).
        view-add driver key key (text token) (some ttl) s.now t s.cache h.valid le in
      elim (Bool-cases (is_null (view driver s.cache key s.now))) [
        | inl absent ↦
            rw (add-eq-absent driver key (text token) (some ttl) s.now s.cache, absent)
              (record {
                valid = valid';
                shown = (
                  λ t le lt. ground (arith, see t le, absent, eq_refl key),
                  absent-AllShow s.cache c' s.now s.leases (is_null→null _ absent) h.shown,
                );
              })
        | inr present ↦
            rw (add-eq-absent driver key (text token) (some ttl) s.now s.cache, present)
              (record {
                valid = valid';
                shown =
                    same-AllShow s.cache c' s.now s.leases
                      (λ t le. ground (arith, see t le, present)) h.shown;
              })
      ]

  release-IsExclusive :
      (token : String) (ttl : ℕ) (held : Bool) (s : System driver.State)
      → IsExclusive s
      → IsExclusive (released (lock_on token ttl held) s)
  unfolding release release_between kept_leases
  release-IsExclusive token ttl false s h = h
  release-IsExclusive token ttl true s h =
      let c' = (get driver key s.now s.cache).1 in
      let valid' = get-IsValid driver key s.now s.cache h.valid in
      elim (Bool-cases (is_token token (view driver s.cache key s.now))) [
        | inl own ↦
            rw (get-eq-view driver key s.now s.cache, own)
              (record {
                valid = forget-IsValid driver key c' valid';
                shown =
                    other-AllShow s.cache (forget driver key c') s.now token s.leases
                      (is_token→text token _ own) h.shown;
              })
        | inr foreign ↦
            rw (get-eq-view driver key s.now s.cache, foreign)
              (record {
                valid = valid';
                shown = without-AllShow c' s.now token s.leases (
                    same-AllShow s.cache c' s.now s.leases
                      (λ t le. view-get driver key key s.now t s.cache h.valid le) h.shown);
              })
      ]

  Step-IsExclusive : {s t : System driver.State} → Step s t → IsExclusive s → IsExclusive t
  Step-IsExclusive {s} (claims token ttl held) h = claim-IsExclusive token ttl held s h
  Step-IsExclusive {s} (releases token ttl held) h = release-IsExclusive token ttl held s h
  Step-IsExclusive {s} (waits n) h = record {
    valid = h.valid;
    shown = later-AllShow s.cache s.now n s.leases h.shown;
  }

  Reach-IsExclusive : {s t : System driver.State} → Reach s t → IsExclusive s → IsExclusive t
  Reach-IsExclusive here h = h
  Reach-IsExclusive (next r st) h = Step-IsExclusive st (Reach-IsExclusive r h)

-- The lease is among those of the list.
abbrev pub IsAmong : Lease → List Lease → Type 0
IsAmong l [] = ⊥
IsAmong l (m ∷ ms) = (l ≡ m) ⊎ IsAmong l ms

module _ (driver : CacheStore) (key : String) where
  shows-among :
      (c : Cache driver.State) (now : ℕ) (l : Lease) (ls : List Lease)
      → AllShow driver key c now ls
      → IsAmong l ls
      → now < l.until
      → view driver c key now ≡ text l.lock.token
  shows-among c now l [] h among lt = absurd among
  shows-among c now l (m ∷ ms) h (inl e) lt =
      ground (arith, h.0 now, ap (λ (x : Lease). x.until) e, ap (λ (x : Lease). x.lock.token) e)
  shows-among c now l (m ∷ ms) h (inr among) lt = shows-among c now l ms h.1 among lt

  exclusive :
      (s t : System driver.State) (l m : Lease)
      → IsValid driver s.cache
      → s.leases ≡ []
      → Reach driver key s t
      → IsAmong l t.leases
      → IsAmong m t.leases
      → t.now < l.until
      → t.now < m.until
      → l.lock.token ≡ m.lock.token
  exclusive s t l m valid none_held reach among_l among_m live_l live_m =
      let start : IsExclusive driver key s = record { valid = valid; shown = rw none_held tt } in
      let end = Reach-IsExclusive driver key reach start in
      cc (
        shows-among t.cache t.now l t.leases end.shown among_l live_l,
        shows-among t.cache t.now m t.leases end.shown among_m live_m,
      )

-- Over the in-process driver, whose operations never suspend, so that nothing interrupts a claim or a
-- release: start with a valid cache and no lock held, and let any lock objects claim and release one
-- key in any order, at any times. Two leases that have not run out then belong to one token.
pub mutual_exclusion :
    (key : String) (s t : System MemoryCacheStore) (l m : Lease)
    → IsValid memory s.cache
    → s.leases ≡ []
    → Reach memory key s t
    → IsAmong l t.leases
    → IsAmong m t.leases
    → t.now < l.until
    → t.now < m.until
    → l.lock.token ≡ m.lock.token
mutual_exclusion key s t l m valid none_held reach among_l among_m live_l live_m =
    exclusive memory key s t l m valid none_held reach among_l among_m live_l live_m
