-- ===== src/Cache/Facade/Views.antt =====
-- What a reader of the facade sees after each of its operations, for every driver that keeps the
-- contract.
use pylar_framework.Cache.Contract.{Value, null, is_null, alive, CacheStore}
use pylar_framework.Cache.Facade.{Cache, get, put, forget, add}
use pylar_framework.Prelude.{
  Bool-cases, Option, String, arith, eq_refl, false, if◌then◌else◌, inl, inr, str_eq, ℕ, ◌&&◌, ◌∙◌,
  ◌≡◌, ◌≤◌,
}

module _ (driver : CacheStore) where
  abbrev pub view : Cache driver.State → String → ℕ → Value
  view c k t = driver.view c.store k t

  abbrev pub IsValid : Cache driver.State → Type 0
  IsValid c = driver.IsValid c.store

  pub get-eq-view :
      (k : String) (now : ℕ) (c : Cache driver.State) → (get driver k now c).0 ≡ view c k now
  unfolding get
  get-eq-view k now c = driver.get-eq-view k now c.store

  pub view-get :
      (k j : String) (now t : ℕ) (c : Cache driver.State)
      → IsValid c
      → now ≤ t
      → view (get driver k now c).1 j t ≡ view c j t
  unfolding get
  view-get k j now t c = driver.view-get k j now t c.store

  pub view-put :
      (k j : String) (v : Value) (ttl : Option ℕ) (now t : ℕ) (c : Cache driver.State)
      → IsValid c
      → now ≤ t
      → view (put driver k v ttl now c) j t ≡ (if str_eq k j then alive v ttl now t else view c j t)
  unfolding put
  view-put k j v ttl now t c = driver.view-put k j v ttl now t c.store

  pub view-put_self :
      (k : String) (v : Value) (ttl : Option ℕ) (now t : ℕ) (c : Cache driver.State)
      → IsValid c
      → now ≤ t
      → view (put driver k v ttl now c) k t ≡ alive v ttl now t
  view-put_self k v ttl now t c h le = view-put k k v ttl now t c h le ∙ rw eq_refl

  pub view-put_ne :
      (k j : String) (v : Value) (ttl : Option ℕ) (now t : ℕ) (c : Cache driver.State)
      → IsValid c
      → now ≤ t
      → str_eq k j ≡ false
      → view (put driver k v ttl now c) j t ≡ view c j t
  view-put_ne k j v ttl now t c h le ne = view-put k j v ttl now t c h le ∙ rw ne

  pub view-forget :
      (k j : String) (t : ℕ) (c : Cache driver.State)
      → view (forget driver k c) j t ≡ (if str_eq k j then null else view c j t)
  unfolding forget
  view-forget k j t c = driver.view-forget k j t c.store

  pub get-IsValid :
      (k : String) (now : ℕ) (c : Cache driver.State) → IsValid c → IsValid (get driver k now c).1
  unfolding get
  get-IsValid k now c = driver.get-IsValid k now c.store

  pub put-IsValid :
      (k : String) (v : Value) (ttl : Option ℕ) (now : ℕ) (c : Cache driver.State)
      → IsValid c
      → IsValid (put driver k v ttl now c)
  unfolding put
  put-IsValid k v ttl now c = driver.put-IsValid k v ttl now c.store

  pub forget-IsValid :
      (k : String) (c : Cache driver.State) → IsValid c → IsValid (forget driver k c)
  unfolding forget
  forget-IsValid k c = driver.forget-IsValid k c.store

  -- `add` answers whether the key was absent.
  pub add-eq-absent :
      (k : String) (v : Value) (ttl : Option ℕ) (now : ℕ) (c : Cache driver.State)
      → (add driver k v ttl now c).0 ≡ is_null (view c k now)
  unfolding add
  add-eq-absent k v ttl now c = ground (arith, get-eq-view k now c)

  pub add-IsValid :
      (k : String) (v : Value) (ttl : Option ℕ) (now : ℕ) (c : Cache driver.State)
      → IsValid c
      → IsValid (add driver k v ttl now c).1
  unfolding add
  add-IsValid k v ttl now c h = elim (Bool-cases (is_null (get driver k now c).0)) [
    | inl absent ↦
        rw absent (put-IsValid k v ttl now (get driver k now c).1 (get-IsValid k now c h))
    | inr present ↦ rw present (get-IsValid k now c h)
  ]

  -- `add` stores its value exactly where the key was absent, and changes no other key.
  pub view-add :
      (k j : String) (v : Value) (ttl : Option ℕ) (now t : ℕ) (c : Cache driver.State)
      → IsValid c
      → now ≤ t
      → view (add driver k v ttl now c).1 j t
        ≡ (if is_null (view c k now) && str_eq k j then alive v ttl now t else view c j t)
  unfolding add
  view-add k j v ttl now t c h le = ground (
    arith,
    get-eq-view k now c,
    view-get k j now t c h le,
    view-put k j v ttl now t (get driver k now c).1 (get-IsValid k now c h) le,
  )
