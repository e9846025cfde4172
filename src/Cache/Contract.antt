-- ===== src/Cache/Contract.antt =====
-- pylar/cache/store.py: the protocol that every cache driver implements, as operations and laws.
-- The clock is a number of ticks, and a driver reads it once in an operation. The laws speak of
-- `view s k t`, what a reader of key `k` sees at time `t` if nothing else happens before.
use pylar_framework.Prelude.{
  Bool, Option, String, false, if◌then◌else◌, ltb, none, some, str_eq, true, ℕ, ℤ, ◌+◌, ◌≡◌, ◌≤◌,
}

-- A Python value in a cache; `object` stands for any other object, by its identity. `None` is what
-- `get` returns on a miss, also where it is stored.
pub data Value : Type 0 where
  null : Value
  int : ℤ → Value
  bool : Bool → Value
  text : String → Value
  object : ℕ → Value

-- value is None
abbrev pub is_null : Value → Bool
is_null null = true
is_null _ = false

-- What is seen at `t` of a value that was stored at `now` with a time to live.
abbrev pub alive : Value → Option ℕ → ℕ → ℕ → Value
alive v none now t = v
alive v (some ttl) now t = if ltb t (now + ttl) then v else null

pub record CacheStore : Type 1 where
  pub State : Type 0
  pub get : String → ℕ → State → Value × State
  pub put : String → Value → Option ℕ → ℕ → State → State
  pub forget : String → State → State
  pub flush : State → State
  pub IsValid : State → Type 0
  pub view : State → String → ℕ → Value
  pub get-eq-view : (k : String) (now : ℕ) (s : State) → (get k now s).0 ≡ view s k now
  pub view-get :
      (k j : String) (now t : ℕ) (s : State)
      → IsValid s
      → now ≤ t
      → view (get k now s).1 j t ≡ view s j t
  pub view-put :
      (k j : String) (v : Value) (ttl : Option ℕ) (now t : ℕ) (s : State)
      → IsValid s
      → now ≤ t
      → view (put k v ttl now s) j t ≡ (if str_eq k j then alive v ttl now t else view s j t)
  pub view-forget :
      (k j : String) (t : ℕ) (s : State)
      → view (forget k s) j t ≡ (if str_eq k j then null else view s j t)
  pub view-flush : (j : String) (t : ℕ) (s : State) → view (flush s) j t ≡ null
  pub get-IsValid : (k : String) (now : ℕ) (s : State) → IsValid s → IsValid (get k now s).1
  pub put-IsValid :
      (k : String) (v : Value) (ttl : Option ℕ) (now : ℕ) (s : State)
      → IsValid s
      → IsValid (put k v ttl now s)
  pub forget-IsValid : (k : String) (s : State) → IsValid s → IsValid (forget k s)
  pub flush-IsValid : (s : State) → IsValid s → IsValid (flush s)
