-- ===== src/Cache/Memory/Views.antt =====
-- What a reader sees of the store, and how each operation changes it.
use pylar_framework.Dict
use pylar_framework.Dict.{Dict}
use pylar_framework.Dict.Laws.{get-put, get-remove, get-empty}
use pylar_framework.Dict.Unique.{Unique, put-Unique, remove-Unique, keep-Unique, get-keep}
use pylar_framework.Cache.Contract.{Value, null, alive}
use pylar_framework.Cache.Memory.{
  Entry, MemoryCacheStore, gc_interval, expired, get, maybe_gc, put, forget, flush,
}
use pylar_framework.Prelude.{
  Option, String, arith, eq_iff, if◌then◌else◌, none, not, some, str_eq, ℕ, ◌+◌, ◌<◌, ◌∙◌, ◌≡◌, ◌≤◌,
}

pub record IsValid (s : MemoryCacheStore) : Type 0 where
  pub unique : Unique s.entries
  pub counted : s.gc_counter < gc_interval

seen : ℕ → Option Entry → Value
seen t none = null
seen t (some e) = if expired t e then null else e.value

unfoldable pub view : MemoryCacheStore → String → ℕ → Value
unfolding seen
view s k t = seen t (Dict.get s.entries k)

pub get-eq-view : (k : String) (now : ℕ) (s : MemoryCacheStore) → (get k now s).0 ≡ view s k now
unfolding get view
get-eq-view k now s = ground arith

-- A get, which may evict, changes nothing that is seen at that time or later.
pub view-get :
    (k j : String) (now t : ℕ) (s : MemoryCacheStore)
    → now ≤ t
    → view (get k now s).1 j t ≡ view s j t
unfolding get view expired
view-get k j now t s h = ground (arith, get-remove s.entries k j, eq_iff k j)

view-maybe_gc :
    (j : String) (now t : ℕ) (s : MemoryCacheStore)
    → Unique s.entries
    → now ≤ t
    → view (maybe_gc now s) j t ≡ view s j t
unfolding maybe_gc view expired
view-maybe_gc j now t s u h = ground (arith, get-keep (λ e. not (expired now e)) s.entries j u)

view-put_entry :
    (k j : String) (e : Entry) (t : ℕ) (s : MemoryCacheStore)
    → view (record s { entries = Dict.put s.entries k e }) j t
      ≡ (if str_eq k j then seen t (some e) else view s j t)
unfolding view
view-put_entry k j e t s = ground (arith, get-put s.entries k j e)

-- In a store with no key twice, a put is a put on a map whose keys expire: at every later time its
-- key shows the value while that lives, and every other key shows what it showed, also where the
-- put sweeps the expired entries.
pub view-put :
    (k j : String) (v : Value) (ttl : Option ℕ) (now t : ℕ) (s : MemoryCacheStore)
    → Unique s.entries
    → now ≤ t
    → view (put k v ttl now s) j t ≡ (if str_eq k j then alive v ttl now t else view s j t)
unfolding put seen expired
view-put k j v none now t s u h =
    view-maybe_gc j now t _ (put-Unique s.entries k _ u) h
    ∙ view-put_entry k j (record { value = v; expires_at = none }) t s
view-put k j v (some ttl) now t s u h = ground (
  arith,
  view-maybe_gc j now t
      (record s {
        entries = Dict.put s.entries k (record { value = v; expires_at = some (now + ttl) });
      })
      (put-Unique s.entries k _ u) h,
  view-put_entry k j (record { value = v; expires_at = some (now + ttl) }) t s,
)

pub view-forget :
    (k j : String) (t : ℕ) (s : MemoryCacheStore)
    → view (forget k s) j t ≡ (if str_eq k j then null else view s j t)
unfolding forget view
view-forget k j t s = ground (arith, get-remove s.entries k j)

pub view-flush : (j : String) (t : ℕ) (s : MemoryCacheStore) → view (flush s) j t ≡ null
unfolding flush view
view-flush j t s = rw get-empty

pub get-IsValid :
    (k : String) (now : ℕ) (s : MemoryCacheStore) → IsValid s → IsValid (get k now s).1
unfolding get
get-IsValid k now s v = ground (arith, remove-Unique s.entries k v.unique)

maybe_gc-IsValid : (now : ℕ) (s : MemoryCacheStore) → IsValid s → IsValid (maybe_gc now s)
unfolding maybe_gc
maybe_gc-IsValid now s v = ground (arith, keep-Unique (λ e. not (expired now e)) s.entries v.unique)

pub put-IsValid :
    (k : String) (v : Value) (ttl : Option ℕ) (now : ℕ) (s : MemoryCacheStore)
    → IsValid s
    → IsValid (put k v ttl now s)
unfolding put
put-IsValid k v none now s h =
    maybe_gc-IsValid now _
      (record { unique = put-Unique s.entries k _ h.unique; counted = h.counted })
put-IsValid k v (some ttl) now s h =
    maybe_gc-IsValid now _
      (record { unique = put-Unique s.entries k _ h.unique; counted = h.counted })

pub forget-IsValid : (k : String) (s : MemoryCacheStore) → IsValid s → IsValid (forget k s)
unfolding forget
forget-IsValid k s v = record { unique = remove-Unique s.entries k v.unique; counted = v.counted }

pub flush-IsValid : (s : MemoryCacheStore) → IsValid (flush s)
unfolding flush
flush-IsValid s = omega arith
