-- ===== src/Cache/Memory.antt =====
-- pylar/cache/drivers/memory.py: the dict-backed store with lazy eviction on read and a sweep of
-- the expired entries at every hundredth write. The laws are proved in the modules below.
pub mod Views
pub mod Sweep
pub mod Driver
use pylar_framework.Dict
use pylar_framework.Dict.{Dict}
use pylar_framework.Cache.Contract.{Value, null}
use pylar_framework.Prelude.{
  Bool, Option, String, [], false, if◌then◌else◌, leb, length, ltb, none, not, some, ℕ, ◌+◌,
}

pub record Entry : Type 0 where
  pub value : Value
  pub expires_at : Option ℕ

pub record MemoryCacheStore : Type 0 where
  pub entries : Dict Entry
  pub gc_counter : ℕ

abbrev pub gc_interval : ℕ
gc_interval = 100

abbrev pub fresh : MemoryCacheStore
fresh = record { entries = []; gc_counter = 0 }

-- exp is not None and now >= exp
unfoldable pub expired : ℕ → Entry → Bool
expired now e = elim e.expires_at [ none ↦ false | some t ↦ leb t now ]

get_entry : String → ℕ → Option Entry → MemoryCacheStore → Value × MemoryCacheStore
get_entry key now none s = (null, s)
get_entry key now (some e) s =
    if expired now e then (null, record s { entries = Dict.remove s.entries key }) else (e.value, s)

unfoldable pub get : String → ℕ → MemoryCacheStore → Value × MemoryCacheStore
unfolding get_entry
get key now s = get_entry key now (Dict.get s.entries key) s

maybe_gc : ℕ → MemoryCacheStore → MemoryCacheStore
maybe_gc now s =
    if ltb (s.gc_counter + 1) gc_interval
    then record s { gc_counter = s.gc_counter + 1 }
    else record { entries = Dict.keep (λ e. not (expired now e)) s.entries; gc_counter = 0 }

unfoldable pub put : String → Value → Option ℕ → ℕ → MemoryCacheStore → MemoryCacheStore
unfolding maybe_gc
put key value none now s =
    maybe_gc now
      (record s { entries = Dict.put s.entries key (record { value = value; expires_at = none }) })
put key value (some ttl) now s = maybe_gc now (record s {
  entries = Dict.put s.entries key (record { value = value; expires_at = some (now + ttl) });
})

unfoldable pub forget : String → MemoryCacheStore → MemoryCacheStore
forget key s = record s { entries = Dict.remove s.entries key }

unfoldable pub flush : MemoryCacheStore → MemoryCacheStore
flush s = record { entries = []; gc_counter = 0 }

pub size : MemoryCacheStore → ℕ
size s = length s.entries
