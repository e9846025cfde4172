-- ===== src/Cache/Memory/Sweep.antt =====
-- The sweep of the expired entries, so that keys which nobody reads do not pile up.
use pylar_framework.Dict
use pylar_framework.Dict.{Dict}
use pylar_framework.Dict.Unique.{put-Unique}
use pylar_framework.Cache.Contract.{Value}
use pylar_framework.Cache.Memory.{Entry, MemoryCacheStore, gc_interval, expired, maybe_gc, put}
use pylar_framework.Cache.Memory.Views.{IsValid}
use pylar_framework.Prelude.{
  Bool-cases, List, Option, String, [], arith, false, inl, inr, ltb, ltb→lt, none, not, refl, some,
  ℕ, ◌+◌, ◌<◌, ◌∷◌, ◌≡◌, ◌⊎◌,
}

-- No entry has expired at `now`.
abbrev pub AllLive : ℕ → List Entry → Type 0
AllLive now [] = Unit
AllLive now (e ∷ es) = (expired now e ≡ false) × AllLive now es

-- No entry of the store has expired at `now`.
abbrev pub IsSwept : ℕ → MemoryCacheStore → Type 0
IsSwept now s = AllLive now (Dict.values s.entries)

keep-AllLive :
    (now : ℕ) (d : Dict Entry) → AllLive now (Dict.values (Dict.keep (λ e. not (expired now e)) d))
unfolding Dict.keep Dict.values
keep-AllLive now [] = tt
keep-AllLive now ((j, e) ∷ d) = elim (Bool-cases (expired now e)) [
  | inl gone ↦ rw gone (keep-AllLive now d)
  | inr live ↦ rw live (live, keep-AllLive now d)
]

-- What one more write does: it counts, or it sweeps.
abbrev pub CountsOrSweeps : ℕ → MemoryCacheStore → MemoryCacheStore → Type 0
CountsOrSweeps now s s' =
    ((s.gc_counter + 1 < gc_interval) × (s'.gc_counter ≡ s.gc_counter + 1))
    ⊎ ((s.gc_counter + 1 ≡ gc_interval) × (IsSwept now s' × (s'.gc_counter ≡ 0)))

maybe_gc_sweeps :
    (now : ℕ) (s : MemoryCacheStore) → IsValid s → CountsOrSweeps now s (maybe_gc now s)
unfolding maybe_gc
maybe_gc_sweeps now s h = elim (Bool-cases (ltb (s.gc_counter + 1) gc_interval)) [
  | inl more ↦ inl (ltb→lt _ _ more, rw more)
  | inr full ↦ inr (ground (arith, h.counted), rw full (keep-AllLive now s.entries, refl))
]

-- A write to a valid store counts up, or it is the hundredth since the last sweep: then no expired
-- entry is left and the count starts again.
pub put_sweeps :
    (k : String) (v : Value) (ttl : Option ℕ) (now : ℕ) (s : MemoryCacheStore)
    → IsValid s
    → CountsOrSweeps now s (put k v ttl now s)
unfolding put
put_sweeps k v none now s h =
    maybe_gc_sweeps now _
      (record { unique = put-Unique s.entries k _ h.unique; counted = h.counted })
put_sweeps k v (some ttl) now s h =
    maybe_gc_sweeps now _
      (record { unique = put-Unique s.entries k _ h.unique; counted = h.counted })
