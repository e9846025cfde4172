-- ===== src/Examples/Caching.antt =====
-- The cache, its locks and its rate limiter on concrete stores.
use pylar_framework.Dict
use pylar_framework.Dict.{Dict}
use pylar_framework.Cache.Contract.{Value, null, int, text, alive, is_null}
use pylar_framework.Cache.Memory
use pylar_framework.Cache.Memory.{MemoryCacheStore, Entry}
use pylar_framework.Cache.Memory.Driver.{memory}
use pylar_framework.Cache.Memory.Views as MemoryViews
use pylar_framework.Cache.Memory.Sweep
use pylar_framework.Cache.Facade
use pylar_framework.Cache.Facade.{Cache, Outcome, Factory, done, increment}
use pylar_framework.Cache.Stampede
use pylar_framework.Cache.Stampede.Released
use Prim.Native.String.{◌++◌ as ◌<>◌}
use pylar_framework.Cache.Facade.Views
use pylar_framework.Cache.Facade.Counting
use pylar_framework.Cache.Facade.Tags
use pylar_framework.Cache.Lock.Exclusion
use pylar_framework.Cache.Lock.Exclusion.{
  Lease, System, claimed, lock_on, here, next, claims, waits,
}
use pylar_framework.Prelude.{
  [], arith, false, if◌then◌else◌, inl, ltb, none, pos, refl, some, str_eq, true, ◌&&◌, ◌+ℤ◌, ◌+◌,
  ◌∷◌, ◌≡◌,
}

abbrev cache : Cache MemoryCacheStore
cache = record { store = Memory.fresh; tag_index = [] }

cache-IsValid : MemoryViews.IsValid Memory.fresh
cache-IsValid = record { unique = tt; counted = omega arith }

-- One counter, at 5, with an expiry.
abbrev counted : MemoryCacheStore
counted = record {
  entries = ("hits", record { value = int (pos 5); expires_at = some 60 }) ∷ [];
  gc_counter = 99;
}

abbrev counting : Cache MemoryCacheStore
counting = record { store = counted; tag_index = [] }

counted-IsValid : MemoryViews.IsValid counted
unfolding Dict.get
counted-IsValid = record { unique = (refl, tt); counted = omega arith }

view-put_run : MemoryViews.view (Memory.put "hits" (int (pos 6)) (some 10) 50 counted) "hits" 55 ≡ (
    if str_eq "hits" "hits"
    then alive (int (pos 6)) (some 10) 50 55
    else MemoryViews.view counted "hits" 55)
view-put_run =
    MemoryViews.view-put "hits" "hits" (int (pos 6)) (some 10) 50 55 counted counted-IsValid.unique
      (omega arith)

view-get_run :
    MemoryViews.view (Memory.get "hits" 60 counted).1 "hits" 70 ≡ MemoryViews.view counted "hits" 70
view-get_run = MemoryViews.view-get "hits" "hits" 60 70 counted (omega arith)

put_sweeps_run : Sweep.CountsOrSweeps 70 counted (Memory.put "other" (text "x") none 70 counted)
put_sweeps_run = Sweep.put_sweeps "other" (text "x") none 70 counted counted-IsValid

view-add_run :
    Views.view memory (Facade.add memory "lock" (text "a") (some 9) 3 cache).1 "lock" 5 ≡ (
      if is_null (Views.view memory cache "lock" 3) && str_eq "lock" "lock"
      then alive (text "a") (some 9) 3 5
      else Views.view memory cache "lock" 5)
view-add_run =
    Views.view-add memory "lock" "lock" (text "a") (some 9) 3 5 cache cache-IsValid (omega arith)

add-eq-absent_run :
    (Facade.add memory "hits" (text "a") none 3 counting).0
    ≡ is_null (Views.view memory counting "hits" 3)
add-eq-absent_run = Views.add-eq-absent memory "hits" (text "a") none 3 counting

increment_absent_run :
    ((increment memory "n" (pos 2) (some 10) 5 cache).0 ≡ done (pos 0 +ℤ pos 2))
    × (Views.view memory (increment memory "n" (pos 2) (some 10) 5 cache).1 "n" 15
        ≡ (if ltb 15 (5 + 10) then int (pos 0 +ℤ pos 2) else null))
unfolding MemoryViews.view Dict.get
increment_absent_run =
    Counting.increment_absent memory "n" (pos 2) 10 5 15 cache cache-IsValid refl (omega arith)

increment_present_run :
    ((increment memory "hits" (pos 1) (some 10) 50 counting).0 ≡ done (pos 5 +ℤ pos 1))
    × (Views.view memory (increment memory "hits" (pos 1) (some 10) 50 counting).1 "hits" 1000
        ≡ int (pos 5 +ℤ pos 1))
unfolding MemoryViews.view Dict.get Memory.expired
increment_present_run =
    Counting.increment_present memory "hits" (pos 5) (pos 1) (some 10) 50 1000 counting
      counted-IsValid refl (omega arith)

increment_ne_run :
    Views.view memory (increment memory "n" (pos 1) (some 10) 50 counting).1 "hits" 55
    ≡ Views.view memory counting "hits" 55
increment_ne_run =
    Counting.increment_ne memory "n" "hits" (pos 1) (some 10) 50 55 counting counted-IsValid refl
      (omega arith)

abbrev tagged_cache : Cache MemoryCacheStore
tagged_cache = record { store = counted; tag_index = ("web", "hits" ∷ []) ∷ [] }

view-flush_tags_run :
    Views.view memory (Facade.flush_tags memory ("web" ∷ []) tagged_cache).1 "hits" 5 ≡ (
      if Tags.tagged "hits" ("web" ∷ []) tagged_cache.tag_index
      then null
      else Views.view memory tagged_cache "hits" 5)
view-flush_tags_run = Tags.view-flush_tags memory ("web" ∷ []) "hits" 5 tagged_cache

put_tagged-flush_tags_run :
    Views.view memory
      (Facade.flush_tags memory
        ("b" ∷ [])
        (Facade.put_tagged memory ("a" ∷ "b" ∷ []) "k" (text "v") none 3 cache)).1
      "k"
      9
    ≡ null
unfolding Tags.contains
put_tagged-flush_tags_run =
    Tags.put_tagged-flush_tags memory ("a" ∷ "b" ∷ []) "b" "k" (text "v") none 3 9 cache refl

-- One owner claims for 10 ticks and lets the lease run out; then another one claims.
abbrev start : System MemoryCacheStore
start = record { cache = cache; now = 0; leases = [] }

abbrev first_claim : System MemoryCacheStore
first_claim = claimed memory "job" (lock_on memory "job" "a" 10 false) start

abbrev waited : System MemoryCacheStore
waited = record first_claim { now = first_claim.now + 11 }

abbrev second_claim : System MemoryCacheStore
second_claim = claimed memory "job" (lock_on memory "job" "b" 10 false) waited

abbrev lease : Lease
lease = record { lock = record { key = "job"; token = "b"; ttl = 10; held = true }; until = 21 }

mutual_exclusion_example : lease.lock.token ≡ lease.lock.token
unfolding Exclusion.new_leases pylar_framework.Cache.Lock.claim Facade.add Memory.get Dict.get
    Memory.put Dict.put Memory.expired
mutual_exclusion_example =
    Exclusion.mutual_exclusion "job" start second_claim lease lease cache-IsValid refl
      (next (next (next here (claims "a" 10 false)) (waits 11)) (claims "b" 10 false)) (inl refl)
      (inl refl) (omega arith) (omega arith)

-- The factory takes two seconds, and stores nothing itself.
abbrev factory : Factory memory
factory now c = (done (text "page"), now + 2, c)

remember_with_lock-released_example :
    ((r : Outcome Value) × ((Stampede.remember_with_lock memory "home"
          (some 60)
          factory
          30
          "t1"
          []
          10
          10
          cache).0
        ≡ some r))
    × (Views.view memory
          (Stampede.remember_with_lock memory "home" (some 60) factory 30 "t1" [] 10 10 cache).2
          ("home" <> ":stampede")
          12
        ≡ null)
unfolding MemoryViews.view Dict.get Stampede.remember_with_lock Facade.get Memory.get
    pylar_framework.Cache.Lock.acquire Facade.add Memory.put Dict.put Stampede.stampede_lock
    Facade.store_made
remember_with_lock-released_example =
    Released.remember_with_lock-released memory "home" (some 60) factory 10 (λ c valid. valid)
      (λ c. omega arith) (λ c u le. refl) 30 10 12 "t1" [] cache cache-IsValid refl refl
      (omega arith) (omega arith)
