-- ===== src/Queue/Memory/Heap.antt =====
-- The heaps of `heapq`: a heap is kept as the list of its entries in order, so that `heap[0]` is
-- the first. Entries compare by `(available_at, sequence)`; the sequence numbers of one driver
-- differ, so that a comparison never reaches the record.
use pylar_framework.Queue.Record.{JobRecord}
use pylar_framework.Prelude.{
  Bool, Bool-cases, List, [], arith, false, if◌then◌else◌, inl, inr, ltb, refl, true, ℕ, ◌&&◌, ◌+◌,
  ◌==◌, ◌||◌, ◌∷◌, ◌≡◌,
}

pub record HeapEntry : Type 0 where
  pub available_at : ℕ
  pub seq : ℕ
  pub job : JobRecord

-- a < b, as tuples
unfoldable pub before : HeapEntry → HeapEntry → Bool
before a b =
    ltb a.available_at b.available_at || (a.available_at == b.available_at && ltb a.seq b.seq)

unfoldable pub heappush : HeapEntry → List HeapEntry → List HeapEntry
heappush e [] = e ∷ []
heappush e (x ∷ xs) = if before x e then x ∷ heappush e xs else e ∷ x ∷ xs

-- heapq.heapify, sorted
unfoldable pub heapify : List HeapEntry → List HeapEntry
unfolding heappush
heapify [] = []
heapify (x ∷ xs) = heappush x (heapify xs)

-- No entry of the list comes before the entry.
abbrev pub IsFirst : HeapEntry → List HeapEntry → Type 0
IsFirst e [] = Unit
IsFirst e (x ∷ xs) = (before x e ≡ false) × IsFirst e xs

abbrev pub IsSorted : List HeapEntry → Type 0
IsSorted [] = Unit
IsSorted (x ∷ xs) = IsFirst x xs × IsSorted xs

before_asym : (a b : HeapEntry) → before a b ≡ true → before b a ≡ false
unfolding before
before_asym a b h = ground arith

before_trans : (a b c : HeapEntry) → before b a ≡ false → before c b ≡ false → before c a ≡ false
unfolding before
before_trans a b c h k = ground arith

IsFirst-trans :
    (a b : HeapEntry) (xs : List HeapEntry) → before b a ≡ false → IsFirst b xs → IsFirst a xs
IsFirst-trans a b [] h f = tt
IsFirst-trans a b (x ∷ xs) h f = (before_trans a b x h f.0, IsFirst-trans a b xs h f.1)

IsFirst-heappush :
    (a e : HeapEntry) (xs : List HeapEntry)
    → before e a ≡ false
    → IsFirst a xs
    → IsFirst a (heappush e xs)
unfolding heappush
IsFirst-heappush a e [] h f = (h, tt)
IsFirst-heappush a e (x ∷ xs) h f = ground (arith, IsFirst-heappush a e xs h f.1)

pub heappush-IsSorted :
    (e : HeapEntry) (xs : List HeapEntry) → IsSorted xs → IsSorted (heappush e xs)
unfolding heappush
heappush-IsSorted e [] s = (tt, tt)
heappush-IsSorted e (x ∷ xs) s = elim (Bool-cases (before x e)) [
  | inl lt ↦ rw lt (IsFirst-heappush x e xs (before_asym x e lt) s.0, heappush-IsSorted e xs s.1)
  | inr ge ↦ rw ge ((ge, IsFirst-trans e x xs ge s.0), s)
]

pub heapify-IsSorted : (xs : List HeapEntry) → IsSorted (heapify xs)
unfolding heapify
heapify-IsSorted [] = tt
heapify-IsSorted (x ∷ xs) = heappush-IsSorted x (heapify xs) (heapify-IsSorted xs)

heappush_first : (e : HeapEntry) (xs : List HeapEntry) → IsFirst e xs → heappush e xs ≡ e ∷ xs
unfolding heappush
heappush_first e [] f = refl
heappush_first e (x ∷ xs) f = rw f.0

-- Entries in order stay as they are.
pub heapify_sorted : (xs : List HeapEntry) → IsSorted xs → heapify xs ≡ xs
unfolding heapify
heapify_sorted [] s = refl
heapify_sorted (x ∷ xs) s = rw (heapify_sorted xs s.1) (heappush_first x xs s.0)

-- How many entries hold a job that passes the test.
unfoldable pub tally : (JobRecord → Bool) → List HeapEntry → ℕ
tally test [] = 0
tally test (x ∷ xs) = let rest = tally test xs in if test x.job then rest + 1 else rest

pub tally-heappush :
    (test : JobRecord → Bool) (e : HeapEntry) (xs : List HeapEntry)
    → tally test (heappush e xs) ≡ tally test (e ∷ xs)
unfolding tally heappush
tally-heappush test e [] = refl
tally-heappush test e (x ∷ xs) = ground (arith, tally-heappush test e xs)

pub tally-heapify :
    (test : JobRecord → Bool) (xs : List HeapEntry) → tally test (heapify xs) ≡ tally test xs
unfolding heapify tally
tally-heapify test [] = refl
tally-heapify test (x ∷ xs) =
    ground (arith, tally-heapify test xs, tally-heappush test x (heapify xs))
