-- ===== src/Broadcasting/Memory/Limits.antt =====
-- What keeps a channel of a broadcaster within its limits.
pub mod Invariant
use pylar_framework.Dict
use pylar_framework.Dict.{Dict}
use pylar_framework.Dict.Every.{Every, put-Every, remove-Every, get-Every}
use pylar_framework.Broadcasting.Memory.{
  Subscriber, MemoryBroadcaster, fresh, or_nobody, put_nowait, put_all, publish, subscribe,
  get_nowait, has_queue, take_from, receive, without_queue, put_or_drop, remove,
}
use pylar_framework.Prelude.{
  Bool-cases, List, String, [], arith, inl, inr, length, length-append, refl, ℕ, ◌++◌, ◌<◌, ◌==◌,
  ◌∷◌, ◌≡◌, ◌≤◌,
}

-- No buffer of a channel is longer than the limit.
abbrev pub AllShort : ℕ → List Subscriber → Type 0
AllShort size [] = Unit
AllShort size (s ∷ subs) = (length s.buffer ≤ size) × AllShort size subs

abbrev pub IsBounded : ℕ → ℕ → List Subscriber → Type 0
IsBounded size limit subs = (length subs ≤ limit) × AllShort size subs

put_nowait-short :
    (size : ℕ) (message : String) (s : Subscriber)
    → 0 < size
    → length s.buffer ≤ size
    → length (put_nowait size message s).buffer ≤ size
unfolding put_nowait
put_nowait-short size message s limited short =
    let len = length-append s.buffer (message ∷ []) in ground (arith, len)

pub put_all-AllShort :
    (size : ℕ) (message : String) (subs : List Subscriber)
    → 0 < size
    → AllShort size subs
    → AllShort size (put_all size message subs) × (length (put_all size message subs) ≡ length subs)
unfolding put_all
put_all-AllShort size message [] limited h = (tt, refl)
put_all-AllShort size message (s ∷ subs) limited (short, h) =
    let (rest, len) = put_all-AllShort size message subs limited h in
    ((put_nowait-short size message s limited short, rest), omega (arith, len))

pub append-AllShort :
    (size : ℕ) (subs : List Subscriber) (s : Subscriber)
    → AllShort size subs
    → length s.buffer ≤ size
    → AllShort size (subs ++ s ∷ [])
append-AllShort size [] s h short = (short, tt)
append-AllShort size (t ∷ subs) s (first, h) short = (first, append-AllShort size subs s h short)

get_nowait-short :
    (size id : ℕ) (buffer : List String)
    → length buffer ≤ size
    → length (get_nowait id buffer).1.buffer ≤ size
unfolding get_nowait
get_nowait-short size id [] short = short
get_nowait-short size id (message ∷ buffer) short = omega (arith, short)

pub take_from-AllShort :
    (size id : ℕ) (subs : List Subscriber)
    → AllShort size subs
    → AllShort size (take_from id subs).1 × (length (take_from id subs).1 ≡ length subs)
unfolding take_from
take_from-AllShort size id [] h = (tt, refl)
take_from-AllShort size id (s ∷ subs) (short, h) =
    let (rest, len) = take_from-AllShort size id subs h in
    elim (Bool-cases (s.id == id)) [
      | inl same ↦ rw same ((get_nowait-short size s.id s.buffer short, h), refl)
      | inr other ↦ rw other ((short, rest), omega (arith, len))
    ]

pub without_queue-IsBounded :
    (size limit id : ℕ) (subs : List Subscriber)
    → IsBounded size limit subs
    → IsBounded size limit (without_queue id subs)
unfolding without_queue
without_queue-IsBounded size limit id [] h = h
without_queue-IsBounded size limit id (s ∷ subs) (le, (short, h)) =
    let (le', h') = without_queue-IsBounded size (length subs) id subs (omega arith, h) in
    elim (Bool-cases (s.id == id)) [
      | inl same ↦ rw same (omega arith, h)
      | inr other ↦ rw other (omega arith, (short, h'))
    ]
