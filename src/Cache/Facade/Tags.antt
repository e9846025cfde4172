-- ===== src/Cache/Facade/Tags.antt =====
-- Tags: which keys a flush of some tags drops.
use pylar_framework.Dict
use pylar_framework.Dict.{Dict}
use pylar_framework.Dict.Laws.{get-put, get-remove}
use pylar_framework.Cache.Contract.{Value, null, CacheStore}
use pylar_framework.Cache.Facade.{
  Cache, add_member, union, or_empty, track_tags, collect_tags, forget, forget_all, flush_tags, put,
  put_tagged,
}
use pylar_framework.Cache.Facade.Views.{view, view-forget}
use pylar_framework.Prelude.{
  Bool, List, Option, String, [], arith, eq_iff, eq_refl, false, if◌then◌else◌, refl, str_eq, true,
  ℕ, ◌||◌, ◌∷◌, ◌≡◌,
}

-- key in keys
unfoldable pub contains : String → List String → Bool
contains k [] = false
contains k (j ∷ js) = str_eq j k || contains k js

-- The key is in the index under one of the tags.
unfoldable pub tagged : String → List String → Dict (List String) → Bool
unfolding contains
tagged key [] index = false
tagged key (tag ∷ tags) index =
    contains key (or_empty (Dict.get index tag)) || tagged key tags index

contains-add_member :
    (k j : String) (ks : List String) → contains j (add_member k ks) ≡ str_eq k j || contains j ks
unfolding contains add_member
contains-add_member k j [] = refl
contains-add_member k j (i ∷ ks) =
    ground (arith, contains-add_member k j ks, eq_iff i k, eq_iff i j, eq_iff k j)

contains-union :
    (j : String) (xs ys : List String) → contains j (union xs ys) ≡ contains j xs || contains j ys
unfolding contains union
contains-union j xs [] = ground arith
contains-union j xs (y ∷ ys) =
    ground (arith, contains-union j (add_member y xs) ys, contains-add_member y j xs)

tagged-remove :
    (key tag : String) (tags : List String) (index : Dict (List String))
    → contains key (or_empty (Dict.get index tag)) || tagged key tags (Dict.remove index tag)
      ≡ contains key (or_empty (Dict.get index tag)) || tagged key tags index
unfolding tagged contains
tagged-remove key tag [] index = refl
tagged-remove key tag (u ∷ tags) index =
    ground (arith, tagged-remove key tag tags index, get-remove index tag u, eq_iff tag u)

contains-collect_tags :
    {S : Type 0} (key : String) (tags keys : List String) (c : Cache S)
    → contains key (collect_tags tags keys c).0 ≡ contains key keys || tagged key tags c.tag_index
unfolding collect_tags tagged
contains-collect_tags key [] keys c = ground arith
contains-collect_tags key (tag ∷ tags) keys c = ground (
  arith,
  contains-collect_tags key tags (union keys (or_empty (Dict.get c.tag_index tag)))
      (record c { tag_index = Dict.remove c.tag_index tag }),
  contains-union key keys (or_empty (Dict.get c.tag_index tag)),
  tagged-remove key tag tags c.tag_index,
)

store-collect_tags :
    {S : Type 0} (tags keys : List String) (c : Cache S)
    → (collect_tags tags keys c).1.store ≡ c.store
unfolding collect_tags
store-collect_tags [] keys c = refl
store-collect_tags (tag ∷ tags) keys c =
    store-collect_tags tags (union keys (or_empty (Dict.get c.tag_index tag)))
      (record c { tag_index = Dict.remove c.tag_index tag })

tagged-put :
    (key tag u : String) (tags : List String) (index : Dict (List String)) (ks : List String)
    → contains key ks ≡ true
    → tagged key (u ∷ []) index ≡ true
    → tagged key (u ∷ []) (Dict.put index tag ks) ≡ true
unfolding tagged
tagged-put key tag u tags index ks h old = ground (arith, get-put index tag u ks)

tagged-track_tags :
    {S : Type 0} (key u : String) (tags : List String) (c : Cache S)
    → contains u tags || tagged key (u ∷ []) c.tag_index ≡ true
    → tagged key (u ∷ []) (track_tags key tags c).tag_index ≡ true
unfolding track_tags tagged contains
tagged-track_tags key u [] c h = ground arith
tagged-track_tags key u (tag ∷ tags) c h =
    let members = or_empty (Dict.get c.tag_index tag) in
    let more = add_member key members in
    ground (
      arith,
      tagged-track_tags key u tags (record c { tag_index = Dict.put c.tag_index tag more }),
      get-put c.tag_index tag u more,
      contains-add_member key key members,
      eq_refl key,
    )

module _ (driver : CacheStore) where
  view-forget_all :
      (keys : List String) (j : String) (t : ℕ) (c : Cache driver.State)
      → view driver (forget_all driver keys c) j t
        ≡ (if contains j keys then null else view driver c j t)
  unfolding forget_all contains
  view-forget_all [] j t c = refl
  view-forget_all (k ∷ keys) j t c =
      ground (arith, view-forget_all keys j t (forget driver k c), view-forget driver k j t c)

  -- After a flush of some tags a key reads as `None` if the index has it under one of them, and
  -- any other key reads as before.
  pub view-flush_tags :
      (tags : List String) (j : String) (t : ℕ) (c : Cache driver.State)
      → view driver (flush_tags driver tags c).1 j t
        ≡ (if tagged j tags c.tag_index then null else view driver c j t)
  unfolding flush_tags contains
  view-flush_tags tags j t c = ground (
    arith,
    view-forget_all (collect_tags tags [] c).0 j t (collect_tags tags [] c).1,
    contains-collect_tags j tags [] c,
    store-collect_tags tags [] c,
  )

  -- A key that was written under some tags is gone after a flush of any one of these tags.
  pub put_tagged-flush_tags :
      (tags : List String) (tag key : String) (v : Value) (ttl : Option ℕ) (now t : ℕ)
      (c : Cache driver.State)
      → contains tag tags ≡ true
      → view driver (flush_tags driver (tag ∷ []) (put_tagged driver tags key v ttl now c)).1 key t
        ≡ null
  unfolding put_tagged
  put_tagged-flush_tags tags tag key v ttl now t c h = ground (
    arith,
    view-flush_tags (tag ∷ []) key t (put driver key v ttl now (track_tags key tags c)),
    tagged-track_tags key tag tags c,
  )
