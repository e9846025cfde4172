-- ===== src/Routing/Router/Naming.antt =====
-- The index of named routes.
use pylar_framework.Dict
use pylar_framework.Dict.{Dict}
use pylar_framework.Dict.Laws.{get-put}
use pylar_framework.Routing.Router.{
  Route, Router, index_error, unknown_name, check_extras, raised, new_router, name_at, add,
  websocket, set_fallback, change_at, builder_middleware, builder_name, RouteGroup, group_add,
  is_selected, add_actions, resource, substitute_path, url_at, url_for,
}
use pylar_framework.Prelude.{
  Bool-cases, List, Option, Option-cases, String, [], arith, get_elem?, if◌then◌else◌, inl, inr,
  length, length-append, length-set, none, refl, some, str_eq, suc, zero, ℕ, ◌++◌, ◌<◌, ◌∷◌, ◌≡◌,
  ◌≢◌, ◌≤◌,
}

abbrev AllBelow : ℕ → Dict ℕ → Type 0
AllBelow n [] = Unit
AllBelow n ((name, index) ∷ named) = (index < n) × AllBelow n named

-- Each name stands for a route that is there.
abbrev pub IsIndexed : Router → Type 0
IsIndexed r = AllBelow (length r.routes) r.named

AllBelow-le : (m n : ℕ) (named : Dict ℕ) → m ≤ n → AllBelow m named → AllBelow n named
AllBelow-le m n [] le h = tt
AllBelow-le m n ((name, index) ∷ named) le (lt, h) =
    (omega (arith, le, lt), AllBelow-le m n named le h)

AllBelow-put :
    (n : ℕ) (named : Dict ℕ) (name : String) (index : ℕ)
    → index < n
    → AllBelow n named
    → AllBelow n (Dict.put named name index)
unfolding Dict.put
AllBelow-put n [] name index lt h = (lt, tt)
AllBelow-put n ((other, i) ∷ named) name index lt (lt', h) =
    ground (arith, lt, lt', h, AllBelow-put n named name index lt h)

get-below :
    (n index : ℕ) (named : Dict ℕ) (name : String)
    → AllBelow n named
    → Dict.get named name ≡ some index
    → index < n
unfolding Dict.get
get-below n index [] name h e = ground (arith, e)
get-below n index ((other, i) ∷ named) name (lt, h) e =
    ground (arith, lt, e, get-below n index named name h)

add-IsIndexed :
    (method path handler : String) (middleware : List String) (name : Option String) (r : Router)
    → IsIndexed r
    → IsIndexed (add method path handler middleware name r).1
unfolding add name_at
add-IsIndexed method path handler middleware none r h =
    rw length-append (AllBelow-le (length r.routes) _ r.named (omega arith) h)
add-IsIndexed method path handler middleware (some name) r h = rw length-append (
    AllBelow-put _ r.named name (length r.routes) (omega arith)
      (AllBelow-le (length r.routes) _ r.named (omega arith) h))

change_at-length :
    (f : Route → Route) (found : Option Route) (index : ℕ) (routes : List Route)
    → length (change_at f found index routes) ≡ length routes
unfolding change_at
change_at-length f none index routes = refl
change_at-length f (some route) index routes = length-set routes index (f route)

add_actions-IsIndexed :
    (actions : List (String × String × String)) (controller : Dict String)
    (only except : Option (List String)) (middleware : List String) (cleaned : String) (r : Router)
    → IsIndexed r
    → IsIndexed (add_actions actions controller only except middleware cleaned r).1
unfolding add_actions
add_actions-IsIndexed [] controller only except middleware cleaned r h = h
add_actions-IsIndexed ((action, verb, path) ∷ actions) controller only except middleware cleaned r
      h =
    elim (Bool-cases (is_selected only except action)) [
      | inr left_out ↦
          rw left_out (add_actions-IsIndexed actions controller only except middleware cleaned r h)
      | inl chosen ↦ elim (Option-cases (Dict.get controller action)) [
        | inl missing_action ↦
            rw (chosen, missing_action, add_actions)
              (add_actions-IsIndexed actions controller only except middleware cleaned r h)
        | inr (handler, there) ↦
            rw (chosen, there, add_actions)
              (add_actions-IsIndexed actions controller only except middleware cleaned _
                (add-IsIndexed verb path handler middleware _ r h))
      ]
    ]

-- What registers a route or changes one through its builder.
pub data Step (r : Router) : Router → Type 0 where
  adds :
      (method path handler : String) (middleware : List String) (name : Option String)
      → Step r (add method path handler middleware name r).1
  adds_in_group :
      (g : RouteGroup) (method path handler : String) (middleware : List String)
      (name : Option String)
      → Step r (group_add g method path handler middleware name r).1
  adds_resource :
      (path : String) (controller : Dict String) (only except : Option (List String))
      (parameter : Option String) (middleware : List String)
      → Step r (resource path controller only except parameter middleware r).1
  names : (name : String) (index : ℕ) → index < length r.routes → Step r (builder_name name index r)
  wraps : (classes : List String) (index : ℕ) → Step r (builder_middleware classes index r)
  opens : (path handler : String) (name : Option String) → Step r (websocket path handler name r)
  falls_back : (handler : String) → Step r (set_fallback handler r)

pub data Reach (r : Router) : Router → Type 0 where
  here : Reach r r
  next : {s t : Router} → Reach r s → Step s t → Reach r t

Step-IsIndexed : {r s : Router} → Step r s → IsIndexed r → IsIndexed s
unfolding group_add resource builder_name builder_middleware websocket set_fallback
Step-IsIndexed {r} (adds method path handler middleware name) h =
    add-IsIndexed method path handler middleware name r h
Step-IsIndexed {r} (adds_in_group g method path handler middleware name) h =
    add-IsIndexed method _ handler _ name r h
Step-IsIndexed {r} (adds_resource path controller only except parameter middleware) h =
    add_actions-IsIndexed _ controller only except middleware _ r h
Step-IsIndexed {r} (names name index lt) h =
    rw change_at-length (AllBelow-put _ r.named name index lt h)
Step-IsIndexed {r} (wraps classes index) h = rw change_at-length h
Step-IsIndexed {r} (opens path handler name) h = h
Step-IsIndexed {r} (falls_back handler) h = h

-- Whatever is registered on a new router and changed through builders of its routes, each name stands
-- for the index of a route.
pub Reach-IsIndexed : {r : Router} → Reach new_router r → IsIndexed r
unfolding new_router
Reach-IsIndexed here = tt
Reach-IsIndexed (next reach step) = Step-IsIndexed step (Reach-IsIndexed reach)

get_elem?-below :
    {A : Type 0} (xs : List A) (i : ℕ) → i < length xs → (x : A) × (get_elem? xs i ≡ some x)
get_elem?-below [] i lt = absurd (omega (arith, lt))
get_elem?-below (x ∷ xs) zero lt = (x, refl)
get_elem?-below (x ∷ xs) (suc i) lt = get_elem?-below xs i (omega (arith, lt))

get_elem?-last : {A : Type 0} (xs : List A) (x : A) → get_elem? (xs ++ x ∷ []) (length xs) ≡ some x
get_elem?-last [] x = refl
get_elem?-last (y ∷ xs) x = get_elem?-last xs x

get_elem?-front :
    {A : Type 0} (xs ys : List A) (i : ℕ) → i < length xs → get_elem? (xs ++ ys) i ≡ get_elem? xs i
get_elem?-front [] ys i lt = absurd (omega (arith, lt))
get_elem?-front (x ∷ xs) ys zero lt = refl
get_elem?-front (x ∷ xs) ys (suc i) lt = get_elem?-front xs ys i (omega (arith, lt))

-- A registration under a name makes `url_for` render its path for that name, and changes what it
-- gives for no other name, in a router whose names stand for routes.
pub url_for-add :
    (method path handler name other : String) (middleware : List String) (params : Dict String)
    (r : Router)
    → IsIndexed r
    → url_for other params (add method path handler middleware (some name) r).1
      ≡ (if str_eq name other then substitute_path path params else url_for other params r)
unfolding url_for add name_at url_at
url_for-add method path handler name other middleware params r h =
    elim (Bool-cases (str_eq name other)) [
      | inl same ↦ rw (get-put, same, url_for, get_elem?-last) refl
      | inr apart ↦ elim (Option-cases (Dict.get r.named other)) [
        | inl unknown ↦ rw (get-put, apart, unknown, url_for) refl
        | inr (index, there) ↦
            rw
              (
                get-put,
                apart,
                there,
                url_for,
                get_elem?-front r.routes _ index
                    (get-below (length r.routes) index r.named other h there),
              )
              refl
      ]
    ]

check_extras-ne :
    (params : Dict String) (rendered : Option (String × List String))
    → ¬ (check_extras params rendered ≡ raised index_error)
unfolding check_extras
check_extras-ne params none e = ground (arith, e)
check_extras-ne params (some (rendered, used)) e = ground (arith, e)

-- On such a router `url_for` never looks for a route that is not there.
pub url_for-in_range :
    (name : String) (params : Dict String) (r : Router)
    → IsIndexed r
    → url_for name params r ≢ raised index_error
unfolding url_for url_at substitute_path
url_for-in_range name params r h e = elim (Option-cases (Dict.get r.named name)) [
  | inl unknown ↦
      let never : raised unknown_name ≡ raised index_error = rw (unknown, url_for) at e in
      absurd (ground (arith, never))
  | inr (index, there) ↦
      let (route, found) =
        get_elem?-below r.routes index (get-below (length r.routes) index r.named name h there) in
      let bad : substitute_path route.path params ≡ raised index_error =
        rw (there, url_for, found) at e in
      absurd (check_extras-ne params _ bad)
]
