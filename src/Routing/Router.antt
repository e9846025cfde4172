-- ===== src/Routing/Router.antt =====
-- pylar/routing/router.py: `Router`, `RouteBuilder` and `RouteGroup`. A handler and a middleware class
-- have their names; a builder is the index of its route; a group is its prefix and its middleware. A
-- parameter of `url_for` is the text that `str` gives of it.
pub mod Naming
pub mod Rendering
pub mod Substitution
use Prim.Native.Char.{code}
use Prim.Native.String.{◌++◌ as ◌<>◌}
use pylar_framework.Dict
use pylar_framework.Dict.{Dict}
use pylar_framework.Text.{len, ends_with, take_text, lstrip, rstrip}
use pylar_framework.Prelude.{
  Bool, List, Option, String, [], false, get_elem?, if◌then◌else◌, length, ltb, none, not, set,
  some, str_eq, suc, true, zero, ℕ, ◌&&◌, ◌++◌, ◌-◌, ◌==◌, ◌||◌, ◌∷◌,
}

pub record Route : Type 0 where
  pub method : String
  pub path : String
  pub action : String
  pub middleware : List String
  pub name : Option String

pub record WebSocketRouteSpec : Type 0 where
  pub path : String
  pub handler : String
  pub name : Option String

pub record Router : Type 0 where
  pub routes : List Route
  pub websocket_routes : List WebSocketRouteSpec
  pub named : Dict ℕ
  pub fallback : Option String

pub data RoutingError : Type 0 where
  unknown_name missing_parameter unused_parameters index_error : RoutingError

pub data Url : Type 0 where
  url : String → Url
  raised : RoutingError → Url

unfoldable pub new_router : Router
new_router = record { routes = []; websocket_routes = []; named = []; fallback = none }

name_at : Option String → ℕ → Dict ℕ → Dict ℕ
name_at none index named = named
name_at (some name) index named = Dict.put named name index

-- Router._add: the router, and the index that the builder gets.
unfoldable pub add : String → String → String → List String → Option String → Router → ℕ × Router
unfolding name_at
add method path handler middleware name r =
    let route : Route = record {
      method = method;
      path = path;
      action = handler;
      middleware = middleware;
      name = name;
    } in
    (
      length r.routes,
      record r { routes = r.routes ++ route ∷ []; named = name_at name (length r.routes) r.named },
    )

-- The verbs.
unfoldable pub get : String → String → List String → Option String → Router → ℕ × Router
get path handler middleware name r = add "GET" path handler middleware name r

unfoldable pub post : String → String → List String → Option String → Router → ℕ × Router
post path handler middleware name r = add "POST" path handler middleware name r

unfoldable pub put : String → String → List String → Option String → Router → ℕ × Router
put path handler middleware name r = add "PUT" path handler middleware name r

unfoldable pub patch : String → String → List String → Option String → Router → ℕ × Router
patch path handler middleware name r = add "PATCH" path handler middleware name r

unfoldable pub delete : String → String → List String → Option String → Router → ℕ × Router
delete path handler middleware name r = add "DELETE" path handler middleware name r

unfoldable pub options : String → String → List String → Option String → Router → ℕ × Router
options path handler middleware name r = add "OPTIONS" path handler middleware name r

unfoldable pub websocket : String → String → Option String → Router → Router
websocket path handler name r = record r {
  websocket_routes =
      r.websocket_routes ++ record { path = path; handler = handler; name = name } ∷ [];
}

unfoldable pub set_fallback : String → Router → Router
set_fallback handler r = record r { fallback = some handler }

-- RouteBuilder.middleware, RouteBuilder.name
change_at : (Route → Route) → Option Route → ℕ → List Route → List Route
change_at f none index routes = routes
change_at f (some route) index routes = set routes index (f route)

unfoldable pub builder_middleware : List String → ℕ → Router → Router
unfolding change_at
builder_middleware classes index r = record r {
  routes =
      change_at (λ route. record route { middleware = route.middleware ++ classes })
        (get_elem? r.routes index) index r.routes;
}

unfoldable pub builder_name : String → ℕ → Router → Router
unfolding change_at
builder_name name index r = record r {
  routes =
      change_at (λ route. record route { name = some name }) (get_elem? r.routes index) index
        r.routes;
  named = Dict.put r.named name index;
}

-- One "/" between a prefix and a path.
unfoldable pub combine_path : String → String → String
combine_path prefix path =
    if str_eq path ""
    then prefix
    else if str_eq prefix ""
    then path
    else rstrip b'/' prefix <> "/" <> lstrip b'/' path

pub record RouteGroup : Type 0 where
  pub prefix : String
  pub middleware : List String

unfoldable pub group : String → List String → RouteGroup
group prefix middleware = record { prefix = prefix; middleware = middleware }

unfoldable pub group_group : RouteGroup → String → List String → RouteGroup
group_group g prefix middleware = record {
  prefix = combine_path g.prefix prefix;
  middleware = g.middleware ++ middleware;
}

-- The verbs of a group, by their method.
unfoldable pub group_add :
    RouteGroup → String → String → String → List String → Option String → Router → ℕ × Router
group_add g method path handler middleware name r =
    add method (combine_path g.prefix path) handler (g.middleware ++ middleware) name r

unfoldable pub singularize : String → String
singularize name =
    if ends_with name "ies" && ltb 3 (len name)
    then take_text (len name - 3) name <> "y"
    else if ends_with name "ses"
        || ends_with name "xes"
        || ends_with name "zes"
        || ends_with name "ches"
        || ends_with name "shes"
    then take_text (len name - 2) name
    else if ends_with name "s" && not (ends_with name "ss")
    then take_text (len name - 1) name
    else name

unfoldable pub among : String → List String → Bool
among x [] = false
among x (y ∷ ys) = str_eq y x || among x ys

-- Whether an action is selected by `only` and `except_`.
selected_by : Option (List String) → String → Bool → Bool
selected_by none action default = default
selected_by (some names) action default = among action names

unfoldable pub is_selected : Option (List String) → Option (List String) → String → Bool
unfolding selected_by
is_selected only except action =
    selected_by only action true && not (selected_by except action false)

-- The loop of `resource` over the actions; a controller is its methods by their names.
unfoldable pub add_actions :
    List (String × String × String)
    → Dict String
    → Option (List String)
    → Option (List String)
    → List String
    → String
    → Router
    → List ℕ × Router
add_actions [] controller only except middleware cleaned r = ([], r)
add_actions ((action, verb, path) ∷ actions) controller only except middleware cleaned r =
    if is_selected only except action
    then elim (Dict.get controller action) [
      | none ↦ add_actions actions controller only except middleware cleaned r
      | some handler ↦
          let (index, r') = add verb path handler middleware (some (cleaned <> "." <> action)) r in
          let (indices, r'') = add_actions actions controller only except middleware cleaned r' in
          (index ∷ indices, r'')
    ]
    else add_actions actions controller only except middleware cleaned r

or_singular : Option String → String → String
or_singular none cleaned = singularize cleaned
or_singular (some name) cleaned = if str_eq name "" then singularize cleaned else name

unfoldable pub resource :
    String
    → Dict String
    → Option (List String)
    → Option (List String)
    → Option String
    → List String
    → Router
    → List ℕ × Router
unfolding or_singular
resource path controller only except parameter middleware r =
    let cleaned = rstrip b'/' (lstrip b'/' path) in
    let prefix = "/" <> cleaned in
    let item_path = prefix <> "/{" <> or_singular parameter cleaned <> "}" in
    add_actions
      (("index", "GET", prefix)
        ∷ ("store", "POST", prefix)
        ∷ ("show", "GET", item_path)
        ∷ ("update", "PUT", item_path)
        ∷ ("destroy", "DELETE", item_path)
        ∷ [])
      controller only except middleware cleaned r

unfoldable pub group_resource :
    RouteGroup
    → String
    → Dict String
    → Option (List String)
    → Option (List String)
    → Option String
    → List String
    → Router
    → List ℕ × Router
group_resource g path controller only except parameter middleware r =
    resource (lstrip b'/' (combine_path g.prefix path)) controller only except parameter
      (g.middleware ++ middleware) r

-- [^:}]+ and what stands behind it
unfoldable pub take_until : (ℕ → Bool) → String → String × String
take_until stop String.[] = ("", "")
take_until stop (String.◌∷◌ c s) =
    let (front, rest) = take_until stop s in
    if stop (code c) then ("", String.◌∷◌ c s) else (String.◌∷◌ c front, rest)

unfoldable pub ends_name : ℕ → Bool
ends_name c = (c == b':') || (c == b'}')

unfoldable pub ends_converter : ℕ → Bool
ends_converter c = c == b'}'

-- (?::[^}]+)?\}
unfoldable pub close_placeholder : String → String → Option (String × String)
unfolding take_until ends_converter
close_placeholder name String.[] = none
close_placeholder name (String.◌∷◌ c s) =
    if code c == b'}'
    then some (name, s)
    else let (converter, rest) = take_until ends_converter s in
      if (code c == b':') && not (str_eq converter "")
      then elim rest [ String.[] ↦ none | String.◌∷◌ d t ↦ some (name, t) ]
      else none

-- What `_PATH_PARAM_RE` matches behind a "{": the name of a parameter, and the rest of the path.
unfoldable pub match_placeholder : String → Option (String × String)
unfolding take_until ends_name close_placeholder
match_placeholder s =
    let (name, rest) = take_until ends_name s in
    if str_eq name "" then none else close_placeholder name rest

unfoldable pub add_text : String → Option (String × List String) → Option (String × List String)
add_text s none = none
add_text s (some (rendered, used)) = some (s <> rendered, used)

unfoldable pub add_used : String → Option (String × List String) → Option (String × List String)
add_used name none = none
add_used name (some (rendered, used)) = some (rendered, name ∷ used)

-- `_PATH_PARAM_RE.sub(replace, pattern)`, on fuel for its characters: the rendered path and the names
-- that were used, or `none` where a parameter is missing.
unfoldable pub render : ℕ → Dict String → String → Option (String × List String)
unfolding add_text add_used match_placeholder
render zero params s = some ("", [])
render (suc fuel) params String.[] = some ("", [])
render (suc fuel) params (String.◌∷◌ c s) =
    let plain = add_text (String.◌∷◌ c "") (render fuel params s) in
    if code c == b'{'
    then elim (match_placeholder s) [
      | none ↦ plain
      | some (name, rest) ↦ elim (Dict.get params name) [
        | none ↦ none
        | some value ↦ add_text value (add_used name (render fuel params rest))
      ]
    ]
    else plain

unfoldable pub all_used : List String → List String → Bool
all_used [] used = true
all_used (key ∷ keys) used = among key used && all_used keys used

unfoldable pub check_extras : Dict String → Option (String × List String) → Url
unfolding all_used
check_extras params none = raised missing_parameter
check_extras params (some (rendered, used)) =
    if all_used (Dict.keys params) used then url rendered else raised unused_parameters

unfoldable pub substitute_path : String → Dict String → Url
unfolding check_extras
substitute_path pattern params = check_extras params (render (len pattern) params pattern)

unfoldable pub url_at : Option Route → Dict String → Url
url_at none params = raised index_error
url_at (some route) params = substitute_path route.path params

unfoldable pub url_for : String → Dict String → Router → Url
unfolding url_at
url_for name params r = elim (Dict.get r.named name) [
  | none ↦ raised unknown_name
  | some index ↦ url_at (get_elem? r.routes index) params
]
