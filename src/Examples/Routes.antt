-- ===== src/Examples/Routes.antt =====
-- A router with a named route.
use pylar_framework.Dict.{Dict}
use pylar_framework.Routing.Router.{
  Router, index_error, raised, new_router, add, substitute_path, check_extras, url_for,
}
use pylar_framework.Routing.Router.Naming
use pylar_framework.Routing.Router.Naming.{here, next, adds}
use pylar_framework.Routing.Router.Substitution
use pylar_framework.Routing.Router.Rendering.{shown, Piece, literal, placeholder, converted}
use pylar_framework.Prelude.{List, String, [], if◌then◌else◌, refl, some, str_eq, ◌∷◌, ◌≡◌, ◌≢◌}

abbrev posts : Router
posts = (add "GET" "/posts" "index" [] (some "posts.index") new_router).1

Reach-IsIndexed_example : Naming.IsIndexed posts
Reach-IsIndexed_example =
    Naming.Reach-IsIndexed (next here (adds "GET" "/posts" "index" [] (some "posts.index")))

url_for-in_range_run : url_for "posts.index" [] posts ≢ raised index_error
url_for-in_range_run =
    Naming.url_for-in_range "posts.index" [] posts
      (Naming.Reach-IsIndexed (next here (adds "GET" "/posts" "index" [] (some "posts.index"))))

url_for-add_example :
    url_for "posts.show"
      (("post", "7") ∷ [])
      (add "GET" "/posts/{post}" "show" [] (some "posts.show") posts).1
    ≡ (if str_eq "posts.show" "posts.show"
        then substitute_path "/posts/{post}" (("post", "7") ∷ [])
        else url_for "posts.show" (("post", "7") ∷ []) posts)
url_for-add_example =
    Naming.url_for-add "GET" "/posts/{post}" "show" "posts.show" "posts.show" []
      (("post", "7") ∷ []) posts
      (Naming.Reach-IsIndexed (next here (adds "GET" "/posts" "index" [] (some "posts.index"))))

abbrev show_path : List Piece
show_path = literal "/posts/" ∷ converted "post" "int" ∷ literal "/by/" ∷ placeholder "user" ∷ []

abbrev show_params : Dict String
show_params = ("post", "7") ∷ ("user", "ann") ∷ []

substitute_path-shown_example :
    Substitution.Substituted show_params show_path (substitute_path (shown show_path) show_params)
unfolding pylar_framework.Routing.Router.ends_name pylar_framework.Routing.Router.ends_converter
substitute_path-shown_example = Substitution.substitute_path-shown show_params show_path (
  (refl, (refl, (refl, (refl, (refl, (refl, (refl, tt))))))),
  (
    refl,
    (refl, (refl, (refl, (refl, tt)))),
    refl,
    (refl, (refl, (refl, tt))),
    ((refl, (refl, (refl, (refl, tt)))), (refl, (refl, (refl, (refl, (refl, tt)))), tt)),
  ),
)
