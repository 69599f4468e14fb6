-- ===== src/Router/Duplicates.antt =====
-- The check for duplicates of src/HttpRouter.c.
use http_server_from_scratch.Dictionary.{Dictionary}
use http_server_from_scratch.Prelude.{
  ◌≡◌, refl, arith, Bool, true, CString, str_eq, str_eq_iff, List, ◌∷◌,
}
use http_server_from_scratch.Router.{Route, repeats, any_repeats, router_has_duplicate_routes}

str_eq_refl : (a : CString) → str_eq a a ≡ true
str_eq_refl a = (str_eq_iff a a).1 refl

-- `router_has_duplicate_routes` says of every table of three routes or more that it has duplicates.
pub router_has_duplicate_routes_large :
    {V : Type 0} (same_literal : Route → Bool) (registry : Dictionary V) (a b c : Route)
    (routes : List Route)
    → router_has_duplicate_routes same_literal registry (a ∷ b ∷ c ∷ routes) ≡ true
unfolding router_has_duplicate_routes any_repeats repeats
router_has_duplicate_routes_large same_literal registry a b c routes =
    let p = str_eq_refl b.path in let q = str_eq_refl b.method in ground (arith, p, q)
