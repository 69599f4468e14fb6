-- ===== src/Router/Lookup.antt =====
-- `route_lookup` of src/HttpRouter.c.
use Prim.{tt}
use http_server_from_scratch.Prelude.{
  ℕ, zero, suc, ◌-◌, ◌≤◌, ◌<◌, ◌≡◌, inl, inr, refl, sym, ap, ◌∙◌, arith, false, Bool-cases,
  if◌then◌else◌, CString, str_eq, str_eq_iff, length, Option, none, some, List, [], ◌∷◌, ◌++◌, ltb,
  ◌≢◌, length-append,
}
use http_server_from_scratch.Router.{Route, lookup_loop, route_lookup}

-- The routes at a path.
abbrev pub at_path : CString → List Route → List Route
at_path path [] = []
at_path path (r ∷ routes) =
    if str_eq path r.path then r ∷ at_path path routes else at_path path routes

-- The first eight methods of a list after those that are there.
abbrev methods : List Route → List CString
methods [] = []
methods (r ∷ routes) = r.method ∷ methods routes

abbrev first_of {ℓ} : {A : Type ℓ} → ℕ → List A → List A
first_of zero xs = []
first_of (suc n) [] = []
first_of (suc n) (x ∷ xs) = x ∷ first_of n xs

-- No route of the list has the method and the path.
abbrev pub NoRoute : CString → CString → List Route → Type 0
NoRoute method path [] = Unit {0}
NoRoute method path (r ∷ routes) =
    ((path ≡ r.path) → method ≢ r.method) × NoRoute method path routes

-- What a lookup that started with some methods allowed returns.
abbrev pub Found :
    List Route → CString → CString → List CString → Option Route → List CString → Type 0
Found routes method path allowed (some route) out =
    (before : List Route) × (after : List Route) × (routes ≡ before ++ (route ∷ after))
    × (route.path ≡ path)
    × (route.method ≡ method)
    × NoRoute method path before
Found routes method path allowed none out =
    NoRoute method path routes
    × (out ≡ allowed ++ first_of (8 - length allowed) (methods (at_path path routes)))

first_of-nil : (n : ℕ) → first_of {A = CString} n [] ≡ []
first_of-nil zero = refl
first_of-nil (suc n) = refl

append-nil : (xs : List CString) → xs ++ [] ≡ xs
append-nil [] = refl
append-nil (x ∷ xs) = ap (λ ys. x ∷ ys) (append-nil xs)

append_assoc : (xs ys zs : List CString) → (xs ++ ys) ++ zs ≡ xs ++ (ys ++ zs)
append_assoc [] ys zs = refl
append_assoc (x ∷ xs) ys zs = ap (λ t. x ∷ t) (append_assoc xs ys zs)

-- One more route in front, which does not serve the request.
Found-cons :
    (r : Route) (routes : List Route) (method path : CString) (allowed allowed' : List CString)
    (res : Option Route) (out : List CString)
    → ((path ≡ r.path) → method ≢ r.method)
    → allowed' ++ first_of (8 - length allowed') (methods (at_path path routes))
      ≡ allowed ++ first_of (8 - length allowed) (methods (at_path path (r ∷ routes)))
    → Found routes method path allowed' res out
    → Found (r ∷ routes) method path allowed res out
Found-cons r routes method path allowed allowed' none out miss e (f, g) = ((miss, f), g ∙ e)
Found-cons r routes method path allowed allowed' (some x) out miss e (before, after, p, q, s, f) =
    (r ∷ before, after, ap (λ t. r ∷ t) p, q, s, (miss, f))

str_eq-false : (a b : CString) → str_eq a b ≡ false → a ≢ b
str_eq-false a b h = ground (arith, str_eq_iff a b, h)

noted_eq :
    (n : ℕ) (allowed : List CString) (m : CString) (ms : List CString)
    → length allowed < 8
    → (allowed ++ (m ∷ [])) ++ first_of (8 - length (allowed ++ (m ∷ []))) ms
      ≡ allowed ++ first_of (8 - length allowed) (m ∷ ms)
noted_eq n allowed m ms l =
    let e : 8 - length allowed ≡ suc (8 - length (allowed ++ (m ∷ []))) =
      omega (arith, length-append allowed (m ∷ [])) in
    append_assoc allowed (m ∷ []) _ ∙ ap (λ k. allowed ++ first_of k (m ∷ ms)) (sym e)

full_eq :
    (allowed ms ns : List CString)
    → 8 ≤ length allowed
    → allowed ++ first_of (8 - length allowed) ms ≡ allowed ++ first_of (8 - length allowed) ns
full_eq allowed ms ns l = let e : 8 - length allowed ≡ 0 = omega arith in rw (e) refl

lookup_loop-Found :
    (routes : List Route) (method path : CString) (allowed : List CString)
    → Found routes method path allowed
        (lookup_loop routes method path allowed).route
        (lookup_loop routes method path allowed).allowed
unfolding lookup_loop
lookup_loop-Found [] method path allowed = (
  tt,
  let e : first_of (8 - length allowed) [] ≡ [] = first_of-nil (8 - length allowed) in
      rw (e) (sym (append-nil allowed)),
)
lookup_loop-Found (r ∷ routes) method path allowed = elim (Bool-cases (str_eq path r.path)) [
  | inr e ↦ rw (e) (
      Found-cons r routes method path allowed allowed _ _
        (λ p. elim (str_eq-false path r.path e p) [ ]) (rw (e) refl)
        (lookup_loop-Found routes method path allowed))
  | inl e ↦ elim (Bool-cases (str_eq method r.method)) [
    | inl f ↦
        rw (e, f)
          (
            [],
            routes,
            refl,
            sym ((str_eq_iff path r.path).0 e),
            sym ((str_eq_iff method r.method).0 f),
            tt,
          )
    | inr f ↦ elim (Bool-cases (ltb (length allowed) 8)) [
      | inl g ↦
          rw (e, f, g)
            (Found-cons r routes method path allowed (allowed ++ (r.method ∷ [])) _ _
              (λ p. str_eq-false method r.method f)
              (rw (e) (noted_eq 0 allowed r.method (methods (at_path path routes)) (ground arith)))
              (lookup_loop-Found routes method path (allowed ++ (r.method ∷ []))))
      | inr g ↦
          rw (e, f, g)
            (Found-cons r routes method path allowed allowed _ _
              (λ p. str_eq-false method r.method f)
              (full_eq allowed (methods (at_path path routes)) (methods (at_path path (r ∷ routes)))
                (ground arith))
              (lookup_loop-Found routes method path allowed))
    ]
  ]
]

-- `route_lookup` returns the first route of the table with the path and the method; if there is
-- none, it returns no route and the methods of the first eight routes at the path, in their order.
pub route_lookup-Found :
    (routes : List Route) (method path : CString)
    → Found routes method path []
        (route_lookup routes method path).route
        (route_lookup routes method path).allowed
unfolding route_lookup
route_lookup-Found routes method path = lookup_loop-Found routes method path []
