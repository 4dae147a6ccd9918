-- ===== src/Convert/Chosen.antt =====
-- The route that a conversion runs.
use depix_sdk.Common.{
  ◌≡◌, sym, subst, Bool, true, Option, none, some, List, [], ◌∷◌, ok, >>=-eq-ok, ◌==◌, keep, find,
  All, ◌⊎◌, inl, inr, Bool-cases, Option-cases, arith, All-keep,
}
use depix_sdk.Common.Text.{Text, text_eq, text_eq_sound}
use depix_sdk.Routes.Legs.{Route}
use depix_sdk.Routes.Enumerate.{enumerate_routes}
use depix_sdk.Routes.Sound.{IsRouteFor, enumerate_routes-IsRouteFor}
use depix_sdk.Convert.{ConvertParams}
use depix_sdk.Convert.Choose.{
  selector_of, some_route, resolve_routes_or_throw, only, requested_route, unambiguous_route,
  pick_route, resolve_single_route,
}

-- The route asked for by its identifier; without one, the only candidate of one hop or the only one.
abbrev pub IsChoice : Option Text → List Route → Route → Type 0
IsChoice (some id) candidates r = r.id ≡ id
IsChoice none candidates r = (keep (λ c. c.hops == 1) candidates ≡ r ∷ []) ⊎ (candidates ≡ r ∷ [])

only_sound : (routes : List Route) (r : Route) → only routes ≡ some r → routes ≡ r ∷ []
unfolding only
only_sound [] r h = cc
only_sound (s ∷ []) r h = ground arith
only_sound (s ∷ t ∷ rest) r h = cc

find_sound :
    (P : Route → Type 0) (p : Route → Bool) (routes : List Route) (r : Route)
    → All P routes
    → find p routes ≡ some r
    → P r × (p r ≡ true)
find_sound P p [] r h e = cc
find_sound P p (s ∷ rest) r h e = elim (Bool-cases (p s)) [
  | inl m ↦ let same : s ≡ r = ground arith in (subst P same h.0, subst (λ x. p x ≡ true) same m)
  | inr m ↦ find_sound P p rest r h.1 (ground arith)
]

All-only :
    (P : Route → Type 0) (routes : List Route) (r : Route) → All P routes → routes ≡ r ∷ [] → P r
All-only P routes r h e = (subst (All P) e h).0

pick_route-IsChoice :
    (P : Route → Type 0) (requested : Option Text) (routes : List Route) (r : Route)
    → All P routes
    → pick_route requested routes ≡ ok r
    → P r × IsChoice requested routes r
unfolding pick_route requested_route unambiguous_route
pick_route-IsChoice P (some id) routes r h e =
    elim (Option-cases (find (λ c. text_eq c.id id) routes)) [
      | inl gone ↦ absurd (ground arith)
      | inr (s, found) ↦
          let same : s ≡ r = ground arith in
          let f = find_sound P (λ c. text_eq c.id id) routes s h found in
          (subst P same f.0, subst (λ x. x.id ≡ id) same (text_eq_sound s.id id f.1))
    ]
pick_route-IsChoice P none routes r h e =
    let single = keep (λ c. c.hops == 1) routes in
    elim (Option-cases (only single)) [
      | inr (s, found) ↦
          let same : s ≡ r = ground arith in
          let one : single ≡ r ∷ [] = only_sound single r (ground (arith, same)) in
          (All-only P single r (All-keep P (λ c. c.hops == 1) routes h) one, inl one)
      | inl several ↦ elim (Option-cases (only routes)) [
        | inl more ↦ absurd (ground arith)
        | inr (s, found) ↦
            let same : s ≡ r = ground arith in
            let one : routes ≡ r ∷ [] = only_sound routes r (ground (arith, same)) in
            (All-only P routes r h one, inr one)
      ]
    ]

some_route-same : (routes found : List Route) → some_route routes ≡ ok found → routes ≡ found
unfolding some_route
some_route-same [] found h = cc
some_route-same (r ∷ rest) found h = ground arith

-- The route that a conversion runs is a route for what was asked: a chain of legs from the asset to the
-- destination. If an identifier was given, it has it; if not, it is the only candidate of one hop,
-- or the only candidate: between several the code does not choose.
pub resolve_single_route-IsChoice :
    (params : ConvertParams) (r : Route)
    → resolve_single_route params ≡ ok r
    → IsRouteFor (selector_of params) r
      × IsChoice params.route (enumerate_routes (selector_of params)) r
unfolding resolve_single_route resolve_routes_or_throw
resolve_single_route-IsChoice params r h =
    let found = >>=-eq-ok (resolve_routes_or_throw params) (pick_route params.route) h in
    let same : enumerate_routes (selector_of params) ≡ found.0 =
      some_route-same (enumerate_routes (selector_of params)) found.0 found.1 in
    pick_route-IsChoice (IsRouteFor (selector_of params)) params.route
      (enumerate_routes (selector_of params)) r (enumerate_routes-IsRouteFor (selector_of params))
      (subst (λ routes. pick_route params.route routes ≡ ok r) (sym same) found.2)
