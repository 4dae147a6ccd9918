-- ===== src/Convert/Choose.antt =====
-- How src/convert/intent.ts picks the one route that a conversion runs.
use depix_sdk.Common.{
  ℕ, true, Option, none, some, List, [], ◌∷◌, if◌then◌else◌, Result, ok, err, ◌>>=◌, throw_if, ◌==◌,
  ltb, keep, find,
}
use depix_sdk.Common.Text.{Text, text_eq}
use depix_sdk.Errors.{
  SdkError, invalid_amount, unsupported_asset, route_not_found, multiple_routes_available,
  platform_failure,
}
use depix_sdk.Routes.Legs.{Route, RouteLeg, RouteSelector}
use depix_sdk.Routes.Enumerate.{enumerate_routes}
use depix_sdk.Convert.{ConvertParams, ExecuteContext}

unfoldable pub validate_intent : ConvertParams → Result SdkError (Unit {0})
validate_intent params = throw_if (params.amount == 0) invalid_amount

unfoldable pub selector_of : ConvertParams → RouteSelector
selector_of params = record {
  from = params.from;
  to = params.to;
  network = params.network;
  from_network = params.from_network;
}

unfoldable pub some_route : List Route → Result SdkError (List Route)
some_route [] = err unsupported_asset
some_route (r ∷ rest) = ok (r ∷ rest)

unfoldable pub resolve_routes_or_throw : ConvertParams → Result SdkError (List Route)
resolve_routes_or_throw params = some_route (enumerate_routes (selector_of params))

-- The only element of a list.
unfoldable pub only : List Route → Option Route
only [] = none
only (r ∷ []) = some r
only (r ∷ s ∷ rest) = none

-- A route that is asked for by its identifier.
unfoldable pub requested_route : Text → List Route → Result SdkError Route
requested_route id routes = elim (find (λ r. text_eq r.id id) routes) [
  | none ↦ err route_not_found
  | some r ↦ ok r
]

-- The route of one hop, if it is the only one; or the only route.
unfoldable pub unambiguous_route : List Route → Result SdkError Route
unambiguous_route routes = elim (only (keep (λ r. r.hops == 1) routes)) [
  | some r ↦ ok r
  | none ↦ elim (only routes) [ some r ↦ ok r | none ↦ err multiple_routes_available ]
]

unfoldable pub pick_route : Option Text → List Route → Result SdkError Route
pick_route (some id) routes = requested_route id routes
pick_route none routes = unambiguous_route routes

unfoldable pub resolve_single_route : ConvertParams → Result SdkError Route
resolve_single_route params = resolve_routes_or_throw params >>= pick_route params.route

-- What `convertIntent` goes on with: one leg, or a route of several.
pub data Conversion : Type 0 where
  one_leg : RouteLeg → ExecuteContext → Conversion
  several_legs : Route → ExecuteContext → Conversion

unfoldable pub or_else : {A : Type 0} → Option A → A → A
or_else none a = a
or_else (some b) a = b

abbrev pub default_settle_timeout_ms : ℕ
default_settle_timeout_ms = 900000

abbrev pub default_poll_interval_ms : ℕ
default_poll_interval_ms = 5000

unfoldable pub conversion_of : Route → ExecuteContext → Result SdkError Conversion
conversion_of route ctx =
    if ltb 1 route.hops
    then ok (several_legs route ctx)
    else elim route.legs [ leg ∷ rest ↦ ok (one_leg leg ctx) | [] ↦ err platform_failure ]

-- `convertIntent(params, deps)` up to the execution, with the overrides of the dependencies.
unfoldable pub convert_intent : Option ℕ → Option ℕ → ConvertParams → Result SdkError Conversion
convert_intent settle_timeout_ms poll_interval_ms params = do
  valid ← validate_intent params
  route ← resolve_single_route params
  conversion_of route (record {
    route = route;
    wait = or_else params.wait true;
    timeout_ms = or_else params.timeout_ms (or_else settle_timeout_ms default_settle_timeout_ms);
    interval_ms = or_else poll_interval_ms default_poll_interval_ms;
  })
