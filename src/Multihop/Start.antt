-- ===== src/Multihop/Start.antt =====
-- A conversion over several legs from its first write on.
use depix_sdk.Common.{
  ℕ, ◌≡◌, sym, subst, false, [], ◌∷◌, ◌++◌, ok, Result-cases, inl, inr, arith, All, All-append, ltb,
}
use depix_sdk.Common.Text.{Text, TextOps}
use depix_sdk.Vault.{Vault, read_envelopes, without}
use depix_sdk.Vault.Laws.{read-write, All-without}
use depix_sdk.Routes.Legs.{Route}
use depix_sdk.Plans.{StoredConversionPlan, Envelope, Plans, encrypt, stamped, put}
use depix_sdk.Plans.Laws.{get-put, encrypt-id, decrypt-encrypt}
use depix_sdk.Plans.Rewrites.{IsOwn, IsSound}
use depix_sdk.Convert.{ConvertParams, ExecuteContext}
use depix_sdk.Convert.{LegAnswer}
use depix_sdk.Multihop.{LegCall, Draw, first_value_leg_index, is_authorized_plan_continuation}
use depix_sdk.Multihop.Held.{IsHeld}
use depix_sdk.Multihop.Kept.{drive_plan-counts_once}
use depix_sdk.Multihop.Passes.{preflight_leg_params, new_plan, execute_multi_hop_route}

module _ (v : Vault StoredConversionPlan) (key : v.Key) where
  abbrev id_of : Envelope v → Text
  id_of e = e.id

  encrypt-IsOwn : (iv : Text) (r : StoredConversionPlan) → IsOwn v key (encrypt v key iv r)
  encrypt-IsOwn iv r opened d =
      let same : r ≡ opened = ground (arith, decrypt-encrypt v key iv r) in
      subst (λ x. x.plan_id ≡ (encrypt v key iv r).id) same (sym (encrypt-id v key iv r))

  pub put-IsSound :
      (now : ℕ) (iv : Text) (r : StoredConversionPlan) (file file' : Plans v)
      → IsSound v key file
      → put v key now iv r file ≡ ok file'
      → IsSound v key file'
  unfolding put
  put-IsSound now iv r file file' sound h es read = elim (Result-cases (read_envelopes file)) [
    | inr (x, e) ↦ absurd (ground arith)
    | inl (before, e) ↦
        let written = without id_of r.plan_id before ++ encrypt v key iv (stamped now r) ∷ [] in
        let list : written ≡ es = ground (arith, read-write id_of written) in
        subst (All (IsOwn v key)) list (
          All-append (IsOwn v key) _ _
            (All-without id_of (IsOwn v key) r.plan_id before (sound before e))
            (encrypt-IsOwn iv (stamped now r), tt))
  ]

  stamped-route : (now : ℕ) (r : StoredConversionPlan) → (stamped now r).route ≡ r.route
  unfolding stamped
  stamped-route now r = ground arith

  pub put-IsHeld :
      (now : ℕ) (iv : Text) (r : StoredConversionPlan) (file file' : Plans v)
      → IsSound v key file
      → put v key now iv r file ≡ ok file'
      → IsHeld v key r.plan_id r.route file'
  put-IsHeld now iv r file file' sound h = record {
    sound = put-IsSound now iv r file file' sound h;
    stored = stamped now r;
    reads = (get-put v key now iv r file file' h).0;
    on_route = stamped-route now r;
  }

  module _ (ops : TextOps) (draw : ℕ → Draw → Text) (run_leg : ℕ → Plans v → LegCall → LegAnswer)
      (iv plan_id : Text) (now : ℕ) (route : Route) (params : ConvertParams)
      (ctx : ExecuteContext) where
    -- In a conversion over a route, on a file of which every envelope that opens holds the record of
    -- its own id, whatever the legs answer, the wallet's hooks let a leg skip the value ceilings
    -- exactly when it comes after the first leg of the route that is not inflow: that leg is
    -- checked and counted, and no leg after it is counted again.
    pub execute_multi_hop_route-counts_once :
        (file : Plans v)
        → IsSound v key file
        → All
            (λ x.
              is_authorized_plan_continuation v key x.seen x.call
              ≡ ltb (first_value_leg_index route) x.index)
            (execute_multi_hop_route v key ops draw run_leg iv plan_id now route params ctx
              file).calls
    unfolding execute_multi_hop_route new_plan
    execute_multi_hop_route-counts_once file sound =
        elim (Result-cases (preflight_leg_params ops route.legs params)) [
          | inr (x, e) ↦ rw (execute_multi_hop_route, e) tt
          | inl (passed, e) ↦
              let plan = new_plan plan_id now route params in
              elim (Result-cases (put v key now iv plan file)) [
                | inr (x, e') ↦ rw (execute_multi_hop_route, e, e') tt
                | inl (file', e') ↦
                    rw (execute_multi_hop_route, e, e')
                      (drive_plan-counts_once v key draw plan ctx false run_leg 0 params.amount
                        file' (put-IsHeld now iv plan file file' sound e'))
              ]
        ]
