-- ===== src/Plans/Tests.antt =====
-- A plan of two legs, and two passes that race for its second leg.
use depix_sdk.Common.{
  ◌≡◌, ◌≢◌, ◌≤◌, refl, none, some, List, [], ◌∷◌, true, false, ok, err, arith, subst, All,
}
use depix_sdk.Common.Text.{Text, codes, text_eq, text_eq_refl}
use depix_sdk.Errors.{plan_validation_failed}
use depix_sdk.Vault.{
  Vault, missing, parsed, read_envelopes, write_envelopes, locate, without, replace_first,
}
use depix_sdk.Vault.Sample.{sample_vault}
use depix_sdk.Plans.{
  StoredConversionPlan, executing, Plans, Envelope, put, get, claim_leg, encrypt, decrypt, stamped,
  claim_record, set_leg_result, leg_result,
}
use depix_sdk.Plans.Laws.{get-put, get-moved}
use depix_sdk.Plans.Rewrites.{IsSound, IsOwn}
use depix_sdk.Plans.Once.{Attempt, wins, at_most_one_claim}

abbrev v : Vault StoredConversionPlan
v = sample_vault StoredConversionPlan

abbrev plan : StoredConversionPlan
plan = record {
  plan_id = codes "p1";
  intent = record {
    from = codes "DEPIX";
    to = codes "BTC";
    network = codes "bitcoin";
    from_network = none;
    amount_sats = 5000;
  };
  route = record { id = codes "r"; legs = []; hops = 2; custodial = false };
  params = record { address = some (codes "bc1q"); invoice = none; refund_address = none };
  current_leg_index = 0;
  leg_results = [];
  state = executing;
  note = none;
  created_at = 7;
}

abbrev sealed_plan : Envelope v
sealed_plan = record {
  id = codes "p1";
  sealed = record { key = 7; iv = codes "iv"; aad = codes "p1"; content = plan };
}

abbrev stored : Plans v
stored = parsed true (some (sealed_plan ∷ []))

stores : put v 7 1000 (codes "iv") plan missing ≡ ok stored
unfolding put read_envelopes write_envelopes without encrypt stamped
stores = refl

stored-IsSound : IsSound v 7 stored
unfolding read_envelopes decrypt
stored-IsSound es h =
    let one : sealed_plan ∷ [] ≡ es = ground arith in
    subst (All (IsOwn v 7)) one ((λ r d. ground arith), tt)

get-put_example :
    (get v 7 (codes "p1") stored ≡ ok (some (stamped 1000 plan)))
    × ((other : Text) → other ≢ codes "p1" → get v 7 other stored ≡ get v 7 other missing)
get-put_example = get-put v 7 1000 (codes "iv") plan missing stored stores

get-moved_example :
    get v 7
      (codes "p2")
      (write_envelopes (record (encrypt v 7 (codes "iv") plan) { id = codes "p2" } ∷ []))
    ≡ err plan_validation_failed
get-moved_example =
    get-moved v 7 (codes "iv") (codes "p2") plan []
      (λ e. cc (subst (λ t. text_eq (codes "p1") t ≡ true) e (text_eq_refl (codes "p1"))))

abbrev race : List Attempt
race =
    record { iv = codes "a"; plan_id = codes "p1"; leg_index = 1 }
    ∷ record { iv = codes "b"; plan_id = codes "p1"; leg_index = 1 }
    ∷ record { iv = codes "c"; plan_id = codes "p1"; leg_index = 0 }
    ∷ []

race_runs : wins v 7 (codes "p1") 1 race stored ≡ 1
unfolding claim_leg read_envelopes write_envelopes locate replace_first encrypt decrypt claim_record
    set_leg_result leg_result
race_runs = refl

at_most_one_claim_example : wins v 7 (codes "p1") 1 race stored ≤ 1
at_most_one_claim_example = at_most_one_claim v 7 (codes "p1") 1 race stored stored-IsSound
