-- ===== src/Quotes/Fresh.antt =====
-- How old a quote may be.
use depix_sdk.Common.{
  ℕ, ◌-◌, ◌≡◌, ◌<◌, refl, Bool, true, false, Option, none, some, List, [], ◌∷◌, if◌then◌else◌, ltb,
  ◌⊎◌, inl, inr, Bool-cases, arith, ltb→lt, subst,
}
use depix_sdk.Common.Doubles.{Doubles}
use depix_sdk.Quotes.{
  Quotes, QuotesCall, QuotesCache, normalize_quotes, stale_value, fetch_fresh, fresh_value,
  get_quotes, settle_fetch, cached_or_fetched, after_calls,
}

module _ (d : Doubles) where
  -- One of the calls got this quote from the endpoint at this time.
  abbrev pub IsFetched : Quotes d → ℕ → List (Bool × (QuotesCall d)) → Type 0
  IsFetched q at [] = ⊥
  IsFetched q at ((force, call) ∷ before) =
      ((normalize_quotes d call.body ≡ some q) × (call.answered_at ≡ at)) ⊎ IsFetched q at before

  abbrev IsGood : QuotesCache d → List (Bool × (QuotesCall d)) → Type 0
  IsGood cache calls =
      (q : Quotes d) → cache.last_good ≡ some q → IsFetched q cache.last_good_at calls

  -- A quote that one of the calls got from the endpoint less than five minutes before the clock's
  -- reading at the start or at the end of the last call.
  abbrev pub IsRecent : Quotes d → QuotesCall d → List (Bool × (QuotesCall d)) → Type 0
  IsRecent q call calls =
      (at : ℕ) × IsFetched q at calls
      × ((call.now - at < 300000) ⊎ (call.answered_at - at < 300000))

  -- What a call gives is recent, and the cache that it leaves holds what was fetched.
  abbrev IsServed :
      Bool
      → QuotesCall d
      → List (Bool × (QuotesCall d))
      → Option (Quotes d) × (QuotesCache d)
      → Type 0
  IsServed force call before r =
      ((q : Quotes d) → r.0 ≡ some q → IsRecent q call ((force, call) ∷ before))
      × IsGood r.1 ((force, call) ∷ before)

  -- A value of the cache that passes a test of its age.
  aged :
      (window : ℕ) (at : ℕ) (last : Option (Quotes d)) (since : ℕ) (q : Quotes d)
      → elim last [ none ↦ none | some p ↦ if ltb (at - since) window then some p else none ]
        ≡ some q
      → (last ≡ some q) × (at - since < window)
  aged window at none since q h = cc
  aged window at (some p) since q h = elim (Bool-cases (ltb (at - since) window)) [
    | inl young ↦ (ground (arith, young), ltb→lt _ _ young)
    | inr old ↦ absurd (ground (arith, old))
  ]

  settle_fetch-IsServed :
      (got : Option (Quotes d)) (force : Bool) (call : QuotesCall d)
      (before : List (Bool × (QuotesCall d))) (cache : QuotesCache d)
      → normalize_quotes d call.body ≡ got
      → IsGood cache before
      → IsServed force call before (settle_fetch d got call cache)
  unfolding settle_fetch stale_value
  settle_fetch-IsServed none force call before cache e good = (
    λ q h.
        let a = aged 300000 call.answered_at cache.last_good cache.last_good_at q h in
        (cache.last_good_at, inr (good q a.0), inr a.1),
    λ q h. inr (good q h),
  )
  settle_fetch-IsServed (some p) force call before cache e good = (
    λ q h.
        let same : p ≡ q = ground arith in
        (call.answered_at, inl (ground (arith, e, same), refl), inr (omega arith)),
    λ q h. inl (ground (arith, e, h), refl),
  )

  cached-IsServed :
      (cached : Option (Quotes d)) (call : QuotesCall d) (before : List (Bool × (QuotesCall d)))
      (cache : QuotesCache d)
      → fresh_value d call.now cache ≡ cached
      → IsGood cache before
      → IsServed false call before (cached_or_fetched d cached call cache)
  unfolding cached_or_fetched fresh_value fetch_fresh
  cached-IsServed none call before cache e good =
      settle_fetch-IsServed (normalize_quotes d call.body) false call before cache refl good
  cached-IsServed (some p) call before cache e good =
      let a = aged 30000 call.now cache.last_good cache.last_good_at p e in
      (
        λ q h.
            let same : p ≡ q = ground arith in
            (
              cache.last_good_at,
              subst (λ x. IsFetched x cache.last_good_at ((false, call) ∷ before)) same
                  (inr (good p a.0)),
              inl (omega (arith, a.1)),
            ),
        λ q h. inr (good q h),
      )

  get_quotes-IsServed :
      (force : Bool) (call : QuotesCall d) (before : List (Bool × (QuotesCall d)))
      (cache : QuotesCache d)
      → IsGood cache before
      → IsServed force call before (get_quotes d force call cache)
  unfolding get_quotes fetch_fresh
  get_quotes-IsServed true call before cache good =
      settle_fetch-IsServed (normalize_quotes d call.body) true call before cache refl good
  get_quotes-IsServed false call before cache good =
      cached-IsServed (fresh_value d call.now cache) call before cache refl good

  after_calls-IsGood : (calls : List (Bool × (QuotesCall d))) → IsGood (after_calls d calls) calls
  unfolding after_calls
  after_calls-IsGood [] = λ q h. cc
  after_calls-IsGood ((force, call) ∷ before) =
      (get_quotes-IsServed force call before (after_calls d before) (after_calls-IsGood before)).1

  -- A quote that a call returns, after any calls before it, was got from the endpoint by it or by one of
  -- them, with two positive finite numbers, less than five minutes before the clock's reading at the
  -- start or at the end of the call.
  pub get_quotes-IsRecent :
      (force : Bool) (call : QuotesCall d) (before : List (Bool × (QuotesCall d))) (q : Quotes d)
      → (get_quotes d force call (after_calls d before)).0 ≡ some q
      → IsRecent q call ((force, call) ∷ before)
  get_quotes-IsRecent force call before q h =
      (get_quotes-IsServed force call before (after_calls d before) (after_calls-IsGood before)).0 q
        h
