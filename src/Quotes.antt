-- ===== src/Quotes.antt =====
-- src/guardrails/quotes.ts: the cache of quotes, for calls that come one after the other. A record says
-- what a call meets: the clock when it starts, the answer of the endpoint if it asks (two numbers, or
-- none if the request failed), and the clock when the answer is there.
pub mod Fresh
pub mod Sample
mod Tests
use depix_sdk.Common.{
  ℕ, zero, suc, ◌-◌, Bool, true, false, Option, none, some, List, [], ◌∷◌, if◌then◌else◌, ltb, ◌&&◌,
  not,
}
use depix_sdk.Common.Doubles.{Doubles}

abbrev pub fresh_window_ms : ℕ
fresh_window_ms = 30000

abbrev pub stale_window_ms : ℕ
stale_window_ms = 300000

module _ (d : Doubles) where
  pub record Quotes : Type 0 where
    pub btc_usd : d.Double
    pub usd_brl : d.Double

  -- `isFiniteNumber(x)`, of a number.
  unfoldable pub is_finite_number : d.Double → Bool
  is_finite_number x = d.finite x && d.above_zero x

  unfoldable pub normalize_quotes : Option (d.Double × d.Double) → Option Quotes
  normalize_quotes none = none
  normalize_quotes (some (btc_usd, usd_brl)) =
      if is_finite_number btc_usd && is_finite_number usd_brl
      then some (record { btc_usd = btc_usd; usd_brl = usd_brl })
      else none

  pub record QuotesCall : Type 0 where
    pub now : ℕ
    pub body : Option (d.Double × d.Double)
    pub answered_at : ℕ

  -- `lastGood` and `lastGoodAt`.
  pub record QuotesCache : Type 0 where
    pub last_good : Option Quotes
    pub last_good_at : ℕ

  abbrev pub empty_cache : QuotesCache
  empty_cache = record { last_good = none; last_good_at = 0 }

  -- The request failed: a value that is not too old, or nothing.
  unfoldable pub stale_value : ℕ → QuotesCache → Option Quotes
  stale_value at cache = elim cache.last_good [
    | none ↦ none
    | some q ↦ if ltb (at - cache.last_good_at) stale_window_ms then some q else none
  ]

  -- What a request gave, and the cache after it.
  unfoldable pub settle_fetch :
      Option Quotes → QuotesCall → QuotesCache → Option Quotes × QuotesCache
  settle_fetch (some q) call cache =
      (some q, record { last_good = some q; last_good_at = call.answered_at })
  settle_fetch none call cache = (stale_value call.answered_at cache, cache)

  unfoldable pub fetch_fresh : QuotesCall → QuotesCache → Option Quotes × QuotesCache
  fetch_fresh call cache = settle_fetch (normalize_quotes call.body) call cache

  unfoldable pub fresh_value : ℕ → QuotesCache → Option Quotes
  fresh_value now cache = elim cache.last_good [
    | none ↦ none
    | some q ↦ if ltb (now - cache.last_good_at) fresh_window_ms then some q else none
  ]

  unfoldable pub cached_or_fetched :
      Option Quotes → QuotesCall → QuotesCache → Option Quotes × QuotesCache
  cached_or_fetched (some q) call cache = (some q, cache)
  cached_or_fetched none call cache = fetch_fresh call cache

  -- `get({ force })`.
  unfoldable pub get_quotes : Bool → QuotesCall → QuotesCache → Option Quotes × QuotesCache
  get_quotes true call cache = fetch_fresh call cache
  get_quotes false call cache = cached_or_fetched (fresh_value call.now cache) call cache

  -- The cache after calls, the latest of which is the first of the list.
  unfoldable pub after_calls : List (Bool × QuotesCall) → QuotesCache
  after_calls [] = empty_cache
  after_calls ((force, call) ∷ before) = (get_quotes force call (after_calls before)).1
