-- ===== src/Quotes/Tests.antt =====
-- A quote that is served from the cache after the endpoint has failed.
use depix_sdk.Common.{◌≡◌, refl, false, some, none, [], ◌∷◌}
use depix_sdk.Quotes.Sample.{exact_decimals}
use depix_sdk.Quotes.{
  Quotes, QuotesCall, get_quotes, after_calls, fetch_fresh, settle_fetch, fresh_value,
  cached_or_fetched, normalize_quotes, is_finite_number, stale_value,
}
use depix_sdk.Quotes.Fresh.{IsRecent, get_quotes-IsRecent}

-- 5.43 reais for a dollar.
abbrev quote : Quotes exact_decimals
quote = record { btc_usd = (100000, 0); usd_brl = (543, 2) }

abbrev first : QuotesCall exact_decimals
first = record { now = 1000; body = some ((100000, 0), (543, 2)); answered_at = 1200 }

abbrev second : QuotesCall exact_decimals
second = record { now = 100000; body = none; answered_at = 100300 }

served :
    (get_quotes exact_decimals false second (after_calls exact_decimals ((false, first) ∷ []))).0
    ≡ some quote
unfolding get_quotes after_calls fetch_fresh settle_fetch fresh_value cached_or_fetched
    normalize_quotes is_finite_number stale_value
served = refl

get_quotes-IsRecent_example :
    IsRecent exact_decimals quote second ((false, second) ∷ (false, first) ∷ [])
get_quotes-IsRecent_example =
    get_quotes-IsRecent exact_decimals false second ((false, first) ∷ []) quote served
