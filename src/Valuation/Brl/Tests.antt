-- ===== src/Valuation/Brl/Tests.antt =====
-- One USDt at 5.005 reais for a dollar is 501 cents, with a quote from the cache.
use depix_sdk.Common.{◌≡◌, refl, false, some, none, List, [], ◌∷◌, Bool, ok}
use depix_sdk.Common.Decimal.{decimal}
use depix_sdk.Sideshift.{split_point, strip_zeros, pad_start, zeros}
use depix_sdk.Quotes.Sample.{exact_decimals, read_decimal}
use depix_sdk.Quotes.{
  QuotesCall, get_quotes, after_calls, fetch_fresh, settle_fetch, fresh_value, cached_or_fetched,
  normalize_quotes, is_finite_number, stale_value,
}
use depix_sdk.Valuation.Brl.{
  usdt_key, valuate, needs_quotes, valuate_quoted, brl_value, sats_to_amount,
}
use depix_sdk.Valuation.Brl.Quoted.{IsQuoted, valuate-IsQuoted}

abbrev first : QuotesCall exact_decimals
first = record { now = 1000; body = some ((100000, 0), (5005, 3)); answered_at = 1200 }

abbrev second : QuotesCall exact_decimals
second = record { now = 100000; body = none; answered_at = 100300 }

abbrev calls : List (Bool × QuotesCall exact_decimals)
calls = (false, first) ∷ []

valued :
    valuate exact_decimals
      (get_quotes exact_decimals false second (after_calls exact_decimals calls)).0
      usdt_key
      100000000
    ≡ ok (501, 0)
unfolding valuate needs_quotes valuate_quoted brl_value sats_to_amount decimal split_point
    strip_zeros pad_start zeros read_decimal get_quotes after_calls fetch_fresh settle_fetch
    fresh_value cached_or_fetched normalize_quotes is_finite_number stale_value
valued = refl

valuate-IsQuoted_example : IsQuoted exact_decimals second calls usdt_key 100000000 (501, 0)
valuate-IsQuoted_example =
    valuate-IsQuoted exact_decimals second calls usdt_key 100000000 (501, 0) valued
