-- ===== src/ScanHint.antt =====
-- src/store/update-store.ts: the cache of a scan, its meta data and the coverage floor in them. An
-- operation takes the store and gives what it leaves. A hint that is no number is left out, as is a
-- field of a patch that the call does not name.
pub mod Floor
mod Tests
use depix_sdk.Common.{
  ℕ, zero, suc, Bool, true, false, Option, none, some, List, [], ◌∷◌, if◌then◌else◌, ltb, leb,
  Result, ok, err, ◌>>◌, throw_if, not, map, keep,
}
use depix_sdk.Common.Text.{Text, text_eq, is_decimal}
use depix_sdk.Common.Js.{JsNumber, pos}
use depix_sdk.Errors.{SdkError, platform_failure}

pub record SyncMeta : Type 0 where
  pub last_scan_at : Option ℕ
  pub last_success_at : Option ℕ
  pub last_persist_failed_at : Option ℕ
  pub last_persist_error_name : Option Text
  pub scan_to_index_hint : Option JsNumber

abbrev pub no_meta : SyncMeta
no_meta = record {
  last_scan_at = none;
  last_success_at = none;
  last_persist_failed_at = none;
  last_persist_error_name = none;
  scan_to_index_hint = none;
}

abbrev pub scan_hint_max : ℕ
scan_hint_max = 1000000

-- A positive integer, cut off at the bound; everything else is 0.
unfoldable pub sanitize_scan_hint : JsNumber → ℕ
sanitize_scan_hint (pos n) = if leb n scan_hint_max then n else scan_hint_max
sanitize_scan_hint _ = 0

-- The blobs by their status key, and meta.json: missing, or what it holds; a file that does not parse
-- reads as `{}`.
pub record UpdateStore : Type 0 where
  pub updates : List (Text × Text)
  pub meta : Option SyncMeta

unfoldable pub assert_status_key : Text → Result SdkError (Unit {0})
assert_status_key status = throw_if (not (is_decimal status)) platform_failure

unfoldable pub lookup : Text → List (Text × Text) → Option Text
lookup status [] = none
lookup status ((k, bytes) ∷ rest) = if text_eq k status then some bytes else lookup status rest

unfoldable pub get_update : Text → UpdateStore → Result SdkError (Option Text)
get_update status s = assert_status_key status >> ok (lookup status s.updates)

unfoldable pub put_update : Text → Text → UpdateStore → Result SdkError UpdateStore
put_update status bytes s =
    assert_status_key status
    >> ok (record s { updates = (status, bytes) ∷ keep (λ u. not (text_eq u.0 status)) s.updates })

unfoldable pub read_meta : UpdateStore → SyncMeta
read_meta s = elim s.meta [ none ↦ no_meta | some m ↦ m ]

abbrev pub patched_field : {A : Type 0} → Option A → Option A → Option A
patched_field old none = old
patched_field old (some new) = some new

-- `writeMeta(patch)`: `{ ...current, ...patch }`.
unfoldable pub write_meta : SyncMeta → UpdateStore → UpdateStore
write_meta patch s =
    let current = read_meta s in
    record s {
      meta = some (record {
        last_scan_at = patched_field current.last_scan_at patch.last_scan_at;
        last_success_at = patched_field current.last_success_at patch.last_success_at;
        last_persist_failed_at =
            patched_field current.last_persist_failed_at patch.last_persist_failed_at;
        last_persist_error_name =
            patched_field current.last_persist_error_name patch.last_persist_error_name;
        scan_to_index_hint = patched_field current.scan_to_index_hint patch.scan_to_index_hint;
      });
    }

abbrev pub hint_of : Option JsNumber → ℕ
hint_of none = 0
hint_of (some n) = sanitize_scan_hint n

unfoldable pub read_scan_hint : UpdateStore → ℕ
read_scan_hint s = hint_of (read_meta s).scan_to_index_hint

unfoldable pub write_hint : ℕ → UpdateStore → UpdateStore
write_hint hint = write_meta (record no_meta { scan_to_index_hint = some (pos hint) })

unfoldable pub bump_scan_hint : JsNumber → UpdateStore → UpdateStore
bump_scan_hint value s =
    let bump = sanitize_scan_hint value in
    if leb bump 0 then s else if leb bump (read_scan_hint s) then s else write_hint bump s

-- `clearAll()`: the two removals.
unfoldable pub remove_updates : UpdateStore → UpdateStore
remove_updates s = record s { updates = [] }

unfoldable pub remove_meta : UpdateStore → UpdateStore
remove_meta s = record s { meta = none }

unfoldable pub clear_all : UpdateStore → UpdateStore
unfolding remove_updates remove_meta
clear_all s = remove_meta (remove_updates s)

-- How far a call of `clearForRescan` gets, as it may throw, or the process end, before each write.
pub data Reached : Type 0 where
  before_updates before_meta before_hint its_end : Reached

-- `clearForRescan()`: what it leaves.
unfoldable pub clear_for_rescan : Reached → UpdateStore → UpdateStore
clear_for_rescan before_updates s = s
clear_for_rescan before_meta s = remove_updates s
clear_for_rescan before_hint s = clear_all s
clear_for_rescan its_end s =
    let hint = read_scan_hint s in if ltb 0 hint then write_hint hint (clear_all s) else clear_all s

unfoldable pub list_statuses : UpdateStore → List Text
list_statuses s = keep is_decimal (map (λ u. u.0) s.updates)
