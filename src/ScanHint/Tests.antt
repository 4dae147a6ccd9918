-- ===== src/ScanHint/Tests.antt =====
-- A scan to index 57, a scan that saw less, and a deep rescan.
use depix_sdk.Common.{◌≡◌, ◌≤◌, refl, none, List, [], ◌∷◌, All}
use depix_sdk.Common.Js.{pos, nan}
use depix_sdk.ScanHint.{
  UpdateStore, read_scan_hint, bump_scan_hint, sanitize_scan_hint, clear_for_rescan, clear_all,
  remove_updates, remove_meta, before_meta, its_end, write_hint, write_meta, read_meta,
}
use depix_sdk.ScanHint.Floor.{Step, bumps, rescans, run, asked, run_covers}

abbrev fresh_store : UpdateStore
fresh_store = record { updates = []; meta = none }

abbrev life : List Step
life = bumps (pos 57) ∷ bumps (pos 20) ∷ bumps nan ∷ rescans before_meta ∷ rescans its_end ∷ []

floor : read_scan_hint (run life fresh_store) ≡ 57
unfolding remove_updates remove_meta read_scan_hint bump_scan_hint sanitize_scan_hint
    clear_for_rescan clear_all write_hint write_meta read_meta
floor = refl

run_covers_example :
    (read_scan_hint fresh_store ≤ read_scan_hint (run life fresh_store))
    × (All (λ x. asked x ≤ read_scan_hint (run life fresh_store)) life)
    × (read_scan_hint (run life fresh_store) ≤ 1000000)
run_covers_example = run_covers life fresh_store (tt, (tt, (tt, (tt, (tt, tt)))))
