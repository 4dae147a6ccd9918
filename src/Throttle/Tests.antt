-- ===== src/Throttle/Tests.antt =====
-- Two creations a minute, and a third that has to wait.
use depix_sdk.Common.{ℕ, ◌≤◌, ◌≡◌, refl, some, List, [], ◌∷◌, arith, length}
use depix_sdk.Throttle.{Throttle, fresh, pass, acquire}
use depix_sdk.Throttle.Window.{Run, start, more, takes, unused, within_limit, acquire-returns}

abbrev creations : Throttle
creations = record { limit = 2; window_ms = 60000 }

third_waits : acquire creations (5 ∷ []) 1500 (1000 ∷ 1200 ∷ []) ≡ some (61006, 1200 ∷ 61006 ∷ [])
unfolding acquire pass fresh
third_waits = refl

twice :
    Run creations unused
      (record { bucket = 1000 ∷ 1200 ∷ []; log = 1000 ∷ 1200 ∷ []; clock = 1200 })
unfolding pass fresh
twice =
    more (more start (takes 1000 (1000 ∷ []) (omega arith) refl))
      (takes 1200 (1000 ∷ 1200 ∷ []) (omega arith) refl)

within_limit_example : length (fresh 60000 1500 (1000 ∷ 1200 ∷ [])) ≤ 2
within_limit_example = within_limit creations _ 1500 twice (omega arith)

acquire-returns_example :
    (r : ℕ × List ℕ) × (acquire creations (5 ∷ []) 1500 (1000 ∷ 1200 ∷ []) ≡ some r)
acquire-returns_example =
    acquire-returns creations 1500 5 (1000 ∷ 1200 ∷ []) (omega arith) (omega arith)
