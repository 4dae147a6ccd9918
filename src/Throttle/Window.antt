-- ===== src/Throttle/Window.antt =====
-- Never more than the limit inside a window, and one sleep is enough for a caller that is alone.
use depix_sdk.Common.{
  ℕ, ◌+◌, ◌-◌, ◌≤◌, ◌<◌, ◌≡◌, refl, sym, ap, subst, ◌∙◌, some, List, [], ◌∷◌, ◌++◌, if◌then◌else◌,
  length, length-append, arith, ◌⊎◌, inl, inr, lt→ltb,
}
use depix_sdk.Throttle.{Throttle, fresh, wait_ms, Pass, acquired, waits, pass, acquire}

pub fresh-append :
    (w now : ℕ) (xs ys : List ℕ) → fresh w now (xs ++ ys) ≡ fresh w now xs ++ fresh w now ys
unfolding fresh
fresh-append w now [] ys = refl
fresh-append w now (x ∷ xs) ys = ground (arith, fresh-append w now xs ys)

-- What is fresh later was fresh before.
fresh-fresh : (w n now : ℕ) (xs : List ℕ) → n ≤ now → fresh w now (fresh w n xs) ≡ fresh w now xs
unfolding fresh
fresh-fresh w n now [] h = refl
fresh-fresh w n now (x ∷ xs) h = ground (arith, fresh-fresh w n now xs h)

pub length-fresh-le : (w now : ℕ) (xs : List ℕ) → length (fresh w now xs) ≤ length xs
unfolding fresh
length-fresh-le w now [] = omega arith
length-fresh-le w now (x ∷ xs) = ground (arith, length-fresh-le w now xs)

-- A bucket, every acquisition so far, and the time of the last pass.
pub record World : Type 0 where
  pub bucket : List ℕ
  pub log : List ℕ
  pub clock : ℕ

-- A pass of some caller, at a time that does not run backwards.
pub data Step (th : Throttle) (w : World) : World → Type 0 where
  takes :
      (now : ℕ) (kept : List ℕ)
      → w.clock ≤ now
      → pass th now w.bucket ≡ acquired kept
      → Step th w (record { bucket = kept; log = w.log ++ now ∷ []; clock = now })
  sleeps :
      (now ms : ℕ) (kept : List ℕ)
      → w.clock ≤ now
      → pass th now w.bucket ≡ waits ms kept
      → Step th w (record { bucket = kept; log = w.log; clock = now })

pub data Run (th : Throttle) (w : World) : World → Type 0 where
  start : Run th w w
  more : {u v : World} → Run th w u → Step th u v → Run th w v

-- The bucket holds all that matters of the log, and that is at most the limit.
abbrev Inv : Throttle → World → Type 0
Inv th w =
    (now : ℕ)
    → w.clock ≤ now
    → (fresh th.window_ms now w.bucket ≡ fresh th.window_ms now w.log)
      × (length (fresh th.window_ms now w.log) ≤ th.limit)

pass-acquired :
    (th : Throttle) (now : ℕ) (b kept : List ℕ)
    → pass th now b ≡ acquired kept
    → (kept ≡ fresh th.window_ms now b ++ now ∷ []) × (length (fresh th.window_ms now b) < th.limit)
unfolding pass
pass-acquired th now b kept h = ground arith

pass-waits :
    (th : Throttle) (now ms : ℕ) (b kept : List ℕ)
    → pass th now b ≡ waits ms kept
    → (kept ≡ fresh th.window_ms now b)
      × (ms ≡ wait_ms th.window_ms now kept)
      × (th.limit ≤ length kept)
unfolding pass
pass-waits th now ms b kept h = ground arith

Step-Inv : {th : Throttle} {w u : World} → Step th w u → Inv th w → Inv th u
Step-Inv {th} {w} (sleeps n ms kept later h) v now after =
    let r = v now (omega arith) in
    (
      rw (pass-waits th n ms w.bucket kept h).0
          (fresh-fresh th.window_ms n now w.bucket after ∙ r.0),
      r.1,
    )
Step-Inv {th} {w} (takes n kept later h) v now after =
    let r = v now (omega arith) in
    let p = pass-acquired th n w.bucket kept h in
    let same : fresh th.window_ms now kept ≡ fresh th.window_ms now (w.log ++ n ∷ []) =
      rw
        (
          p.0,
          fresh-append th.window_ms now (fresh th.window_ms n w.bucket) (n ∷ []),
          fresh-append th.window_ms now w.log (n ∷ []),
          fresh-fresh th.window_ms n now w.bucket after,
          r.0,
        )
        refl in
    (
      same,
      subst (λ l. length l ≤ th.limit) same
          (omega (
            arith,
            length-fresh-le th.window_ms now kept,
            p.1,
            ap length p.0,
            length-append (fresh th.window_ms n w.bucket) (n ∷ []),
          )),
    )

Run-Inv : {th : Throttle} {w u : World} → Inv th w → Run th w u → Inv th u
Run-Inv v start = v
Run-Inv v (more r s) = Step-Inv s (Run-Inv v r)

abbrev pub unused : World
unused = record { bucket = []; log = []; clock = 0 }

-- However the passes of its callers interleave, on a clock that does not run backwards: at every time
-- from the last pass on, at most `limit` acquisitions of the bucket lie inside the window.
pub within_limit :
    (th : Throttle) (u : World) (now : ℕ)
    → Run th unused u
    → u.clock ≤ now
    → length (fresh th.window_ms now u.log) ≤ th.limit
unfolding fresh
within_limit th u now r later =
    let v : Inv th u = Run-Inv (λ n h. (refl, omega arith)) r in (v now later).1

-- The oldest acquisition has left the window when the wait is over.
oldest_leaves :
    (w now delay : ℕ) (kept : List ℕ)
    → 1 ≤ length kept
    → length (fresh w (now + wait_ms w now kept + delay) kept) < length kept
unfolding fresh
oldest_leaves w now delay [] h = omega arith
oldest_leaves w now delay (t ∷ ts) h =
    ground (arith, length-fresh-le w (now + (t + w + 1 - now) + delay) ts)

pass_with_room :
    (th : Throttle) (now : ℕ) (b : List ℕ)
    → length (fresh th.window_ms now b) < th.limit
    → pass th now b ≡ acquired (fresh th.window_ms now b ++ now ∷ [])
unfolding pass
pass_with_room th now b h = rw (lt→ltb _ _ h, if◌then◌else◌) refl

Pass-cases :
    (p : Pass)
    → ((kept : List ℕ) × (p ≡ acquired kept)) ⊎ ((ms : ℕ) × (kept : List ℕ) × (p ≡ waits ms kept))
Pass-cases (acquired kept) = inl (kept, refl)
Pass-cases (waits ms kept) = inr (ms, kept, refl)

-- A caller that is alone on a bucket that holds at most `limit` timestamps returns after one sleep at
-- the latest, however long the sleep overruns.
pub acquire-returns :
    (th : Throttle) (now delay : ℕ) (bucket : List ℕ)
    → 1 ≤ th.limit
    → length bucket ≤ th.limit
    → (r : ℕ × List ℕ) × (acquire th (delay ∷ []) now bucket ≡ some r)
unfolding acquire
acquire-returns th now delay bucket positive held = elim (Pass-cases (pass th now bucket)) [
  | inl (kept, e) ↦ ((now, kept), rw (acquire, e) refl)
  | inr (ms, kept, e) ↦
      let p = pass-waits th now ms bucket kept e in
      let later = now + ms + delay in
      let room : length (fresh th.window_ms later kept) < th.limit = omega (
        arith,
        subst (λ m. length (fresh th.window_ms (now + m + delay) kept) < length kept) (sym p.1)
            (oldest_leaves th.window_ms now delay kept (omega (arith, p.2))),
        ap length p.0,
        length-fresh-le th.window_ms now bucket,
      ) in
      (
        (later, fresh th.window_ms later kept ++ later ∷ []),
        rw (acquire, e, pass_with_room th later kept room) refl,
      )
]
