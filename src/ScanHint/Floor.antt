-- ===== src/ScanHint/Floor.antt =====
-- The coverage floor over the life of a store.
use depix_sdk.Common.{
  ℕ, ◌≡◌, ◌≤◌, refl, sym, ◌∙◌, Option, none, some, List, [], ◌∷◌, if◌then◌else◌, ltb, leb, Result,
  ok, err, Bool-cases, Result-cases, inl, inr, arith, All,
}
use depix_sdk.Common.Text.{Text}
use depix_sdk.Common.Js.{JsNumber, pos, negsuc, above, below, nan, infinity, neg_infinity}
use depix_sdk.Errors.{SdkError}
use depix_sdk.ScanHint.{
  UpdateStore, sanitize_scan_hint, read_meta, write_meta, write_hint, read_scan_hint,
  bump_scan_hint, clear_all, remove_updates, remove_meta, clear_for_rescan, Reached, before_updates,
  before_meta, before_hint, its_end, hint_of, put_update, assert_status_key,
}

-- What the sync engine does to a store: a bump, a write of the times and errors of a scan, a blob, and
-- the wipe before a deep rescan, as far as it gets. The others write once, atomically: one that is cut
-- short is no step.
pub data Step : Type 0 where
  bumps : JsNumber → Step
  notes_scan : Option ℕ → Option ℕ → Option ℕ → Option Text → Step
  stores : Text → Text → Step
  rescans : Reached → Step

-- A call that throws leaves the store.
abbrev or_same : Result SdkError UpdateStore → UpdateStore → UpdateStore
or_same (ok s') s = s'
or_same (err e) s = s

abbrev pub step : Step → UpdateStore → UpdateStore
step (bumps value) s = bump_scan_hint value s
step (notes_scan scan success failed name) s =
    write_meta
      (record {
        last_scan_at = scan;
        last_success_at = success;
        last_persist_failed_at = failed;
        last_persist_error_name = name;
        scan_to_index_hint = none;
      })
      s
step (stores status bytes) s = or_same (put_update status bytes s) s
step (rescans reached) s = clear_for_rescan reached s

abbrev pub run : List Step → UpdateStore → UpdateStore
run [] s = s
run (x ∷ rest) s = run rest (step x s)

sanitize-le : (n : JsNumber) → sanitize_scan_hint n ≤ 1000000
unfolding sanitize_scan_hint
sanitize-le (pos n) = ground arith
sanitize-le (negsuc n) = omega arith
sanitize-le (above n) = omega arith
sanitize-le (below n) = omega arith
sanitize-le nan = omega arith
sanitize-le infinity = omega arith
sanitize-le neg_infinity = omega arith

hint-le : (o : Option JsNumber) → hint_of o ≤ 1000000
hint-le none = omega arith
hint-le (some n) = sanitize-le n

read_scan_hint-le : (s : UpdateStore) → read_scan_hint s ≤ 1000000
unfolding read_scan_hint
read_scan_hint-le s = hint-le (read_meta s).scan_to_index_hint

read_scan_hint-write_hint :
    (h : ℕ) (s : UpdateStore) → h ≤ 1000000 → read_scan_hint (write_hint h s) ≡ h
unfolding read_scan_hint write_hint write_meta read_meta sanitize_scan_hint
read_scan_hint-write_hint h s le = ground arith

-- The floor after a bump is the larger of the two.
bump_covers :
    (value : JsNumber) (s : UpdateStore)
    → (read_scan_hint s ≤ read_scan_hint (bump_scan_hint value s))
      × (sanitize_scan_hint value ≤ read_scan_hint (bump_scan_hint value s))
unfolding bump_scan_hint
bump_covers value s = elim (Bool-cases (leb (sanitize_scan_hint value) 0)) [
  | inl low ↦ ground (arith, low)
  | inr positive ↦ elim (Bool-cases (leb (sanitize_scan_hint value) (read_scan_hint s))) [
    | inl lower ↦ ground (arith, positive, lower)
    | inr higher ↦ ground (
      arith,
      positive,
      higher,
      read_scan_hint-write_hint (sanitize_scan_hint value) s (sanitize-le value),
    )
  ]
]

cleared : (s : UpdateStore) → read_scan_hint (clear_all s) ≡ 0
unfolding read_scan_hint read_meta clear_all remove_updates remove_meta
cleared s = refl

rescan_keeps : (s : UpdateStore) → read_scan_hint (clear_for_rescan its_end s) ≡ read_scan_hint s
unfolding clear_for_rescan
rescan_keeps s = elim (Bool-cases (ltb 0 (read_scan_hint s))) [
  | inl has ↦
      rw (clear_for_rescan, has, if◌then◌else◌)
        (read_scan_hint-write_hint (read_scan_hint s) (clear_all s) (read_scan_hint-le s))
  | inr gone ↦
      let zero_hint : read_scan_hint s ≡ 0 = ground (arith, gone) in
      rw (clear_for_rescan, gone, if◌then◌else◌) (cleared s ∙ sym zero_hint)
]

note_keeps :
    (scan success failed : Option ℕ) (name : Option Text) (s : UpdateStore)
    → read_scan_hint (step (notes_scan scan success failed name) s) ≡ read_scan_hint s
unfolding read_scan_hint write_meta read_meta
note_keeps scan success failed name s = refl

put_keeps :
    (status bytes : Text) (s : UpdateStore)
    → read_scan_hint (step (stores status bytes) s) ≡ read_scan_hint s
unfolding read_scan_hint put_update read_meta
put_keeps status bytes s = elim (Result-cases (assert_status_key status)) [
  | inl (done, e) ↦ ground (arith, e)
  | inr (x, e) ↦ ground (arith, e)
]

-- Not a rescan that ends between the removal of the floor and its return.
abbrev pub IsWhole : Step → Type 0
IsWhole (rescans before_hint) = ⊥
IsWhole _ = Unit

-- With meta.json in place the floor is.
updates_keep : (s : UpdateStore) → read_scan_hint (remove_updates s) ≡ read_scan_hint s
unfolding read_scan_hint read_meta remove_updates
updates_keep s = refl

step_keeps : (x : Step) (s : UpdateStore) → IsWhole x → read_scan_hint s ≤ read_scan_hint (step x s)
unfolding clear_for_rescan
step_keeps (bumps value) s h = (bump_covers value s).0
step_keeps (notes_scan scan success failed name) s h =
    omega (arith, note_keeps scan success failed name s)
step_keeps (stores status bytes) s h = omega (arith, put_keeps status bytes s)
step_keeps (rescans before_updates) s h = omega arith
step_keeps (rescans before_meta) s h = omega (arith, updates_keep s)
step_keeps (rescans before_hint) s h = absurd h
step_keeps (rescans its_end) s h = omega (arith, rescan_keeps s)

-- The depth that a step asks to cover.
abbrev pub asked : Step → ℕ
asked (bumps value) = sanitize_scan_hint value
asked (notes_scan scan success failed name) = 0
asked (stores status bytes) = 0
asked (rescans reached) = 0

asked_covered : (x : Step) (s : UpdateStore) → asked x ≤ read_scan_hint (step x s)
asked_covered (bumps value) s = (bump_covers value s).1
asked_covered (notes_scan scan success failed name) s = omega arith
asked_covered (stores status bytes) s = omega arith
asked_covered (rescans reached) s = omega arith

-- Whatever the sync engine does to a store, if no deep rescan is cut short between the removal of
-- meta.json and the write of the floor, the coverage floor never falls, it ends no lower than any
-- depth that a bump asked for on the way, up to a million, and it is at most a million.
pub run_covers :
    (xs : List Step) (s : UpdateStore)
    → All IsWhole xs
    → (read_scan_hint s ≤ read_scan_hint (run xs s))
      × (All (λ x. asked x ≤ read_scan_hint (run xs s)) xs)
      × (read_scan_hint (run xs s) ≤ 1000000)
run_covers [] s h = (omega arith, tt, read_scan_hint-le s)
run_covers (x ∷ rest) s h =
    let later = run_covers rest (step x s) h.1 in
    (
      omega (arith, step_keeps x s h.0, later.0),
      (omega (arith, asked_covered x s, later.0), later.1),
      later.2,
    )
