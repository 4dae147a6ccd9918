-- ===== src/Sideshift/Log/Distinct.antt =====
-- The log names each shift once, and at most 200 of them.
use depix_sdk.Common.{
  ℕ, zero, suc, ◌≡◌, ◌≤◌, subst, Bool, true, false, List, [], ◌∷◌, if◌then◌else◌, Result, ok, err,
  ◌>>=◌, ltb, ◌==◌, not, any, keep, length, length-keep-le, All, All-keep, Bool-cases, Result-cases,
  Ensures, inl, inr, arith,
}
use depix_sdk.Common.Text.{Text, text_eq}
use depix_sdk.Errors.{SdkError}
use depix_sdk.Vault.{read_envelopes, write_envelopes, without}
use depix_sdk.Vault.Laws.{All-without, without-others}
use depix_sdk.Sideshift.Log.{
  StoredSideShift, Shifts, stored_shift_id, take_shifts, read_shifts, write_shifts, with_times,
  save_shift, patched_shift, update_each, update_shift, remove_shift,
}

-- No two of the shifts have one identifier.
abbrev pub IsDistinct : List StoredSideShift → Type 0
IsDistinct [] = Unit
IsDistinct (s ∷ rest) = All (λ t. text_eq t.id s.id ≡ false) rest × IsDistinct rest

abbrev pub IsLog : List StoredSideShift → Type 0
IsLog shifts = (length shifts ≤ 200) × IsDistinct shifts

All-take :
    (P : StoredSideShift → Type 0) (n : ℕ) (xs : List StoredSideShift)
    → All P xs
    → All P (take_shifts n xs)
unfolding take_shifts
All-take P zero xs h = tt
All-take P (suc n) [] h = tt
All-take P (suc n) (x ∷ xs) h = (h.0, All-take P n xs h.1)

IsDistinct-take :
    (n : ℕ) (xs : List StoredSideShift) → IsDistinct xs → IsDistinct (take_shifts n xs)
unfolding take_shifts
IsDistinct-take zero xs h = tt
IsDistinct-take (suc n) [] h = tt
IsDistinct-take (suc n) (x ∷ xs) h =
    (All-take (λ t. text_eq t.id x.id ≡ false) n xs h.0, IsDistinct-take n xs h.1)

length-take : (n : ℕ) (xs : List StoredSideShift) → length (take_shifts n xs) ≤ n
unfolding take_shifts
length-take zero xs = omega arith
length-take (suc n) [] = omega arith
length-take (suc n) (x ∷ xs) = omega (arith, length-take n xs)

IsDistinct-keep :
    (p : StoredSideShift → Bool) (xs : List StoredSideShift)
    → IsDistinct xs
    → IsDistinct (keep p xs)
IsDistinct-keep p [] h = tt
IsDistinct-keep p (x ∷ xs) h = elim (Bool-cases (p x)) [
  | inl m ↦
      rw (m, if◌then◌else◌)
        (All-keep (λ t. text_eq t.id x.id ≡ false) p xs h.0, IsDistinct-keep p xs h.1)
  | inr m ↦ rw (m, if◌then◌else◌) (IsDistinct-keep p xs h.1)
]

IsDistinct-without :
    (id : Text) (xs : List StoredSideShift)
    → IsDistinct xs
    → IsDistinct (without stored_shift_id id xs)
unfolding without
IsDistinct-without id [] h = tt
IsDistinct-without id (x ∷ xs) h = elim (Bool-cases (text_eq x.id id)) [
  | inl m ↦ rw (m, if◌then◌else◌) (IsDistinct-without id xs h.1)
  | inr m ↦
      rw (m, if◌then◌else◌)
        (
          All-without stored_shift_id (λ t. text_eq t.id x.id ≡ false) id xs h.0,
          IsDistinct-without id xs h.1,
        )
]

-- A file that reads as a log.
abbrev pub KeepsLog : Shifts → Type 0
KeepsLog file = Ensures IsLog (read_shifts file)

write_shifts-KeepsLog : (xs : List StoredSideShift) → IsDistinct xs → KeepsLog (write_shifts xs)
unfolding read_shifts write_shifts read_envelopes write_envelopes
write_shifts-KeepsLog xs h =
    let written = take_shifts 200 xs in
    (
      omega (arith, length-keep-le (λ s. ltb 0 (length s.id)) written, length-take 200 xs),
      IsDistinct-keep (λ s. ltb 0 (length s.id)) written (IsDistinct-take 200 xs h),
    )

-- What an operation leaves; one that throws leaves the file.
abbrev pub left : Result SdkError Shifts → Shifts → Shifts
left (ok file') file = file'
left (err e) file = file

pub data LogStep : Type 0 where
  saves : ℕ → StoredSideShift → LogStep
  updates : ℕ → Text → (StoredSideShift → StoredSideShift) → LogStep
  removes : Text → LogStep

abbrev pub step : LogStep → Shifts → Shifts
step (saves now s) file = left (save_shift now s file) file
step (updates now id patch) file = left (update_shift now id patch file) file
step (removes id) file = left (remove_shift id file) file

abbrev pub run : List LogStep → Shifts → Shifts
run [] file = file
run (x ∷ rest) file = run rest (step x file)

-- An update leaves every identifier.
All-update :
    (now : ℕ) (id other : Text) (patch : StoredSideShift → StoredSideShift)
    (xs : List StoredSideShift)
    → All (λ t. text_eq t.id other ≡ false) xs
    → All (λ t. text_eq t.id other ≡ false) (update_each now id patch xs)
unfolding update_each patched_shift
All-update now id other patch [] h = tt
All-update now id other patch (x ∷ xs) h = elim (Bool-cases (text_eq x.id id)) [
  | inl m ↦ rw (m, if◌then◌else◌) (h.0, All-update now id other patch xs h.1)
  | inr m ↦ rw (m, if◌then◌else◌) (h.0, All-update now id other patch xs h.1)
]

IsDistinct-update :
    (now : ℕ) (id : Text) (patch : StoredSideShift → StoredSideShift) (xs : List StoredSideShift)
    → IsDistinct xs
    → IsDistinct (update_each now id patch xs)
unfolding update_each patched_shift
IsDistinct-update now id patch [] h = tt
IsDistinct-update now id patch (x ∷ xs) h = elim (Bool-cases (text_eq x.id id)) [
  | inl m ↦
      rw (m, if◌then◌else◌)
        (All-update now id x.id patch xs h.0, IsDistinct-update now id patch xs h.1)
  | inr m ↦
      rw (m, if◌then◌else◌)
        (All-update now id x.id patch xs h.0, IsDistinct-update now id patch xs h.1)
]

logged :
    (file : Shifts) (xs : List StoredSideShift)
    → read_shifts file ≡ ok xs
    → KeepsLog file
    → IsLog xs
logged file xs e h = subst (Ensures IsLog) e h

kept_file :
    (id : Text) (now : ℕ) (patch : StoredSideShift → StoredSideShift) (b : Bool) (file : Shifts)
    (xs : List StoredSideShift)
    → IsDistinct xs
    → KeepsLog file
    → KeepsLog (if b then write_shifts (update_each now id patch xs) else file)
kept_file id now patch true file xs d h =
    write_shifts-KeepsLog (update_each now id patch xs) (IsDistinct-update now id patch xs d)
kept_file id now patch false file xs d h = h

kept_removed :
    (id : Text) (b : Bool) (file : Shifts) (xs : List StoredSideShift)
    → IsDistinct xs
    → KeepsLog file
    → KeepsLog (if b then write_shifts (without stored_shift_id id xs) else file)
kept_removed id true file xs d h =
    write_shifts-KeepsLog (without stored_shift_id id xs) (IsDistinct-without id xs d)
kept_removed id false file xs d h = h

saved_first :
    (now : ℕ) (s : StoredSideShift) (xs : List StoredSideShift)
    → IsDistinct xs
    → IsDistinct (with_times now s ∷ without stored_shift_id s.id xs)
unfolding with_times
saved_first now s xs d = (without-others stored_shift_id s.id xs, IsDistinct-without s.id xs d)

step-KeepsLog : (x : LogStep) (file : Shifts) → KeepsLog file → KeepsLog (step x file)
unfolding save_shift update_shift remove_shift
step-KeepsLog (saves now s) file h = elim (Result-cases (read_shifts file)) [
  | inr (x, e) ↦ rw (e, ◌>>=◌) h
  | inl (xs, e) ↦
      rw (e, ◌>>=◌)
        (write_shifts-KeepsLog _ (
          IsDistinct-take 200 (with_times now s ∷ without stored_shift_id s.id xs)
            (saved_first now s xs (logged file xs e h).1)))
]
step-KeepsLog (updates now id patch) file h = elim (Result-cases (read_shifts file)) [
  | inr (x, e) ↦ rw (e, ◌>>=◌) h
  | inl (xs, e) ↦
      rw (e, ◌>>=◌)
        (kept_file id now patch (any (λ s. text_eq s.id id) xs) file xs (logged file xs e h).1 h)
]
step-KeepsLog (removes id) file h = elim (Result-cases (read_shifts file)) [
  | inr (x, e) ↦ rw (e, ◌>>=◌) h
  | inl (xs, e) ↦
      rw (e, ◌>>=◌)
        (kept_removed id (not (length (without stored_shift_id id xs) == length xs)) file xs
          (logged file xs e h).1 h)
]

-- After any saves, updates and removals, in any order and also where one throws, a log that reads back
-- at most 200 shifts and no identifier twice still does so, if it did at first.
pub run-KeepsLog :
    (steps : List LogStep) (file : Shifts) → KeepsLog file → KeepsLog (run steps file)
run-KeepsLog [] file h = h
run-KeepsLog (x ∷ rest) file h = run-KeepsLog rest (step x file) (step-KeepsLog x file h)
