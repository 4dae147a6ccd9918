-- ===== src/Sideshift/Log.antt =====
-- src/convert/sideshift-store.ts: the log of shifts. An operation takes the file as it finds it and
-- gives the file that it leaves; the store's mutex makes each of them one step.
pub mod Distinct
mod Tests
use depix_sdk.Common.{
  ℕ, zero, suc, Bool, true, false, Option, none, some, List, [], ◌∷◌, if◌then◌else◌, Result, ok,
  err, ◌>>=◌, ◌==◌, ltb, not, any, map, keep, find, length,
}
use depix_sdk.Common.Text.{Text, text_eq}
use depix_sdk.Errors.{SdkError}
use depix_sdk.Vault.{StoreFile, read_envelopes, write_envelopes, locate, without}

pub data ShiftType : Type 0 where
  shift_send shift_receive : ShiftType

-- Every shift is in USDT. A field that may be absent or null is an option.
pub record StoredSideShift : Type 0 where
  pub id : Text
  pub type : ShiftType
  pub network : Text
  pub deposit_address : Text
  pub settle_address : Text
  pub refund_address : Option Text
  pub status : Text
  pub deposit_amount : Option Text
  pub settle_amount : Option Text
  pub liquid_txid : Option Text
  pub expires_at : Option ℕ
  pub created_at : ℕ
  pub updated_at : ℕ

abbrev pub max_stored_shifts : ℕ
max_stored_shifts = 200

abbrev pub Shifts : Type 0
Shifts = StoreFile StoredSideShift

abbrev pub stored_shift_id : StoredSideShift → Text
stored_shift_id s = s.id

-- `shifts.slice(0, n)`.
unfoldable pub take_shifts : ℕ → List StoredSideShift → List StoredSideShift
take_shifts zero xs = []
take_shifts (suc n) [] = []
take_shifts (suc n) (x ∷ xs) = x ∷ take_shifts n xs

unfoldable pub read_shifts : Shifts → Result SdkError (List StoredSideShift)
read_shifts file = do shifts ← read_envelopes file; ok (keep (λ s. ltb 0 (length s.id)) shifts)

unfoldable pub write_shifts : List StoredSideShift → Shifts
write_shifts shifts = write_envelopes (take_shifts max_stored_shifts shifts)

-- `shift.createdAt || now`, and the same for the time of the update.
unfoldable pub with_times : ℕ → StoredSideShift → StoredSideShift
with_times now s = record s {
  created_at = if s.created_at == 0 then now else s.created_at;
  updated_at = if s.updated_at == 0 then now else s.updated_at;
}

-- `save(shift)`.
unfoldable pub save_shift : ℕ → StoredSideShift → Shifts → Result SdkError Shifts
save_shift now shift file = do
  shifts ← read_shifts file
  ok (
      write_shifts (
        take_shifts max_stored_shifts
          (with_times now shift ∷ without stored_shift_id shift.id shifts)))

-- `{ ...s, ...patch, id: s.id, updatedAt: now }`.
unfoldable pub patched_shift :
    ℕ → (StoredSideShift → StoredSideShift) → StoredSideShift → StoredSideShift
patched_shift now patch s = record (patch s) { id = s.id; updated_at = now }

unfoldable pub update_each :
    ℕ → Text → (StoredSideShift → StoredSideShift) → List StoredSideShift → List StoredSideShift
update_each now id patch [] = []
update_each now id patch (s ∷ rest) =
    (if text_eq s.id id then patched_shift now patch s else s) ∷ update_each now id patch rest

-- `update(id, patch)`.
unfoldable pub update_shift :
    ℕ → Text → (StoredSideShift → StoredSideShift) → Shifts → Result SdkError Shifts
update_shift now id patch file = do
  shifts ← read_shifts file
  ok (
      if any (λ s. text_eq s.id id) shifts
      then write_shifts (update_each now id patch shifts)
      else file)

-- `get(id)`.
unfoldable pub get_shift : Text → Shifts → Result SdkError (Option StoredSideShift)
get_shift id file = do shifts ← read_shifts file; ok (locate stored_shift_id id shifts)

-- `remove(id)`.
unfoldable pub remove_shift : Text → Shifts → Result SdkError Shifts
remove_shift id file = do
  shifts ← read_shifts file
  let next = without stored_shift_id id shifts
  ok (if not (length next == length shifts) then write_shifts next else file)
