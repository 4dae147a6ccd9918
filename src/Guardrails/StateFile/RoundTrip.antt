-- ===== src/Guardrails/StateFile/RoundTrip.antt =====
-- What is written is read back.
use depix_sdk.Common.{
  ◌≤◌, ◌≡◌, refl, Bool, true, Option, none, some, List, [], ◌∷◌, arith, All, ◌<◌, ◌++◌, inl, inr,
  Option-cases, leb, Bool-cases, leb→le, subst, sym,
}
use depix_sdk.Common.Text.{Text}
use depix_sdk.Common.Js.{
  max_safe_integer, is_finite, all_finite, items_finite, Json, Items, Fields, arr, obj, null, nil,
  cons, get_field,
}
use depix_sdk.Crypto.{Platform}
use depix_sdk.Guardrails.StateFile.{
  StateEntry, State, entry_of, entries_of, state_of, entry_json, entries_json, state_json,
  decrypt_state, encrypt_state, parse_state, state_text, read_state, plaintext, state_aad,
  DecryptResult, malformed, auth,
}

-- An amount that `recordSpend` accepts.
abbrev pub IsAmount : StateEntry → Type 0
IsAmount e = (0 < e.brl_cents) × (e.brl_cents ≤ max_safe_integer)

-- What is written of a label, if there is one.
abbrev pub kind_finite : Option Json → Bool
kind_finite none = true
kind_finite (some k) = all_finite k

-- The timestamp is a finite number, and so is every number in the label: JSON keeps the entry.
abbrev pub IsKept : StateEntry → Type 0
IsKept e = (is_finite e.ts ≡ true) × (kind_finite e.kind ≡ true)

all_finite-entry_json : (e : StateEntry) → IsKept e → all_finite (entry_json e) ≡ true
unfolding entry_json all_finite
all_finite-entry_json e h = elim (Option-cases e.kind) [
  | inl none_there ↦ ground (arith, h, none_there)
  | inr (k, there) ↦ ground (arith, h, there)
]

items_finite-entries_json :
    (es : List StateEntry) → All IsKept es → items_finite (entries_json es) ≡ true
unfolding entries_json all_finite
items_finite-entries_json [] h = refl
items_finite-entries_json (e ∷ es) h =
    ground (arith, all_finite-entry_json e h.0, items_finite-entries_json es h.1)

all_finite-state_json : (s : State) → All IsKept s.entries → all_finite (state_json s) ≡ true
unfolding state_json all_finite
all_finite-state_json s h = ground (arith, items_finite-entries_json s.entries h)

entry_of-entry_json : (e : StateEntry) → IsAmount e → entry_of (entry_json e) ≡ some e
unfolding entry_of entry_json
entry_of-entry_json e h = ground arith

entries_of-entries_json :
    (es : List StateEntry) → All IsAmount es → entries_of (entries_json es) ≡ es
unfolding entries_of entries_json
entries_of-entries_json [] h = refl
entries_of-entries_json (e ∷ es) h =
    ground (arith, entry_of-entry_json e h.0, entries_of-entries_json es h.1)

state_of-state_json :
    (s : State)
    → All IsAmount s.entries
    → s.epoch ≤ max_safe_integer
    → state_of (state_json s) ≡ some s
unfolding state_of state_json
state_of-state_json s h b = ground (arith, entries_of-entries_json s.entries h)

module _ (p : Platform) where
  decrypt_state-encrypt_state :
      (key : p.Key) (iv : p.Bytes) (s : Text)
      → decrypt_state p (p.stringify (encrypt_state p s key iv) ++ b'\n' ∷ []) key ≡ plaintext s
  unfolding decrypt_state encrypt_state all_finite
  decrypt_state-encrypt_state key iv s = ground (
    arith,
    p.parse-line (encrypt_state p s key iv) refl,
    p.decode-encode iv,
    p.decode-encode (p.encrypt key iv state_aad s),
    p.decrypt-encrypt key iv state_aad s,
  )

  -- A window that `recordSpend` writes is read back whole, under any key and initialisation vector, if
  -- its amounts are positive safe integers, its timestamps and the numbers in its labels are finite,
  -- and its epoch is a safe integer.
  pub read_state-state_text :
      (key : p.Key) (iv : p.Bytes) (s : State)
      → All IsAmount s.entries
      → All IsKept s.entries
      → s.epoch ≤ max_safe_integer
      → read_state p key (state_text p key iv s) ≡ some s
  unfolding read_state state_text parse_state
  read_state-state_text key iv s h k b = ground (
    arith,
    decrypt_state-encrypt_state key iv (p.stringify (state_json s)),
    p.parse-stringify (state_json s) (all_finite-state_json s k),
    state_of-state_json s h b,
  )

entry_of-IsAmount : (j : Json) (e : StateEntry) → entry_of j ≡ some e → IsAmount e
unfolding entry_of
entry_of-IsAmount (obj fs) e h = ground arith
entry_of-IsAmount null e h = cc
entry_of-IsAmount _ e h = cc

entries_of-IsAmount : (js : Items) → All IsAmount (entries_of js)
unfolding entries_of
entries_of-IsAmount nil = tt
entries_of-IsAmount (cons j js) = elim (Option-cases (entry_of j)) [
  | inl e ↦ rw (e, entries_of) (entries_of-IsAmount js)
  | inr (x, e) ↦ rw (e, entries_of) (entry_of-IsAmount j x e, entries_of-IsAmount js)
]

-- The items of a field that is an array.
abbrev items_of : Option Json → Items
items_of (some (arr items)) = items
items_of _ = nil

state_of-entries :
    (fs : Fields) (s : State)
    → state_of (obj fs) ≡ some s
    → s.entries ≡ entries_of (items_of (get_field "entries" fs))
unfolding state_of
state_of-entries fs s h = ground arith

state_of-IsAmount : (j : Json) (s : State) → state_of j ≡ some s → All IsAmount s.entries
unfolding state_of
state_of-IsAmount (obj fs) s h =
    subst (All IsAmount) (sym (state_of-entries fs s h)) (entries_of-IsAmount _)
state_of-IsAmount null s h = cc
state_of-IsAmount _ s h = cc

state_of_unsafe : (s : State) → max_safe_integer < s.epoch → state_of (state_json s) ≡ none
unfolding state_of state_json
state_of_unsafe s h = ground arith

module _ (p : Platform) where
  parse_state-IsAmount :
      (raw : Text) (s : State) → parse_state p raw ≡ some s → All IsAmount s.entries
  unfolding parse_state
  parse_state-IsAmount raw s h = elim (Option-cases (p.parse raw)) [
    | inl e ↦ absurd (cc (rw (e, parse_state) at h))
    | inr (j, e) ↦ state_of-IsAmount j s (ground arith)
  ]

  -- Every amount of a file that opens is a positive safe integer.
  pub read_state-IsAmount :
      (key : p.Key) (raw : Text) (s : State)
      → read_state p key raw ≡ some s
      → All IsAmount s.entries
  unfolding read_state
  read_state-IsAmount key raw s h = go (decrypt_state p raw key) refl
    where
      go : (r : DecryptResult) → decrypt_state p raw key ≡ r → All IsAmount s.entries
      go (plaintext text) e = parse_state-IsAmount text s (ground arith)
      go malformed e = absurd (ground arith)
      go auth e = absurd (ground arith)

  read_state_unsafe :
      (key : p.Key) (iv : p.Bytes) (s : State)
      → All IsKept s.entries
      → max_safe_integer < s.epoch
      → read_state p key (state_text p key iv s) ≡ none
  unfolding read_state state_text parse_state
  read_state_unsafe key iv s k h = ground (
    arith,
    decrypt_state-encrypt_state p key iv (p.stringify (state_json s)),
    p.parse-stringify (state_json s) (all_finite-state_json s k),
    state_of_unsafe s h,
  )

  -- A written file opens to what was written, or to nothing once the epoch is no safe integer.
  pub read_state-written :
      (key : p.Key) (iv : p.Bytes) (s t : State)
      → All IsAmount s.entries
      → All IsKept s.entries
      → read_state p key (state_text p key iv s) ≡ some t
      → t ≡ s
  read_state-written key iv s t h k e = elim (Bool-cases (leb s.epoch max_safe_integer)) [
    | inl small ↦ cc (read_state-state_text p key iv s h k (leb→le _ _ small))
    | inr large ↦ cc (read_state_unsafe key iv s k (ground arith))
  ]
