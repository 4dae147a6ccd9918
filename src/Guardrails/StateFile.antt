-- ===== src/Guardrails/StateFile.antt =====
-- src/guardrails/state-crypto.ts and the state file of src/guardrails/guardrails.ts: how the rolling
-- window is written, and how a file that may have been tampered with is read.
pub mod RoundTrip
use Prim.Native.String.{String}
use depix_sdk.Common.{
  ℕ, suc, ◌+◌, Bool, true, false, Option, none, some, List, [], ◌∷◌, ◌++◌, if◌then◌else◌, keep, leb,
  ◌==◌, ◌&&◌,
}
use depix_sdk.Common.Text.{Text, codes}
use depix_sdk.Common.Js.{
  JsNumber, pos, negsuc, above, below, nan, infinity, neg_infinity, positive_safe, natural_safe,
  Json, Items, Fields, num, str, arr, obj, nil, cons, end, field, get_field,
}
use depix_sdk.Crypto.{Platform}

pub record StateEntry : Type 0 where
  pub ts : JsNumber
  pub brl_cents : ℕ
  pub kind : Option Json

pub record State : Type 0 where
  pub epoch : ℕ
  pub entries : List StateEntry

abbrev pub state_aad : Text
state_aad = codes "depix-sdk-guardrails-state-v1"

-- `typeof e?.ts === "number" && Number.isSafeInteger(e.brlCents) && e.brlCents > 0`, and then `e`.
unfoldable pub entry_of : Json → Option StateEntry
entry_of (obj fs) = elim (get_field "ts" fs) [
  | some (num ts) ↦ elim (get_field "brlCents" fs) [
    | some (num cents) ↦ elim (positive_safe cents) [
      | some n ↦ some (record { ts = ts; brl_cents = n; kind = get_field "kind" fs })
      | none ↦ none
    ]
    | _ ↦ none
  ]
  | _ ↦ none
]
entry_of _ = none

unfoldable pub entries_of : Items → List StateEntry
entries_of nil = []
entries_of (cons j rest) = elim (entry_of j) [
  | some e ↦ e ∷ entries_of rest
  | none ↦ entries_of rest
]

-- `parsed.version !== STATE_VERSION`, with the version 2.
abbrev pub is_version_2 : Option Json → Bool
is_version_2 (some (num (pos v))) = v == 2
is_version_2 _ = false

-- The checks of `parseState` on what JSON.parse returned.
unfoldable pub state_of : Json → Option State
state_of (obj fs) =
    if is_version_2 (get_field "version" fs)
    then elim (get_field "epoch" fs) [
      | some (num v) ↦ elim (natural_safe v) [
        | some epoch ↦ elim (get_field "entries" fs) [
          | some (arr items) ↦ some (record { epoch = epoch; entries = entries_of items })
          | _ ↦ none
        ]
        | none ↦ none
      ]
      | _ ↦ none
    ]
    else none
state_of _ = none

-- JSON.stringify leaves out a field that is undefined.
unfoldable pub entry_json : StateEntry → Json
entry_json e = obj (
    field (codes "ts") (num e.ts) (
      field (codes "brlCents") (num (pos e.brl_cents))
        (elim e.kind [ some k ↦ field (codes "kind") k end | none ↦ end ])))

unfoldable pub entries_json : List StateEntry → Items
entries_json [] = nil
entries_json (e ∷ es) = cons (entry_json e) (entries_json es)

unfoldable pub state_json : State → Json
state_json s = obj (
    field (codes "version") (num (pos 2)) (
      field (codes "epoch") (num (pos s.epoch))
        (field (codes "entries") (arr (entries_json s.entries)) end)))

pub data DecryptResult : Type 0 where
  plaintext : Text → DecryptResult
  malformed auth : DecryptResult

module _ (p : Platform) where
  -- `encryptState`, as the text of the envelope.
  unfoldable pub encrypt_state : Text → p.Key → p.Bytes → Json
  encrypt_state s key iv = obj (
      field (codes "v") (num (pos 1)) (
        field (codes "iv") (str (p.encode iv))
          (field (codes "ct") (str (p.encode (p.encrypt key iv state_aad s))) end)))

  unfoldable pub open_bytes : p.Key → Option p.Bytes → Option p.Bytes → DecryptResult
  open_bytes key (some iv) (some ct) = elim (p.decrypt key iv state_aad ct) [
    | some s ↦ plaintext s
    | none ↦ auth
  ]
  open_bytes key _ _ = malformed

  unfoldable pub open_envelope : p.Key → Fields → DecryptResult
  unfolding open_bytes
  open_envelope key fs = elim (get_field "v" fs) [
    | some (num (pos v)) ↦
        if v == 1
        then elim (get_field "iv" fs) [
          | some (str iv) ↦ elim (get_field "ct" fs) [
            | some (str ct) ↦ open_bytes key (p.decode iv) (p.decode ct)
            | _ ↦ malformed
          ]
          | _ ↦ malformed
        ]
        else malformed
    | _ ↦ malformed
  ]

  -- `decryptState`.
  unfoldable pub decrypt_state : Text → p.Key → DecryptResult
  unfolding open_envelope
  decrypt_state raw key = elim (p.parse raw) [
    | some (obj fs) ↦ open_envelope key fs
    | _ ↦ malformed
  ]

  -- `parseState`.
  unfoldable pub parse_state : Text → Option State
  parse_state s = elim (p.parse s) [ some j ↦ state_of j | none ↦ none ]

  -- The text that `recordSpend` writes.
  unfoldable pub state_text : p.Key → p.Bytes → State → Text
  state_text key iv s =
      p.stringify (encrypt_state (p.stringify (state_json s)) key iv) ++ b'\n' ∷ []

  -- A state file as `loadWindow` opens it: authenticated and well formed, or nothing.
  unfoldable pub read_state : p.Key → Text → Option State
  read_state key raw = elim (decrypt_state raw key) [
    | plaintext s ↦ parse_state s
    | malformed ↦ none
    | auth ↦ none
  ]
