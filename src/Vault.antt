-- ===== src/Vault.antt =====
-- What the encrypted record stores share (src/convert/plan-store.ts, src/pending.ts): the file of
-- envelopes, and the library calls that seal one record. Sealing stands for JSON.stringify, the
-- UTF-8 encoder, AES-256-GCM (WebCrypto) and base64 (@scure/base) in a row, opening for their
-- inverses; the stores read them by the laws below alone.
pub mod Laws
pub mod Sample
use depix_sdk.Common.{
  ◌≡◌, Bool, true, false, Option, none, some, List, [], ◌∷◌, if◌then◌else◌, keep, find, not, Result,
  ok, err, length, ℕ,
}
use depix_sdk.Common.Text.{Text, text_eq}
use depix_sdk.Errors.{SdkError, platform_failure}

-- A key, an initialisation vector and associated data go into a seal; the vector is part of it.
pub record Vault (R : Type 0) : Type 1 where
  pub Key : Type 0
  pub Sealed : Type 0
  pub seal : Key → Text → Text → R → Sealed
  -- `none` is a call that throws: a tag that does not match, or a payload that does not parse.
  pub unseal : Key → Text → Sealed → Option R
  pub unseal-seal : (k : Key) (iv aad : Text) (r : R) → unseal k aad (seal k iv aad r) ≡ some r
  -- the tag authenticates the associated data
  pub unseal-aad :
      (k : Key) (iv aad aad' : Text) (r r' : R)
      → unseal k aad' (seal k iv aad r) ≡ some r'
      → aad' ≡ aad

-- The file of a store: not there, not readable, not JSON or of another shape, or parsed. What is
-- parsed has the expected format and version or not, and an array of records or not.
pub data StoreFile (E : Type 0) : Type 0 where
  missing unreadable malformed : StoreFile E
  parsed : Bool → Option (List E) → StoreFile E

module _ {E : Type 0} where
  -- `readEnvelopes()`.
  unfoldable pub read_envelopes : StoreFile E → Result SdkError (List E)
  read_envelopes missing = ok []
  read_envelopes unreadable = err platform_failure
  read_envelopes malformed = ok []
  read_envelopes (parsed false records) = ok []
  read_envelopes (parsed true none) = ok []
  read_envelopes (parsed true (some envelopes)) = ok envelopes

  -- `writeEnvelopes(envelopes)`: the file that it leaves.
  unfoldable pub write_envelopes : List E → StoreFile E
  write_envelopes envelopes = parsed true (some envelopes)

  -- `envelopes.find((e) => e.id === id)`.
  unfoldable pub locate : (E → Text) → Text → List E → Option E
  locate id_of id [] = none
  locate id_of id (e ∷ es) = if text_eq (id_of e) id then some e else locate id_of id es

  -- `envelopes.filter((e) => e.id !== id)`.
  unfoldable pub without : (E → Text) → Text → List E → List E
  without id_of id [] = []
  without id_of id (e ∷ es) =
      if text_eq (id_of e) id then without id_of id es else e ∷ without id_of id es

  -- `envelopes[idx] = e`, at the index that `findIndex` gives for the id.
  unfoldable pub replace_first : (E → Text) → Text → E → List E → List E
  replace_first id_of id e' [] = []
  replace_first id_of id e' (e ∷ es) =
      if text_eq (id_of e) id then e' ∷ es else e ∷ replace_first id_of id e' es
