-- ===== src/Crypto.antt =====
-- The platform and library calls around encrypted files: base64 (@scure/base), AES-256-GCM
-- (WebCrypto), JSON.stringify and JSON.parse. The code reads them by these laws alone.
pub mod Sample
use depix_sdk.Common.{◌≡◌, Option, some, true, List, ◌++◌, [], ◌∷◌}
use depix_sdk.Common.Text.{Text}
use depix_sdk.Common.Js.{Json, all_finite}

pub record Platform : Type 1 where
  pub Key : Type 0
  pub Bytes : Type 0
  pub encode : Bytes → Text
  pub decode : Text → Option Bytes
  pub stringify : Json → Text
  pub parse : Text → Option Json
  -- key, iv, associated data, plaintext
  pub encrypt : Key → Bytes → Text → Text → Bytes
  -- key, iv, associated data, ciphertext; `none` is a tag that does not match
  pub decrypt : Key → Bytes → Text → Bytes → Option Text
  pub decode-encode : (b : Bytes) → decode (encode b) ≡ some b
  -- numbers that are not finite are written as null, so nothing is said of them
  pub parse-stringify : (j : Json) → all_finite j ≡ true → parse (stringify j) ≡ some j
  -- a line feed behind a value is white space
  pub parse-line : (j : Json) → all_finite j ≡ true → parse (stringify j ++ b'\n' ∷ []) ≡ some j
  pub decrypt-encrypt :
      (k : Key) (iv : Bytes) (aad s : Text) → decrypt k iv aad (encrypt k iv aad s) ≡ some s
  -- the tag authenticates the associated data
  pub decrypt-aad :
      (k : Key) (iv : Bytes) (aad aad' s s' : Text)
      → decrypt k iv aad' (encrypt k iv aad s) ≡ some s'
      → aad' ≡ aad
