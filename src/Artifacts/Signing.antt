-- ===== src/Artifacts/Signing.antt =====
-- services/api/artifacts/signing.py: the signer of downloads. Base64, HMAC under the signing key,
-- the JSON of claims and the reading of a time in milliseconds are parameters; a text that does not
-- decode is the error that `verify` catches.
pub mod Tokens
pub mod Redeemed
use nipo_science.Artifacts.Downloads.{DownloadClaims, ServiceError, refused}
use nipo_science.Artifacts.Models.{
  download_expired, download_invalid, draft_eq, optional_uuid_eq, optional_version_eq, output_eq,
  reconciliation_eq, scope_eq, version_eq,
}
use nipo_science.Prelude.{
  Bytes, Option, Result, Text, Timestamp, [], err, if◌then◌else◌, leb, length, nat_eq, none, ok,
  optional_text_eq, raise_if, some, suc, text_eq, uuid_pair_eq, uuid_triple_eq, zero, ℕ, ◌!=◌, ◌%◌,
  ◌&&◌, ◌++◌, ◌-◌, ◌==◌, ◌>>=◌, ◌>>◌, ◌||◌, ◌∷◌,
}

-- `base64.urlsafe_b64encode`, `base64.b64decode`, `str.encode`, `hmac.digest` under the key, the
-- JSON of claims, and `int(now.timestamp() * 1_000)`, which goes through floating point.
pub record SigningCodec : Type 0 where
  pub urlsafe_b64encode : Bytes → Text
  pub b64decode : Text → Option Bytes
  pub utf8 : Text → Bytes
  pub hmac_digest : Bytes → Bytes
  pub dump_json : DownloadClaims → Bytes
  pub validate_json : Bytes → Option DownloadClaims
  pub unix_ms : Timestamp → ℕ

abbrev pub equals_sign : ℕ
equals_sign = 61

abbrev pub dot : ℕ
dot = 46

-- `value.rstrip(b"=")`
unfoldable pub rstrip : Text → Text
rstrip [] = []
rstrip (c ∷ text) =
    let rest = rstrip text in if c == equals_sign && rest == [] then [] else c ∷ rest

-- `"=" * count`
unfoldable pub equals_signs : ℕ → Text
equals_signs zero = []
equals_signs (suc count) = equals_sign ∷ equals_signs count

-- `-length % 4`
unfoldable pub missing : ℕ → ℕ
missing n = (4 - n % 4) % 4

-- The text before the first dot and the text after it.
abbrev pub put_before : ℕ → Option (Text × Text) → Option (Text × Text)
put_before c none = none
put_before c (some (payload, signature)) = some (c ∷ payload, signature)

-- `token.split(".", maxsplit=1)`, when it has two parts.
unfoldable pub split_token : Text → Option (Text × Text)
split_token [] = none
split_token (c ∷ text) =
    let rest = split_token text in if c == dot then some ([], text) else put_before c rest

abbrev pub decoded : {A : Type 0} → Option A → Result ServiceError A
decoded none = err (refused download_invalid)
decoded (some value) = ok value

module _ (codec : SigningCodec) where
  -- `_encode` and `_decode`
  unfoldable pub encode : Bytes → Text
  encode value = rstrip (codec.urlsafe_b64encode value)

  unfoldable pub decode_text : Text → Option Bytes
  decode_text value = codec.b64decode (value ++ equals_signs (missing (length value)))

  unfoldable pub issue : DownloadClaims → Text
  issue claims =
      let payload = encode (codec.dump_json claims) in
      payload ++ dot ∷ encode (codec.hmac_digest (codec.utf8 payload))

  -- The checks of `verify` on the two parts of a token.
  unfoldable pub verify_parts : Text → Text → Result ServiceError DownloadClaims
  verify_parts payload supplied_signature = do
    supplied ← decoded (decode_text supplied_signature)
    decoded_payload ← decoded (decode_text payload)
    raise_if (encode supplied != supplied_signature || encode decoded_payload != payload)
        (refused download_invalid)
    raise_if (supplied != codec.hmac_digest (codec.utf8 payload)) (refused download_invalid)
    decoded (codec.validate_json decoded_payload)

  unfoldable pub verify : Text → Timestamp → Result ServiceError DownloadClaims
  verify token now = do
    (payload, supplied_signature) ← decoded (split_token token)
    claims ← verify_parts payload supplied_signature
    raise_if (leb claims.expires_unix_ms (codec.unix_ms now)) (refused download_expired)
    ok claims
