-- ===== src/Artifacts/Signing/Tokens.antt =====
-- What a token that verifies is, and when an issued one verifies.
use nipo_science.Artifacts.Downloads.{DownloadClaims, ServiceError, content, refused}
use nipo_science.Artifacts.Models.{
  download_expired, download_invalid, draft_eq, optional_uuid_eq, optional_version_eq, output_eq,
  reconciliation_eq, scope_eq, version_eq,
}
use nipo_science.Artifacts.Signing.{
  SigningCodec, decode_text, decoded, dot, encode, issue, put_before, rstrip, split_token, verify,
  verify_parts,
}
use nipo_science.Prelude.{
  >>=-eq-ok, Bool, Bool-cases, Bytes, Option, Result, Text, Timestamp, [], ap, arith, err, false,
  if◌then◌else◌, inl, inr, last, leb, mem, nat_eq, none, ok, ok-injective, optional_text_eq,
  raise_if, raise_if-eq-ok, refl, some, sym, text_eq, true, uuid_pair_eq, uuid_triple_eq, ℕ,
  ℕ_discrete, ◌!=◌, ◌++◌, ◌<◌, ◌==◌, ◌>>=◌, ◌>>◌, ◌||◌, ◌∙◌, ◌∷◌, ◌≡◌,
}

-- What the code relies on: base64 without its padding reads back and writes no dot, and the JSON of
-- claims reads back.
pub record IsSigningCodec (codec : SigningCodec) : Type 0 where
  pub decodes : (value : Bytes) → decode_text codec (encode codec value) ≡ some value
  pub undotted : (value : Bytes) → mem dot (codec.urlsafe_b64encode value) ≡ false
  pub reads_back :
      (claims : DownloadClaims) → codec.validate_json (codec.dump_json claims) ≡ some claims

rstrip_undotted : (text : Text) → mem dot text ≡ false → mem dot (rstrip text) ≡ false
unfolding rstrip mem
rstrip_undotted [] h = refl
rstrip_undotted (c ∷ text) h =
    let rest : mem dot text ≡ false = ground (arith, h) in
    let shorter = rstrip_undotted text rest in ground (arith, h, shorter)

-- The two parts of a token that has them.
abbrev parts_or : Text × Text → Option (Text × Text) → Text × Text
parts_or other none = other
parts_or other (some parts) = parts

-- A text without a dot is the first part of a token.
split_first :
    (payload signature : Text)
    → mem dot payload ≡ false
    → split_token (payload ++ dot ∷ signature) ≡ some (payload, signature)
unfolding split_token mem ℕ_discrete
split_first [] signature h = refl
split_first (c ∷ payload) signature h =
    let rest : mem dot payload ≡ false = ground (arith, h) in
    let later = split_first payload signature rest in
    let other : (c == dot) ≡ false = ground (arith, h) in rw (other, later) refl

before_parts :
    (c : ℕ) (o : Option (Text × Text)) {payload signature : Text}
    → put_before c o ≡ some (payload, signature)
    → (rest : Text) × (o ≡ some (rest, signature)) × (payload ≡ c ∷ rest)
before_parts c none h = absurd (cc h)
before_parts c (some (rest, s)) h =
    let same = ap (parts_or ([], [])) h in
    (rest, ap (λ x. some (rest, x)) (ap (λ x. x.1) same), sym (ap (λ x. x.0) same))

split_parts :
    (token : Text) {payload signature : Text}
    → split_token token ≡ some (payload, signature)
    → token ≡ payload ++ dot ∷ signature
unfolding split_token
split_parts [] h = absurd (cc h)
split_parts (c ∷ token) {payload} {signature} h = elim (Bool-cases (c == dot)) [
  | inl at_dot ↦
      let same = ap (parts_or ([], [])) (rw at_dot at h) in
      let dotted : c ≡ dot = ground (arith, at_dot) in
      rw (dotted, ← ap (λ x. x.0) same, ← ap (λ x. x.1) same) refl
  | inr other ↦
      let (rest, later, same) = before_parts c (split_token token) (rw other at h) in
      rw (same, split_parts token later) refl
]

module _ (codec : SigningCodec) where
  -- The signature that the signer writes for a payload.
  abbrev pub signature_of : Text → Text
  signature_of payload = encode codec (codec.hmac_digest (codec.utf8 payload))

  decoded-eq-ok :
      {A B : Type 0} (o : Option A) (next : A → Result ServiceError B) {b : B}
      → (decoded o >>= next) ≡ ok b
      → (a : A) × (o ≡ some a) × (next a ≡ ok b)
  decoded-eq-ok none next h = absurd (cc h)
  decoded-eq-ok (some a) next h = (a, refl, h)

  claims-eq-ok : {A : Type 0} (o : Option A) {a : A} → decoded o ≡ ok a → o ≡ some a
  claims-eq-ok none h = absurd (cc h)
  claims-eq-ok (some a) h = ap some (ok-injective h)

  parts-eq-ok :
      (payload supplied : Text) {c : DownloadClaims}
      → verify_parts codec payload supplied ≡ ok c
      → (supplied ≡ signature_of payload)
        × ((bytes : Bytes) × (encode codec bytes ≡ payload) × (codec.validate_json bytes ≡ some c))
  unfolding verify_parts
  parts-eq-ok payload supplied h =
      let (signature, signed, rest) = decoded-eq-ok (decode_text codec supplied) _ h in
      let (bytes, read, checks) = decoded-eq-ok (decode_text codec payload) _ rest in
      let (canonical, later) =
        raise_if-eq-ok (encode codec signature != supplied || encode codec bytes != payload)
          (refused download_invalid) _ checks in
      let (genuine, claims) =
        raise_if-eq-ok (signature != codec.hmac_digest (codec.utf8 payload))
          (refused download_invalid) _ later in
      let own : encode codec signature ≡ supplied = ground (arith, canonical) in
      let exact : encode codec bytes ≡ payload = ground (arith, canonical) in
      let mac : signature ≡ codec.hmac_digest (codec.utf8 payload) = ground (arith, genuine) in
      (
        sym own ∙ ap (encode codec) mac,
        (bytes, exact, claims-eq-ok (codec.validate_json bytes) claims),
      )

  -- A token that verifies has not reached its deadline on the milliseconds that the signer reads,
  -- and it is a payload with the signature that the signer writes for it: the claims that it gives
  -- are those of the payload.
  pub verify-eq-ok :
      (token : Text) (now : Timestamp) {c : DownloadClaims}
      → verify codec token now ≡ ok c
      → (payload : Text) × (token ≡ payload ++ dot ∷ signature_of payload)
        × ((bytes : Bytes) × (encode codec bytes ≡ payload) × (codec.validate_json bytes ≡ some c))
        × (codec.unix_ms now < c.expires_unix_ms)
  unfolding verify
  verify-eq-ok token now {c} h =
      let ((payload, supplied), split, rest) = decoded-eq-ok (split_token token) _ h in
      let (claims, read, last) = >>=-eq-ok (verify_parts codec payload supplied) _ rest in
      let (alive, same) =
        raise_if-eq-ok (leb claims.expires_unix_ms (codec.unix_ms now)) (refused download_expired) _
          last in
      let (signed, content) = parts-eq-ok payload supplied read in
      let own : claims ≡ c = ok-injective same in
      let early : codec.unix_ms now < claims.expires_unix_ms = ground (arith, alive) in
      (
        payload,
        split_parts token split ∙ ap (λ x. payload ++ dot ∷ x) signed,
        (content.0, content.1, content.2 ∙ ap some own),
        rw (← own) early,
      )

  module _ (law : IsSigningCodec codec) where
    unchanged : (b : Bytes) → ((encode codec b != encode codec b) ≡ false) × ((b != b) ≡ false)
    unchanged b = (ground arith, ground arith)

    parts_issued :
        (claims : DownloadClaims)
        → verify_parts codec
            (encode codec (codec.dump_json claims))
            (signature_of (encode codec (codec.dump_json claims)))
          ≡ ok claims
    unfolding verify_parts
    parts_issued claims =
        let body = codec.dump_json claims in
        let mac = codec.hmac_digest (codec.utf8 (encode codec body)) in
        rw (law.decodes mac) (
          rw (law.decodes body) (
            rw ((unchanged mac).0, (unchanged body).0)
              (rw ((unchanged mac).1) (rw (law.reads_back claims) refl))))

    expiry :
        (b : Bool) (e : ServiceError) (claims : DownloadClaims)
        → (raise_if b e >> ok claims) ≡ (if b then err e else ok claims)
    expiry true e claims = refl
    expiry false e claims = refl

    -- A token that was issued verifies for its claims while the milliseconds that the signer reads
    -- are before their deadline, and is expired otherwise.
    pub verify-issue :
        (claims : DownloadClaims) (now : Timestamp)
        → verify codec (issue codec claims) now ≡ (
            if leb claims.expires_unix_ms (codec.unix_ms now)
            then err (refused download_expired)
            else ok claims)
    unfolding verify issue encode
    verify-issue claims now =
        let payload = encode codec (codec.dump_json claims) in
        let undotted : mem dot payload ≡ false =
          rstrip_undotted (codec.urlsafe_b64encode (codec.dump_json claims))
            (law.undotted (codec.dump_json claims)) in
        rw (split_first payload (signature_of payload) undotted) (
          rw (parts_issued claims) (
            expiry (leb claims.expires_unix_ms (codec.unix_ms now)) (refused download_expired)
              claims))
