-- ===== src/Gateway/QrCodec/Round.antt =====
-- What is sealed into a QR code is read back from it.
use diasoft.Prelude.{String, ◌≡◌, some, ok, length, trim_space, trim_space_twice, bind-ok, arith}
use diasoft.Gateway.Sealing.{Bytes, Suite, nonce_size, seal_bytes}
use diasoft.Gateway.Sealing.Opening.{SuiteLaws, open_bytes-seal_bytes}
use diasoft.Gateway.QrCodec.{QrClaims, Reader, normalized, seal, opened}

normalized_twice : (c : QrClaims) → normalized (normalized c) ≡ normalized c
unfolding normalized
normalized_twice c = ground (arith, trim_space_twice c.full_name, trim_space_twice c.student_name)

-- A QR payload opens as the claims that were sealed, with their names trimmed and completed, if
-- the packages keep their laws, the nonce has the size of GCM, base64 writes no spaces, and JSON
-- reads back the claims.
pub opened-seal_claims :
    (s : Suite) (r : Reader) (key nonce : Bytes) (claims : QrClaims) (value : String)
    → SuiteLaws s
    → length nonce ≡ nonce_size
    → ((b : Bytes) → trim_space (s.encode_base64 b) ≡ s.encode_base64 b)
    → r.unmarshal (r.marshal (normalized claims)) ≡ some (normalized claims)
    → seal s r key (some nonce) claims ≡ ok value
    → opened s r key value ≡ ok (normalized claims)
unfolding seal opened
opened-seal_claims s r key nonce claims value laws size no_space json h =
    let plaintext = r.marshal (normalized claims) in
    let (raw, sealed, h1) = bind-ok (seal_bytes s key (some nonce) plaintext) _ h in
    let opens =
      open_bytes-seal_bytes s laws key nonce plaintext size "encrypted qr payload is too short" raw
        sealed in
    ground (arith, laws.reads raw, no_space raw, json, normalized_twice claims)
