-- ===== src/Pubver/Jwt/Segments.antt =====
-- The three segments of a token, and the part of it that a signature covers.
use Prim.Native.String
use diasoft.Prelude.{
  String, Char, ◌≡◌, sym, ap, ◌∙◌, ◌↔◌, Option, none, some, List, [], ◌∷◌, true, ok, ◌==◌,
  Eq-string, eq_iff, bind_guard-ok, guard-ok, join, split, is_free, split-join, join-split,
  split-is_free, bind-ok, arith,
}
use diasoft.Pubver.Domain.{Error, foreign}
use diasoft.Pubver.Jwt.{
  Bytes, Codec, three, required, split_jwt, signing_input, decode_jwt_for_verification,
  decode_unverified_jwt_header, JwtHeader, parse_ed25519_public_key, verify_ed25519_jwt,
}

abbrev dot : Char
dot = "."

-- The token is made of these segments, none of which has a dot.
pub record IsToken (token head body signature : String) : Type 0 where
  pub joined : token ≡ join dot (head ∷ body ∷ signature ∷ [])
  pub free_head : is_free b'.' head ≡ true
  pub free_body : is_free b'.' body ≡ true
  pub free_signature : is_free b'.' signature ≡ true

three-some : (ps : List String) (a b c : String) → three ps ≡ some (a, b, c) → ps ≡ a ∷ b ∷ c ∷ []
three-some [] a b c h = absurd (ground arith)
three-some (x ∷ []) a b c h = absurd (ground arith)
three-some (x ∷ y ∷ []) a b c h = absurd (ground arith)
three-some (x ∷ y ∷ z ∷ []) a b c h = ground arith
three-some (x ∷ y ∷ z ∷ w ∷ ps) a b c h = absurd (ground arith)

required-ok : {A : Type 0} (o : Option A) (e : Error) {a : A} → required o e ≡ ok a → o ≡ some a
required-ok none e h = absurd (ground arith)
required-ok (some a) e h = ground arith

-- A token is split into three segments exactly where it is those segments joined by dots and none of
-- them has a dot.
split_jwt-IsToken :
    (token head body signature : String)
    → (split_jwt token ≡ ok (head, body, signature)) ↔ IsToken token head body signature
unfolding split_jwt
split_jwt-IsToken token head body signature = (
  λ h.
      let parts =
        three-some (split b'.' token) head body signature
          (required-ok (three (split b'.' token)) _ h) in
      let free = split-is_free b'.' token in
      record {
        joined = sym (join-split dot token) ∙ ap (join dot) parts;
        free_head = ground arith;
        free_body = ground arith;
        free_signature = ground arith;
      },
  λ t.
      let parts : split b'.' token ≡ head ∷ body ∷ signature ∷ [] =
        ap (split b'.') t.joined
        ∙ split-join dot head (body ∷ signature ∷ [])
            (ground (arith, t.free_head, t.free_body, t.free_signature)) in
      ground arith,
)

-- What a signed token is made of.
pub record IsSigned (c : Codec) (token public_key_value : String) : Type 0 where
  pub head : String
  pub body : String
  pub signature : String
  pub header : JwtHeader
  pub bytes : Bytes
  pub key : Bytes
  pub segments : IsToken token head body signature
  pub is_eddsa : header.alg ≡ "EdDSA"
  pub header_text : Bytes
  pub header_bytes : c.raw_url_base64 head ≡ some header_text
  pub header_of : c.json_header header_text ≡ some header
  pub signature_of : c.raw_url_base64 signature ≡ some bytes
  pub key_of : parse_ed25519_public_key c public_key_value ≡ ok key
  -- All that stands before the last dot.
  pub verifies : c.ed25519_verify key (String.◌++◌ head (String.◌++◌ "." body)) bytes ≡ true

-- A token verifies under a key only if it is three segments, the first of them reads as a header that
-- says EdDSA, and the third decodes to a signature of all that stands before the last dot, under that key.
pub verify_ed25519_jwt-IsSigned :
    (c : Codec) (token public_key_value : String)
    → verify_ed25519_jwt c token public_key_value ≡ ok tt
    → IsSigned c token public_key_value
unfolding verify_ed25519_jwt decode_jwt_for_verification decode_unverified_jwt_header
verify_ed25519_jwt-IsSigned c token value h =
    let ((header, input, bytes), decoded, h1) = bind-ok (decode_jwt_for_verification c token) _ h in
    let (eddsa, h2) = bind_guard-ok (header.alg == "EdDSA") _ _ h1 in
    let (key, parsed, h3) = bind-ok (parse_ed25519_public_key c value) _ h2 in
    let ((head, body, signature), parts, d1) = bind-ok (split_jwt token) _ decoded in
    let (header', read, d2) = bind-ok (decode_unverified_jwt_header c token) _ d1 in
    let ((head', body', signature'), parts', r1) = bind-ok (split_jwt token) _ read in
    let (text, text_of, r2) = bind-ok (required (c.raw_url_base64 head') foreign) _ r1 in
    let same_head : head' ≡ head = ground arith in
    let (bytes', based, d3) = bind-ok (required (c.raw_url_base64 signature) foreign) _ d2 in
    let same_header : header' ≡ header = ground arith in
    let same_input : signing_input head body ≡ input = ground arith in
    let same_bytes : bytes' ≡ bytes = ground arith in
    record {
      head = head;
      body = body;
      signature = signature;
      header = header;
      bytes = bytes;
      key = key;
      segments = (split_jwt-IsToken token head body signature).0 parts;
      is_eddsa = ground (arith, eq_iff header.alg "EdDSA");
      header_text = text;
      header_bytes =
          ap c.raw_url_base64 (sym same_head)
          ∙ required-ok (c.raw_url_base64 head') foreign text_of;
      header_of = required-ok (c.json_header text) foreign r2 ∙ ap some same_header;
      signature_of = required-ok (c.raw_url_base64 signature) foreign based ∙ ap some same_bytes;
      key_of = parsed;
      verifies =
          ap (λ i. c.ed25519_verify key i bytes) same_input
          ∙ guard-ok (c.ed25519_verify key input bytes) _ h3;
    }
