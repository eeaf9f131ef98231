-- ===== src/Gateway/Sealing/Opening.antt =====
-- What is sealed can be opened.
use diasoft.Prelude.{
  ◌+◌, String, ◌≡◌, refl, sym, ap, ◌∙◌, some, [], ◌∷◌, ◌++◌, ok, length, length-append, take, drop,
  bind-ok, Eq-nat, arith,
}
use diasoft.Gateway.Sealing.{
  Bytes, Suite, without_prefix, nonce_size, seal_bytes, open_bytes, seal, opened,
}

-- What the packages document: base64 reads back what it wrote, and a sealed text opens under its key and
-- nonce.
pub record SuiteLaws (s : Suite) : Type 0 where
  pub reads : (b : Bytes) → s.decode_base64 (s.encode_base64 b) ≡ some b
  pub opens :
      (key nonce plaintext : Bytes)
      → s.gcm_open key nonce (s.gcm_seal key nonce plaintext) ≡ some plaintext

take-append : (xs ys : Bytes) → take (length xs) (xs ++ ys) ≡ xs
take-append [] ys = refl
take-append (x ∷ xs) ys = ap (◌∷◌ x) (take-append xs ys)

drop-append : (xs ys : Bytes) → drop (length xs) (xs ++ ys) ≡ ys
drop-append [] ys = refl
drop-append (x ∷ xs) ys = drop-append xs ys

module _ (s : Suite) (laws : SuiteLaws s) (key nonce plaintext : Bytes)
    (size : length nonce ≡ nonce_size) where
  pub open_bytes-seal_bytes :
      (short : String) (raw : Bytes)
      → seal_bytes s key (some nonce) plaintext ≡ ok raw
      → open_bytes s key short raw ≡ ok plaintext
  unfolding seal_bytes open_bytes
  open_bytes-seal_bytes short raw h =
      let sealed = s.gcm_seal key nonce plaintext in
      let is_raw : nonce ++ sealed ≡ raw = ground arith in
      let front : take nonce_size raw ≡ nonce =
        sym (ap (take nonce_size) is_raw)
        ∙ ap (λ n. take n (nonce ++ sealed)) (sym size)
        ∙ take-append nonce sealed in
      let back : drop nonce_size raw ≡ sealed =
        sym (ap (drop nonce_size) is_raw)
        ∙ ap (λ n. drop n (nonce ++ sealed)) (sym size)
        ∙ drop-append nonce sealed in
      let long : length raw ≡ 12 + length sealed =
        sym (ap (λ b. length b) is_raw)
        ∙ length-append nonce sealed
        ∙ ap (λ n. n + length sealed) size in
      let opens : s.gcm_open key (take nonce_size raw) (drop nonce_size raw) ≡ some plaintext =
        rw (front, back) (laws.opens key nonce plaintext) in
      ground arith

  -- If the packages keep their laws, KeyEncryptor opens what it sealed with a nonce of the size
  -- of GCM.
  pub opened-seal :
      (value : String)
      → seal s key (some nonce) plaintext ≡ ok value
      → opened s key value ≡ ok plaintext
  unfolding seal opened without_prefix
  opened-seal value h =
      let (raw, sealed, h1) = bind-ok (seal_bytes s key (some nonce) plaintext) _ h in
      let opens = open_bytes-seal_bytes "sealed payload is too short" raw sealed in
      ground (arith, laws.reads raw)
