-- ===== src/Local/Secrets/Laws.antt =====
-- The sealed columns of the operator's database (internal/store/local/crypto.go).
use ovpn.Prelude.{
  subst, ◌≡◌, refl, ap, ◌⊎◌, inl, inr, true, false, Option, none, some, [], ◌∷◌, ◌++◌, Text, Result,
  ok, err, arith, length, ltb, Bool-cases, length-append,
}
use ovpn.Strings.{has_prefix, is_blank}
use ovpn.Model.Profile.{trim_prefix}
use ovpn.Local.Secrets.{
  Bytes, Codec, Aead, IsSound, KeySource, take, drop, field_prefix, load_secret_key,
  encrypt_sensitive_field, decrypt_sensitive_field, parse_secret_key, key_length, open_payload,
  opened, encrypt_under,
}

take-append : (xs ys : Bytes) → take (length xs) (xs ++ ys) ≡ xs
unfolding take
take-append [] ys = refl
take-append (x ∷ xs) ys = ap (λ t. x ∷ t) (take-append xs ys)

drop-append : (xs ys : Bytes) → drop (length xs) (xs ++ ys) ≡ ys
unfolding drop
drop-append [] ys = refl
drop-append (x ∷ xs) ys = drop-append xs ys

prefixed : (t : Text) → has_prefix (field_prefix ++ t) field_prefix ≡ true
unfolding has_prefix
prefixed t = refl

trim_prefixed : (t : Text) → trim_prefix (field_prefix ++ t) field_prefix ≡ t
unfolding trim_prefix has_prefix
trim_prefixed t = refl

module _ (x : Codec) (a : Aead) (k : KeySource) where
  -- A parsed key has the 32 bytes that AES-256 takes.
  pub parse_secret_key-length :
      (raw : Text) (key : Bytes) → parse_secret_key x raw ≡ ok key → length key ≡ key_length
  unfolding parse_secret_key
  parse_secret_key-length raw key h = ground arith

  not_shorter : (xs ys : Bytes) → ltb (length (xs ++ ys)) (length xs) ≡ false
  not_shorter xs ys = ground (arith, length-append xs ys)

  open_payload-append :
      (key nonce c : Bytes)
      → length nonce ≡ a.nonce_size
      → open_payload x a key (ok (nonce ++ c)) ≡ opened x a (a.open_sealed key nonce c)
  open_payload-append key nonce c size =
      rw (← size, not_shorter nonce c, take-append nonce c, drop-append nonce c) refl

  -- What a key and a nonce sealed is opened under the same key.
  sealed_opens :
      (s : IsSound x a) (key nonce : Bytes) (plain : Text)
      → load_secret_key x k ≡ ok (some key)
      → length nonce ≡ a.nonce_size
      → decrypt_sensitive_field x a k
          (field_prefix ++ x.encode_raw (nonce ++ a.seal key nonce plain))
        ≡ ok plain
  unfolding decrypt_sensitive_field
  sealed_opens s key nonce plain configured size =
      let t = x.encode_raw (nonce ++ a.seal key nonce plain) in
      rw
        (
          prefixed t,
          configured,
          trim_prefixed t,
          s.decode-encode (nonce ++ a.seal key nonce plain),
          open_payload-append key nonce (a.seal key nonce plain) size,
          s.open-seal key nonce plain size,
        )
        refl

  unsealed_opens :
      (plain : Text)
      → has_prefix plain field_prefix ≡ false
      → decrypt_sensitive_field x a k plain ≡ ok plain
  unfolding decrypt_sensitive_field
  unsealed_opens plain h = rw h refl

  sealed_cases :
      (r : Result (Option Bytes)) (plain stored : Text) (nonce : Bytes)
      → encrypt_under x a r plain (ok nonce) ≡ ok stored
      → (plain ≡ stored)
        ⊎ ((key : Bytes) × (r ≡ ok (some key))
            × (field_prefix ++ x.encode_raw (nonce ++ a.seal key nonce plain) ≡ stored))
  sealed_cases (err e) plain stored nonce h = absurd (ground arith)
  sealed_cases (ok none) plain stored nonce h = inl (ground arith)
  sealed_cases (ok (some key)) plain stored nonce h = inr (key, refl, ground arith)

  encrypt_cases :
      (plain stored : Text) (nonce : Bytes)
      → encrypt_sensitive_field x a k plain (ok nonce) ≡ ok stored
      → (plain ≡ stored)
        ⊎ ((key : Bytes) × (load_secret_key x k ≡ ok (some key))
            × (field_prefix ++ x.encode_raw (nonce ++ a.seal key nonce plain) ≡ stored))
  unfolding encrypt_sensitive_field
  encrypt_cases plain stored nonce h = elim (Bool-cases (is_blank plain)) [
    | inl blank ↦ inl (ground arith)
    | inr full ↦ sealed_cases (load_secret_key x k) plain stored nonce (ground arith)
  ]

  -- A secret that does not itself begin like a sealed one is read back as it was written, with a key
  -- or without, where sealing it succeeds.
  pub decrypt_sensitive_field-encrypt_sensitive_field :
      (s : IsSound x a) (plain stored : Text) (nonce : Bytes)
      → length nonce ≡ a.nonce_size
      → has_prefix plain field_prefix ≡ false
      → encrypt_sensitive_field x a k plain (ok nonce) ≡ ok stored
      → decrypt_sensitive_field x a k stored ≡ ok plain
  decrypt_sensitive_field-encrypt_sensitive_field s plain stored nonce size fresh h =
      elim (encrypt_cases plain stored nonce h) [
        | inl e ↦
            subst (λ t. decrypt_sensitive_field x a k t ≡ ok plain) e (unsealed_opens plain fresh)
        | inr (key, configured, e) ↦
            subst (λ t. decrypt_sensitive_field x a k t ≡ ok plain) e
              (sealed_opens s key nonce plain configured size)
      ]
