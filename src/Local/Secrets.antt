-- ===== src/Local/Secrets.antt =====
-- internal/store/local/crypto.go: the columns that are kept sealed. AES-GCM, base64, hex and the bytes
-- of a text belong to Go's libraries and are parameters; bytes are lists of numbers.
pub mod Laws
use ovpn.Prelude.{
  ℕ, zero, suc, ◌-◌, ◌≡◌, refl, sym, ap, ◌∙◌, ◌⊎◌, inl, inr, Bool, true, false, ◌&&◌, not, Option,
  none, some, List, [], ◌∷◌, ◌++◌, Text, codes, Result, ok, err, arith, length, ltb, leb, ◌==◌,
  text_eq, if◌then◌else◌, Bool-cases, length-append,
}
use ovpn.Strings.{trim_space, has_prefix, is_blank}
use ovpn.Model.Profile.{trim_prefix}

abbrev pub Bytes : Type 0
Bytes = List ℕ

abbrev pub key_length : ℕ
key_length = 32

pub record Codec : Type 0 where
  -- base64.RawStdEncoding and base64.StdEncoding
  pub encode_raw : Bytes → Text
  pub decode_raw : Text → Result Bytes
  pub decode_std : Text → Result Bytes
  -- encoding/hex
  pub decode_hex : Text → Result Bytes
  -- []byte(s)
  pub bytes_of : Text → Bytes

-- AES-GCM under a key of 32 bytes, for which aes.NewCipher and cipher.NewGCM do not fail. `seal` and
-- `open_sealed` take the nonce, and convert between a text and its bytes.
pub record Aead : Type 0 where
  pub nonce_size : ℕ
  pub seal : Bytes → Bytes → Text → Bytes
  pub open_sealed : Bytes → Bytes → Bytes → Result Text

-- What is opened under the key and the nonce that sealed it is the text, and what is decoded is what
-- was encoded.
pub record IsSound (x : Codec) (a : Aead) : Type 0 where
  pub decode-encode : (b : Bytes) → x.decode_raw (x.encode_raw b) ≡ ok b
  pub open-seal :
      (key nonce : Bytes) (plain : Text)
      → length nonce ≡ a.nonce_size
      → a.open_sealed key nonce (a.seal key nonce plain) ≡ ok plain

unfoldable pub take : ℕ → Bytes → Bytes
take zero b = []
take (suc n) [] = []
take (suc n) (x ∷ b) = x ∷ take n b

unfoldable pub drop : ℕ → Bytes → Bytes
drop zero b = b
drop (suc n) [] = []
drop (suc n) (x ∷ b) = drop n b

abbrev pub field_prefix : Text
field_prefix = codes "enc:v1:"

-- OVPN_SECRET_KEY, which is empty where it is not set, and what reading ~/.ovpn/secret.key gives:
-- nothing where the file does not exist.
pub record KeySource : Type 0 where
  pub variable : Text
  pub file_path : Text
  pub file : Option (Result Text)

abbrev content_of : Text → Option (Result Text) → Result (Option Text)
content_of path none = ok none
content_of path (some (err e)) = err (codes "read " ++ (path ++ (codes ": " ++ e)))
content_of path (some (ok raw)) =
    let v = trim_space raw in if text_eq v [] then ok none else ok (some v)

unfoldable pub read_raw_secret_key : KeySource → Result (Option Text)
read_raw_secret_key k =
    let v = trim_space k.variable in
    if text_eq v [] then content_of k.file_path k.file else ok (some v)

-- `b, err := decode(raw); err == nil && len(b) == 32`, and else what comes next.
abbrev key_or : Result Bytes → Result Bytes → Result Bytes
key_or (err e) next = next
key_or (ok b) next = if length b == key_length then ok b else next

module _ (x : Codec) where
  unfoldable pub parse_secret_key : Text → Result Bytes
  parse_secret_key given =
      let raw = trim_space given in
      let plain = x.bytes_of raw in
      if text_eq raw []
      then err (codes "empty secret key")
      else key_or (x.decode_raw raw) (
          key_or (x.decode_std raw) (
            key_or (x.decode_hex raw) (
              if length plain == key_length
              then ok plain
              else err (
                  codes
                    "invalid secret key format: expected 32-byte raw string, 64-char hex, or base64-encoded 32-byte value"))))

  abbrev some_key : Result Bytes → Result (Option Bytes)
  some_key (ok key) = ok (some key)
  some_key (err e) = err e

  abbrev parsed_key : Result (Option Text) → Result (Option Bytes)
  parsed_key (err e) = err e
  parsed_key (ok none) = ok none
  parsed_key (ok (some raw)) = some_key (parse_secret_key raw)

  -- The key, or none where none is configured; what is found once is kept.
  unfoldable pub load_secret_key : KeySource → Result (Option Bytes)
  unfolding read_raw_secret_key parse_secret_key
  load_secret_key k = parsed_key (read_raw_secret_key k)

  module _ (a : Aead) where
    abbrev pub sealed : Bytes → Text → Result Bytes → Result Text
    sealed key plain (err e) = err e
    sealed key plain (ok nonce) =
        ok (field_prefix ++ x.encode_raw (nonce ++ a.seal key nonce plain))

    abbrev pub encrypt_under : Result (Option Bytes) → Text → Result Bytes → Result Text
    encrypt_under (err e) plain random = err e
    encrypt_under (ok none) plain random = ok plain
    encrypt_under (ok (some key)) plain random = sealed key plain random

    -- `random` is what the reader of random bytes gives for the nonce.
    unfoldable pub encrypt_sensitive_field : KeySource → Text → Result Bytes → Result Text
    encrypt_sensitive_field k plain random =
        if is_blank plain then ok plain else encrypt_under (load_secret_key k) plain random

    abbrev pub opened : Result Text → Result Text
    opened (ok plain) = ok plain
    opened (err e) = err (codes "decrypt sensitive field: " ++ e)

    abbrev pub open_payload : Bytes → Result Bytes → Result Text
    open_payload key (err e) = err (codes "decode encrypted field: " ++ e)
    open_payload key (ok payload) =
        if ltb (length payload) a.nonce_size
        then err (codes "encrypted payload is too short")
        else opened (a.open_sealed key (take a.nonce_size payload) (drop a.nonce_size payload))

    abbrev pub decrypt_under : Result (Option Bytes) → Text → Result Text
    decrypt_under (err e) value = err e
    decrypt_under (ok none) value = err (
        codes
          "sensitive field is encrypted but no key is configured (set OVPN_SECRET_KEY or ~/.ovpn/secret.key)")
    decrypt_under (ok (some key)) value =
        open_payload key (x.decode_raw (trim_prefix value field_prefix))

    unfoldable pub decrypt_sensitive_field : KeySource → Text → Result Text
    decrypt_sensitive_field k value =
        if not (has_prefix value field_prefix)
        then ok value
        else decrypt_under (load_secret_key k) value
