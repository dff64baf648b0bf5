-- ===== src/Tests/Local.antt =====
-- The theorems on the operator's database at concrete inputs.
use ovpn.Prelude.{
  ℕ, ℤ, pos, ◌≡◌, refl, ◌⊎◌, false, Option, none, some, List, [], ◌∷◌, ◌++◌, Text, codes, Result,
  ok, err, length, Member, text_eq,
}
use ovpn.Strings.{has_prefix, trim_space}
use ovpn.Local.Records.{cache_row, upsert_stats_cache, list_stats_cache}
use ovpn.Local.Records.Cached.{listed, upsert_stats_cache-list_stats_cache}
use ovpn.Model.Types.{UserTraffic}
use ovpn.Local.{transact, LocalDb, LocalWorld}
use ovpn.Local.Secrets.{
  Codec, Aead, IsSound, KeySource, field_prefix, load_secret_key, parse_secret_key,
  encrypt_sensitive_field, decrypt_sensitive_field,
}
use ovpn.Local.Secrets.Laws.{
  decrypt_sensitive_field-encrypt_sensitive_field, parse_secret_key-length,
}
use ovpn.Local.Servers.{Sealed, server_row}
use ovpn.Local.Servers.Cluster.{set_pairs, set_vless_encryption_for_servers}
use ovpn.Local.Servers.Cluster.AllOrNothing.{
  IsPaired, IsRefused, set_vless_encryption-all_or_nothing,
}
use ovpn.Tests.Fixtures.{noon, server}

abbrev codec : Codec
codec = record {
  encode_raw = λ b. b;
  decode_raw = λ t. ok t;
  decode_std = λ t. err (codes "illegal base64 data");
  decode_hex = λ t. err (codes "invalid byte");
  bytes_of = λ t. t;
}

abbrev aead : Aead
aead = record {
  nonce_size = 2;
  seal = λ key nonce plain. plain;
  open_sealed = λ key nonce payload. ok payload;
}

codec-IsSound : IsSound codec aead
codec-IsSound = record { decode-encode = λ b. refl; open-seal = λ key nonce plain size. refl }

abbrev raw_key : Text
raw_key = codes "0123456789abcdef0123456789abcdef"

abbrev key_source : KeySource
key_source = record { variable = raw_key; file_path = codes "secret.key"; file = none }

abbrev nonce : List ℕ
nonce = 7 ∷ 9 ∷ []

abbrev sealed_pair : Text
sealed_pair = field_prefix ++ (nonce ++ codes "pair")

sealed_fresh :
    encrypt_sensitive_field codec aead key_source (codes "pair") (ok nonce) ≡ ok sealed_pair
unfolding encrypt_sensitive_field load_secret_key trim_space text_eq
sealed_fresh = refl

plain_is_new : has_prefix (codes "pair") field_prefix ≡ false
unfolding has_prefix
plain_is_new = refl

decrypt_sensitive_field-encrypt_sensitive_field_example :
    decrypt_sensitive_field codec aead key_source sealed_pair ≡ ok (codes "pair")
decrypt_sensitive_field-encrypt_sensitive_field_example =
    decrypt_sensitive_field-encrypt_sensitive_field codec aead key_source codec-IsSound
      (codes "pair") sealed_pair nonce refl plain_is_new sealed_fresh

key_parsed : parse_secret_key codec (codes " 0123456789abcdef0123456789abcdef") ≡ ok raw_key
unfolding parse_secret_key trim_space text_eq
key_parsed = refl

parse_secret_key-length_example : length raw_key ≡ 32
parse_secret_key-length_example =
    parse_secret_key-length codec aead key_source (codes " 0123456789abcdef0123456789abcdef")
      raw_key key_parsed

abbrev secrets : Sealed
secrets = record { private_key = codes "k"; client_encryption = []; server_decryption = [] }

-- Two servers, the first of them with a user.
abbrev two_servers : LocalDb
two_servers = record {
  servers =
      server_row (pos 1) 0 secrets server
      ∷ server_row (pos 2) 0 secrets (record server { name = codes "second" })
      ∷ [];
  users = [];
  user_tags = [];
  deploy_revisions = [];
  backup_records = [];
  stats_cache = [];
  proxy_backends = [];
  server_seq = 2;
  user_seq = 0;
  backup_seq = 0;
  backend_seq = 0;
}

abbrev world_with : List (Option Text) → LocalWorld
world_with outcomes = record {
  db = two_servers;
  now = noon;
  outcomes = outcomes;
  conflict = codes "UNIQUE constraint failed";
}

abbrev draws : ℕ → Result (List ℕ)
draws n = ok nonce

abbrev print_id : ℤ → Text
print_id id = codes "n"

-- The update of the second server is refused.
abbrev refused_second : LocalWorld
refused_second = world_with (none ∷ none ∷ none ∷ some (codes "database is locked") ∷ [])

refused_second_fails :
    (set_vless_encryption_for_servers print_id codec aead key_source draws
      (pos 1 ∷ pos 2 ∷ [])
      (codes "pair")
      (codes "pair")
      refused_second).0
    ≡ err (codes "database is locked")
unfolding set_vless_encryption_for_servers set_pairs transact encrypt_sensitive_field
    load_secret_key trim_space text_eq server_row
refused_second_fails = refl

set_vless_encryption-all_or_nothing_example :
    ((c : Text) × (s : Text) × (encrypt_sensitive_field codec aead key_source
          (codes "pair")
          (ok nonce)
        ≡ ok c)
      × (encrypt_sensitive_field codec aead key_source (codes "pair") (ok nonce) ≡ ok s)
      × IsPaired
          (set_vless_encryption_for_servers print_id codec aead key_source draws
            (pos 1 ∷ pos 2 ∷ [])
            (codes "pair")
            (codes "pair")
            refused_second)
          refused_second
          (pos 1 ∷ pos 2 ∷ [])
          c
          s)
    ⊎ IsRefused
        (set_vless_encryption_for_servers print_id codec aead key_source draws
          (pos 1 ∷ pos 2 ∷ [])
          (codes "pair")
          (codes "pair")
          refused_second)
        refused_second
set_vless_encryption-all_or_nothing_example =
    set_vless_encryption-all_or_nothing print_id codec aead key_source draws (pos 1 ∷ pos 2 ∷ [])
      (codes "pair") (codes "pair") refused_second

abbrev month : ℕ → UserTraffic
month bytes = record {
  server_id = pos 1;
  email = codes "ann@a";
  window_start = noon;
  window_type = codes "total";
  uplink_bytes = pos bytes;
  downlink_bytes = pos bytes;
}

-- The window is cached already.
abbrev cached_once : LocalWorld
cached_once = (upsert_stats_cache (month 5) (world_with [])).1

caching_works : (upsert_stats_cache (month 7) cached_once).0 ≡ ok tt
unfolding upsert_stats_cache cache_row server_row
caching_works = refl

cache_listed :
    (list_stats_cache (pos 1) (codes "total") (upsert_stats_cache (month 7) cached_once).1).0
    ≡ ok (month 7 ∷ [])
unfolding upsert_stats_cache list_stats_cache server_row text_eq
cache_listed = refl

upsert_stats_cache-list_stats_cache_example : Member (listed (month 7)) (month 7 ∷ [])
upsert_stats_cache-list_stats_cache_example =
    upsert_stats_cache-list_stats_cache (month 7) cached_once
      (upsert_stats_cache (month 7) cached_once).1 (month 7 ∷ []) caching_works refl cache_listed
