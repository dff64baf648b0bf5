-- ===== src/Local/Servers/Cluster/Paired.antt =====
-- What a cluster whose servers share an encryption pair looks like.
use ovpn.Prelude.{
  ◌/◌, ◌+◌, ◌||◌, ◌∙◌, ◌≡◌, refl, sym, arith, ℕ, ℤ, Bool, false, List, [], ◌∷◌, Text, All,
  if◌then◌else◌,
}
use ovpn.Driver.{nanos_per_second}
use ovpn.Local.{LocalDb, ServerRow, same_id}
use ovpn.Local.Servers.Cluster.{rows_with_id}
use ovpn.Model.Types.{Time}

abbrev pub listed_id : ℤ → List ℤ → Bool
listed_id id [] = false
listed_id id (i ∷ ids) = same_id id i || listed_id id ids

-- A server whose clients encrypt by the one value, and which decrypts by the other.
abbrev pub having : Text → Text → ℕ → ServerRow → ServerRow
having client server seconds row = record row {
  vless_client_encryption = client;
  vless_server_decryption = server;
  updated_at = seconds;
}

-- The servers named have the pair, and the others are as they were.
unfoldable pub paired : Text → Text → ℕ → List ℤ → List ServerRow → List ServerRow
paired client server now ids [] = []
paired client server now ids (row ∷ rows) =
    (if listed_id row.id ids then having client server now row else row)
    ∷ paired client server now ids rows

abbrev pub pair_servers : Text → Text → List ℤ → Time → LocalDb → LocalDb
pair_servers client server ids now db = record db {
  servers = paired client server (now / nanos_per_second) ids db.servers;
}

-- How many rows are of the server.
abbrev pub count_named : ℤ → List ServerRow → ℕ
count_named id [] = 0
count_named id (row ∷ rows) = (if same_id row.id id then 1 else 0) + count_named id rows

count_named_lem : (id : ℤ) (rows : List ServerRow) → rows_with_id id rows ≡ count_named id rows
unfolding rows_with_id
count_named_lem id [] = refl
count_named_lem id (row ∷ rows) = ground (arith, count_named_lem id rows)

pub named_once :
    (ids : List ℤ) (rows : List ServerRow)
    → All (λ id. rows_with_id id rows ≡ 1) ids
    → All (λ id. count_named id rows ≡ 1) ids
named_once [] rows h = tt
named_once (id ∷ ids) rows (one, rest) =
    (sym (count_named_lem id rows) ∙ one, named_once ids rows rest)
