-- ===== src/Remote/Connections.antt =====
-- internal/store/remote/diagnostics.go: what `RecordConnectionEvents` stores of the access log's events.
-- The hash of a source network, SHA-256 in hexadecimal, is a parameter.
pub mod Recording
pub mod AllOrNothing
use ovpn.Prelude.{
  ℕ, suc, ℤ, pos, ◌+◌, leb_ℤ, ltb_ℤ, ltb, ◌==◌, Bool, true, false, ◌&&◌, ◌||◌, not, Option, none,
  some, List, [], ◌∷◌, ◌++◌, map, codes, Text, Exec, Result, ok, text_eq, pure, ◌>>=◌, ◌>>◌,
  if◌then◌else◌,
}
use ovpn.Strings.{trim_space, to_lower, is_blank, text_mem}
use ovpn.Sql.{upsert, insert_row, exists_row, select_rows}
use ovpn.Dict.{put, get?, get}
use ovpn.Remote.{
  Db, World, ConnectionRow, SourceRow, PortRow, SessionRow, DebugEventRow, rfc3339, exec_statement,
  exec_checked, query, transact,
}
use ovpn.Remote.Traffic.{hour_of}
use ovpn.Model.Types.{Time, ConnectionEvent}

abbrev pub default_source_bucket_cap : ℤ
default_source_bucket_cap = pos 256

abbrev pub default_debug_event_cap : ℤ
default_debug_event_cap = pos 1000

result_of_name : Text → Text
result_of_name name =
    if text_eq name (codes "accepted") || text_eq name (codes "accept")
    then codes "accepted"
    else if text_eq name (codes "rejected") || text_eq name (codes "reject")
    then codes "rejected"
    else codes "unknown"

unfoldable pub normalize_connection_result : Text → Text
unfolding result_of_name
normalize_connection_result result = result_of_name (to_lower (trim_space result))

family_of_name : Text → Text
family_of_name name =
    if text_mem name (codes "ipv4" ∷ codes "ipv6" ∷ codes "domain" ∷ [])
    then name
    else codes "unknown"

unfoldable pub normalize_destination_family : Text → Text
unfolding family_of_name
normalize_destination_family family = family_of_name (to_lower (trim_space family))

abbrev one_if : Bool → ℕ
one_if true = 1
one_if false = 0

-- resultDeltas
unfoldable pub result_deltas : Text → ℕ × ℕ
result_deltas result =
    let name = normalize_connection_result result in
    (one_if (text_eq name (codes "accepted")), one_if (text_eq name (codes "rejected")))

-- familyDeltas: IPv4, IPv6, domain, unknown
unfoldable pub family_deltas : Text → ℕ × ℕ × ℕ × ℕ
family_deltas family =
    let name = normalize_destination_family family in
    (
      one_if (text_eq name (codes "ipv4")),
      one_if (text_eq name (codes "ipv6")),
      one_if (text_eq name (codes "domain")),
      one_if (text_eq name (codes "unknown")),
    )

abbrev same_connection : ConnectionRow → ConnectionRow → Bool
same_connection new old = text_eq old.email new.email && old.window_start == new.window_start

abbrev pub later_seen : Option ℕ → Option ℕ → Option ℕ
later_seen none new = new
later_seen (some old) none = some old
later_seen (some old) (some new) = if ltb old new then some new else some old

abbrev add_connection : ConnectionRow → ConnectionRow → ConnectionRow
add_connection old new = record old {
  accepted_count = old.accepted_count + new.accepted_count;
  rejected_count = old.rejected_count + new.rejected_count;
  dest_ipv4_count = old.dest_ipv4_count + new.dest_ipv4_count;
  dest_ipv6_count = old.dest_ipv6_count + new.dest_ipv6_count;
  dest_domain_count = old.dest_domain_count + new.dest_domain_count;
  dest_unknown_count = old.dest_unknown_count + new.dest_unknown_count;
  last_seen_at = later_seen old.last_seen_at new.last_seen_at;
  updated_at = new.updated_at;
}

abbrev pub connection_row : Text → Time → ConnectionEvent → ℕ → ConnectionRow
connection_row email ts ev now_text =
    let (accepted, rejected) = result_deltas ev.result in
    let (ipv4, ipv6, domain, unknown) = family_deltas ev.destination_family in
    record {
      email = email;
      window_start = rfc3339 (hour_of ts);
      accepted_count = accepted;
      rejected_count = rejected;
      dest_ipv4_count = ipv4;
      dest_ipv6_count = ipv6;
      dest_domain_count = domain;
      dest_unknown_count = unknown;
      source_overflow_count = 0;
      last_seen_at = some (rfc3339 ts);
      updated_at = now_text;
    }

unfoldable pub write_connection : ConnectionRow → Db → Db
write_connection row db = record db {
  connection_hourly = upsert same_connection add_connection row db.connection_hourly;
}

abbrev same_port : PortRow → PortRow → Bool
same_port new old =
    text_eq old.email new.email
    && (old.window_start == new.window_start
        && (leb_ℤ old.port new.port && leb_ℤ new.port old.port))

abbrev add_port : PortRow → PortRow → PortRow
add_port old new = record old { count = old.count + 1; updated_at = new.updated_at }

unfoldable pub write_port : Text → ℕ → ℤ → ℕ → Db → Db
write_port email hour port now_text db = record db {
  connection_port_hourly =
      upsert same_port add_port
        (record {
          email = email;
          window_start = hour;
          port = port;
          count = 1;
          updated_at = now_text;
        })
        db.connection_port_hourly;
}

abbrev in_hour : Text → ℕ → SourceRow → Bool
in_hour email hour row = text_eq row.email email && row.window_start == hour

abbrev is_bucket : Text → ℕ → Text → SourceRow → Bool
is_bucket email hour bucket row = in_hour email hour row && text_eq row.source_bucket bucket

unfoldable pub count_rows : {R : Type 0} → (R → Bool) → List R → ℕ
count_rows test [] = 0
count_rows test (row ∷ rows) =
    let rest = count_rows test rows in if test row then suc rest else rest

unfoldable pub update_rows : {R : Type 0} → (R → Bool) → (R → R) → List R → List R
update_rows test f [] = []
update_rows test f (row ∷ rows) =
    let rest = update_rows test f rows in if test row then f row ∷ rest else row ∷ rest

-- sourceBucketExists
unfoldable pub source_bucket_exists : Text → ℕ → Text → Exec World Bool
unfolding query exists_row
source_bucket_exists email hour bucket =
    query (λ db. exists_row (is_bucket email hour bucket) db.connection_source_hourly)

-- sourceBucketCount
unfoldable pub source_bucket_count : Text → ℕ → Exec World ℕ
unfolding query count_rows
source_bucket_count email hour =
    query (λ db. count_rows (in_hour email hour) db.connection_source_hourly)

abbrev pub overflow : Text → ℕ → ℕ → Db → Db
overflow email hour now_text db = record db {
  connection_hourly =
      update_rows (λ row. text_eq row.email email && row.window_start == hour)
        (λ row. record row {
          source_overflow_count = row.source_overflow_count + 1;
          updated_at = now_text;
        })
        db.connection_hourly;
}

abbrev with_sources : Db → Option (List SourceRow) → Option Db
with_sources db none = none
with_sources db (some rows) = some (record db { connection_source_hourly = rows })

abbrev pub insert_source : SourceRow → Db → Option Db
insert_source row db = with_sources db (
    insert_row (λ new. is_bucket new.email new.window_start new.source_bucket) row
      db.connection_source_hourly)

abbrev pub bump_source : Text → ℕ → Text → ℕ → Db → Db
bump_source email hour bucket now_text db = record db {
  connection_source_hourly =
      update_rows (is_bucket email hour bucket)
        (λ row. record row { count = row.count + 1; updated_at = now_text })
        db.connection_source_hourly;
}

-- email + "\x00" + hour, with the hour as one number
abbrev pub source_key : Text → ℕ → Text
source_key email hour = email ++ 0 ∷ hour ∷ []

abbrev pub known_count : Option ℕ → Text → ℕ → Exec World ℕ
known_count (some n) email hour = pure n
known_count none email hour = source_bucket_count email hour

unfoldable pub add_source :
    ℤ → ℕ → Text → ℕ → Text → List (Text × ℕ) → ℕ → Exec World (List (Text × ℕ))
unfolding ◌>>=◌ pure exec_statement exec_checked put update_rows insert_row
add_source bucket_cap now_text email hour bucket counts current =
    if leb_ℤ bucket_cap (pos current)
    then exec_statement (overflow email hour now_text)
      >> pure (put (source_key email hour) current counts)
    else exec_checked (
        insert_source (record {
          email = email;
          window_start = hour;
          source_bucket = bucket;
          count = 1;
          updated_at = now_text;
        }))
      >> pure (put (source_key email hour) (suc current) counts)

abbrev pub update_or_add :
    ℤ → ℕ → Text → ℕ → Text → List (Text × ℕ) → Bool → Exec World (List (Text × ℕ))
update_or_add bucket_cap now_text email hour bucket counts true =
    exec_statement (bump_source email hour bucket now_text) >> pure counts
update_or_add bucket_cap now_text email hour bucket counts false = do
  current ← known_count (get? (source_key email hour) counts) email hour
  add_source bucket_cap now_text email hour bucket counts current

-- A source network that is not blank.
unfoldable pub record_bucket :
    ℤ → ℕ → Text → ℕ → Text → List (Text × ℕ) → Exec World (List (Text × ℕ))
unfolding ◌>>=◌ pure exec_statement source_bucket_exists source_bucket_count add_source get?
    update_rows
record_bucket bucket_cap now_text email hour bucket counts = do
  exists ← source_bucket_exists email hour bucket
  update_or_add bucket_cap now_text email hour bucket counts exists

abbrev pub debug_row : Text → Time → ConnectionEvent → ℕ → DebugEventRow
debug_row email ts ev now_text = record {
  email = email;
  ts = rfc3339 ts;
  result = normalize_connection_result ev.result;
  source_network = trim_space ev.source_network;
  destination = trim_space ev.destination;
  destination_port = ev.destination_port;
  destination_family = normalize_destination_family ev.destination_family;
  created_at = now_text;
}

abbrev pub append_event : DebugEventRow → Db → Db
append_event row db = record db { connection_debug_events = db.connection_debug_events ++ row ∷ [] }
