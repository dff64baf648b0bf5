-- ===== src/Remote/Connections/Recording.antt =====
-- `RecordConnectionEvents`: the loop over the events, in one transaction.
use ovpn.Prelude.{
  ℕ, suc, ℤ, pos, ltb_ℤ, Bool, true, false, ◌&&◌, Option, none, some, List, [], ◌∷◌, Text, Exec,
  pure, ◌>>=◌, ◌>>◌, if◌then◌else◌, text_eq,
}
use ovpn.Strings.{trim_space, is_blank, text_mem}
use ovpn.Dict.{put, get}
use ovpn.Remote.{World, rfc3339, exec_statement, query, transact}
use ovpn.Remote.Traffic.{hour_of}
use ovpn.Remote.Window.{positive_or}
use ovpn.Remote.Sessions.{active_debug_sessions}
use ovpn.Remote.Connections.{
  default_source_bucket_cap, default_debug_event_cap, connection_row, write_connection, write_port,
  record_bucket, debug_row, append_event, count_rows,
}
use ovpn.Model.Types.{Time, ConnectionEvent}

-- debugEventCounts
unfoldable pub debug_event_counts : List Text → Exec World (List (Text × ℕ))
unfolding ◌>>=◌ pure query put count_rows
debug_event_counts [] = pure []
debug_event_counts (email ∷ emails) = do
  n ← query (λ db. count_rows (λ row. text_eq row.email email) db.connection_debug_events)
  rest ← debug_event_counts emails
  pure (put email n rest)

-- The two maps of the loop.
pub record Counts : Type 0 where
  pub source_counts : List (Text × ℕ)
  pub debug_counts : List (Text × ℕ)

abbrev pub event_time : Time → Option Time → Time
event_time now none = now
event_time now (some ts) = ts

module _ (hash : Text → Text) (source_cap event_cap : ℤ) (active : List Text) (now : Time)
    (now_text : ℕ) where
  abbrev pub record_port : Text → ℕ → ℤ → Exec World (Unit {0})
  record_port email hour port =
      if ltb_ℤ (pos 0) port then exec_statement (write_port email hour port now_text) else pure tt

  abbrev pub record_source : Text → ℕ → Text → List (Text × ℕ) → Exec World (List (Text × ℕ))
  record_source email hour network counts =
      if is_blank network
      then pure counts
      else record_bucket source_cap now_text email hour (hash (trim_space network)) counts

  abbrev pub record_debug :
      Text → Time → ConnectionEvent → List (Text × ℕ) → Exec World (List (Text × ℕ))
  record_debug email ts ev counts =
      let captured = get 0 email counts in
      if text_mem email active && ltb_ℤ (pos captured) event_cap
      then exec_statement (append_event (debug_row email ts ev now_text))
        >> pure (put email (suc captured) counts)
      else pure counts

  -- One round of the loop.
  unfoldable pub record_event : ConnectionEvent → Counts → Exec World Counts
  unfolding ◌>>=◌ pure exec_statement write_connection write_port record_bucket put get
  record_event ev counts = if is_blank ev.email then pure counts else (do
    let email = trim_space ev.email
    let ts = event_time now ev.timestamp
    let hour = rfc3339 (hour_of ts)
    exec_statement (write_connection (connection_row email ts ev now_text))
    record_port email hour ev.destination_port
    sources ← record_source email hour ev.source_network counts.source_counts
    captured ← record_debug email ts ev counts.debug_counts
    pure (record { source_counts = sources; debug_counts = captured }))

  unfoldable pub record_events : List ConnectionEvent → Counts → Exec World (Unit {0})
  unfolding ◌>>=◌ pure record_event
  record_events [] counts = pure tt
  record_events (ev ∷ events) counts = do next ← record_event ev counts; record_events events next

abbrev pub some_events : List ConnectionEvent → Bool
some_events [] = false
some_events (ev ∷ events) = true

unfoldable pub record_connection_events :
    (Text → Text) → List ConnectionEvent → ℤ → ℤ → Time → Exec World (Unit {0})
unfolding ◌>>=◌ pure transact active_debug_sessions debug_event_counts record_events
record_connection_events hash events source_cap event_cap now w =
    (if some_events events
        then (do
          active ← active_debug_sessions now
          counts ← debug_event_counts active
          transact (
              record_events hash (positive_or source_cap default_source_bucket_cap)
                (positive_or event_cap default_debug_event_cap) active now (rfc3339 w.now) events
                (record { source_counts = []; debug_counts = counts })))
        else pure tt)
      w
