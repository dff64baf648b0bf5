-- ===== src/Remote/Books/Diagnostics.antt =====
-- The writes of internal/store/remote/diagnostics.go leave the tables of traffic alone.
use ovpn.Prelude.{
  ℕ, suc, ℤ, pos, leb_ℤ, ltb_ℤ, ◌&&◌, ◌≡◌, refl, inl, inr, Bool, true, false, Option, none, some,
  List, [], ◌∷◌, Text, codes, arith, Bool-cases,
}
use ovpn.Strings.{is_blank, trim_space, text_mem}
use ovpn.Dict.{get?, get, put}
use ovpn.Sql.{insert_row}
use ovpn.Remote.{Db, SourceRow, query, exec_checked, exec_statement, rfc3339}
use ovpn.Remote.Sessions.{
  active_debug_sessions, new_session, start_debug_session, stop_debug_session,
  cleanup_connection_diagnostics,
}
use ovpn.Remote.Window.{positive_or}
use ovpn.Remote.Traffic.{hour_of}
use ovpn.Remote.Connections.{
  default_source_bucket_cap, default_debug_event_cap, connection_row, append_event, debug_row,
  source_bucket_exists, source_bucket_count, add_source, bump_source, source_key, update_or_add,
  known_count, insert_source, record_bucket, write_connection, write_port,
}
use ovpn.Remote.Connections.Recording.{
  event_time, debug_event_counts, Counts, record_port, record_source, record_debug, record_event,
  record_events, record_connection_events,
}
use ovpn.Remote.Books.Kept.{
  traffic, IsAside, IsAside-query, IsAside-pure, IsAside-fail, IsAside-bind, IsAside-exec,
  IsAside-checked, IsAside-transact,
}
use ovpn.Model.Types.{Time, ConnectionEvent, ConnectionDebugSession}

pub IsAside-start :
    (email : Text) (duration : ℤ) (now : Time) → IsAside (start_debug_session email duration now)
unfolding start_debug_session
IsAside-start email duration now = elim (Bool-cases (is_blank email)) [
  | inl blank ↦ rw blank (IsAside-fail ConnectionDebugSession (codes "email is required"))
  | inr named ↦ rw named (
      IsAside-bind (exec_statement _) _ (IsAside-exec _ (λ db. refl))
        (λ _. IsAside-pure (new_session email duration now)))
]

pub IsAside-stop : (email : Text) → IsAside (stop_debug_session email)
unfolding stop_debug_session
IsAside-stop email = IsAside-transact _ (
    IsAside-bind (exec_statement _) _ (IsAside-exec _ (λ db. refl))
      (λ _. IsAside-exec _ (λ db. refl)))

pub IsAside-cleanup :
    (now : Time) (retention : ℤ) → IsAside (cleanup_connection_diagnostics now retention)
unfolding cleanup_connection_diagnostics
IsAside-cleanup now retention =
    IsAside-bind (exec_statement _) _ (IsAside-exec _ (λ db. refl)) (λ _.
      IsAside-bind (exec_statement _) _ (IsAside-exec _ (λ db. refl)) (λ _.
        IsAside-bind (exec_statement _) _ (IsAside-exec _ (λ db. refl)) (λ _.
          IsAside-bind (exec_statement _) _ (IsAside-exec _ (λ db. refl)) (λ _.
            IsAside-bind (exec_statement _) _ (IsAside-exec _ (λ db. refl))
              (λ _. IsAside-exec _ (λ db. refl))))))

bucket_inserted :
    (row : SourceRow) (db out : Db) → insert_source row db ≡ some out → traffic out ≡ traffic db
unfolding insert_row
bucket_inserted row db out h = ground arith

IsAside-add_source :
    (cap : ℤ) (now_text : ℕ) (email : Text) (hour : ℕ) (bucket : Text) (counts : List (Text × ℕ))
    (current : ℕ)
    → IsAside (add_source cap now_text email hour bucket counts current)
unfolding add_source
IsAside-add_source cap now_text email hour bucket counts current =
    elim (Bool-cases (leb_ℤ cap (pos current))) [
      | inl full ↦ rw full (
          IsAside-bind (exec_statement _) _ (IsAside-exec _ (λ db. refl))
            (λ _. IsAside-pure (put (source_key email hour) current counts)))
      | inr room ↦ rw room (
          IsAside-bind (exec_checked _) _ (IsAside-checked _ (bucket_inserted _))
            (λ _. IsAside-pure (put (source_key email hour) (suc current) counts)))
    ]

IsAside-known :
    (known : Option ℕ) (email : Text) (hour : ℕ) → IsAside (known_count known email hour)
unfolding source_bucket_count
IsAside-known (some n) email hour = IsAside-pure n
IsAside-known none email hour = IsAside-query _

IsAside-bucket :
    (cap : ℤ) (now_text : ℕ) (email : Text) (hour : ℕ) (bucket : Text) (counts : List (Text × ℕ))
    (exists : Bool)
    → IsAside (update_or_add cap now_text email hour bucket counts exists)
IsAside-bucket cap now_text email hour bucket counts true =
    IsAside-bind (exec_statement (bump_source email hour bucket now_text)) _
      (IsAside-exec _ (λ db. refl)) (λ _. IsAside-pure counts)
IsAside-bucket cap now_text email hour bucket counts false =
    IsAside-bind (known_count (get? (source_key email hour) counts) email hour) _
      (IsAside-known (get? (source_key email hour) counts) email hour)
      (λ current. IsAside-add_source cap now_text email hour bucket counts current)

IsAside-record_bucket :
    (cap : ℤ) (now_text : ℕ) (email : Text) (hour : ℕ) (bucket : Text) (counts : List (Text × ℕ))
    → IsAside (record_bucket cap now_text email hour bucket counts)
unfolding record_bucket source_bucket_exists
IsAside-record_bucket cap now_text email hour bucket counts =
    IsAside-bind (query _) _ (IsAside-query _)
      (IsAside-bucket cap now_text email hour bucket counts)

IsAside-debug_counts : (emails : List Text) → IsAside (debug_event_counts emails)
unfolding debug_event_counts
IsAside-debug_counts [] = IsAside-pure {A = List (Text × ℕ)} []
IsAside-debug_counts (email ∷ emails) = IsAside-bind (query _) _ (IsAside-query _) (λ n.
    IsAside-bind (debug_event_counts emails) _ (IsAside-debug_counts emails)
      (λ rest. IsAside-pure (put email n rest)))

module _ (hash : Text → Text) (cap event_cap : ℤ) (active : List Text) (now : Time)
    (now_text : ℕ) where
  IsAside-port :
      (email : Text) (hour : ℕ) (port : ℤ)
      → IsAside (record_port hash cap event_cap active now now_text email hour port)
  unfolding write_port
  IsAside-port email hour port = elim (Bool-cases (ltb_ℤ (pos 0) port)) [
    | inl some_port ↦ rw some_port (IsAside-exec (write_port email hour port now_text) (λ db. refl))
    | inr no_port ↦ rw no_port (IsAside-pure tt)
  ]

  IsAside-source :
      (email : Text) (hour : ℕ) (network : Text) (counts : List (Text × ℕ))
      → IsAside (record_source hash cap event_cap active now now_text email hour network counts)
  IsAside-source email hour network counts = elim (Bool-cases (is_blank network)) [
    | inl blank ↦ rw blank (IsAside-pure counts)
    | inr named ↦ rw named (IsAside-record_bucket cap now_text email hour _ counts)
  ]

  IsAside-debug :
      (email : Text) (ts : Time) (ev : ConnectionEvent) (counts : List (Text × ℕ))
      → IsAside (record_debug hash cap event_cap active now now_text email ts ev counts)
  IsAside-debug email ts ev counts =
      let captured = get 0 email counts in
      elim (Bool-cases (text_mem email active && ltb_ℤ (pos captured) event_cap)) [
        | inl wanted ↦ rw wanted (
            IsAside-bind (exec_statement (append_event (debug_row email ts ev now_text))) _
              (IsAside-exec _ (λ db. refl)) (λ _. IsAside-pure (put email (suc captured) counts)))
        | inr passed ↦ rw passed (IsAside-pure counts)
      ]

  IsAside-event :
      (ev : ConnectionEvent) (counts : Counts)
      → IsAside (record_event hash cap event_cap active now now_text ev counts)
  unfolding record_event write_connection
  IsAside-event ev counts = elim (Bool-cases (is_blank ev.email)) [
    | inl blank ↦ rw blank (IsAside-pure counts)
    | inr named ↦
        let email = trim_space ev.email in
        let ts = event_time now ev.timestamp in
        let hour = rfc3339 (hour_of ts) in
        rw named (
          IsAside-bind (exec_statement (write_connection (connection_row email ts ev now_text))) _
            (IsAside-exec _ (λ db. refl))
            (λ _.
              IsAside-bind
                (record_port hash cap event_cap active now now_text email hour ev.destination_port)
                _ (IsAside-port email hour ev.destination_port)
                (λ _.
                  IsAside-bind
                    (record_source hash cap event_cap active now now_text email hour
                      ev.source_network counts.source_counts)
                    _ (IsAside-source email hour ev.source_network counts.source_counts)
                    (λ sources.
                      IsAside-bind
                        (record_debug hash cap event_cap active now now_text email ts ev
                          counts.debug_counts)
                        _ (IsAside-debug email ts ev counts.debug_counts)
                        (λ captured.
                          IsAside-pure {A = Counts}
                            (record { source_counts = sources; debug_counts = captured }))))))
  ]

  IsAside-events :
      (events : List ConnectionEvent) (counts : Counts)
      → IsAside (record_events hash cap event_cap active now now_text events counts)
  unfolding record_events
  IsAside-events [] counts = IsAside-pure tt
  IsAside-events (ev ∷ events) counts =
      IsAside-bind (record_event hash cap event_cap active now now_text ev counts) _
        (IsAside-event ev counts) (λ next. IsAside-events events next)

pub IsAside-record :
    (hash : Text → Text) (events : List ConnectionEvent) (cap event_cap : ℤ) (now : Time)
    → IsAside (record_connection_events hash events cap event_cap now)
unfolding record_connection_events active_debug_sessions
IsAside-record hash [] cap event_cap now w = refl
IsAside-record hash (ev ∷ events) cap event_cap now w =
    IsAside-bind (active_debug_sessions now) _ (IsAside-query _)
      (λ active. IsAside-bind (debug_event_counts active) _ (IsAside-debug_counts active) (λ counts.
        IsAside-transact _ (
          IsAside-events hash (positive_or cap default_source_bucket_cap)
            (positive_or event_cap default_debug_event_cap) active now (rfc3339 w.now) (ev ∷ events)
            (record { source_counts = []; debug_counts = counts }))))
      w
