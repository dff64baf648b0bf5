-- ===== src/Remote/Sessions/Found.antt =====
-- A debug session that was started is found until it ends.
use ovpn.Prelude.{
  ℕ, ℤ, ◌+◌, ◌*◌, ltb, ◌≤◌, ◌≡◌, refl, sym, ap, ◌∙◌, inl, inr, true, ◌&&◌, Bool-cases, Option, some,
  List, [], ◌∷◌, Text, arith, ok, text_eq, text_eq_refl, text_eq_iff, pure, fail, ◌>>=◌,
}
use ovpn.Strings.{trim_space}
use ovpn.Sql.{upsert, first_row}
use ovpn.Remote.{
  World, SessionRow, nanos_per_second, rfc3339, driver_call, read_db, query, exec_statement,
  write_db,
}
use ovpn.Remote.Sessions.{
  session_length, same_session, replace_session, add_length, session_row, write_session,
  new_session, session_of_row, found_session, start_debug_session, get_debug_session,
}
use ovpn.Model.Types.{Time, ConnectionDebugSession}

session_length_bound :
    (now : Time) (duration : ℤ)
    → add_length now (session_length duration) ≤ now + 24 * 3600 * nanos_per_second
unfolding session_length
session_length_bound now duration = ground arith

-- What a query for the active session of `e` finds once a session of `e` has been written.
found_written :
    (new : SessionRow) (later : ℕ) (rows : List SessionRow)
    → ltb later new.expires_at ≡ true
    → found_session (
        first_row
          (λ (row : SessionRow). text_eq row.email new.email && ltb later row.expires_at)
          (upsert same_session replace_session new rows))
      ≡ some (session_of_row new)
unfolding first_row upsert
found_written new later [] h = rw (text_eq_refl new.email) (rw h refl)
found_written new later (old ∷ rows) h = elim (Bool-cases (text_eq old.email new.email)) [
  | inl e ↦ rw e (
      rw e (
        rw h (
          ap (λ x. some (session_of_row (record new { email = x })))
            ((text_eq_iff old.email new.email).0 e))))
  | inr e ↦ rw e (rw e (found_written new later rows h))
]

started :
    (email : Text) (duration : ℤ) (now : Time) (w : World) (s : ConnectionDebugSession)
    → (start_debug_session email duration now w).0 ≡ ok s
    → (s ≡ new_session email duration now)
      × ((start_debug_session email duration now w).1.db
          ≡ write_session (session_row (new_session email duration now) now) w.db)
unfolding start_debug_session exec_statement driver_call write_db ◌>>=◌ pure fail
started email duration now w s h = (ground arith, ground arith)

got :
    (email : Text) (later : Time) (w : World) (found : Option ConnectionDebugSession)
    → (get_debug_session email later w).0 ≡ ok found
    → found
      ≡ found_session (
          first_row
            (λ (row : SessionRow).
              text_eq row.email (trim_space email) && ltb (rfc3339 later) row.expires_at)
            w.db.connection_debug_sessions)
unfolding get_debug_session query driver_call read_db ◌>>=◌
got email later w found h = ground arith

-- A debug session that was started ends at most 24 hours after its start, and a query for it that
-- succeeds, at a time before its end by whole seconds, finds the user with both times cut to seconds.
pub start_debug_session-get_debug_session :
    (email : Text) (duration : ℤ) (now later : Time) (w : World) (s : ConnectionDebugSession)
    (found : Option ConnectionDebugSession)
    → (start_debug_session email duration now w).0 ≡ ok s
    → ltb (rfc3339 later) (rfc3339 s.expires_at) ≡ true
    → (get_debug_session email later (start_debug_session email duration now w).1).0 ≡ ok found
    → (s.expires_at ≤ now + 24 * 3600 * nanos_per_second)
      × (found
          ≡ some (record {
            email = trim_space email;
            started_at = rfc3339 now * nanos_per_second;
            expires_at = rfc3339 s.expires_at * nanos_per_second;
          }))
start_debug_session-get_debug_session email duration now later w s found fine before read =
    let (session, db) = started email duration now w s fine in
    let new = session_row (new_session email duration now) now in
    (
      rw session (session_length_bound now duration),
      got email later (start_debug_session email duration now w).1 found read
          ∙ rw db (
              rw session (
                found_written new (rfc3339 later) w.db.connection_debug_sessions (
                  ap (λ (x : ConnectionDebugSession). ltb (rfc3339 later) (rfc3339 x.expires_at))
                    (sym session)
                  ∙ before))),
    )
