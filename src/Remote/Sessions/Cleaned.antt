-- ===== src/Remote/Sessions/Cleaned.antt =====
-- What the cleanup leaves.
use ovpn.Prelude.{
  ℕ, zero, suc, ℤ, pos, negsuc, ◌-◌, ◌*◌, ◌/◌, ◌≤◌, ◌<◌, leb, ltb, ◌≡◌, refl, arith, inl, inr,
  Bool-cases, false, true, not, List, [], ◌∷◌, map, Text, text_eq, All, All-imp, subst, ◌||◌,
  if◌then◌else◌, ok,
}
use ovpn.Strings.{text_mem}
use ovpn.Sql.{select_rows}
use ovpn.Sql.Laws.{selected-All, selected_keeps-All}
use ovpn.Remote.{
  Db, World, ConnectionRow, SourceRow, PortRow, SessionRow, DebugEventRow, nanos_per_second,
  rfc3339,
}
use ovpn.Remote.Atomic.{Writes, Writes-exec, Writes-then}
use ovpn.Remote.Sessions.{
  drop_captured, drop_sessions, drop_events, drop_hourly, drop_sources, drop_ports, cutoff_of,
  expired_emails, cleanup_connection_diagnostics,
}
use ovpn.Model.Types.{Time}

-- All that the six statements do.
abbrev cleaned : Time → ℤ → Db → Db
cleaned now retention db =
    let cutoff = cutoff_of now retention in
    drop_ports cutoff (
      drop_sources cutoff (
        drop_hourly cutoff
          (drop_events cutoff (drop_sessions (rfc3339 now) (drop_captured (rfc3339 now) db)))))

Writes-cleanup :
    (now : Time) (retention : ℤ)
    → Writes (cleanup_connection_diagnostics now retention) (λ _. cleaned now retention)
unfolding cleanup_connection_diagnostics
Writes-cleanup now retention =
    let cutoff = cutoff_of now retention in
    Writes-then _ _ (λ _. drop_captured (rfc3339 now)) _ (Writes-exec (drop_captured (rfc3339 now)))
      (Writes-then _ _ (λ _. drop_sessions (rfc3339 now)) _
        (Writes-exec (drop_sessions (rfc3339 now)))
        (Writes-then _ _ (λ _. drop_events cutoff) _ (Writes-exec (drop_events cutoff))
          (Writes-then _ _ (λ _. drop_hourly cutoff) _ (Writes-exec (drop_hourly cutoff))
            (Writes-then _ _ (λ _. drop_sources cutoff) (λ _. drop_ports cutoff)
              (Writes-exec (drop_sources cutoff)) (Writes-exec (drop_ports cutoff))))))

-- The first second that is kept: the retention back from now, and 7 days back where the retention is
-- not above 0.
abbrev week : ℕ
week = 7 * (24 * 3600) * nanos_per_second

abbrev pub kept_from : Time → ℤ → ℕ
kept_from now (pos (suc n)) = (now - suc n) / nanos_per_second
kept_from now (pos zero) = (now - week) / nanos_per_second
kept_from now (negsuc n) = (now - week) / nanos_per_second

cutoff_of_lem : (now : Time) (retention : ℤ) → cutoff_of now retention ≡ kept_from now retention
cutoff_of_lem now (pos (suc n)) = ground arith
cutoff_of_lem now (pos zero) = refl
cutoff_of_lem now (negsuc n) = ground arith

-- A session whose end has passed left no captured event.
abbrev pub LeftNothing : ℕ → List DebugEventRow → SessionRow → Type 0
LeftNothing seconds captured session =
    session.expires_at ≤ seconds
    → All (λ (row : DebugEventRow). text_eq session.email row.email ≡ false) captured

-- No session has ended, none that had left a captured event, and no row is of before a second.
pub record IsClean (now : Time) (from : ℕ) (before db : Db) : Type 0 where
  pub sessions :
      All
        (λ (row : SessionRow). now / nanos_per_second < row.expires_at)
        db.connection_debug_sessions
  pub captured :
      All
        (LeftNothing (now / nanos_per_second) db.connection_debug_events)
        before.connection_debug_sessions
  pub events : All (λ (row : DebugEventRow). from ≤ row.ts) db.connection_debug_events
  pub hourly : All (λ (row : ConnectionRow). from ≤ row.window_start) db.connection_hourly
  pub sources : All (λ (row : SourceRow). from ≤ row.window_start) db.connection_source_hourly
  pub ports : All (λ (row : PortRow). from ≤ row.window_start) db.connection_port_hourly

-- The events of none of the sessions that have ended.
abbrev ended_emails : ℕ → List SessionRow → List Text
ended_emails seconds sessions =
    map (λ (row : SessionRow). row.email) (select_rows (λ row. leb row.expires_at seconds) sessions)

ended_first :
    (s : SessionRow) (seconds : ℕ) (sessions : List SessionRow)
    → leb s.expires_at seconds ≡ true
    → (email : Text) → text_mem email (ended_emails seconds (s ∷ sessions)) ≡ false
    → (text_eq s.email email ≡ false) × (text_mem email (ended_emails seconds sessions) ≡ false)
unfolding select_rows text_mem
ended_first s seconds sessions ended email h =
    let both : (text_eq s.email email || text_mem email (ended_emails seconds sessions)) ≡ false =
      subst
        (λ b.
          text_mem email (
            map (λ (row : SessionRow). row.email)
              (if b
                then s ∷ select_rows (λ row. leb row.expires_at seconds) sessions
                else select_rows (λ row. leb row.expires_at seconds) sessions))
          ≡ false)
        ended h in
    (ground arith, ground arith)

still_open :
    (s : SessionRow) (seconds : ℕ) (sessions : List SessionRow)
    → leb s.expires_at seconds ≡ false
    → (email : Text) → text_mem email (ended_emails seconds (s ∷ sessions)) ≡ false
    → text_mem email (ended_emails seconds sessions) ≡ false
unfolding select_rows
still_open s seconds sessions ahead email h =
    subst
      (λ b.
        text_mem email (
          map (λ (row : SessionRow). row.email)
            (if b
              then s ∷ select_rows (λ row. leb row.expires_at seconds) sessions
              else select_rows (λ row. leb row.expires_at seconds) sessions))
        ≡ false)
      ahead h

none_captured :
    (seconds : ℕ) (sessions : List SessionRow) (captured : List DebugEventRow)
    → All
        (λ (row : DebugEventRow). text_mem row.email (ended_emails seconds sessions) ≡ false)
        captured
    → All (LeftNothing seconds captured) sessions
unfolding select_rows text_mem
none_captured seconds [] captured h = tt
none_captured seconds (s ∷ sessions) captured h = elim (Bool-cases (leb s.expires_at seconds)) [
  | inl ended ↦ (
    λ _.
        All-imp _ (λ (row : DebugEventRow). text_eq s.email row.email ≡ false) captured
          (λ row other. let out = ended_first s seconds sessions ended row.email other in out.0) h,
    none_captured seconds sessions captured (
        All-imp _ _ captured (λ row other. (ended_first s seconds sessions ended row.email other).1)
          h),
  )
  | inr ahead ↦ (
    λ le. absurd (ground arith),
    none_captured seconds sessions captured
        (All-imp _ _ captured (λ row other. still_open s seconds sessions ahead row.email other) h),
  )
]

not_before : (a b : ℕ) → ltb a b ≡ false → b ≤ a
not_before a b h = ground arith

not_ended : (a b : ℕ) → leb a b ≡ false → b < a
not_ended a b h = ground arith

module _ (now : Time) (retention : ℤ) (db : Db) where
  kept_rows :
      {R : Type 0} (column : R → ℕ) (rows : List R)
      → All
          (λ row. kept_from now retention ≤ column row)
          (select_rows (λ row. not (ltb (column row) (cutoff_of now retention))) rows)
  kept_rows column rows =
      All-imp _ _ _
        (λ row kept.
          let same = cutoff_of_lem now retention in
          let late = not_before (column row) (cutoff_of now retention) kept in
          subst (λ n. n ≤ column row) same late)
        (selected-All (λ row. ltb (column row) (cutoff_of now retention)) rows)

  cleaned-IsClean : IsClean now (kept_from now retention) db (cleaned now retention db)
  cleaned-IsClean = record {
    sessions =
        All-imp _ _ _ (λ row ahead. not_ended row.expires_at (rfc3339 now) ahead)
          (selected-All (λ (row : SessionRow). leb row.expires_at (rfc3339 now))
            db.connection_debug_sessions);
    captured = none_captured (rfc3339 now) db.connection_debug_sessions _ (
        selected_keeps-All _ (λ (row : DebugEventRow). not (ltb row.ts (cutoff_of now retention))) _
          (selected-All
            (λ (row : DebugEventRow). text_mem row.email (expired_emails (rfc3339 now) db))
            db.connection_debug_events));
    events = kept_rows (λ (row : DebugEventRow). row.ts) _;
    hourly = kept_rows (λ (row : ConnectionRow). row.window_start) db.connection_hourly;
    sources = kept_rows (λ (row : SourceRow). row.window_start) db.connection_source_hourly;
    ports = kept_rows (λ (row : PortRow). row.window_start) db.connection_port_hourly;
  }

-- After a cleanup that succeeds: no debug session has ended by its time, no captured event is of a user
-- whose session had, and no event and no hourly row is older than the retention, which is 7 days where
-- none above 0 is given.
pub cleanup_connection_diagnostics-IsClean :
    (now : Time) (retention : ℤ) (w : World)
    → (cleanup_connection_diagnostics now retention w).0 ≡ ok tt
    → IsClean now
        (kept_from now retention)
        w.db
        (cleanup_connection_diagnostics now retention w).1.db
cleanup_connection_diagnostics-IsClean now retention w done =
    rw ((Writes-cleanup now retention w done).0) (cleaned-IsClean now retention w.db)
