-- ===== src/Remote/Reports/Agreement.antt =====
-- The gauges of the connections and the report of one user are over the same rows
-- (internal/store/remote/diagnostics.go).
use ovpn.Prelude.{
  ℕ, ℤ, ◌≡◌, refl, ap, sym, ◌∙◌, subst, inl, inr, Bool, true, false, ◌&&◌, ltb, ◌==◌, List, [], ◌∷◌,
  Text, Exec, ok, All, Member, All-Member, Option, Result, arith, Bool-cases, text_eq, pure, ◌>>=◌,
}
use ovpn.Strings.{trim_space}
use ovpn.Remote.Reading.{Reads-top_ports, Reads-debug_session}
use ovpn.Driver.Reads.{Gives-Reads, Gives, Gives-query, Gives-pure, Gives-bind}
use ovpn.Sql.{select_rows, order_by}
use ovpn.Remote.{Db, World, ConnectionRow, query}
use ovpn.Remote.Sessions.{get_debug_session}
use ovpn.Remote.Reports.{
  within, connection_rows, rows_within, source_networks, snapshot_networks, snapshots, snapshot_of,
  report_of, emails_of, list_connection_metric_snapshots, connection_top_ports, connection_report,
  connection_diagnostics, port_limit,
}
use ovpn.Model.Types.{Time, UserConnectionDiagnostics, ConnectionPortCount, ConnectionDebugSession}

module _ {R : Type 0} where
  select_both :
      (p q : R → Bool) (rows : List R)
      → select_rows p (select_rows q rows) ≡ select_rows (λ row. p row && q row) rows
  unfolding select_rows
  select_both p q [] = refl
  select_both p q (row ∷ rows) = elim (Bool-cases (q row)) [
    | inl taken ↦ elim (Bool-cases (p row)) [
      | inl keep ↦ rw (taken, keep) (ap (λ rest. row ∷ rest) (select_both p q rows))
      | inr drop ↦ rw (taken, drop) (select_both p q rows)
    ]
    | inr left_out ↦ elim (Bool-cases (p row)) [
      | inl keep ↦ rw (left_out, keep) (select_both p q rows)
      | inr drop ↦ rw (left_out, drop) (select_both p q rows)
    ]
  ]

-- What the two say of a user alike.
abbrev pub Agrees : UserConnectionDiagnostics → UserConnectionDiagnostics → Type 0
Agrees a b =
    (a.last_seen_at ≡ b.last_seen_at)
    × (a.accepted_count ≡ b.accepted_count)
    × (a.rejected_count ≡ b.rejected_count)
    × (a.destination_ipv6_count ≡ b.destination_ipv6_count)
    × (a.approx_source_networks ≡ b.approx_source_networks)

module _ (since until : Time) where
  abbrev IsSnapshot : List ConnectionRow → Db → UserConnectionDiagnostics → Type 0
  IsSnapshot all db row =
      row ≡ snapshot_of since until all row.email (snapshot_networks row.email since until db)

  snapshots-All :
      (all : List ConnectionRow) (emails : List Text)
      → Gives (snapshots since until all emails) (λ db rows. All (IsSnapshot all db) rows)
  unfolding snapshots
  snapshots-All all [] w rows h =
      let (none_made, same) = Gives-pure [] w rows h in
      (subst (All (IsSnapshot all w.db)) (sym none_made) tt, same)
  snapshots-All all (email ∷ emails) w rows h =
      let made : ℕ → List UserConnectionDiagnostics → List UserConnectionDiagnostics =
        λ sources rest. snapshot_of since until all email sources ∷ rest in
      let ((sources, found, (rest, given, is_made)), same) =
        Gives-bind (query (snapshot_networks email since until))
          (λ sources. snapshots since until all emails >>= (λ rest. pure (made sources rest)))
          (λ db x. x ≡ snapshot_networks email since until db)
          (λ sources db rows.
            (rest : List UserConnectionDiagnostics) × All (IsSnapshot all db) rest
            × (rows ≡ made sources rest))
          (Gives-query (snapshot_networks email since until))
          (λ sources.
            Gives-bind (snapshots since until all emails) (λ rest. pure (made sources rest))
              (λ db rest. All (IsSnapshot all db) rest) (λ rest db rows. rows ≡ made sources rest)
              (snapshots-All all emails) (λ rest. Gives-pure (made sources rest)))
          w rows h in
      (
        subst (All (IsSnapshot all w.db)) (sym is_made)
            (ap (snapshot_of since until all email) found, given),
        same,
      )

  Gives-snapshots :
      Gives
        (list_connection_metric_snapshots since until)
        (λ db rows. All (IsSnapshot (rows_within since until db) db) rows)
  unfolding list_connection_metric_snapshots
  Gives-snapshots w rows h =
      let ((all, found, given), same) =
        Gives-bind (query (rows_within since until))
          (λ all. snapshots since until all (order_by (λ (email : Text). email) (emails_of [] all)))
          (λ db x. x ≡ rows_within since until db) (λ all db rows. All (IsSnapshot all db) rows)
          (Gives-query (rows_within since until)) (λ all. snapshots-All all _) w rows h in
      (subst (λ rs. All (IsSnapshot rs w.db) rows) found given, same)

  abbrev IsReport : Text → Db → UserConnectionDiagnostics → Type 0
  IsReport email db report =
      (ports : List ConnectionPortCount) × (session : Option ConnectionDebugSession) × (report
        ≡ report_of email since until (connection_rows email since until db)
            (source_networks email since until db) ports session)

  module _ (email : Text) (limit : ℕ) where
    abbrev Made : List ConnectionRow → ℕ → UserConnectionDiagnostics → Type 0
    Made rows sources report =
        (ports : List ConnectionPortCount) × Unit {0}
        × ((session : Option ConnectionDebugSession) × Unit {0}
            × (report ≡ report_of email since until rows sources ports session))

    abbrev with_session :
        List ConnectionRow → ℕ → List ConnectionPortCount → Exec World UserConnectionDiagnostics
    with_session rows sources ports =
        get_debug_session email until
        >>= (λ session. pure (report_of email since until rows sources ports session))

    abbrev with_ports : List ConnectionRow → ℕ → Exec World UserConnectionDiagnostics
    with_ports rows sources =
        connection_top_ports email since until limit >>= with_session rows sources

    Gives-ports :
        (rows : List ConnectionRow) (sources : ℕ)
        → Gives (with_ports rows sources) (λ db report. Made rows sources report)
    Gives-ports rows sources =
        Gives-bind (connection_top_ports email since until limit) (with_session rows sources)
          (λ db x. Unit {0})
          (λ ports db report.
            (session : Option ConnectionDebugSession) × Unit {0}
            × (report ≡ report_of email since until rows sources ports session))
          (Gives-Reads (connection_top_ports email since until limit)
            (Reads-top_ports email since until limit))
          (λ ports.
            Gives-bind (get_debug_session email until)
              (λ session. pure (report_of email since until rows sources ports session))
              (λ db x. Unit {0})
              (λ session db report. report ≡ report_of email since until rows sources ports session)
              (Gives-Reads (get_debug_session email until) (Reads-debug_session email until))
              (λ session. Gives-pure (report_of email since until rows sources ports session)))

    Gives-report : Gives (connection_report email since until limit) (λ db report.
        Made (connection_rows email since until db) (source_networks email since until db) report)
    unfolding connection_report
    Gives-report w report h =
        let ((rows, is_rows, (sources, is_sources, made)), same) =
          Gives-bind (query (connection_rows email since until))
            (λ rows. query (source_networks email since until) >>= with_ports rows)
            (λ db x. x ≡ connection_rows email since until db)
            (λ rows db report.
              (sources : ℕ) × (sources ≡ source_networks email since until db)
              × Made rows sources report)
            (Gives-query (connection_rows email since until))
            (λ rows.
              Gives-bind (query (source_networks email since until)) (with_ports rows)
                (λ db x. x ≡ source_networks email since until db)
                (λ sources db report. Made rows sources report)
                (Gives-query (source_networks email since until)) (Gives-ports rows))
            w report h in
        (
          subst (λ n. Made (connection_rows email since until w.db) n report) is_sources
              (subst (λ rs. Made rs sources report) is_rows made),
          same,
        )

  rows_of_user :
      (email : Text) (db : Db)
      → select_rows (λ (row : ConnectionRow). text_eq row.email email) (rows_within since until db)
        ≡ connection_rows email since until db
  rows_of_user email db =
      select_both (λ (row : ConnectionRow). text_eq row.email email)
        (λ row. within since until row.window_start) db.connection_hourly

  same_networks :
      (email : Text) (db : Db)
      → snapshot_networks email since until db ≡ source_networks email since until db
  unfolding snapshot_networks source_networks
  same_networks email db = refl

  snapshot-Agrees :
      (email : Text) (limit : ℕ) (db : Db) (row report : UserConnectionDiagnostics)
      → IsSnapshot (rows_within since until db) db row
      → row.email ≡ email
      → Made email limit
          (connection_rows email since until db)
          (source_networks email since until db)
          report
      → Agrees row report
  snapshot-Agrees email limit db row report taken named (ports, unit, (session, unit', made)) =
      let row_is =
        taken
        ∙ ap
            (λ who.
              snapshot_of since until (rows_within since until db) who
                (snapshot_networks who since until db))
            named in
      rw (row_is, made, rows_of_user email db, same_networks email db)
        (refl, refl, refl, refl, refl)

  clock_settled :
      (given : Text) (limit : ℤ) (v : World)
      → (since == 0) ≡ false
      → ltb since until ≡ true
      → connection_diagnostics given since until limit v
        ≡ connection_report (trim_space given) since until (port_limit limit) v
  unfolding connection_diagnostics
  clock_settled given limit v started ordered =
      let ended : (until == 0) ≡ false = ground arith in rw (ended, started, ordered) refl

-- What the gauges say of a user and what the report on the user says of the same span agree, both
-- read from the same tables: the last connection, the accepted and the rejected ones, the IPv6
-- destinations and the source networks.
pub list_connection_metric_snapshots-Agrees :
    (since until : Time) (given : Text) (limit : ℤ) (w v : World)
    (rows : List UserConnectionDiagnostics) (row report : UserConnectionDiagnostics)
    → (since == 0) ≡ false
    → ltb since until ≡ true
    → (list_connection_metric_snapshots since until w).0 ≡ ok rows
    → (connection_diagnostics given since until limit v).0 ≡ ok report
    → v.db ≡ w.db
    → Member row rows
    → row.email ≡ trim_space given
    → Agrees row report
list_connection_metric_snapshots-Agrees since until given limit w v rows row report started ordered
      listed told same member named =
    let (all, kept) = Gives-snapshots since until w rows listed in
    let settled = clock_settled since until given limit v started ordered in
    let told' = sym (ap (λ (r : Result UserConnectionDiagnostics × World). r.0) settled) ∙ told in
    let (made, kept') =
      Gives-report since until (trim_space given) (port_limit limit) v report told' in
    snapshot-Agrees since until (trim_space given) (port_limit limit) w.db row report
      (All-Member _ rows row all member) named
      (subst
        (λ db.
          Made since until (trim_space given) (port_limit limit)
            (connection_rows (trim_space given) since until db)
            (source_networks (trim_space given) since until db) report)
        same made)
