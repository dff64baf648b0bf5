-- ===== src/Remote/Connections/AllOrNothing.antt =====
-- A batch of events that is refused leaves nothing behind.
use ovpn.Driver.Atomic.{transact_err}
use ovpn.Driver.Reads.{Reads, Reads-query, Reads-bind}
use ovpn.Prelude.{
  ℕ, ℤ, ◌≡◌, refl, ◌∙◌, inl, inr, List, [], ◌∷◌, Text, Exec, err, bind_cases, pure, ◌>>=◌,
}
use ovpn.Remote.{World, rfc3339, transact, query}
use ovpn.Remote.Window.{positive_or}
use ovpn.Remote.Sessions.{active_debug_sessions}
use ovpn.Remote.Connections.{default_source_bucket_cap, default_debug_event_cap}
use ovpn.Remote.Connections.Recording.{debug_event_counts, record_events, record_connection_events}
use ovpn.Model.Types.{Time, ConnectionEvent}

Reads-counts : (emails : List Text) → Reads (debug_event_counts emails)
unfolding debug_event_counts pure
Reads-counts [] w = (refl, refl)
Reads-counts (email ∷ emails) w =
    Reads-bind (query _) _ (Reads-query _)
      (λ n. Reads-bind (debug_event_counts emails) _ (Reads-counts emails) (λ rest v. (refl, refl)))
      w

-- Whatever the driver refuses, and whichever event of the batch it comes at: a batch of the access
-- log's events whose recording returns an error has changed nothing in the database.
pub record_connection_events-all_or_nothing :
    (hash : Text → Text) (events : List ConnectionEvent) (source_cap event_cap : ℤ) (now : Time)
    (w : World) (e : Text)
    → (record_connection_events hash events source_cap event_cap now w).0 ≡ err e
    → (record_connection_events hash events source_cap event_cap now w).1.db ≡ w.db
unfolding record_connection_events active_debug_sessions pure
record_connection_events-all_or_nothing hash [] source_cap event_cap now w e = λ h. refl
record_connection_events-all_or_nothing hash (ev ∷ events) source_cap event_cap now w e =
    let batch : List Text → List (Text × ℕ) → Exec World (Unit {0}) = λ active counts.
      record_events hash (positive_or source_cap default_source_bucket_cap)
        (positive_or event_cap default_debug_event_cap) active now (rfc3339 w.now) (ev ∷ events)
        (record { source_counts = []; debug_counts = counts }) in
    let body : List Text → List (Text × ℕ) → Exec World (Unit {0}) =
      λ active counts. transact (batch active counts) in
    elim (bind_cases (active_debug_sessions now)
      (λ active. debug_event_counts active >>= body active) w) [
        | inr (x, failed, same) ↦ rw same (λ h. (Reads-query _ w).0)
        | inl (active, done, same) ↦
            let w1 = (active_debug_sessions now w).1 in
            rw same (elim (bind_cases (debug_event_counts active) (body active) w1) [
              | inr (x, failed, next) ↦
                  rw next (λ h. (Reads-counts active w1).0 ∙ (Reads-query _ w).0)
              | inl (counts, counted, next) ↦ rw next (λ h.
                  transact_err (batch active counts) (debug_event_counts active w1).1 e h
                  ∙ ((Reads-counts active w1).0 ∙ (Reads-query _ w).0))
            ])
      ]
