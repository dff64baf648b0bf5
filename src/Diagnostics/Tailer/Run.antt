-- ===== src/Diagnostics/Tailer/Run.antt =====
-- The loop of the tailer (Run of internal/diagnostics/tailer.go): the three tickers and the end, as
-- the list of what the loop selects.
use ovpn.Prelude.{ℕ, ℤ, Option, List, [], ◌∷◌, Text}
use ovpn.Remote.Sessions.{cleanup_connection_diagnostics}
use ovpn.Model.Types.{Time}
use ovpn.Diagnostics.{LineParsers}
use ovpn.Diagnostics.Tailer.{
  LogFile, Tail, TailerConfig, on_world, read_new_events, add_events, after_read, after_cleanup,
  flush,
}

-- The time of a tick, and what the driver does during it.
pub record Moment : Type 0 where
  pub now : Time
  pub outcomes : List (Option Text)

pub data Tick : Type 0 where
  read_tick : Moment → LogFile → Tick
  flush_tick : Moment → Tick
  cleanup_tick : Moment → Tick

abbrev pub at : Moment → Tail → Tail
at m t = record t { world = record t.world { now = m.now; outcomes = m.outcomes } }

module _ (p : LineParsers) (parse_int : Text → Option ℤ) (format_int : ℕ → Text)
    (hash : Text → Text) (c : TailerConfig) where
  unfoldable pub tick : Tick → Tail → Tail
  unfolding read_new_events add_events flush on_world cleanup_connection_diagnostics
  tick (Tick.read_tick m file) t =
      after_read p parse_int format_int hash c
        (read_new_events p parse_int format_int c file (at m t))
  tick (Tick.flush_tick m) t = flush p parse_int format_int hash c (at m t)
  tick (Tick.cleanup_tick m) t =
      after_cleanup p parse_int format_int hash c
        (on_world (cleanup_connection_diagnostics m.now c.retention) (at m t))

  -- The ticks in order, and the flush at the end.
  unfoldable pub run : List Tick → Moment → Tail → Tail
  unfolding tick flush
  run [] end t = flush p parse_int format_int hash c (at end t)
  run (k ∷ ticks) end t = run ticks end (tick k t)
