-- ===== src/Diagnostics/Tailer/Conserved.antt =====
-- How many events the tailer has recorded, and how many wait in its batch (internal/diagnostics/tailer.go).
use ovpn.Prelude.{
  leb, ltb, ◌&&◌, ◌==◌, Option-cases, ℕ, ◌+◌, ℤ, ◌≡◌, refl, ◌∙◌, inl, inr, Bool, true, false,
  Option, none, some, List, [], ◌∷◌, ◌++◌, Text, codes, arith, Exec, Result, ok, err, length,
  length-append, pure, ◌>>=◌, bind_cases, Bool-cases, if◌then◌else◌,
}
use ovpn.Remote.{World}
use ovpn.Model.Types.{ConnectionEvent}
use ovpn.Diagnostics.{LineParsers, parse_access_line}
use ovpn.Local.Secrets.{take, drop}
use ovpn.Remote.Sessions.{cleanup_connection_diagnostics}
use ovpn.Remote.Meta.{get_meta, set_meta}
use ovpn.Diagnostics.Tailer.{
  cut_lines, offset_meta_key, Observed, recorded, tailer_error, LogFile, Tail, TailerConfig,
  on_world, observe, parsed_line, parse_lines, parse_chunk, parse_raw, init_offset,
  truncate_scratch_log, truncate_if_large, take_chunk, read_content, read_from, rewound,
  init_if_needed, read_sized, read_new_events, flushed, flush_some, flush, push_event,
  flush_if_full, add_events, after_read, after_cleanup,
}
use ovpn.Diagnostics.Tailer.Run.{Moment, Tick, at, tick, run}

-- The events that the observer was told to be recorded.
unfoldable pub recorded_total : List Observed → ℕ
recorded_total [] = 0
recorded_total (Observed.recorded n ∷ rest) = n + recorded_total rest
recorded_total (Observed.parse_error ∷ rest) = recorded_total rest
recorded_total (Observed.tailer_error op ∷ rest) = recorded_total rest

recorded_total-append :
    (xs ys : List Observed) → recorded_total (xs ++ ys) ≡ recorded_total xs + recorded_total ys
unfolding recorded_total
recorded_total-append [] ys = omega arith
recorded_total-append (Observed.recorded n ∷ xs) ys = omega (arith, recorded_total-append xs ys)
recorded_total-append (Observed.parse_error ∷ xs) ys = recorded_total-append xs ys
recorded_total-append (Observed.tailer_error op ∷ xs) ys = recorded_total-append xs ys

-- The events recorded and those that wait in the batch.
abbrev pub balance : Tail → ℕ
balance t = recorded_total t.observed + length t.batch

-- An action that neither records nor queues an event.
abbrev IsNeutral : {A : Type 0} → Exec Tail A → Type 0
IsNeutral m = (t : Tail) → balance (m t).1 ≡ balance t

Neutral-bind :
    {A B : Type 0} (m : Exec Tail A) (f : A → Exec Tail B)
    → IsNeutral m
    → ((x : A) → IsNeutral (f x))
    → IsNeutral (m >>= f)
Neutral-bind m f nm nf t = elim (bind_cases m f t) [
  | inl (x, done, same) ↦ rw same (nf x (m t).1 ∙ nm t)
  | inr (e, failed, same) ↦ rw same (nm t)
]

Neutral-world : {A : Type 0} (m : Exec World A) → IsNeutral (on_world m)
unfolding on_world
Neutral-world m t = refl

Neutral-none : IsNeutral {A = List ConnectionEvent} (pure [])
unfolding pure
Neutral-none t = refl

balance_either :
    {A : Type 0} (b : Bool) (x y : Result A × Tail) (n : ℕ)
    → balance x.1 ≡ n
    → balance y.1 ≡ n
    → balance (if b then x else y).1 ≡ n
balance_either true x y n hx hy = hx
balance_either false x y n hx hy = hy

balance-observe :
    (o : Observed) (t : Tail) → recorded_total (o ∷ []) ≡ 0 → balance (observe o t) ≡ balance t
unfolding observe
balance-observe o t h = omega (arith, recorded_total-append t.observed (o ∷ []))

module _ (p : LineParsers) where
  errors_only :
      (line : Text) (found : Option ConnectionEvent)
      → recorded_total (parsed_line p line found).1 ≡ 0
  unfolding recorded_total
  errors_only line none = ground arith
  errors_only line (some ev) = refl

  parse_lines_records_none : (lines : List Text) → recorded_total (parse_lines p lines).1 ≡ 0
  unfolding parse_lines
  parse_lines_records_none [] = unfold recorded_total in refl
  parse_lines_records_none (line ∷ lines) = omega (
    arith,
    recorded_total-append (parsed_line p line (parse_access_line p line)).1 (parse_lines p lines).1,
    errors_only line (parse_access_line p line),
    parse_lines_records_none lines,
  )

module _ (p : LineParsers) (parse_int : Text → Option ℤ) (format_int : ℕ → Text) where
  Neutral-parse : (raw : Text) → IsNeutral (parse_raw p parse_int format_int raw)
  unfolding parse_chunk
  Neutral-parse [] t = refl
  Neutral-parse (x ∷ raw) t =
      let lines = (cut_lines (t.partial ++ x ∷ raw)).0 in
      omega (
        arith,
        recorded_total-append t.observed (parse_lines p lines).1,
        parse_lines_records_none p lines,
      )

  Neutral-init : (size : ℕ) → IsNeutral (init_offset p parse_int format_int size)
  unfolding init_offset
  Neutral-init size =
      Neutral-bind (on_world (get_meta offset_meta_key)) _
        (Neutral-world (get_meta offset_meta_key)) (λ raw t. refl)

  Neutral-truncate : (file : LogFile) → IsNeutral (truncate_scratch_log p parse_int format_int file)
  unfolding truncate_scratch_log
  Neutral-truncate file t = elim (Option-cases file.truncate_error) [
    | inl e ↦ rw e (
        Neutral-world (set_meta offset_meta_key (codes "0"))
          (record t { offset = 0; partial = [] }))
    | inr (x, e) ↦ rw e refl
  ]

  module _ (c : TailerConfig) (file : LogFile) (size : ℕ) where
    Neutral-truncate_if : IsNeutral (truncate_if_large p parse_int format_int c file size)
    Neutral-truncate_if t = elim (Bool-cases (ltb 0 c.max_bytes && ltb c.max_bytes size)) [
      | inl e ↦ rw e (Neutral-truncate file t)
      | inr e ↦ rw e refl
    ]

    Neutral-take : (raw : Text) → IsNeutral (take_chunk p parse_int format_int c file size raw)
    unfolding take_chunk
    Neutral-take raw t =
        Neutral-bind (truncate_if_large p parse_int format_int c file size) _ Neutral-truncate_if
          (λ x.
            Neutral-bind (λ s. on_world (set_meta offset_meta_key (format_int s.offset)) s) _
              (λ s. Neutral-world (set_meta offset_meta_key (format_int s.offset)) s)
              (λ y. Neutral-parse raw))
          (record t { offset = t.offset + length raw })

    Neutral-content :
        (content : Result Text)
        → IsNeutral (read_content p parse_int format_int c file size content)
    Neutral-content (err e) t = refl
    Neutral-content (ok content) t = Neutral-take (take (c.max_bytes + 1) (drop t.offset content)) t

    Neutral-from : IsNeutral (read_from p parse_int format_int c file size)
    Neutral-from t = elim (Bool-cases (size == t.offset)) [
      | inl e ↦ rw e (
          Neutral-bind {B = List ConnectionEvent}
            (truncate_if_large p parse_int format_int c file size) (λ _. pure [])
            Neutral-truncate_if (λ x. Neutral-none) t)
      | inr e ↦ rw e (Neutral-content file.content t)
    ]

    balance-rewound : (t : Tail) → balance (rewound p parse_int format_int size t) ≡ balance t
    balance-rewound t = elim (Bool-cases (ltb size t.offset)) [
      | inl e ↦ rw e refl
      | inr e ↦ rw e refl
    ]

    Neutral-init_if : IsNeutral (init_if_needed p parse_int format_int size)
    Neutral-init_if t =
        balance_either t.offset_initialized (ok tt, t) (init_offset p parse_int format_int size t)
          (balance t) refl (Neutral-init size t)

  Neutral-sized :
      (c : TailerConfig) (file : LogFile) (size : Result ℕ)
      → IsNeutral (read_sized p parse_int format_int c file size)
  Neutral-sized c file (err e) t = refl
  Neutral-sized c file (ok size) t =
      Neutral-bind (init_if_needed p parse_int format_int size)
        (λ _ s.
          read_from p parse_int format_int c file size (rewound p parse_int format_int size s))
        (Neutral-init_if c file size)
        (λ x s.
          Neutral-from c file size (rewound p parse_int format_int size s)
          ∙ balance-rewound c file size s)
        t

  Neutral-read :
      (c : TailerConfig) (file : LogFile)
      → IsNeutral (read_new_events p parse_int format_int c file)
  unfolding read_new_events
  Neutral-read c file t = Neutral-sized c file file.size t

  module _ (hash : Text → Text) (c : TailerConfig) where
    balance-flushed :
        (run : Result (Unit {0}) × Tail)
        → balance (flushed p parse_int format_int hash c run) ≡ balance run.1
    unfolding observe
    balance-flushed (ok u, t) =
        unfold recorded_total in
        omega (arith, recorded_total-append t.observed (recorded (length t.batch) ∷ []))
    balance-flushed (err e, t) =
        balance-observe (tailer_error (codes "record_events")) t (unfold recorded_total in refl)

    balance-flush_some :
        (events : List ConnectionEvent) (t : Tail)
        → balance (flush_some p parse_int format_int hash c events t) ≡ balance t
    balance-flush_some [] t = refl
    balance-flush_some (ev ∷ events) t = balance-flushed _ ∙ Neutral-world _ t

    balance-flush : (t : Tail) → balance (flush p parse_int format_int hash c t) ≡ balance t
    unfolding flush
    balance-flush t = balance-flush_some t.batch t

    push_balance :
        (ev : ConnectionEvent) (t : Tail)
        → balance (push_event p parse_int format_int hash c ev t) ≡ balance t + 1
    push_balance ev t = omega (arith, length-append {0} t.batch (ev ∷ []))

    full_balance : (t : Tail) → balance (flush_if_full p parse_int format_int hash c t) ≡ balance t
    full_balance t = elim (Bool-cases (leb c.batch_size (length t.batch))) [
      | inl e ↦ rw e (balance-flush t)
      | inr e ↦ rw e refl
    ]

    balance-add_events :
        (events : List ConnectionEvent) (t : Tail)
        → balance (add_events p parse_int format_int hash c events t) ≡ balance t + length events
    unfolding add_events
    balance-add_events [] t = omega arith
    balance-add_events (ev ∷ events) t =
        let pushed = push_event p parse_int format_int hash c ev t in
        omega (
          arith,
          balance-add_events events (flush_if_full p parse_int format_int hash c pushed),
          full_balance pushed,
          push_balance ev t,
        )

    -- The events that a tick reads.
    abbrev found_events : Result (List ConnectionEvent) → ℕ
    found_events (ok events) = length events
    found_events (err e) = 0

    unfoldable pub events_read : Tick → Tail → ℕ
    events_read (Tick.read_tick m file) t =
        found_events (read_new_events p parse_int format_int c file (at m t)).0
    events_read (Tick.flush_tick m) t = 0
    events_read (Tick.cleanup_tick m) t = 0

    balance-after_read :
        (run : Result (List ConnectionEvent) × Tail)
        → balance (after_read p parse_int format_int hash c run)
          ≡ balance run.1 + found_events run.0
    balance-after_read (ok events, t) = balance-add_events events t
    balance-after_read (err e, t) = omega (
      arith,
      balance-observe (tailer_error (codes "read_access_log")) t (unfold recorded_total in refl),
    )

    balance-after_cleanup :
        (run : Result (Unit {0}) × Tail)
        → balance (after_cleanup p parse_int format_int hash c run) ≡ balance run.1
    balance-after_cleanup (ok u, t) = refl
    balance-after_cleanup (err e, t) =
        balance-observe (tailer_error (codes "cleanup")) t (unfold recorded_total in refl)

    balance-tick :
        (k : Tick) (t : Tail)
        → balance (tick p parse_int format_int hash c k t) ≡ balance t + events_read k t
    unfolding tick events_read
    balance-tick (Tick.read_tick m file) t = omega (
      arith,
      balance-after_read (read_new_events p parse_int format_int c file (at m t)),
      Neutral-read c file (at m t),
    )
    balance-tick (Tick.flush_tick m) t = omega (arith, balance-flush (at m t))
    balance-tick (Tick.cleanup_tick m) t = omega (
      arith,
      balance-after_cleanup (on_world (cleanup_connection_diagnostics m.now c.retention) (at m t)),
      Neutral-world (cleanup_connection_diagnostics m.now c.retention) (at m t),
    )

    -- The events read during a run.
    unfoldable pub total_read : List Tick → Tail → ℕ
    unfolding events_read
    total_read [] t = 0
    total_read (k ∷ ticks) t =
        events_read k t + total_read ticks (tick p parse_int format_int hash c k t)

    -- Whatever the driver and the file system refuse, and in whichever order the tickers fire: the
    -- events that the observer was told to be recorded and those that still wait in the batch are, at
    -- the end of a run, as many as those of its beginning and the events read in between.
    pub run_conserves :
        (ticks : List Tick) (end : Moment) (t : Tail)
        → balance (run p parse_int format_int hash c ticks end t) ≡ balance t + total_read ticks t
    unfolding run total_read
    run_conserves [] end t = omega (arith, balance-flush (at end t))
    run_conserves (k ∷ ticks) end t =
        omega (
          arith,
          run_conserves ticks end (tick p parse_int format_int hash c k t),
          balance-tick k t,
        )
