-- ===== src/Diagnostics/Tailer.antt =====
-- internal/diagnostics/tailer.go: the reader of Xray's access log. The file system and the number
-- parsers are parameters: `LogFile` is what the calls of one reading give.
pub mod Run
pub mod Conserved
pub mod Chunks
use ovpn.Prelude.{
  ℕ, zero, suc, ℤ, pos, negsuc, ◌+◌, ◌*◌, ◌≡◌, refl, ltb, leb, Bool, true, false, ◌&&◌, ◌||◌, not,
  Option, none, some, List, [], ◌∷◌, ◌++◌, Text, codes, Exec, Result, ok, err, ◌==◌, length,
  text_eq, pure, fail, ◌>>=◌, ◌>>◌, if◌then◌else◌,
}
use ovpn.Strings.{trim_space, to_lower, split, is_blank}
use ovpn.Local.Secrets.{take, drop}
use ovpn.Remote.{World}
use ovpn.Remote.Meta.{get_meta, set_meta}
use ovpn.Remote.Connections.Recording.{record_connection_events}
use ovpn.Remote.Sessions.{cleanup_connection_diagnostics}
use ovpn.Model.Types.{Time, ConnectionEvent}
use ovpn.Diagnostics.{LineParsers, parse_access_line}

abbrev pub mode_basic : Text
mode_basic = codes "basic"

abbrev pub mode_off : Text
mode_off = codes "off"

abbrev pub mode_debug : Text
mode_debug = codes "debug"

abbrev mode_of_name : Text → Text
mode_of_name name =
    if text_eq name mode_off
    then mode_off
    else if text_eq name mode_debug
    then mode_debug
    else mode_basic

unfoldable pub normalize_mode : Text → Text
unfolding trim_space to_lower
normalize_mode mode = mode_of_name (to_lower (trim_space mode))

unfoldable pub diagnostics_enabled : Text → Bool
unfolding normalize_mode
diagnostics_enabled mode = not (text_eq (normalize_mode mode) mode_off)

abbrev pub offset_meta_key : Text
offset_meta_key = codes "connection_access_log_offset"

-- The calls of the Observer, the newest last.
pub data Observed : Type 0 where
  recorded : ℕ → Observed
  parse_error : Observed
  tailer_error : Text → Observed

-- What the file system gives to one reading; the file may have grown between the calls. The bytes are
-- those of the log.
pub record LogFile : Type 0 where
  pub size : Result ℕ
  pub content : Result Text
  pub truncate_error : Option Text

pub record Tail : Type 0 where
  pub world : World
  pub offset : ℕ
  pub partial : Text
  pub offset_initialized : Bool
  pub batch : List ConnectionEvent
  pub observed : List Observed

pub record TailerConfig : Type 0 where
  pub max_bytes : ℕ
  pub batch_size : ℕ
  pub source_bucket_cap : ℤ
  pub debug_event_cap : ℤ
  pub retention : ℤ

unfoldable pub on_world : {A : Type 0} → Exec World A → Exec Tail A
on_world m t = let (r, w) = m t.world in (r, record t { world = w })

unfoldable pub observe : Observed → Tail → Tail
observe o t = record t { observed = t.observed ++ o ∷ [] }

abbrev pub last_part : List Text → Text
last_part [] = []
last_part (part ∷ []) = part
last_part (part ∷ next ∷ parts) = last_part (next ∷ parts)

abbrev pub all_but_last : List Text → List Text
all_but_last [] = []
all_but_last (part ∷ []) = []
all_but_last (part ∷ next ∷ parts) = part ∷ all_but_last (next ∷ parts)

-- Whether the text ends with a newline.
unfoldable pub ends_line : Text → Bool
ends_line [] = false
ends_line (c ∷ []) = c == 10
ends_line (c ∷ d ∷ s) = ends_line (d ∷ s)

-- The lines to parse, and the beginning of a line that is kept. A text that ends with a newline has an
-- empty line after it, which is among those to parse.
unfoldable pub cut_lines : Text → List Text × Text
unfolding split ends_line
cut_lines text =
    let lines = split text 10 in
    if ends_line text then (lines, []) else (all_but_last lines, last_part lines)

module _ (p : LineParsers) where
  abbrev pub parsed_line : Text → Option ConnectionEvent → List ConnectionEvent × List Observed
  parsed_line line (some ev) = (ev ∷ [], [])
  parsed_line line none = if is_blank line then ([], []) else ([], parse_error ∷ [])

  unfoldable pub parse_lines : List Text → List ConnectionEvent × List Observed
  parse_lines [] = ([], [])
  parse_lines (line ∷ lines) =
      let (events, errors) = parsed_line line (parse_access_line p line) in
      let (more_events, more_errors) = parse_lines lines in
      (events ++ more_events, errors ++ more_errors)

  unfoldable pub parse_chunk : Text → Tail → List ConnectionEvent × Tail
  unfolding cut_lines parse_lines
  parse_chunk chunk t =
      let (lines, rest) = cut_lines (t.partial ++ chunk) in
      let (events, errors) = parse_lines lines in
      (events, record t { partial = rest; observed = t.observed ++ errors })

  -- strconv.ParseInt and FormatInt of an offset
  module _ (parse_int : Text → Option ℤ) (format_int : ℕ → Text) where
    abbrev offset_within : ℕ → Option ℤ → ℕ
    offset_within size (some (pos n)) = if leb n size then n else size
    offset_within size (some (negsuc n)) = size
    offset_within size none = size

    abbrev stored_offset : ℕ → Option Text → ℕ
    stored_offset size none = size
    stored_offset size (some raw) = offset_within size (parse_int (trim_space raw))

    unfoldable pub init_offset : ℕ → Exec Tail (Unit {0})
    unfolding ◌>>=◌ on_world get_meta trim_space
    init_offset size = on_world (get_meta offset_meta_key) >>= λ raw t.
        (ok tt, record t { offset = stored_offset size raw; offset_initialized = true })

    abbrev truncated : Option Text → Exec Tail (Unit {0})
    truncated (some e) t = (err e, t)
    truncated none t =
        on_world (set_meta offset_meta_key (codes "0")) (record t { offset = 0; partial = [] })

    unfoldable pub truncate_scratch_log : LogFile → Exec Tail (Unit {0})
    unfolding on_world set_meta
    truncate_scratch_log file = truncated file.truncate_error

    abbrev pub truncate_if_large : TailerConfig → LogFile → ℕ → Exec Tail (Unit {0})
    truncate_if_large c file size t =
        if ltb 0 c.max_bytes && ltb c.max_bytes size
        then truncate_scratch_log file t
        else (ok tt, t)

    abbrev pub parse_raw : Text → Exec Tail (List ConnectionEvent)
    parse_raw [] t = (ok [], t)
    parse_raw (x ∷ raw) t = let (events, t') = parse_chunk (x ∷ raw) t in (ok events, t')

    -- What was read, from the offset on: the log is cut down where it is too large, the offset is
    -- stored, and the lines are parsed.
    unfoldable pub take_chunk : TailerConfig → LogFile → ℕ → Text → Exec Tail (List ConnectionEvent)
    unfolding ◌>>=◌ on_world set_meta truncate_scratch_log parse_chunk
    take_chunk c file size raw t =
        (do
          truncate_if_large c file size
          (λ s. on_world (set_meta offset_meta_key (format_int s.offset)) s)
          parse_raw raw)
          (record t { offset = t.offset + length raw })

    abbrev pub read_content :
        TailerConfig → LogFile → ℕ → Result Text → Exec Tail (List ConnectionEvent)
    read_content c file size (err e) t = (err e, t)
    read_content c file size (ok content) t =
        take_chunk c file size (take (c.max_bytes + 1) (drop t.offset content)) t

    -- After the offset is known: a log that has shrunk is read from its start.
    abbrev pub rewound : ℕ → Tail → Tail
    rewound size t = if ltb size t.offset then record t { offset = 0; partial = [] } else t

    abbrev pub read_from : TailerConfig → LogFile → ℕ → Exec Tail (List ConnectionEvent)
    read_from c file size t =
        if size == t.offset
        then (truncate_if_large c file size >> pure []) t
        else read_content c file size file.content t

    abbrev pub init_if_needed : ℕ → Exec Tail (Unit {0})
    init_if_needed size t = if t.offset_initialized then (ok tt, t) else init_offset size t

    abbrev pub read_sized : TailerConfig → LogFile → Result ℕ → Exec Tail (List ConnectionEvent)
    read_sized c file (err e) t = (err e, t)
    read_sized c file (ok size) t =
        (init_if_needed size >>= λ _ s. read_from c file size (rewound size s)) t

    unfoldable pub read_new_events : TailerConfig → LogFile → Exec Tail (List ConnectionEvent)
    unfolding ◌>>=◌ pure init_offset truncate_scratch_log take_chunk take drop
    read_new_events c file = read_sized c file file.size

    module _ (hash : Text → Text) (c : TailerConfig) where
      abbrev pub flushed : Result (Unit {0}) × Tail → Tail
      flushed (err e, t) = observe (tailer_error (codes "record_events")) t
      flushed (ok u, t) = record (observe (recorded (length t.batch)) t) { batch = [] }

      abbrev pub flush_some : List ConnectionEvent → Tail → Tail
      flush_some [] t = t
      flush_some (ev ∷ events) t = flushed (
          on_world
            (record_connection_events hash t.batch c.source_bucket_cap c.debug_event_cap
              t.world.now)
            t)

      -- The batch is kept where recording it fails.
      unfoldable pub flush : Tail → Tail
      unfolding observe on_world record_connection_events
      flush t = flush_some t.batch t

      abbrev pub push_event : ConnectionEvent → Tail → Tail
      push_event ev t = record t { batch = t.batch ++ ev ∷ [] }

      abbrev pub flush_if_full : Tail → Tail
      flush_if_full t = if leb c.batch_size (length t.batch) then flush t else t

      unfoldable pub add_events : List ConnectionEvent → Tail → Tail
      unfolding flush
      add_events [] t = t
      add_events (ev ∷ events) t = add_events events (flush_if_full (push_event ev t))

      abbrev pub after_read : Result (List ConnectionEvent) × Tail → Tail
      after_read (err e, t) = observe (tailer_error (codes "read_access_log")) t
      after_read (ok events, t) = add_events events t

      abbrev pub after_cleanup : Result (Unit {0}) × Tail → Tail
      after_cleanup (err e, t) = observe (tailer_error (codes "cleanup")) t
      after_cleanup (ok u, t) = t
