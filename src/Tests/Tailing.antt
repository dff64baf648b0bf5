-- ===== src/Tests/Tailing.antt =====
-- The theorems on the tailer at a log that is read in three pieces.
use ovpn.Prelude.{
  ℕ, ◌+◌, ℤ, pos, ◌≡◌, true, Option, none, some, List, [], ◌∷◌, ◌++◌, Text, codes, ok,
}
use ovpn.Diagnostics.{LineParsers}
use ovpn.Diagnostics.Tailer.{Tail, TailerConfig, LogFile, parse_chunk}
use ovpn.Diagnostics.Tailer.Run.{Moment, Tick, run}
use ovpn.Diagnostics.Tailer.Conserved.{balance, total_read, run_conserves}
use ovpn.Diagnostics.Tailer.Chunks.{parse_chunk-append}
use ovpn.Tests.Fixtures.{noon, store_with}

-- Parsers that take every line that is not blank for one of a user's.
abbrev parsers : LineParsers
parsers = record {
  ts_prefix = λ line. some (codes "ts", line);
  email_match = λ line. some (codes "ann@a");
  time_in = λ layout text. some noon;
  split_host_port = λ text. none;
  atoi = λ text. (pos 443, true);
  parse_ip = λ text. none;
  decimal = λ n. [];
}

abbrev tail : Tail
tail = record {
  world = store_with [];
  offset = 0;
  partial = codes "1.2.3.4:5 acc";
  offset_initialized = true;
  batch = [];
  observed = [];
}

abbrev half : Text
half = codes "epted tcp:example.org"

abbrev other_half : Text
other_half = codes ":443\nnoise\n"

parse_chunk-append_example :
    let (events, t1) = parse_chunk parsers half tail in
    let (later, t2) = parse_chunk parsers other_half t1 in
    parse_chunk parsers (half ++ other_half) tail ≡ (events ++ later, t2)
parse_chunk-append_example = parse_chunk-append parsers half other_half tail

abbrev no_hash : Text → Text
no_hash t = t

abbrev no_number : Text → Option ℤ
no_number t = none

abbrev no_format : ℕ → Text
no_format n = []

abbrev config : TailerConfig
config = record {
  max_bytes = 1000;
  batch_size = 2;
  source_bucket_cap = pos 0;
  debug_event_cap = pos 0;
  retention = pos 0;
}

abbrev moment : Moment
moment = record { now = noon; outcomes = [] }

-- The store refuses the first flush.
abbrev refusing : Moment
refusing = record { now = noon; outcomes = some (codes "database is locked") ∷ [] }

abbrev log : LogFile
log = record { size = ok 12; content = ok (half ++ other_half); truncate_error = none }

abbrev ticks : List Tick
ticks = Tick.read_tick moment log ∷ Tick.flush_tick refusing ∷ Tick.cleanup_tick moment ∷ []

run_conserves_example :
    balance (run parsers no_number no_format no_hash config ticks moment tail)
    ≡ balance tail + total_read parsers no_number no_format no_hash config ticks tail
run_conserves_example = run_conserves parsers no_number no_format no_hash config ticks moment tail
