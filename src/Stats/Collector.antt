-- ===== src/Stats/Collector.antt =====
-- internal/stats/collector.go, and `ParseUserCounters` of internal/xrayapi/client.go. What dialling
-- Xray and its query give is an argument of a cycle; `time.Now` is the world's clock. The mutex makes
-- a cycle one step.
use ovpn.Prelude.{
  ℕ, suc, ◌*◌, ℤ, pos, ◌+ℤ◌, ltb_ℤ, leb_ℤ, wrap_int64, ◌≡◌, refl, Bool, true, false, ◌&&◌, not,
  Option, none, some, List, [], ◌∷◌, ◌++◌, codes, Text, Exec, Result, ok, err, length, text_eq,
  pure, fail, ◌==◌, ◌>>=◌, ◌>>◌, if◌then◌else◌,
}
pub mod Once
pub mod Tracking
pub mod Keys
use ovpn.Float.{Float64}
use ovpn.Strings.{has_prefix, push_char}
use ovpn.Dict.{put, get?, get, or_zero}
use ovpn.Remote.{World, CounterRow, rfc3339}
use ovpn.Remote.Meta.{get_counter, set_meta}
use ovpn.Remote.Traffic.{add_delta_and_advance_counter}
use ovpn.Model.Types.{Time}
use ovpn.Stats.{
  Event, collect_start, collect_finish, counter_reset, db_write_error, xray_reachable, users_active,
  user_spike, Agent, on_store, emit,
}
use ovpn.Stats.Delta.{compute_delta}
use ovpn.Stats.Quota.{QuotaEnforcer}
use ovpn.Stats.Quota.Loop.{enforce}
use ovpn.Stats.Expiry.{ExpiryEnforcer, enforce_expiry}

pub record UserCounter : Type 0 where
  pub email : Text
  pub uplink : ℤ
  pub downlink : ℤ

abbrev pub no_counter : UserCounter
no_counter = record { email = []; uplink = pos 0; downlink = pos 0 }

-- strings.Split(name, ">>>")
unfoldable pub split_arrows : Text → List Text
split_arrows [] = [] ∷ []
split_arrows (a ∷ []) = (a ∷ []) ∷ []
split_arrows (a ∷ b ∷ []) = (a ∷ b ∷ []) ∷ []
split_arrows (a ∷ b ∷ c ∷ rest) =
    let after = split_arrows rest in
    let here = split_arrows (b ∷ c ∷ rest) in
    if a == 62 && (b == 62 && c == 62) then [] ∷ after else push_char a here

abbrev with_direction : Text → ℤ → UserCounter → UserCounter
with_direction direction value entry =
    if text_eq direction (codes "uplink")
    then record entry { uplink = value }
    else if text_eq direction (codes "downlink")
    then record entry { downlink = value }
    else entry

abbrev fold_parts : List Text → ℤ → List (Text × UserCounter) → List (Text × UserCounter)
fold_parts (p0 ∷ email ∷ p2 ∷ direction ∷ parts) value out =
    put email (with_direction direction value (record (get no_counter email out) { email = email }))
      out
fold_parts parts value out = out

unfoldable pub parse_from : List (Text × ℤ) → List (Text × UserCounter) → List (Text × UserCounter)
unfolding split_arrows has_prefix put get
parse_from [] out = out
parse_from ((name, value) ∷ stats) out =
    parse_from stats
      (if has_prefix name (codes "user>>>") then fold_parts (split_arrows name) value out else out)

-- ParseUserCounters; the entries of the map come in the order of the list.
unfoldable pub parse_user_counters : List (Text × ℤ) → List (Text × UserCounter)
unfolding parse_from
parse_user_counters stats = parse_from stats []

abbrev pub default_spike_bytes : ℤ
default_spike_bytes = pos (1024 * 1024 * 1024)

pub record Collector (S : Type 0) : Type 0 where
  pub spike_delta_bytes : ℤ
  pub observed : Bool
  pub quota : Option (QuotaEnforcer S)
  pub expiry : Option (ExpiryEnforcer S)

abbrev pub uplink_key : Text → Text
uplink_key email = codes "user>>>" ++ (email ++ codes ">>>traffic>>>uplink")

abbrev pub downlink_key : Text → Text
downlink_key email = codes "user>>>" ++ (email ++ codes ">>>traffic>>>downlink")

abbrev error_of : Result (Unit {0}) → Option Text
error_of (ok _) = none
error_of (err e) = some e

abbrev pub has_row : Option CounterRow → Bool
has_row none = false
has_row (some row) = true

abbrev pub stored_value : Option CounterRow → ℤ
stored_value none = pos 0
stored_value (some row) = row.value

module _ {S : Type 0} where
  -- An error of the store is reported to the observer, and ends the cycle.
  abbrev reported :
      {A : Type 0} → Collector S → Text → (Text → Text) → Result A × Agent S → Result A × Agent S
  reported c operation wrap (ok x, a) = (ok x, a)
  reported c operation wrap (err e, a) =
      (err (wrap e), emit c.observed (db_write_error operation) a)

  unfoldable pub store_or_report :
      {A : Type 0} → Collector S → Text → (Text → Text) → Exec World A → Exec (Agent S) A
  unfolding on_store emit
  store_or_report c operation wrap m a = reported c operation wrap (on_store m a)

  unfoldable pub note : Collector S → Event → Exec (Agent S) (Unit {0})
  unfolding emit
  note c e a = (ok tt, emit c.observed e a)

  -- The text of the time that is stored with a key, a parameter of the collector.
  module _ (time_text : Time → Text) where
    unfoldable pub note_reset : Collector S → Bool → Time → Exec (Agent S) (Unit {0})
    unfolding ◌>>=◌ note store_or_report set_meta
    note_reset c reset now =
        if reset
        then note c counter_reset
          >> store_or_report c (codes "set_meta_last_reset_at") (λ e. e)
              (set_meta (codes "last_reset_at") (time_text now))
        else pure tt

    -- The delta and the counter, in one transaction.
    unfoldable pub advance_reading :
        Collector S → Text → Text → ℤ → Bool → Time → ℤ → Exec (Agent S) ℤ
    unfolding ◌>>=◌ pure store_or_report add_delta_and_advance_counter
    advance_reading c key email current uplink now delta = do
      store_or_report c (codes "add_delta")
          (λ e. codes "persist delta and counter for " ++ (email ++ (codes ": " ++ e)))
          (add_delta_and_advance_counter email (if uplink then delta else pos 0)
            (if uplink then pos 0 else delta) now key current)
      pure delta

    -- What follows once the stored counter has been read.
    unfoldable pub consume_from :
        Collector S → Text → Text → ℤ → Bool → Time → Option CounterRow → Exec (Agent S) ℤ
    unfolding ◌>>=◌ note_reset advance_reading compute_delta
    consume_from c key email current uplink now prev =
        let taken = compute_delta (stored_value prev) (has_row prev) current in
        note_reset c taken.1 now >> advance_reading c key email current uplink now taken.0

    unfoldable pub consume_counter : Collector S → Text → Text → ℤ → Bool → Time → Exec (Agent S) ℤ
    unfolding ◌>>=◌ consume_from store_or_report get_counter
    consume_counter c key email current uplink now = do
      prev ← store_or_report c (codes "get_counter") (λ e. e) (get_counter key)
      consume_from c key email current uplink now prev

    abbrev spike_threshold : Collector S → ℤ
    spike_threshold c =
        if ltb_ℤ (pos 0) c.spike_delta_bytes then c.spike_delta_bytes else default_spike_bytes

    abbrev note_spike : Collector S → ℤ → Exec (Agent S) (Unit {0})
    note_spike c total =
        if leb_ℤ (spike_threshold c) total then note c (user_spike total) else pure tt

    -- One user: both counters, and the total of their deltas.
    unfoldable pub consume_user : Collector S → Time → UserCounter → Exec (Agent S) ℤ
    unfolding ◌>>=◌ consume_counter note ◌+ℤ◌ wrap_int64
    consume_user c now u = do
      up ← consume_counter c (uplink_key u.email) u.email u.uplink true now
      down ← consume_counter c (downlink_key u.email) u.email u.downlink false now
      let total = wrap_int64 (up +ℤ down)
      note_spike c total
      pure total

    -- The users' loop. The number of active users counts up to the error that ends it.
    unfoldable pub consume_users :
        Collector S
        → Time
        → List (Text × UserCounter)
        → ℕ
        → Agent S
        → Result (Unit {0}) × ℕ × Agent S
    unfolding consume_user
    consume_users c now [] active a = (ok tt, active, a)
    consume_users c now ((email, u) ∷ users) active a =
        let (r, a') = consume_user c now u a in
        elim r [
          | ok total ↦
              consume_users c now users (if ltb_ℤ (pos 0) total then suc active else active) a'
          | err e ↦ (err e, active, a')
        ]

    abbrev wrapped : Text → Result (Unit {0}) × Agent S → Result (Unit {0}) × Agent S
    wrapped prefix (ok x, a) = (ok x, a)
    wrapped prefix (err e, a) = (err (prefix ++ e), a)

    module _ (f : Float64) where
      abbrev run_quota : Option (QuotaEnforcer S) → Time → Exec (Agent S) (Unit {0})
      run_quota none now a = (ok tt, a)
      run_quota (some q) now a = wrapped (codes "enforce quota: ") (enforce f q now a)

      abbrev run_expiry : Option (ExpiryEnforcer S) → Time → Exec (Agent S) (Unit {0})
      run_expiry none now a = (ok tt, a)
      run_expiry (some x) now a = wrapped (codes "enforce expiry: ") (enforce_expiry x now a)

      -- What follows the users' loop.
      unfoldable pub after_users : Collector S → Time → Exec (Agent S) (Unit {0})
      unfolding ◌>>=◌ pure store_or_report set_meta enforce enforce_expiry
      after_users c now = do
        store_or_report c (codes "set_meta_last_collect_at") (λ e. e)
            (set_meta (codes "last_collect_at") (time_text now))
        run_quota c.quota now
        run_expiry c.expiry now

      -- The deferred calls of the observer.
      abbrev finished :
          Collector S → ℕ → ℕ → Result (Unit {0}) × Agent S → Result (Unit {0}) × Agent S
      finished c seen active (r, a) = (
        r,
        emit c.observed (users_active active)
            (emit c.observed (collect_finish seen (error_of r)) a),
      )

      abbrev collected :
          Collector S → Time → ℕ → Result (Unit {0}) × ℕ × Agent S → Result (Unit {0}) × Agent S
      collected c now seen (ok _, active, a) = finished c seen active (after_users c now a)
      collected c now seen (err e, active, a) = finished c seen active (err e, a)

      -- `dial` is the error of the connection, and `reading` what the query gave.
      unfoldable pub collect_once :
          Collector S → Option Text → Result (List (Text × ℤ)) → Exec (Agent S) (Unit {0})
      unfolding consume_users after_users parse_user_counters emit
      collect_once c (some e) reading a =
          finished c 0 0
            (err e, emit c.observed (xray_reachable false) (emit c.observed collect_start a))
      collect_once c none (err e) a =
          finished c 0 0
            (err e, emit c.observed (xray_reachable false) (emit c.observed collect_start a))
      collect_once c none (ok stats) a =
          let users = parse_user_counters stats in
          let now = a.world.now in
          collected c now (length users) (
            consume_users c now users 0
              (emit c.observed (xray_reachable true) (emit c.observed collect_start a)))
