-- ===== src/Stats/Collector/Once.antt =====
-- One reading of a counter is taken over once: the delta and the counter together, or neither.
use ovpn.Prelude.{
  ℤ, pos, ◌≡◌, refl, ap, ◌∙◌, inl, inr, Bool, true, false, Option, ◌++◌, codes, ltb_ℤ, ◌||◌, Text,
  arith, Exec, Result, ok, err, Result-cases, Bool-cases, bind_cases, pure, ◌>>=◌, if◌then◌else◌,
}
use ovpn.Remote.{Db, World, CounterRow}
use ovpn.Remote.Meta.{get_counter, set_meta, find_counter}
use ovpn.Remote.Traffic.{add_delta_and_advance_counter}
use ovpn.Remote.Atomic.{
  atomic_ok, atomic_err, add_delta_and_advance-IsAtomic, with_reading, with_delta_if_any,
}
use ovpn.Model.Types.{Time}
use ovpn.Stats.{Agent, Event, counter_reset, emit}
use ovpn.Stats.Delta.{compute_delta}
use ovpn.Stats.Collector.{
  Collector, store_or_report, note_reset, advance_reading, consume_from, consume_counter,
  stored_value, has_row,
}

-- The tables that a reading is about.
pub record SameBooks (a b : Db) : Type 0 where
  pub counters : a.counter_state ≡ b.counter_state
  pub hourly : a.user_traffic_hourly ≡ b.user_traffic_hourly
  pub daily : a.user_traffic_daily ≡ b.user_traffic_daily
  pub totals : a.user_traffic_total ≡ b.user_traffic_total

SameBooks-refl : (a : Db) → SameBooks a a
SameBooks-refl a = record { counters = refl; hourly = refl; daily = refl; totals = refl }

get_counter_quiet :
    (key : Text) (w : World)
    → ((get_counter key w).1.db ≡ w.db) × ((get_counter key w).1.now ≡ w.now)
unfolding get_counter ◌>>=◌
get_counter_quiet key w = (ground arith, ground arith)

get_counter_value :
    (key : Text) (w : World) (found : Option CounterRow)
    → (get_counter key w).0 ≡ ok found
    → found ≡ find_counter key w.db
unfolding get_counter ◌>>=◌
get_counter_value key w found h = ground arith

set_meta_quiet :
    (k v : Text) (w : World)
    → SameBooks w.db (set_meta k v w).1.db × ((set_meta k v w).1.now ≡ w.now)
unfolding set_meta ◌>>=◌
set_meta_quiet k v w = (ground arith, ground arith)

with_reading_cong :
    (email : Text) (up down : ℤ) (ts : Time) (key : Text) (value : ℤ) (now : Time) (a b : Db)
    → SameBooks a b
    → SameBooks
        (with_reading email up down ts key value now a)
        (with_reading email up down ts key value now b)
unfolding with_delta_if_any
with_reading_cong email up down ts key value now a b h =
    elim (Bool-cases (ltb_ℤ (pos 0) up || ltb_ℤ (pos 0) down)) [
      | inl e ↦ rw e (record {
        counters = rw (h.counters) refl;
        hourly = rw (h.hourly) refl;
        daily = rw (h.daily) refl;
        totals = rw (h.totals) refl;
      })
      | inr e ↦ rw e (record {
        counters = rw (h.counters) refl;
        hourly = h.hourly;
        daily = h.daily;
        totals = h.totals;
      })
    ]

SameBooks-trans : (a b c : Db) → SameBooks a b → SameBooks b c → SameBooks a c
SameBooks-trans a b c h k = record {
  counters = h.counters ∙ k.counters;
  hourly = h.hourly ∙ k.hourly;
  daily = h.daily ∙ k.daily;
  totals = h.totals ∙ k.totals;
}

emit_world : {S : Type 0} (b : Bool) (e : Event) (a : Agent S) → (emit b e a).world ≡ a.world
unfolding emit
emit_world b e a = ground arith

SameBooks-of_eq : (a b : Db) → b ≡ a → SameBooks a b
SameBooks-of_eq a b e = rw e (SameBooks-refl a)

-- A reading's result `r` with the books `now`: taken over whole, or refused with nothing changed.
pub data Taken (delta : ℤ) (before after : Db) (r : Result ℤ) (now : Db) : Type 0 where
  taken : r ≡ ok delta → SameBooks after now → Taken delta before after r now
  refused : (e : Text) → r ≡ err e → SameBooks before now → Taken delta before after r now

Taken-from :
    (delta : ℤ) (before after mid mid_after : Db) (r : Result ℤ) (now : Db)
    → SameBooks before mid
    → SameBooks after mid_after
    → Taken delta mid mid_after r now
    → Taken delta before after r now
Taken-from delta before after mid mid_after r now h k (Taken.taken e s) =
    Taken.taken e (SameBooks-trans after mid_after now k s)
Taken-from delta before after mid mid_after r now h k (Taken.refused x e s) =
    Taken.refused x e (SameBooks-trans before mid now h s)

module _ {S : Type 0} (c : Collector S) where
  report_world :
      {A : Type 0} (operation : Text) (wrap : Text → Text) (m : Exec World A) (a : Agent S)
      → (store_or_report c operation wrap m a).1.world ≡ (m a.world).1
  unfolding store_or_report
  report_world operation wrap m a = ground arith

  report_ok :
      {A : Type 0} (operation : Text) (wrap : Text → Text) (m : Exec World A) (a : Agent S) (x : A)
      → (store_or_report c operation wrap m a).0 ≡ ok x
      → (m a.world).0 ≡ ok x
  unfolding store_or_report
  report_ok operation wrap m a x h = elim (Result-cases (m a.world).0) [
    | inl (y, e) ↦ ground arith
    | inr (y, e) ↦ ground arith
  ]

  report_err :
      {A : Type 0} (operation : Text) (wrap : Text → Text) (m : Exec World A) (a : Agent S)
      (e : Text)
      → (store_or_report c operation wrap m a).0 ≡ err e
      → (x : Text) × ((m a.world).0 ≡ err x)
  unfolding store_or_report
  report_err operation wrap m a e h = elim (Result-cases (m a.world).0) [
    | inl (y, k) ↦ absurd (ground arith)
    | inr (y, k) ↦ (y, k)
  ]

  module _ (time_text : Time → Text) where
    note_reset_quiet :
        (reset : Bool) (now : Time) (a : Agent S)
        → SameBooks a.world.db (note_reset time_text c reset now a).1.world.db
          × ((note_reset time_text c reset now a).1.world.now ≡ a.world.now)
    unfolding note_reset
    note_reset_quiet false now a = (SameBooks-refl a.world.db, refl)
    note_reset_quiet true now a =
        let save = set_meta (codes "last_reset_at") (time_text now) in
        let told = emit c.observed counter_reset a in
        rw
          (
            report_world (codes "set_meta_last_reset_at") (λ e. e) save told,
            emit_world c.observed counter_reset a,
          )
          (set_meta_quiet (codes "last_reset_at") (time_text now) a.world)

    advance_once :
        (key email : Text) (current : ℤ) (uplink : Bool) (now : Time) (delta : ℤ) (a : Agent S)
        → (let r = advance_reading time_text c key email current uplink now delta a in
            Taken delta a.world.db
              (with_reading email
                (if uplink then delta else pos 0)
                (if uplink then pos 0 else delta)
                now
                key
                current
                a.world.now
                a.world.db)
              r.0
              r.1.world.db)
    unfolding advance_reading
    advance_once key email current uplink now delta a =
        let up = if uplink then delta else pos 0 in
        let down = if uplink then pos 0 else delta in
        let tx = add_delta_and_advance_counter email up down now key current in
        let whole = add_delta_and_advance-IsAtomic email up down now key current a.world in
        let change = with_reading email up down now key current in
        let wrap =
          λ (e : Text). codes "persist delta and counter for " ++ (email ++ (codes ": " ++ e)) in
        let save = store_or_report c (codes "add_delta") wrap tx in
        elim (bind_cases save (λ _. pure delta) a) [
          | inl (x, got, same) ↦ rw same (
              Taken.taken refl (
                rw (report_world (codes "add_delta") wrap tx a) (
                  SameBooks-of_eq (change a.world.now a.world.db) (tx a.world).1.db (
                    atomic_ok tx a.world change whole
                      (report_ok (codes "add_delta") wrap tx a x got)))))
          | inr (e, got, same) ↦
              let (x, failed) = report_err (codes "add_delta") wrap tx a e got in
              rw same (
                Taken.refused e refl (
                  rw (report_world (codes "add_delta") wrap tx a) (
                    SameBooks-of_eq a.world.db (tx a.world).1.db
                      (atomic_err tx a.world change x whole failed))))
        ]

    abbrev pub delta_of : Text → ℤ → Db → ℤ × Bool
    delta_of key current db =
        let prev = find_counter key db in compute_delta (stored_value prev) (has_row prev) current

    -- The books after a reading of one counter has been taken over.
    abbrev pub books_after : Text → Text → ℤ → Bool → Time → World → Db
    books_after key email current uplink now w =
        let delta = (delta_of key current w.db).0 in
        with_reading email (if uplink then delta else pos 0) (if uplink then pos 0 else delta) now
          key current w.now w.db

    consume_from_once :
        (key email : Text) (current : ℤ) (uplink : Bool) (now : Time) (a : Agent S)
        → (let r =
              consume_from time_text c key email current uplink now
                (find_counter key a.world.db)
                a in
            Taken
              (delta_of key current a.world.db).0
              a.world.db
              (books_after key email current uplink now a.world)
              r.0
              r.1.world.db)
    unfolding consume_from
    consume_from_once key email current uplink now a =
        let (delta, reset) = delta_of key current a.world.db in
        let reset_noted = note_reset time_text c reset now in
        let (quiet, clock) = note_reset_quiet reset now a in
        let rest = advance_reading time_text c key email current uplink now delta in
        elim (bind_cases reset_noted (λ _. rest) a) [
          | inl (x, got, same) ↦ rw same (
              Taken-from delta a.world.db _ (reset_noted a).1.world.db _ _ _ quiet
                (rw clock (
                  with_reading_cong email (if uplink then delta else pos 0)
                    (if uplink then pos 0 else delta) now key current a.world.now a.world.db
                    (reset_noted a).1.world.db quiet))
                (advance_once key email current uplink now delta (reset_noted a).1))
          | inr (e, got, same) ↦ rw same (Taken.refused e refl quiet)
        ]

    pub consume_once :
        (key email : Text) (current : ℤ) (uplink : Bool) (now : Time) (a : Agent S)
        → (let r = consume_counter time_text c key email current uplink now a in
            Taken
              (delta_of key current a.world.db).0
              a.world.db
              (books_after key email current uplink now a.world)
              r.0
              r.1.world.db)
    unfolding consume_counter
    consume_once key email current uplink now a =
        let read = store_or_report c (codes "get_counter") (λ e. e) (get_counter key) in
        elim (bind_cases read (consume_from time_text c key email current uplink now) a) [
          | inl (prev, got, same) ↦
              let found =
                get_counter_value key a.world prev
                  (report_ok (codes "get_counter") (λ e. e) (get_counter key) a prev got) in
              rw (same, found)
                (rw (read_db a, read_now a) at
                  (consume_from_once key email current uplink now (read a).1))
          | inr (e, got, same) ↦
              rw same
                (Taken.refused e refl (SameBooks-of_eq a.world.db (read a).1.world.db (read_db a)))
        ]
      where
        read_world :
            (b : Agent S)
            → (store_or_report c (codes "get_counter") (λ e. e) (get_counter key) b).1.world
              ≡ (get_counter key b.world).1
        read_world b = report_world (codes "get_counter") (λ e. e) (get_counter key) b

        read_db :
            (b : Agent S)
            → (store_or_report c (codes "get_counter") (λ e. e) (get_counter key) b).1.world.db
              ≡ b.world.db
        read_db b = ap (λ (w : World). w.db) (read_world b) ∙ (get_counter_quiet key b.world).0

        read_now :
            (b : Agent S)
            → (store_or_report c (codes "get_counter") (λ e. e) (get_counter key) b).1.world.now
              ≡ b.world.now
        read_now b = ap (λ (w : World). w.now) (read_world b) ∙ (get_counter_quiet key b.world).1
