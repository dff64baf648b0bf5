-- ===== src/Remote/Books.antt =====
-- The three tables of traffic agree: each user's hourly rows, daily rows and total come to the same.
pub mod Kept
pub mod Diagnostics
pub mod Steps
use ovpn.Prelude.{
  ℕ, ℤ, pos, ◌+ℤ◌, int_laws, ◌≡◌, refl, ap, sym, ◌∙◌, ◌⊎◌, inl, inr, Bool, true, false, ◌&&◌, List,
  Text, arith, text_eq, text_eq_iff, Bool-cases, ltb_ℤ, ◌||◌, if◌then◌else◌,
}
use ovpn.Sql.{upsert}
use ovpn.Sql.Laws.{total_of, total_of-upsert}
use ovpn.Remote.{Db, World, TrafficRow, TotalRow, rfc3339}
use ovpn.Remote.Traffic.{
  same_window, add_window, same_user, add_total, write_hourly, write_daily, write_total, hour_of,
  day_of,
}
use ovpn.Remote.Atomic.{with_delta, with_delta_if_any}
use ovpn.Model.Types.{Time}

-- A row's bytes for the user `e`, and 0 for a row of another.
abbrev pub traffic_up : Text → TrafficRow → ℤ
traffic_up e row = if text_eq row.email e then row.uplink_bytes else pos 0

abbrev pub traffic_down : Text → TrafficRow → ℤ
traffic_down e row = if text_eq row.email e then row.downlink_bytes else pos 0

abbrev pub total_up : Text → TotalRow → ℤ
total_up e row = if text_eq row.email e then row.uplink_bytes else pos 0

abbrev pub total_down : Text → TotalRow → ℤ
total_down e row = if text_eq row.email e then row.downlink_bytes else pos 0

pub record IsBalanced (db : Db) : Type 0 where
  pub hourly_up :
      (e : Text)
      → total_of (traffic_up e) db.user_traffic_hourly ≡ total_of (total_up e) db.user_traffic_total
  pub hourly_down :
      (e : Text)
      → total_of (traffic_down e) db.user_traffic_hourly
        ≡ total_of (total_down e) db.user_traffic_total
  pub daily_up :
      (e : Text)
      → total_of (traffic_up e) db.user_traffic_daily ≡ total_of (total_up e) db.user_traffic_total
  pub daily_down :
      (e : Text)
      → total_of (traffic_down e) db.user_traffic_daily
        ≡ total_of (total_down e) db.user_traffic_total

zero_twice : pos 0 +ℤ pos 0 ≡ pos 0
unfolding ◌+ℤ◌
zero_twice = refl

module _ (e : Text) where
  pub window_up :
      (new : TrafficRow) (rows : List TrafficRow)
      → total_of (traffic_up e) (upsert same_window add_window new rows)
        ≡ total_of (traffic_up e) rows +ℤ traffic_up e new
  window_up new rows = total_of-upsert (traffic_up e) same_window add_window new rows λ old same.
      ground (
        arith,
        zero_twice,
        text_eq_iff old.email new.email,
        text_eq_iff old.email e,
        text_eq_iff new.email e,
      )

  pub window_down :
      (new : TrafficRow) (rows : List TrafficRow)
      → total_of (traffic_down e) (upsert same_window add_window new rows)
        ≡ total_of (traffic_down e) rows +ℤ traffic_down e new
  window_down new rows =
      total_of-upsert (traffic_down e) same_window add_window new rows λ old same. ground (
        arith,
        zero_twice,
        text_eq_iff old.email new.email,
        text_eq_iff old.email e,
        text_eq_iff new.email e,
      )

  pub user_up :
      (new : TotalRow) (rows : List TotalRow)
      → total_of (total_up e) (upsert same_user add_total new rows)
        ≡ total_of (total_up e) rows +ℤ total_up e new
  user_up new rows = total_of-upsert (total_up e) same_user add_total new rows λ old same. ground (
    arith,
    zero_twice,
    text_eq_iff old.email new.email,
    text_eq_iff old.email e,
    text_eq_iff new.email e,
  )

  pub user_down :
      (new : TotalRow) (rows : List TotalRow)
      → total_of (total_down e) (upsert same_user add_total new rows)
        ≡ total_of (total_down e) rows +ℤ total_down e new
  user_down new rows = total_of-upsert (total_down e) same_user add_total new rows λ old same.
      ground (
        arith,
        zero_twice,
        text_eq_iff old.email new.email,
        text_eq_iff old.email e,
        text_eq_iff new.email e,
      )

pub with_delta-IsBalanced :
    (email : Text) (up down : ℤ) (ts now : Time) (db : Db)
    → IsBalanced db
    → IsBalanced (with_delta email up down ts now db)
with_delta-IsBalanced email up down ts now db h = record {
  hourly_up = λ e.
      cc (window_up e _ db.user_traffic_hourly, user_up e _ db.user_traffic_total, h.hourly_up e);
  hourly_down = λ e. cc (
    window_down e _ db.user_traffic_hourly,
    user_down e _ db.user_traffic_total,
    h.hourly_down e,
  );
  daily_up = λ e.
      cc (window_up e _ db.user_traffic_daily, user_up e _ db.user_traffic_total, h.daily_up e);
  daily_down = λ e.
      cc (
        window_down e _ db.user_traffic_daily,
        user_down e _ db.user_traffic_total,
        h.daily_down e,
      );
}

pub with_delta_if_any-IsBalanced :
    (email : Text) (up down : ℤ) (ts now : Time) (db : Db)
    → IsBalanced db
    → IsBalanced (with_delta_if_any email up down ts now db)
unfolding with_delta_if_any
with_delta_if_any-IsBalanced email up down ts now db h =
    elim (Bool-cases (ltb_ℤ (pos 0) up || ltb_ℤ (pos 0) down)) [
      | inl e ↦ rw e (with_delta-IsBalanced email up down ts now db h)
      | inr e ↦ rw e h
    ]
