-- ===== src/Stats/Collector/Tracking.antt =====
-- A user's total follows the counter that Xray counts up, through any failed cycles in between.
use ovpn.Prelude.{
  ℕ, ℤ, pos, ◌+ℤ◌, int_laws, ◌-◌, ◌^◌, ◌≤◌, ◌<◌, ltb_ℤ, ◌≡◌, refl, sym, ap, ◌∙◌, ◌⊎◌, inl, inr,
  true, false, ◌||◌, Option, none, some, List, [], ◌∷◌, ◌++◌, Text, arith, Result, ok, err, text_eq,
  text_eq_refl, Bool-cases,
}
use ovpn.Sql.Laws.{total_of, first_row-upsert_self}
use ovpn.Remote.{Db, CounterRow, rfc3339}
use ovpn.Remote.Meta.{find_counter, same_counter, replace_counter}
use ovpn.Remote.Atomic.{with_reading, with_delta_if_any}
use ovpn.Remote.Books.{total_up, user_up}
use ovpn.Model.Types.{Time}
use ovpn.Stats.{Agent}
use ovpn.Stats.Delta.{compute_delta}
use ovpn.Stats.Collector.{Collector, consume_counter, uplink_key, stored_value, has_row}
use ovpn.Stats.Collector.Once.{SameBooks, Taken, consume_once}

-- The stored counter and the user's total are both `n`; a counter that is not stored counts as 0.
pub record IsTracked (e : Text) (db : Db) (n : ℕ) : Type 0 where
  pub stored : stored_value (find_counter (uplink_key e) db) ≡ pos n
  pub total : total_of (total_up e) db.user_traffic_total ≡ pos n

growing : (n c : ℕ) → n ≤ c → c < 2 ^ 63 → (compute_delta (pos n) true (pos c)).0 ≡ pos (c - n)
unfolding compute_delta
growing n c le fits = ground arith

delta_growing :
    (o : Option CounterRow) (n c : ℕ)
    → stored_value o ≡ pos n
    → n ≤ c
    → c < 2 ^ 63
    → (compute_delta (stored_value o) (has_row o) (pos c)).0 ≡ pos (c - n)
unfolding compute_delta
delta_growing none n c h le fits = ground arith
delta_growing (some row) n c h le fits = rw h (growing n c le fits)

rejoined : (n k : ℕ) → n ≤ k → pos n +ℤ pos (k - n) ≡ pos k
unfolding ◌+ℤ◌
rejoined n k le = ground arith

stored-with_reading :
    (email : Text) (up down : ℤ) (ts : Time) (key : Text) (value : ℤ) (now : Time) (db : Db)
    → stored_value (find_counter key (with_reading email up down ts key value now db)) ≡ value
stored-with_reading email up down ts key value now db =
    let new : CounterRow = record { name = key; value = value; updated_at = rfc3339 now } in
    let rows = (with_delta_if_any email up down ts now db).counter_state in
    let (row, found, which) =
      first_row-upsert_self (λ (r : CounterRow). text_eq r.name key) same_counter replace_counter
        new rows (text_eq_refl key) (λ old. refl) (λ old h. h) in
    rw found (value_of row which)
  where
    value_of :
        (row : CounterRow)
        → (row ≡ record { name = key; value = value; updated_at = rfc3339 now })
          ⊎ ((old : CounterRow) × (row
                ≡ replace_counter old
                    (record { name = key; value = value; updated_at = rfc3339 now })))
        → row.value ≡ value
    value_of row (inl e) = ap (λ (r : CounterRow). r.value) e
    value_of row (inr (old, e)) = ap (λ (r : CounterRow). r.value) e

total-with_reading :
    (e : Text) (n : ℕ) (ts : Time) (key : Text) (value : ℤ) (now : Time) (db : Db)
    → total_of (total_up e) (with_reading e (pos n) (pos 0) ts key value now db).user_traffic_total
      ≡ total_of (total_up e) db.user_traffic_total +ℤ pos n
unfolding with_delta_if_any
total-with_reading e n ts key value now db = elim (Bool-cases (ltb_ℤ (pos 0) (pos n) || false)) [
  | inl h ↦ rw h (user_up e _ db.user_traffic_total ∙ rw (text_eq_refl e) refl)
  | inr h ↦ rw h (rw (none_written n h) (omega int_laws))
]
  where
    none_written : (k : ℕ) → (ltb_ℤ (pos 0) (pos k) || false) ≡ false → k ≡ 0
    none_written k h = ground arith

IsTracked-SameBooks :
    (e : Text) (a b : Db) (n : ℕ) → SameBooks a b → IsTracked e a n → IsTracked e b n
IsTracked-SameBooks e a b n h t = record {
  stored = rw (sym h.counters) t.stored;
  total = rw (sym h.totals) t.total;
}

IsTracked-reading :
    (e : Text) (n k : ℕ) (ts now : Time) (db : Db)
    → IsTracked e db n
    → n ≤ k
    → k < 2 ^ 63
    → (let prev = find_counter (uplink_key e) db in
        IsTracked e
          (with_reading e
            (compute_delta (stored_value prev) (has_row prev) (pos k)).0
            (pos 0)
            ts
            (uplink_key e)
            (pos k)
            now
            db)
          k)
IsTracked-reading e n k ts now db t le fits =
    let prev = find_counter (uplink_key e) db in
    rw (delta_growing prev n k t.stored le fits) (record {
      stored = stored-with_reading e (pos (k - n)) (pos 0) ts (uplink_key e) (pos k) now db;
      total =
          total-with_reading e (k - n) ts (uplink_key e) (pos k) now db
          ∙ rw (t.total) (rejoined n k le);
    })

-- The counter counts up from `n` within an int64.
abbrev pub IsGrowing : ℕ → List (ℕ × Time) → Type 0
IsGrowing n [] = Unit
IsGrowing n ((k, now) ∷ cycles) = (n ≤ k) × (k < 2 ^ 63) × IsGrowing k cycles

module _ {S : Type 0} (c : Collector S) (time_text : Time → Text) (e : Text) where
  abbrev pub read_uplink : ℕ → Time → Agent S → Result ℤ × Agent S
  read_uplink n now a = consume_counter time_text c (uplink_key e) e (pos n) true now a

  -- One cycle: the reading is in the total and in the counter, or both still stand at the old one.
  track_step :
      (n k : ℕ) (now : Time) (a : Agent S)
      → IsTracked e a.world.db n
      → n ≤ k
      → k < 2 ^ 63
      → (((d : ℤ) × ((read_uplink k now a).0 ≡ ok d))
          × IsTracked e (read_uplink k now a).1.world.db k)
        ⊎ (((x : Text) × ((read_uplink k now a).0 ≡ err x))
            × IsTracked e (read_uplink k now a).1.world.db n)
  track_step n k now a t le fits =
      elim (consume_once c time_text (uplink_key e) e (pos k) true now a) [
        | Taken.taken done books ↦ inl (
          (_, done),
          IsTracked-SameBooks e _ _ k books
              (IsTracked-reading e n k now a.world.now a.world.db t le fits),
        )
        | Taken.refused x failed books ↦ inr ((x, failed), IsTracked-SameBooks e _ _ n books t)
      ]

  -- Cycles one after another, each with the counter's value; what a cycle returns is dropped.
  unfoldable pub uplink_cycles : List (ℕ × Time) → Agent S → Agent S
  uplink_cycles [] a = a
  uplink_cycles ((n, now) ∷ cycles) a = uplink_cycles cycles (read_uplink n now a).1

  IsGrowing-le :
      (m n : ℕ) (cycles : List (ℕ × Time)) → m ≤ n → IsGrowing n cycles → IsGrowing m cycles
  IsGrowing-le m n [] le g = tt
  IsGrowing-le m n ((k, now) ∷ cycles) le (a, b, g) = (omega arith, b, g)

  -- A user whose uplink total and stored uplink counter agree at `n`, read in cycles while Xray's
  -- counter counts up from `n` within an int64, any of which may fail: where the last cycle succeeds,
  -- the uplink total is the value that it read.
  pub total_exact :
      (cycles : List (ℕ × Time)) (n k : ℕ) (now : Time) (a : Agent S)
      → IsTracked e a.world.db n
      → IsGrowing n (cycles ++ (k, now) ∷ [])
      → {d : ℤ} → (read_uplink k now (uplink_cycles cycles a)).0 ≡ ok d
      → total_of
          (total_up e)
          (read_uplink k now (uplink_cycles cycles a)).1.world.db.user_traffic_total
        ≡ pos k
  unfolding uplink_cycles
  total_exact [] n k now a t g done = elim (track_step n k now a t g.0 g.1) [
    | inl (fine, u) ↦ u.total
    | inr ((x, failed), u) ↦ absurd (ground arith)
  ]
  total_exact ((m, then_) ∷ cycles) n k now a t (le, fits, g) done =
      elim (track_step n m then_ a t le fits) [
        | inl (fine, u) ↦ total_exact cycles m k now (read_uplink m then_ a).1 u g done
        | inr (failed, u) ↦
            total_exact cycles n k now (read_uplink m then_ a).1 u
              (IsGrowing-le n m (cycles ++ (k, now) ∷ []) le g) done
      ]
