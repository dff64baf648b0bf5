-- ===== src/Remote/Meta.antt =====
-- internal/store/remote/store.go: the counters and the collector's metadata.
use ovpn.Prelude.{ℕ, ℤ, Bool, Option, none, some, Text, Exec, text_eq}
use ovpn.Sql.{upsert, first_row}
use ovpn.Remote.{Db, World, CounterRow, MetaRow, rfc3339, exec_statement, query}

abbrev pub same_counter : CounterRow → CounterRow → Bool
same_counter new old = text_eq old.name new.name

abbrev pub replace_counter : CounterRow → CounterRow → CounterRow
replace_counter old new = record old { value = new.value; updated_at = new.updated_at }

abbrev pub write_counter : Text → ℤ → ℕ → Db → Db
write_counter name value now db = record db {
  counter_state =
      upsert same_counter replace_counter (record { name = name; value = value; updated_at = now })
        db.counter_state;
}

unfoldable pub upsert_counter_tx : Text → ℤ → ℕ → Exec World (Unit {0})
unfolding exec_statement
upsert_counter_tx name value now = exec_statement (write_counter name value now)

unfoldable pub upsert_counter : Text → ℤ → Exec World (Unit {0})
unfolding upsert_counter_tx
upsert_counter name value w = upsert_counter_tx name value (rfc3339 w.now) w

abbrev pub find_counter : Text → Db → Option CounterRow
find_counter name db = first_row (λ row. text_eq row.name name) db.counter_state

unfoldable pub get_counter : Text → Exec World (Option CounterRow)
unfolding query
get_counter name = query (find_counter name)

abbrev pub same_meta : MetaRow → MetaRow → Bool
same_meta new old = text_eq old.k new.k

abbrev pub replace_meta : MetaRow → MetaRow → MetaRow
replace_meta old new = record old { v = new.v; updated_at = new.updated_at }

unfoldable pub set_meta : Text → Text → Exec World (Unit {0})
unfolding exec_statement
set_meta key value w =
    exec_statement
      (λ db. record db {
        collector_meta =
            upsert same_meta replace_meta
              (record { k = key; v = value; updated_at = rfc3339 w.now }) db.collector_meta;
      })
      w

abbrev meta_value : Option MetaRow → Option Text
meta_value none = none
meta_value (some row) = some row.v

unfoldable pub get_meta : Text → Exec World (Option Text)
unfolding query
get_meta key =
    query (λ db. meta_value (first_row (λ (row : MetaRow). text_eq row.k key) db.collector_meta))
