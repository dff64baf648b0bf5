-- ===== src/Remote/Books/Kept.antt =====
-- The calls of the store that leave the three tables of traffic alone.
use ovpn.Prelude.{
  ◌≡◌, refl, ◌∙◌, inl, inr, Option, some, List, Text, Exec, Result, ok, err, arith, pure, fail,
  ◌>>=◌, ◌>>◌, bind_cases, Option-cases,
}
use ovpn.Driver.{settle}
use ovpn.Remote.{
  write_db, write_checked, Db, World, TrafficRow, TotalRow, driver_call, exec_statement,
  exec_checked, query, transact,
}

abbrev pub traffic : Db → List TrafficRow × List TrafficRow × List TotalRow
traffic db = (db.user_traffic_hourly, db.user_traffic_daily, db.user_traffic_total)

module _ {A : Type 0} where
  abbrev pub IsAside : Exec World A → Type 0
  IsAside m = (w : World) → traffic (m w).1.db ≡ traffic w.db

  pub IsAside-query : (f : Db → A) → IsAside (query f)
  unfolding query
  IsAside-query f w = ground arith

  pub IsAside-pure : (x : A) → IsAside (pure x)
  unfolding pure
  IsAside-pure x w = refl

pub IsAside-fail : (A : Type 0) (e : Text) → IsAside {A = A} (fail e)
unfolding fail
IsAside-fail A e w = refl

module _ {A B : Type 0} where
  pub IsAside-bind :
      (m : Exec World A) (f : A → Exec World B)
      → IsAside m
      → ((x : A) → IsAside (f x))
      → IsAside (m >>= f)
  IsAside-bind m f am af w = elim (bind_cases m f w) [
    | inl (x, done, same) ↦ rw same (af x (m w).1 ∙ am w)
    | inr (e, failed, same) ↦ rw same (am w)
  ]

IsAside-call : IsAside driver_call
unfolding driver_call
IsAside-call w = refl

pub IsAside-exec :
    (f : Db → Db) → ((db : Db) → traffic (f db) ≡ traffic db) → IsAside (exec_statement f)
unfolding exec_statement write_db
IsAside-exec f same = IsAside-bind driver_call _ IsAside-call (λ _ w. same w.db)

pub IsAside-checked :
    (f : Db → Option Db)
    → ((db out : Db) → f db ≡ some out → traffic out ≡ traffic db)
    → IsAside (exec_checked f)
unfolding exec_checked write_checked
IsAside-checked f same = IsAside-bind driver_call _ IsAside-call (λ _ w.
    elim (Option-cases (f w.db)) [
      | inl refused ↦ rw refused refl
      | inr (out, done) ↦ rw done (same w.db out done)
    ])

settled :
    (before : Db) (run : Result (Unit {0}) × World)
    → traffic run.1.db ≡ traffic before
    → traffic (settle before run).1.db ≡ traffic before
settled before (ok x, w) h = h
settled before (err e, w) h = refl

pub IsAside-transact : (m : Exec World (Unit {0})) → IsAside m → IsAside (transact m)
unfolding transact
IsAside-transact m aside w = settled w.db _ (
    IsAside-bind driver_call (λ _. m >> driver_call) IsAside-call
      (λ _. IsAside-bind m (λ _. driver_call) aside (λ _. IsAside-call)) w)
