-- ===== src/Driver/Atomic.antt =====
-- What the writes of a store leave behind, whatever the driver does (Driver).
use ovpn.Prelude.{
  bind_ok, sym, continue, ◌≡◌, refl, ap, ◌∙◌, ◌⊎◌, inl, inr, Text, arith, Exec, Result, ok, err,
  Option, some, ◌>>=◌, ◌>>◌, Option-cases,
}
use ovpn.Driver.{
  DbWorld, settle, driver_call, exec_statement, exec_checked, transact, query, read_db,
}
use ovpn.Model.Types.{Time}

abbrev Action : Type 0 → Type 0
Action D = Exec (DbWorld D) (Unit {0})

abbrev Change : Type 0 → Type 0
Change D = Time → D → D

module _ {D : Type 0} where
  -- An action that succeeds has applied `f`, at the time of the operation, to the database.
  abbrev pub Writes : Exec (DbWorld D) (Unit {0}) → (Time → D → D) → Type 0
  Writes m f =
      (w : DbWorld D) → (m w).0 ≡ ok tt → ((m w).1.db ≡ f w.now w.db) × ((m w).1.now ≡ w.now)

  -- An action applies `f`, or fails and leaves the database as it was.
  abbrev pub IsAtomic : Exec (DbWorld D) (Unit {0}) → DbWorld D → (Time → D → D) → Type 0
  IsAtomic m w f =
      (((m w).0 ≡ ok tt) × ((m w).1.db ≡ f w.now w.db))
      ⊎ ((e : Text) × ((m w).0 ≡ err e) × ((m w).1.db ≡ w.db))

  pub atomic_ok :
      (m : Action D) (w : DbWorld D) (f : Change D)
      → IsAtomic m w f
      → (m w).0 ≡ ok tt
      → (m w).1.db ≡ f w.now w.db
  atomic_ok m w f (inl (done, e)) h = e
  atomic_ok m w f (inr (x, failed, e)) h = absurd (ground arith)

  pub atomic_err :
      (m : Action D) (w : DbWorld D) (f : Change D) (e : Text)
      → IsAtomic m w f
      → (m w).0 ≡ err e
      → (m w).1.db ≡ w.db
  atomic_err m w f x (inl (done, e)) h = absurd (ground arith)
  atomic_err m w f x (inr (y, failed, e)) h = e

  pub exec-IsAtomic : (f : D → D) (w : DbWorld D) → IsAtomic (exec_statement f) w (λ _. f)
  unfolding exec_statement
  exec-IsAtomic f w = ground arith

  pub Writes-exec : (f : D → D) → Writes (exec_statement f) (λ _. f)
  unfolding exec_statement
  Writes-exec f w h = (ground arith, ground arith)

  driver_call_db : (w : DbWorld D) → (driver_call w).1.db ≡ w.db
  unfolding driver_call
  driver_call_db w = refl

  Writes-call : Writes driver_call (λ _ db. db)
  unfolding driver_call
  Writes-call w h = (refl, refl)

  continue_cases :
      (r : Result (Unit {0})) (s : DbWorld D) (n : Action D)
      → (continue r (λ _. n) s).0 ≡ ok tt
      → (r ≡ ok tt) × ((n s).0 ≡ ok tt) × ((continue r (λ _. n) s).1 ≡ (n s).1)
  continue_cases (ok tt) s n h = (refl, h, refl)
  continue_cases (err e) s n h = absurd (ground arith)

  pub Writes-then :
      (m n : Action D) (f g : Change D)
      → Writes m f
      → Writes n g
      → Writes (m >> n) (λ now db. g now (f now db))
  unfolding ◌>>=◌
  Writes-then m n f g wm wn w h =
      let (done, next, same) = continue_cases (m w).0 (m w).1 n h in
      let (db_m, now_m) = wm w done in
      let (db_n, now_n) = wn (m w).1 next in
      (
        ap (λ (v : DbWorld D). v.db) same
            ∙ (db_n ∙ (ap (λ t. g t (m w).1.db) now_m ∙ ap (g w.now) db_m)),
        ap (λ (v : DbWorld D). v.now) same ∙ (now_n ∙ now_m),
      )

  settle_cases :
      (db : D) (r : Result (Unit {0})) (w : DbWorld D)
      → (((settle db (r, w)).0 ≡ ok tt) × ((settle db (r, w)).1.db ≡ w.db) × (r ≡ ok tt))
        ⊎ ((e : Text) × ((settle db (r, w)).0 ≡ err e) × ((settle db (r, w)).1.db ≡ db))
  settle_cases db (ok tt) w = inl (refl, refl, refl)
  settle_cases db (err e) w = inr (e, refl, refl)

  transact_body :
      (m : Action D) (f : Change D) → Writes m f → Writes (driver_call >> (m >> driver_call)) f
  transact_body m f wm =
      Writes-then driver_call (m >> driver_call) (λ _ db. db) f Writes-call
        (Writes-then m driver_call f (λ _ db. db) wm Writes-call)

  pub transact-IsAtomic :
      (m : Action D) (f : Change D) → Writes m f → (w : DbWorld D) → IsAtomic (transact m) w f
  unfolding transact
  transact-IsAtomic m f wm w =
      let run = (driver_call >> (m >> driver_call)) w in
      elim (settle_cases w.db run.0 run.1) [
        | inl (done, same, fine) ↦ inl (done, same ∙ (transact_body m f wm w fine).0)
        | inr failed ↦ inr failed
      ]

  -- A checked insert that succeeds has appended its row.
  pub Writes-checked :
      (f : D → Option D) (g : D → D)
      → ((db out : D) → f db ≡ some out → out ≡ g db)
      → Writes (exec_checked f) (λ _. g)
  unfolding exec_checked
  Writes-checked f g fits w h = elim (Option-cases (f w.db)) [
    | inl e ↦ absurd (ground arith)
    | inr (out, e) ↦ (ground (arith, fits w.db out), ground arith)
  ]

  pub Writes-ext :
      (m : Exec (DbWorld D) (Unit {0})) (f g : Time → D → D)
      → Writes m f
      → ((now : Time) (db : D) → f now db ≡ g now db)
      → Writes m g
  Writes-ext m f g wm same w h = let (d, n) = wm w h in (d ∙ same w.now w.db, n)

  settle_err :
      (before : D) (r : Result (Unit {0})) (w : DbWorld D) (e : Text)
      → (settle before (r, w)).0 ≡ err e
      → (settle before (r, w)).1.db ≡ before
  settle_err before (ok x) w e h = absurd (ground arith)
  settle_err before (err y) w e h = refl

  pub transact_err :
      (body : Exec (DbWorld D) (Unit {0})) (w : DbWorld D) (e : Text)
      → (transact body w).0 ≡ err e
      → (transact body w).1.db ≡ w.db
  unfolding transact
  transact_err body w e h = settle_err w.db _ _ e h

  settle_ok :
      (before : D) (r : Result (Unit {0})) (w : DbWorld D)
      → (settle before (r, w)).0 ≡ ok tt
      → r ≡ ok tt
  settle_ok before (ok a) w h = refl
  settle_ok before (err e) w h = absurd (ground arith)

  -- The statements of a transaction that commits have run on the database that it found.
  pub transact_body_ok :
      (m : Action D) (w : DbWorld D)
      → (transact m w).0 ≡ ok tt
      → ((m (driver_call w).1).0 ≡ ok tt) × ((driver_call w).1.db ≡ w.db)
  unfolding transact
  transact_body_ok m w h =
      let run = (driver_call >> (m >> driver_call)) w in
      let (u, began, same) =
        bind_ok driver_call (λ _. m >> driver_call) w (settle_ok w.db run.0 run.1 h) in
      let (v, done, later) =
        bind_ok m (λ _. driver_call) (driver_call w).1
          (ap (λ (r : Result (Unit {0}) × DbWorld D). r.0) (sym same)
            ∙ settle_ok w.db run.0 run.1 h) in
      (done, driver_call_db w)

module _ {D A : Type 0} where
  -- A query that succeeds gives what it reads and leaves the tables as they are.
  pub query_ok :
      (f : D → A) (w : DbWorld D) (a : A)
      → (query f w).0 ≡ ok a
      → (a ≡ f w.db) × ((query f w).1.db ≡ w.db) × ((query f w).1.now ≡ w.now)
  unfolding query driver_call read_db
  query_ok f w a h = (ground arith, ground arith, ground arith)
