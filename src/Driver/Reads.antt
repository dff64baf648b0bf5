-- ===== src/Driver/Reads.antt =====
-- Actions that read, and leave the tables and the clock as they are whatever the driver does
-- (Driver).
use ovpn.Prelude.{
  ◌≡◌, refl, ◌∙◌, inl, inr, arith, Exec, pure, ok, err, Text, Option-cases, ◌⊎◌, ◌>>=◌, bind_cases,
  bind_ok, ap, sym, subst, Result,
}
use ovpn.Driver.Atomic.{query_ok}
use ovpn.Driver.{next_outcome, DbWorld, query, driver_call, read_db}

module _ {D A : Type 0} where
  abbrev pub Reads : Exec (DbWorld D) A → Type 0
  Reads m = (w : DbWorld D) → ((m w).1.db ≡ w.db) × ((m w).1.now ≡ w.now)

  -- What an action finds, where the driver does not refuse it; it changes nothing.
  abbrev pub Finds : Exec (DbWorld D) A → (D → A) → Type 0
  Finds m f =
      (w : DbWorld D)
      → (((m w).0 ≡ ok (f w.db)) ⊎ ((e : Text) × ((m w).0 ≡ err e)))
        × ((m w).1.db ≡ w.db)
        × ((m w).1.now ≡ w.now)

  pub Finds-query : (f : D → A) → Finds (query f) f
  unfolding query driver_call read_db ◌>>=◌
  Finds-query f w = elim (Option-cases (next_outcome w.outcomes)) [
    | inl e ↦ (inl (ground arith), ground arith, ground arith)
    | inr (x, e) ↦ (inr (x, ground arith), ground arith, ground arith)
  ]

  pub Reads-query : (f : D → A) → Reads (query f)
  unfolding query driver_call read_db ◌>>=◌
  Reads-query f w = (ground arith, ground arith)

  pub Reads-pure : (x : A) → Reads (pure x)
  unfolding pure
  Reads-pure x w = (refl, refl)

module _ {D A B : Type 0} where
  pub Reads-bind :
      (m : Exec (DbWorld D) A) (f : A → Exec (DbWorld D) B)
      → Reads m
      → ((x : A) → Reads (f x))
      → Reads (m >>= f)
  Reads-bind m f rm rf w = elim (bind_cases m f w) [
    | inl (x, done, same) ↦ let (db, now) = rf x (m w).1 in rw same (db ∙ (rm w).0, now ∙ (rm w).1)
    | inr (e, failed, same) ↦ rw same (rm w)
  ]

-- What a successful action found in the tables, which it leaves as they are.
abbrev pub Gives : {D A : Type 0} → Exec (DbWorld D) A → (D → A → Type 0) → Type 0
Gives {D} {A} m P = (w : DbWorld D) (x : A) → (m w).0 ≡ ok x → P w.db x × ((m w).1.db ≡ w.db)

module _ {D A : Type 0} where
  pub Gives-query : (f : D → A) → Gives (query f) (λ db x. x ≡ f db)
  Gives-query f w x h = let (found, db, now) = query_ok f w x h in (found, db)

  pub Gives-Reads : (m : Exec (DbWorld D) A) → Reads m → Gives m (λ db x. Unit {0})
  Gives-Reads m reads w x h = (tt, (reads w).0)

  pub Gives-pure : (x : A) → Gives {D = D} (pure x) (λ db y. y ≡ x)
  unfolding pure
  Gives-pure x w y h = (ground arith, refl)

module _ {D A B : Type 0} where
  pub Gives-bind :
      (m : Exec (DbWorld D) A) (f : A → Exec (DbWorld D) B) (P : D → A → Type 0)
      (Q : A → D → B → Type 0)
      → Gives m P
      → ((x : A) → Gives (f x) (Q x))
      → Gives (m >>= f) (λ db y. (x : A) × P db x × Q x db y)
  Gives-bind m f P Q gm gf w y h =
      let (x, read, same) = bind_ok m f w h in
      let (found, db) = gm w x read in
      let fine = ap (λ (r : Result B × DbWorld D). r.0) (sym same) ∙ h in
      let (next, db') = gf x (m w).1 y fine in
      (
        (x, found, subst (λ d. Q x d y) db next),
        ap (λ (r : Result B × DbWorld D). r.1.db) same ∙ (db' ∙ db),
      )
