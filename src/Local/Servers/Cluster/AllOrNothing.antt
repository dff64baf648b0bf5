-- ===== src/Local/Servers/Cluster/AllOrNothing.antt =====
-- One VLESS encryption pair reaches every server of a cluster or none
-- (internal/store/local/store_servers.go, SetVLESSEncryptionForServers).
use ovpn.Prelude.{
  ℕ, ℤ, ◌≡◌, refl, sym, ap, ◌∙◌, subst, ◌⊎◌, inl, inr, List, [], ◌∷◌, Text, codes, Exec, Result, ok,
  err, arith, ◌>>◌, All, bind_ok, Result-cases,
}
use ovpn.Local.{
  LocalDb, LocalWorld, ServerRow, same_id, update_rows, rfc3339, exec_statement, transact,
  driver_call, read_db,
}
use ovpn.Driver.Atomic.{
  Writes, Writes-exec, Writes-then, Writes-ext, transact-IsAtomic, transact_body_ok,
}
use ovpn.Local.Secrets.{Bytes, Codec, Aead, KeySource, encrypt_sensitive_field}
use ovpn.Local.Servers.Cluster.Paired.{paired, pair_servers, count_named, named_once}
use ovpn.Local.Servers.{change_servers}
use ovpn.Local.Servers.Cluster.{
  with_pair, rows_with_id, check_affected, set_pairs, set_vless_encryption_for_servers,
}

Writes-check : (format_id : ℤ → Text) (id : ℤ) → Writes (check_affected format_id id) (λ _ db. db)
unfolding check_affected driver_call read_db
Writes-check format_id id w h = ground arith

module _ (client server : Text) (now : ℕ) where
  paired_none : (rows : List ServerRow) → paired client server now [] rows ≡ rows
  unfolding paired
  paired_none [] = refl
  paired_none (row ∷ rows) = ap (λ t. row ∷ t) (paired_none rows)

  paired_step :
      (id : ℤ) (ids : List ℤ) (rows : List ServerRow)
      → paired client server now ids
          (update_rows (λ (row : ServerRow). same_id row.id id) (with_pair client server now) rows)
        ≡ paired client server now (id ∷ ids) rows
  unfolding paired
  paired_step id ids [] = refl
  paired_step id ids (row ∷ rows) = ground (arith, paired_step id ids rows)

  rows_with_id-update :
      (i id : ℤ) (rows : List ServerRow)
      → rows_with_id i
          (update_rows (λ (row : ServerRow). same_id row.id id) (with_pair client server now) rows)
        ≡ rows_with_id i rows
  unfolding rows_with_id
  rows_with_id-update i id [] = refl
  rows_with_id-update i id (row ∷ rows) = ground (arith, rows_with_id-update i id rows)

  changed_counts :
      (i id : ℤ) (db : LocalDb)
      → rows_with_id i (change_servers id (with_pair client server now) db).servers
        ≡ rows_with_id i db.servers
  unfolding change_servers
  changed_counts i id db = rows_with_id-update i id db.servers

  counts_before :
      (id : ℤ) (ids : List ℤ) (after before : LocalDb)
      → after ≡ change_servers id (with_pair client server now) before
      → All (λ i. rows_with_id i after.servers ≡ 1) ids
      → All (λ i. rows_with_id i before.servers ≡ 1) ids
  counts_before id [] after before e h = tt
  counts_before id (i ∷ ids) after before e (one, rest) = (
    sym (changed_counts i id before)
        ∙ (ap (λ (db : LocalDb). rows_with_id i db.servers) (sym e) ∙ one),
    counts_before id ids after before e rest,
  )

  abbrev pair_all : List ℤ → LocalDb → LocalDb
  pair_all ids db = record db { servers = paired client server now ids db.servers }

  module _ (format_id : ℤ → Text) where
    abbrev set_one : ℤ → Exec LocalWorld (Unit {0})
    set_one id =
        exec_statement (change_servers id (with_pair client server now))
        >> check_affected format_id id

    Writes-set_one :
        (id : ℤ) → Writes (set_one id) (λ _. change_servers id (with_pair client server now))
    Writes-set_one id =
        Writes-then (exec_statement (change_servers id (with_pair client server now)))
          (check_affected format_id id) (λ _. change_servers id (with_pair client server now))
          (λ _ db. db) (Writes-exec (change_servers id (with_pair client server now)))
          (Writes-check format_id id)

    pair_all-change :
        (id : ℤ) (ids : List ℤ) (db : LocalDb)
        → pair_all ids (change_servers id (with_pair client server now) db) ≡ pair_all (id ∷ ids) db
    unfolding change_servers
    pair_all-change id ids db = ap (λ t. record db { servers = t }) (paired_step id ids db.servers)

    Writes-set_pairs :
        (ids : List ℤ) → Writes (set_pairs format_id client server now ids) (λ _. pair_all ids)
    unfolding set_pairs
    Writes-set_pairs [] =
        λ w h. (ap (λ t. record w.db { servers = t }) (sym (paired_none w.db.servers)), refl)
    Writes-set_pairs (id ∷ ids) =
        Writes-ext (set_one id >> set_pairs format_id client server now ids)
          (λ _ db. pair_all ids (change_servers id (with_pair client server now) db))
          (λ _. pair_all (id ∷ ids))
          (Writes-then (set_one id) (set_pairs format_id client server now ids)
            (λ _. change_servers id (with_pair client server now)) (λ _. pair_all ids)
            (Writes-set_one id) (Writes-set_pairs ids))
          (λ _ db. pair_all-change id ids db)

    check_one :
        (id : ℤ) (w : LocalWorld)
        → (check_affected format_id id w).0 ≡ ok tt
        → rows_with_id id w.db.servers ≡ 1
    unfolding check_affected driver_call read_db
    check_one id w h = ground arith

    set_one-counts :
        (id : ℤ) (w : LocalWorld) → (set_one id w).0 ≡ ok tt → rows_with_id id w.db.servers ≡ 1
    set_one-counts id w h =
        let change = change_servers id (with_pair client server now) in
        let (u, wrote, same) =
          bind_ok (exec_statement change) (λ _. check_affected format_id id) w h in
        let fine = ap (λ (r : Result (Unit {0}) × LocalWorld). r.0) (sym same) ∙ h in
        sym (changed_counts id id w.db)
        ∙ (ap (λ (db : LocalDb). rows_with_id id db.servers) (sym (Writes-exec change w wrote).0)
            ∙ check_one id (exec_statement change w).1 fine)

    set_pairs-counts :
        (ids : List ℤ) (w : LocalWorld)
        → (set_pairs format_id client server now ids w).0 ≡ ok tt
        → All (λ id. rows_with_id id w.db.servers ≡ 1) ids
    unfolding set_pairs
    set_pairs-counts [] w h = tt
    set_pairs-counts (id ∷ ids) w h =
        let (u, wrote, same) =
          bind_ok (set_one id) (λ _. set_pairs format_id client server now ids) w h in
        let fine = ap (λ (r : Result (Unit {0}) × LocalWorld). r.0) (sym same) ∙ h in
        (
          set_one-counts id w wrote,
          counts_before id ids (set_one id w).1.db w.db ((Writes-set_one id w wrote).0)
              (set_pairs-counts ids (set_one id w).1 fine),
        )

-- Every server named is one row, and has the pair; the others are as they were.
abbrev pub IsPaired : Result (Unit {0}) × LocalWorld → LocalWorld → List ℤ → Text → Text → Type 0
IsPaired run w ids client server =
    (run.0 ≡ ok tt)
    × (run.1.db ≡ pair_servers client server ids w.now w.db)
    × All (λ id. count_named id w.db.servers ≡ 1) ids

abbrev pub IsRefused : Result (Unit {0}) × LocalWorld → LocalWorld → Type 0
IsRefused run w = (e : Text) × (run.0 ≡ err e) × (run.1.db ≡ w.db)

module _ (format_id : ℤ → Text) where
  counts_found :
      (ids : List ℤ) (db before : LocalDb)
      → db ≡ before
      → All (λ id. rows_with_id id db.servers ≡ 1) ids
      → All (λ id. rows_with_id id before.servers ≡ 1) ids
  counts_found ids db before e h =
      subst (λ (d : LocalDb). All (λ id. rows_with_id id d.servers ≡ 1) ids) e h

  pairs_settled :
      (ids : List ℤ) (client server : Text) (w : LocalWorld)
      → IsPaired
          (transact (set_pairs format_id client server (rfc3339 w.now) ids) w)
          w
          ids
          client
          server
        ⊎ IsRefused (transact (set_pairs format_id client server (rfc3339 w.now) ids) w) w
  pairs_settled ids client server w =
      let body = set_pairs format_id client server (rfc3339 w.now) ids in
      elim (transact-IsAtomic body (λ _. pair_all client server (rfc3339 w.now) ids)
        (Writes-set_pairs client server (rfc3339 w.now) format_id ids) w) [
          | inl (done, same) ↦
              let (ran, kept) = transact_body_ok body w done in
              inl (
                done,
                same,
                named_once ids w.db.servers (
                    counts_found ids (driver_call w).1.db w.db kept (
                      set_pairs-counts client server (rfc3339 w.now) format_id ids (driver_call w).1
                        ran)),
              )
          | inr failed ↦ inr failed
        ]

  module _ (x : Codec) (a : Aead) (k : KeySource) (random : ℕ → Result Bytes) where
    run_sealed :
        (id : ℤ) (ids : List ℤ) (client server c s : Text) (w : LocalWorld)
        → encrypt_sensitive_field x a k client (random 0) ≡ ok c
        → encrypt_sensitive_field x a k server (random 1) ≡ ok s
        → set_vless_encryption_for_servers format_id x a k random (id ∷ ids) client server w
          ≡ transact (set_pairs format_id c s (rfc3339 w.now) (id ∷ ids)) w
    unfolding set_vless_encryption_for_servers
    run_sealed id ids client server c s w hc hs = rw (hc, hs) refl

    unsealed_client :
        (id : ℤ) (ids : List ℤ) (client server e : Text) (w : LocalWorld)
        → encrypt_sensitive_field x a k client (random 0) ≡ err e
        → set_vless_encryption_for_servers format_id x a k random (id ∷ ids) client server w
          ≡ (err e, w)
    unfolding set_vless_encryption_for_servers
    unsealed_client id ids client server e w h = rw h refl

    unsealed_server :
        (id : ℤ) (ids : List ℤ) (client server c e : Text) (w : LocalWorld)
        → encrypt_sensitive_field x a k client (random 0) ≡ ok c
        → encrypt_sensitive_field x a k server (random 1) ≡ err e
        → set_vless_encryption_for_servers format_id x a k random (id ∷ ids) client server w
          ≡ (err e, w)
    unfolding set_vless_encryption_for_servers
    unsealed_server id ids client server c e w hc h = rw (hc, h) refl

    no_servers :
        (client server : Text) (w : LocalWorld)
        → IsRefused (set_vless_encryption_for_servers format_id x a k random [] client server w) w
    unfolding set_vless_encryption_for_servers
    no_servers client server w = (codes "at least one server is required", refl, refl)

    IsRefused-at_once :
        (run : Result (Unit {0}) × LocalWorld) (e : Text) (w : LocalWorld)
        → run ≡ (err e, w)
        → IsRefused run w
    IsRefused-at_once run e w h = subst (λ r. IsRefused r w) (sym h) (e, refl, refl)

    -- Whatever the driver refuses: either the pair is sealed, every server named is one row of the
    -- database and has the sealed pair and the other servers are as they were, or an error is returned
    -- and the database is as it was.
    pub set_vless_encryption-all_or_nothing :
        (ids : List ℤ) (client server : Text) (w : LocalWorld)
        → ((c : Text) × (s : Text) × (encrypt_sensitive_field x a k client (random 0) ≡ ok c)
            × (encrypt_sensitive_field x a k server (random 1) ≡ ok s)
            × IsPaired
                (set_vless_encryption_for_servers format_id x a k random ids client server w)
                w
                ids
                c
                s)
          ⊎ IsRefused
              (set_vless_encryption_for_servers format_id x a k random ids client server w)
              w
    set_vless_encryption-all_or_nothing [] client server w = inr (no_servers client server w)
    set_vless_encryption-all_or_nothing (id ∷ ids) client server w =
        let run =
          set_vless_encryption_for_servers format_id x a k random (id ∷ ids) client server w in
        elim (Result-cases (encrypt_sensitive_field x a k client (random 0))) [
          | inr (e, h) ↦
              inr (IsRefused-at_once run e w (unsealed_client id ids client server e w h))
          | inl (c, hc) ↦ elim (Result-cases (encrypt_sensitive_field x a k server (random 1))) [
            | inr (e, h) ↦
                inr (IsRefused-at_once run e w (unsealed_server id ids client server c e w hc h))
            | inl (s, hs) ↦
                let same = sym (run_sealed id ids client server c s w hc hs) in
                elim (pairs_settled (id ∷ ids) c s w) [
                  | inl done ↦
                      inl (c, s, hc, hs, subst (λ r. IsPaired r w (id ∷ ids) c s) same done)
                  | inr failed ↦ inr (subst (λ r. IsRefused r w) same failed)
                ]
          ]
        ]
