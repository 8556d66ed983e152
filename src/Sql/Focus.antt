-- ===== src/Sql/Focus.antt =====
-- A store's methods among more tables than its own.
use slps_team.Prelude.{◌≡◌, ◌∙◌, refl, sym, ap, subst}
use slps_team.Flow.{Result, ok, err, Action}
use slps_team.Flow.Meets.{Lands}
use slps_team.Sql.{Db}
use slps_team.Sql.Keeps.{Preserves}
use slps_team.Sql.Meets.{Takes}

-- A part of the tables.
pub record Part (T U : Type 0) : Type 0 where
  pub get : T → U
  pub put : U → T → T
  pub put_same : (t : T) → put (get t) t ≡ t

module _ {T U : Type 0} (part : Part T U) where
  abbrev pub on_part : {A : Type 0} → Action (Db U) A → Action (Db T) A
  on_part m db =
      let (r, db') =
        m (record { tables = part.get db.tables; statements = db.statements; env = db.env }) in
      (
        r,
        record {
          tables = part.put db'.tables db.tables;
          statements = db'.statements;
          env = db'.env;
        },
      )

  -- A method that only reads its own tables.
  pub Preserves-on_part :
      {A : Type 0} (P : T → Type 0) (m : Action (Db U) A)
      → ((u : U) → Preserves (λ (v : U). v ≡ u) m)
      → Preserves P (on_part m)
  Preserves-on_part P m reads = record {
    at = λ db h.
        let start : Db U = record {
          tables = part.get db.tables;
          statements = db.statements;
          env = db.env;
        } in
        let same : (m start).1.tables ≡ part.get db.tables =
          (reads (part.get db.tables)).at start refl in
        subst P (sym (ap (λ (u : U). part.put u db.tables) same ∙ part.put_same db.tables)) h;
  }

  -- What such a method tells of its own tables.
  pub Takes-on_part :
      {A : Type 0} (P : T → Type 0) (Tells : A → U → Type 0) (m : Action (Db U) A)
      → ((u : U) → Takes (λ v. v ≡ u) m (λ a v. (v ≡ u) × Tells a u) (λ v. v ≡ u))
      → Takes P (on_part m) (λ a t. P t × Tells a (part.get t)) P
  Takes-on_part {A} P Tells m reads = record {
    at = λ db h.
        told db h
          (m (record { tables = part.get db.tables; statements = db.statements; env = db.env }))
          ((reads (part.get db.tables)).at _ refl);
  }
    where
      whole : (db : Db T) (u : U) → u ≡ part.get db.tables → db.tables ≡ part.put u db.tables
      whole db u e = sym (ap (λ (v : U). part.put v db.tables) e ∙ part.put_same db.tables)

      told :
          (db : Db T)
          → P db.tables
          → (x : Result A × Db U)
          → Lands
              (λ (a : A) (d : Db U). (d.tables ≡ part.get db.tables) × Tells a (part.get db.tables))
              (λ (d : Db U). d.tables ≡ part.get db.tables)
              x
          → Lands
              (λ (a : A) (d : Db T). P d.tables × Tells a (part.get d.tables))
              (λ (d : Db T). P d.tables)
              (
                x.0,
                record {
                  tables = part.put x.1.tables db.tables;
                  statements = x.1.statements;
                  env = x.1.env;
                },
              )
      told db h (ok a, d) (e, k) =
          subst (λ (t : T). P t × Tells a (part.get t)) (whole db d.tables e) (h, k)
      told db h (err f, d) e = subst P (whole db d.tables e) h
