-- ===== src/Backend/Meets.antt =====
-- The rules of Flow/Meets for calls: conditions on the tables, whatever becomes of the files.
use slps_team.Prelude.{subst, sym}
use slps_team.Errors.{Sentinel}
use slps_team.Flow.{Result, ok, err, Action}
use slps_team.Flow.Meets.{Lands, Meets, Meets-Keeps}
use slps_team.Sql.{Db}
use slps_team.Sql.Meets.{Takes}
use slps_team.Uploads.{Disk}
use slps_team.Backend.{World, Call, on_db, on_disk, cleaned, or_clean}
use slps_team.Backend.Keeps.{Spares, Held-on_disk}

abbrev pub Leads :
    {T A : Type 0} → (T → Type 0) → Call T A → (A → T → Type 0) → (T → Type 0) → Type 0
Leads P m Q E = Meets (λ w. P w.db.tables) m (λ a w. Q a w.db.tables) (λ w. E w.db.tables)

module _ {T A : Type 0} (P : T → Type 0) (Q : A → T → Type 0) (E : T → Type 0) where
  pub Leads-on_db : (m : Action (Db T) A) → Takes P m Q E → Leads P (on_db m) Q E
  unfolding on_db
  Leads-on_db m k = record { at = λ w h. landed w (m w.db) (k.at w.db h) }
    where
      landed :
          (w : World T) (x : Result A × Db T)
          → Lands (λ a db. Q a db.tables) (λ db. E db.tables) x
          → Lands (λ a v. Q a v.db.tables) (λ v. E v.db.tables) (x.0, record w { db = x.1 })
      landed w (ok a, db) h = h
      landed w (err e, db) h = h

module _ {T A : Type 0} (P : World T → Type 0) (Q : A → World T → Type 0) (E : T → Type 0) where
  pub Meets-or_clean :
      (clean : World T → World T) (t : Sentinel) (m : Call T A)
      → Spares T clean
      → Meets P m Q (λ w. E w.db.tables)
      → Meets P (or_clean clean t m) Q (λ w. E w.db.tables)
  unfolding Spares
  Meets-or_clean clean t m spares k = record { at = λ w h. landed (m w) (k.at w h) }
    where
      landed :
          (x : Result A × World T)
          → Lands Q (λ v. E v.db.tables) x
          → Lands Q (λ v. E v.db.tables) (cleaned clean t x)
      landed (ok a, w) h = h
      landed (err e, w) h = subst (λ (db : Db T). E db.tables) (sym (spares w)) h

pub Leads-on_disk :
    {T A : Type 0} (P : T → Type 0) (m : Action Disk A) → Leads P (on_disk m) (λ _ t. P t) P
Leads-on_disk P m = Meets-Keeps (on_disk m) (Held-on_disk P m)
