-- ===== src/Backend/Keeps.antt =====
-- Predicates of the tables that a call keeps, whatever it does to the files.
use slps_team.Prelude.{String, subst, sym, ◌≡◌, refl, Option, none, some}
use slps_team.Errors.{Sentinel}
use slps_team.Flow.{Result, ok, err, Action}
use slps_team.Flow.Keeps.{Keeps}
use slps_team.Sql.{Db}
use slps_team.Sql.Keeps.{Preserves}
use slps_team.Uploads.{Disk}
use slps_team.Backend.{World, Call, on_db, on_disk, discard, cleaned, or_clean}

pub discard_db : {T : Type 0} (o : Option String) (w : World T) → (discard o w).db ≡ w.db
unfolding discard
discard_db none w = refl
discard_db (some path) w = refl

module _ (T : Type 0) where
  -- A change of the world that leaves the tables.
  unfoldable pub Spares : (World T → World T) → Type 0
  Spares f = (w : World T) → (f w).db ≡ w.db

  pub Spares-nothing : Spares (λ w. w)
  unfolding Spares
  Spares-nothing w = refl

  pub Spares-discard : (o : Option String) → Spares (discard o)
  unfolding Spares
  Spares-discard o w = discard_db o w

  pub Spares-discards : (o p : Option String) → Spares (λ w. discard o (discard p w))
  unfolding Spares
  Spares-discards o p w = rw (discard_db o (discard p w)) (discard_db p w)

module _ {T : Type 0} (P : T → Type 0) where
  abbrev pub Held : {A : Type 0} → Call T A → Type 0
  Held m = Keeps (λ (w : World T). P w.db.tables) m

  module _ {A : Type 0} where
    pub Held-on_db : (m : Action (Db T) A) → Preserves P m → Held (on_db m)
    unfolding on_db
    Held-on_db m k = record { at = λ w h. k.at w.db h }

    pub Held-on_disk : (m : Action Disk A) → Held (on_disk m)
    unfolding on_disk
    Held-on_disk m = record { at = λ w h. h }

    pub Held-Spares : (a : A) (f : World T → World T) → Spares T f → Held (λ w. (ok a, f w))
    unfolding Spares
    Held-Spares a f s = record { at = λ w h. subst (λ (db : Db T). P db.tables) (sym (s w)) h }

    cleaned_held :
        (f : World T → World T) (t : Sentinel)
        → Spares T f
        → (x : Result A × World T) → P x.1.db.tables
        → P (cleaned f t x).1.db.tables
    unfolding Spares
    cleaned_held f t s (ok a, w) h = h
    cleaned_held f t s (err e, w) h = subst (λ (db : Db T). P db.tables) (sym (s w)) h

    pub Held-or_clean :
        (f : World T → World T) (t : Sentinel) (m : Call T A)
        → Spares T f
        → Held m
        → Held (or_clean f t m)
    Held-or_clean f t m s k = record { at = λ w h. cleaned_held f t s (m w) (k.at w h) }

-- Statements leave the files.
pub on_db-disk :
    {T A : Type 0} (K : Disk → Type 0) (m : Action (Db T) A)
    → Keeps (λ (w : World T). K w.disk) (on_db m)
unfolding on_db
on_db-disk K m = record { at = λ w h. h }
