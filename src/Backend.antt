-- ===== src/Backend.antt =====
-- What a service works on: its tables and the directory of uploads.
pub mod Keeps
pub mod Success
pub mod Meets
use slps_team.Prelude.{String, ap, ◌≡◌, Option, none, some}
use slps_team.Errors.{Sentinel, sentinel}
use slps_team.Flow.{Result, ok, err, Action, ignoring}
use slps_team.Sql.{Db}
use slps_team.Uploads.{Disk, delete_file}

pub record World (T : Type 0) : Type 0 where
  pub db : Db T
  pub disk : Disk

abbrev pub Call : Type 0 → Type 0 → Type 0
Call T A = Action (World T) A

module _ {T : Type 0} where
  module _ {A : Type 0} where
    unfoldable pub on_db : Action (Db T) A → Call T A
    on_db m w = let (r, db) = m w.db in (r, record w { db = db })

    pub on_db_run :
        (m : Action (Db T) A) (w : World T) (x : Result A × Db T)
        → m w.db ≡ x
        → on_db m w ≡ (x.0, record w { db = x.1 })
    unfolding on_db
    on_db_run m w x e = ap (λ (y : Result A × Db T). (y.0, record w { db = y.1 })) e

    unfoldable pub on_disk : Action Disk A → Call T A
    on_disk m w = let (r, disk) = m w.disk in (r, record w { disk = disk })

    abbrev pub cleaned : (World T → World T) → Sentinel → Result A × World T → Result A × World T
    cleaned clean t (ok a, w) = (ok a, w)
    cleaned clean t (err e, w) = (err (sentinel t), clean w)

    -- `if err != nil { DeleteFile(…); return …, domain.Err… }`
    abbrev pub or_clean : (World T → World T) → Sentinel → Call T A → Call T A
    or_clean clean t m w = cleaned clean t (m w)

  -- `DeleteFile` on a pointer that may be nil, its error dropped.
  unfoldable pub discard : Option String → World T → World T
  discard none w = w
  discard (some path) w = record w { disk = ignoring (delete_file path) w.disk }
