-- ===== src/Backend/Success.antt =====
-- What a call has done to the tables, when it succeeds and when it fails.
use slps_team.Prelude.{◌∙◌, arith, Bool, true, false, not, some, ap, ◌≡◌, refl, sym, subst}
use slps_team.Errors.{Error, Sentinel}
use slps_team.Flow.{Result, ok, err, Action, or_return, return_if, ◌>>=◌}
use slps_team.Sql.{Db, query}
use slps_team.Sql.Success.{
  Ensures, Fails, Ensures-bind, Ensures-on_error, Ensures-return_if, Ensures-query,
}
use slps_team.Uploads.{Disk}
use slps_team.Backend.{World, Call, on_db, on_disk, cleaned, or_clean}
use slps_team.Backend.Keeps.{Spares}

module _ {T A : Type 0} where
  abbrev inside : Result A × World T → Result A × Db T
  inside (r, w) = (r, w.db)

  module _ (w : World T) (m : Action (Db T) A) where
    pub Ensures-on_db :
        {Q : A → Db T → Type 0}
        → Ensures m w.db Q
        → Ensures (on_db m) w (λ a w'. Q a w'.db × (w.disk ≡ w'.disk))
    unfolding on_db
    Ensures-on_db h = record {
      at = λ a w' e. (h.at a w'.db (ap inside e), ap (λ (x : Result A × World T). x.1.disk) e);
    }

    pub Fails-on_db : {R : Db T → Type 0} → Fails m w.db R → Fails (on_db m) w (λ w'. R w'.db)
    unfolding on_db
    Fails-on_db h = record { at = λ e w' q. h.at e w'.db (ap inside q) }

  pub Ensures-on_disk :
      (w : World T) (m : Action Disk A)
      → Ensures (on_disk m) w (λ a w'. ((m w.disk).0 ≡ ok a) × (w.db ≡ w'.db))
  unfolding on_disk
  Ensures-on_disk w m = record {
    at = λ a w' e.
        (ap (λ (x : Result A × World T). x.0) e, ap (λ (x : Result A × World T). x.1.db) e);
  }

  module _ (w : World T) (clean : World T → World T) (t : Sentinel) where
    cleaned_ran :
        (x : Result A × World T) (a : A) (w' : World T)
        → cleaned clean t x ≡ (ok a, w')
        → x ≡ (ok a, w')
    cleaned_ran (ok b, v) a w' e = e
    cleaned_ran (err d, v) a w' e = absurd (cc)

    cleaned_failed :
        (x : Result A × World T) (R : T → Type 0)
        → Spares T clean
        → ((e : Error) (v : World T) → x ≡ (err e, v) → R v.db.tables)
        → (e : Error) (w' : World T) → cleaned clean t x ≡ (err e, w')
        → R w'.db.tables
    unfolding Spares
    cleaned_failed (ok b, v) R s h e w' q = absurd (cc)
    cleaned_failed (err d, v) R s h e w' q =
        subst (λ (u : World T). R u.db.tables) (ap (λ (x : Result A × World T). x.1) q)
          (subst (λ (db : Db T). R db.tables) (sym (s v)) (h d v refl))

    module _ (m : Call T A) where
      pub Ensures-or_clean :
          {Q : A → World T → Type 0} → Ensures m w Q → Ensures (or_clean clean t m) w Q
      Ensures-or_clean h = record { at = λ a w' e. h.at a w' (cleaned_ran (m w) a w' e) }

      pub Fails-or_clean :
          (R : T → Type 0)
          → Spares T clean
          → Fails m w (λ v. R v.db.tables)
          → Fails (or_clean clean t m) w (λ v. R v.db.tables)
      Fails-or_clean R s h = record { at = λ e w' q. cleaned_failed (m w) R s h.at e w' q }

-- The tables and the files are those of another state.
pub record IsSame {T : Type 0} (w v : World T) : Type 0 where
  pub tables : v.db.tables ≡ w.db.tables
  pub disk : v.disk ≡ w.disk

asked_true : (b c : Bool) → some b ≡ some c → not c ≡ false → b ≡ true
asked_true b c e n = ground (arith, e, n)

-- A question to the database, and a `return` where the answer is no.
module _ {T B : Type 0} (w : World T) (question : T → Bool) (d no_to_it : Sentinel)
    (rest : Call T B) {R : B → World T → Type 0} where
  pub Ensures-asked :
      ((v : World T) → question w.db.tables ≡ true → IsSame w v → Ensures rest v R)
      → Ensures
          (or_return d (on_db (query λ t. some (question t))) >>= λ b.
            return_if (not b) no_to_it >>= λ _. rest)
          w
          R
  Ensures-asked k =
      Ensures-bind _ _ w
        (Ensures-on_error w (λ _. d) _
          (Ensures-on_db w _ (Ensures-query w.db λ t. some (question t))))
        λ b v ((answered, same), files).
          Ensures-bind _ _ v (Ensures-return_if (not b) no_to_it v) λ _ u (yes_to_it, still).
            k u (asked_true _ b answered yes_to_it) (record {
              tables = sym (ap (λ (x : World T). x.db.tables) still) ∙ sym same;
              disk = sym (ap (λ (x : World T). x.disk) still) ∙ sym files;
            })
