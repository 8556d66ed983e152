-- ===== src/Sql/Calm.antt =====
-- While the database answers.
use slps_team.Prelude.{ℕ, ◌≡◌, refl, false}
use slps_team.Sql.{Env}

-- No statement fails, and every result can be read.
pub record IsCalm (env : Env) : Type 0 where
  pub answers : (n : ℕ) → env.fails n ≡ false
  pub readable : (n : ℕ) → env.result_fails n ≡ false

-- One such, whose clock counts the statements.
abbrev pub calm : Env
calm = record {
  fails = λ n. false;
  result_fails = λ n. false;
  rows_read = λ n. 0;
  pick = λ n. 0;
  time = λ n. n;
}

pub calm-IsCalm : IsCalm calm
calm-IsCalm = record { answers = λ _. refl; readable = λ _. refl }
