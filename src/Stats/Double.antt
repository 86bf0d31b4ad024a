-- ===== src/Stats/Double.antt =====
-- The C type `double`, as far as src/report_stats.c and src/recovery_engine.c use it. The arithmetic
-- is the machine's, not the program's: the model takes it as a parameter.
use two_stream_recovery.Base.{ℕ, ℤ, Bool}

pub record Double (D : Type 0) : Type 0 where
  -- `(double)i` of an integer, and the literal for `n / d`.
  pub of_int : ℤ → D
  pub literal : ℕ → ℕ → D
  pub add : D → D → D
  pub sub : D → D → D
  pub mul : D → D → D
  pub div : D → D → D
  pub neg : D → D
  -- `a < b` and `a == b`.
  pub lt : D → D → Bool
  pub eq : D → D → Bool
