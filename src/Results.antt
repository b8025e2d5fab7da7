-- ===== src/Results.antt =====
-- `Result` of anyhow, with the text of the error, and its `?`.
use meshlite.Base.{Text}

pub data Result (A : Type 0) : Type 0 where
  ok : A → Result A
  err : Text → Result A

infixl 5 ◌>>=◌
abbrev pub ◌>>=◌ : {A B : Type 0} → Result A → (A → Result B) → Result B
ok a >>= f = f a
err e >>= f = err e
