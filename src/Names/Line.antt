-- ===== src/Names/Line.antt =====
-- Entry of internal/syscalls/x86_64.go.
use litrace.Prelude.{ℕ, List}

pub record Entry : Type 0 where
  pub id : ℕ
  pub name : List ℕ

abbrev pub row : ℕ → List ℕ → Entry
row id name = record { id = id; name = name }
