-- ===== src/Names.antt =====
-- internal/syscalls/x86_64.go: the names of the system calls.
mod Line
pub mod Part1
pub mod Part2
pub mod Part3
pub mod Distinct
use litrace.Prelude.{ℕ, ◌^◌, ◌-◌, List, [], ◌∷◌, ◌++◌, Option, none, some, ◌==◌, if◌then◌else◌}
use litrace.Types.{is_negative}
use litrace.FilePath.{bytes_eq}
use litrace.Text.{codes, hexadecimal}
pub use Line.{Entry}
use Part1.{entries_1}
use Part2.{entries_2}
use Part3.{entries_3}

unfoldable pub entries : List Entry
entries = entries_1 ++ entries_2 ++ entries_3

-- What the loop of init leaves in idToName and in nameToID: a later entry replaces an earlier one.
unfoldable pub id_to_name : List Entry → ℕ → Option (List ℕ)
id_to_name [] id = none
id_to_name (e ∷ es) id = elim (id_to_name es id) [
  | some name ↦ some name
  | none ↦ if e.id == id then some e.name else none
]

unfoldable pub name_to_id : List Entry → List ℕ → Option ℕ
name_to_id [] name = none
name_to_id (e ∷ es) name = elim (name_to_id es name) [
  | some id ↦ some id
  | none ↦ if bytes_eq e.name name then some e.id else none
]

-- `syscall_0x%x` of an int64.
unfoldable pub unnamed : ℕ → List ℕ
unnamed id =
    if is_negative id
    then codes "syscall_0x-" ++ hexadecimal (2 ^ 64 - id)
    else codes "syscall_0x" ++ hexadecimal id

-- Name
unfoldable pub syscall_name : ℕ → List ℕ
syscall_name id = elim (id_to_name entries id) [ some name ↦ name | none ↦ unnamed id ]

-- ID
unfoldable pub syscall_id_of : List ℕ → Option ℕ
syscall_id_of name = name_to_id entries name
