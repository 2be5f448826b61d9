-- ===== src/Reader/Slices.antt =====
-- What the reader finds in a well-formed event.
use litrace.Prelude.{
  ℕ, zero, suc, ◌+◌, ◌≤◌, ◌<◌, ◌≡◌, arith, List, [], ◌∷◌, none, some, ◌==◌, length, get_or, window,
  drop, length-take, length-drop, Bool-cases, inl, inr, set,
}
use mathlib.Core.Path.{subst}
use litrace.Types.{Event, VarArgDesc, zero_desc}
use litrace.Capture.Bounds.{Fits, IsWellFormed}
use litrace.Reader.{find_desc, find_var_arg_desc, var_payload_slice}

-- A descriptor that is found is one of those counted.
pub find_desc-get_or :
    (idx n : ℕ) (ds : List VarArgDesc) (d : VarArgDesc)
    → find_desc idx n ds ≡ some d
    → (i : ℕ) × (i < n) × (get_or ds i zero_desc ≡ d) × (d.arg_index ≡ idx)
unfolding find_desc
find_desc-get_or idx n [] d found = absurd (cc)
find_desc-get_or idx zero (x ∷ ds) d found = absurd (cc)
find_desc-get_or idx (suc n) (x ∷ ds) d found = elim (Bool-cases (x.arg_index == idx)) [
  | inl here ↦ (0, omega arith, ground arith, ground arith)
  | inr other ↦
      let (i, lt, at, index) = find_desc-get_or idx n ds d (ground arith) in
      (suc i, omega arith, at, index)
]

-- In a well-formed event the bytes of a described argument, if no flag but the one for a truncated
-- value is set, are always found, and there are as many as the descriptor says.
pub var_payload_slice-IsWellFormed :
    (e : Event) (idx : ℕ) (d : VarArgDesc)
    → IsWellFormed e
    → find_var_arg_desc e idx ≡ some d
    → d.flags ≤ 1
    → (bytes : List ℕ) × (var_payload_slice e d ≡ some bytes) × (length bytes ≡ d.length)
unfolding find_var_arg_desc var_payload_slice
var_payload_slice-IsWellFormed e idx d w found clean =
    let (i, lt, at, _) = find_desc-get_or idx e.var_count e.var_desc d found in
    let below : d.offset + d.length ≤ e.payload_len =
      subst (Fits e.payload_len) at (w.fits i lt) clean in
    (
      window d.offset d.length e.payload,
      ground arith,
      omega (arith, length-take d.length (drop d.offset e.payload), length-drop d.offset e.payload),
    )

-- Adding a descriptor at the end: it is found if its argument had none, and what was found before
-- is found again.
pub find_desc-set_new :
    (idx n : ℕ) (ds : List VarArgDesc) (d : VarArgDesc)
    → n < length ds
    → d.arg_index ≡ idx
    → find_desc idx n ds ≡ none
    → find_desc idx (suc n) (set ds n d) ≡ some d
unfolding find_desc
find_desc-set_new idx n [] d lt index absent = elim lt [ ]
find_desc-set_new idx zero (x ∷ ds) d lt index absent = ground arith
find_desc-set_new idx (suc n) (x ∷ ds) d lt index absent =
    ground (arith, find_desc-set_new idx n ds d)

pub find_desc-set_old :
    (idx n : ℕ) (ds : List VarArgDesc) (d d' : VarArgDesc)
    → find_desc idx n ds ≡ some d'
    → find_desc idx (suc n) (set ds n d) ≡ some d'
unfolding find_desc
find_desc-set_old idx n [] d d' found = absurd (cc)
find_desc-set_old idx zero (x ∷ ds) d d' found = absurd (cc)
find_desc-set_old idx (suc n) (x ∷ ds) d d' found = ground (arith, find_desc-set_old idx n ds d d')
