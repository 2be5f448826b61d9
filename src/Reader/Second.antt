-- ===== src/Reader/Second.antt =====
-- A string in the second slot is found whatever became of the first.
use litrace.Prelude.{ℕ, ◌+◌, ◌%◌, ◌≡◌, ◌≢◌, ◌∙◌, ap, arith, List, none, ◌==◌, leb, if-intro, set}
use litrace.Types.{Event, VarArgDesc}
use litrace.User.{Call, UserRead, got, fault}
use litrace.Capture.{push_desc, string_read, append_var_string, new_desc, slot_offset}
use litrace.Reader.{find_desc, find_var_arg_desc}
use litrace.Reader.First.{find_desc-set_only}

-- One argument is described, and it is `idx`.
pub record One (idx : ℕ) (e : Event) : Type 0 where
  pub one : e.var_count ≡ 1
  pub alone : (j : ℕ) → idx ≢ j → find_var_arg_desc e j ≡ none

push_desc-One :
    (d : VarArgDesc) (e : Event) (payload : List ℕ) (n : ℕ)
    → e.var_count ≡ 0
    → One d.arg_index (push_desc d (record e { payload = payload; payload_len = n }))
unfolding push_desc find_var_arg_desc
push_desc-One d e payload n first =
    let counted : (e.var_count + 1) % 256 ≡ 1 = omega arith in
    record {
      one = counted;
      alone = λ j other.
          ap (λ m. find_desc j m (set e.var_desc e.var_count d)) counted
          ∙ ap (λ m. find_desc j 1 (set e.var_desc m d)) first
          ∙ find_desc-set_only j e.var_desc d other;
    }

module _ (idx : ℕ) (e : Event) (first : e.var_count ≡ 0) where
  string_read-One : (r : UserRead) (off : ℕ) → One idx (string_read r (new_desc idx off) e)
  unfolding string_read
  string_read-One (fault left) off = push_desc-One _ e _ e.payload_len first
  string_read-One (got bytes) off = push_desc-One _ e _ _ first

  pub append_var_string-One : (c : Call) (ptr : ℕ) → One idx (append_var_string c idx ptr e)
  unfolding append_var_string
  append_var_string-One c ptr =
      if-intro (One idx) (leb 2 e.var_count) (λ full. absurd (ground arith))
        λ room.
          if-intro (One idx) (ptr == 0) (λ null. push_desc-One _ e e.payload e.payload_len first)
            λ given. string_read-One _ (slot_offset e.var_count)
