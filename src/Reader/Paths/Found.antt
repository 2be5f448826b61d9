-- ===== src/Reader/Paths/Found.antt =====
-- Every path argument that the tracer can read whole is the one that the reader finds.
use mathlib.Core.Path.{subst}
use litrace.Prelude.{
  ℕ, ◌<◌, ◌≡◌, ◌≢◌, ◌⊎◌, inl, inr, refl, ◌∙◌, arith, List, [], ◌∷◌, Bool, Option, some, if-intro,
  length, get_or,
}
use litrace.Types.{Event, SyscallData, ExecveSnapshot, SysExitArgs}
use litrace.User.{Call, KernelHeaders, got, IsHelper}
use litrace.Capture.Bounds.{IsWellFormed}
use litrace.Schema.{set_syscall_arg_schema}
use litrace.Tracer.Exit.Event.{when, set_arg_type, take_string, take_bytes, exit_event, start_event}
use litrace.Tracer.Exit.Parts.{set_arg_type-IsWellFormed}
use litrace.Tracer.Exit.WellFormed.{take_string-IsWellFormed, start_event-IsWellFormed}
use litrace.Reader.{find_var_arg_desc, event_trace_path_at}
use litrace.Reader.Strings.{c_string, Gives, append_var_string-Gives}
use litrace.Reader.First.{
  First, First-Gives, append_var_string-First, append_var_string-keeps, append_var_bytes-keeps,
}
use litrace.Reader.Second.{One, append_var_string-One}
use litrace.Reader.Paths.{path_args, Captures, nothing, one, stat, two, captures}

-- The argument types have no part in it.
find-set_arg_type :
    (k kind i : ℕ) (e : Event) → find_var_arg_desc (set_arg_type k kind e) i ≡ find_var_arg_desc e i
unfolding set_arg_type find_var_arg_desc
find-set_arg_type k kind i e = refl

path-set_arg_type :
    (k kind i : ℕ) (e : Event)
    → event_trace_path_at (set_arg_type k kind e) i ≡ event_trace_path_at e i
unfolding set_arg_type event_trace_path_at
path-set_arg_type k kind i e = refl

set_arg_type-First :
    (k kind : ℕ) (e : Event) (i : ℕ) (s : List ℕ) → First e i s → First (set_arg_type k kind e) i s
unfolding set_arg_type find_var_arg_desc
set_arg_type-First k kind e i s f = record {
  well_formed = set_arg_type-IsWellFormed k kind e f.well_formed;
  one = f.one;
  desc = f.desc;
  found = f.found;
  clean = f.clean;
  low = f.low;
  below = f.below;
  value = f.value;
  alone = f.alone;
}

set_arg_type-One : (k kind idx : ℕ) (e : Event) → One idx e → One idx (set_arg_type k kind e)
unfolding set_arg_type find_var_arg_desc
set_arg_type-One k kind idx e f = record { one = f.one; alone = f.alone }

-- Argument `i` of the call is a string that the helper can read, and that fits a slot.
pub record IsPath (c : Call) (state : SyscallData) (i : ℕ) (s : List ℕ) : Type 0 where
  pub given : get_or state.args i 0 ≢ 0
  pub read : c.read_user_str 256 (get_or state.args i 0) ≡ got (c_string s)
  pub short : length s < 255

abbrev pub Listed : ℕ → List ℕ → Type 0
Listed i [] = ⊥
Listed i (x ∷ xs) = (i ≡ x) ⊎ Listed i xs

module _ (headers : KernelHeaders) (c : Call) (ret : ℕ) (state : SyscallData) (e : Event)
    (h : IsHelper c) (w : IsWellFormed e) (first : e.var_count ≡ 0) where
  abbrev take : ℕ → Event → Event
  take = take_string headers c ret state

  take_string-First : (i : ℕ) (s : List ℕ) → IsPath c state i s → First (take i e) i s
  unfolding take_string
  take_string-First i s p =
      set_arg_type-First i _ _ i s
        (append_var_string-First c i _ e s h w first p.given p.read p.short)

  take_string-Gives : (i : ℕ) (s : List ℕ) → IsPath c state i s → Gives (take i e) i s
  take_string-Gives i s p = First-Gives _ i s (take_string-First i s p)

  stat-Gives :
      (i j size : ℕ) (b : Bool) (s : List ℕ)
      → IsPath c state i s
      → Gives (when b (take_bytes headers c ret state j size) (take i e)) i s
  unfolding when take_bytes
  stat-Gives i j size b s p =
      if-intro (λ (x : Event). Gives x i s) b
        (λ ok.
          path-set_arg_type j _ i _
          ∙ append_var_bytes-keeps _ i s (take_string-First i s p) c j (get_or state.args j 0) size)
        (λ failed. take_string-Gives i s p)

  first-Gives : (i j : ℕ) (s : List ℕ) → IsPath c state i s → Gives (take j (take i e)) i s
  first-Gives i j s p =
      unfold take_string in
      (path-set_arg_type j _ i _)
      ∙ append_var_string-keeps _ i s (take_string-First i s p) c j (get_or state.args j 0) h

  take_string-One : (i : ℕ) → One i (take i e)
  unfolding take_string
  take_string-One i = set_arg_type-One i _ i _ (append_var_string-One i e first c _)

  second-Gives : (i j : ℕ) (s : List ℕ) → i ≢ j → IsPath c state j s → Gives (take j (take i e)) j s
  second-Gives i j s other p =
      let once = take_string-One i in
      unfold take_string in
      (path-set_arg_type j _ j _)
      ∙ append_var_string-Gives c j (get_or state.args j 0) (take i e) s
          (take_string-IsWellFormed headers c ret state h i e w) (omega (arith, once.one))
          (once.alone j other) p.given p.read p.short

  Captures-Gives :
      (snapshot : Option ExecveSnapshot) (x : Event) (args : List ℕ)
      → Captures headers c ret state snapshot e x args
      → (i : ℕ) (s : List ℕ) → Listed i args
      → IsPath c state i s
      → Gives x i s
  Captures-Gives snapshot x args nothing i s at p = elim at [ ]
  Captures-Gives snapshot x args (one j how) i s (inl here) p =
      rw (how, here) (take_string-Gives j s (subst (λ k. IsPath c state k s) here p))
  Captures-Gives snapshot x args (one j how) i s (inr at) p = elim at [ ]
  Captures-Gives snapshot x args (stat j k size b how) i s (inl here) p =
      rw (how, here) (stat-Gives j k size b s (subst (λ k. IsPath c state k s) here p))
  Captures-Gives snapshot x args (stat j k size b how) i s (inr at) p = elim at [ ]
  Captures-Gives snapshot x args (two j k other how) i s (inl here) p =
      rw (how, here) (first-Gives j k s (subst (λ m. IsPath c state m s) here p))
  Captures-Gives snapshot x args (two j k other how) i s (inr (inl here)) p =
      rw (how, here) (second-Gives j k s other (subst (λ m. IsPath c state m s) here p))
  Captures-Gives snapshot x args (two j k other how) i s (inr (inr at)) p = elim at [ ]

-- For every system call and every argument that matchesPath looks at: if the helper reads that
-- argument as a string of fewer than 255 bytes, then eventTracePathAt finds exactly this string in
-- the event of trace_sys_exit, whatever becomes of the call's other arguments.
pub exit_event-Gives :
    (headers : KernelHeaders) (c : Call) (ctx : SysExitArgs) (state : SyscallData)
    (snapshot : Option ExecveSnapshot) (i : ℕ) (s : List ℕ)
    → IsHelper c
    → Listed i (path_args state.syscall_id)
    → IsPath c state i s
    → event_trace_path_at (exit_event headers c ctx state snapshot) i ≡ some s
unfolding exit_event
exit_event-Gives headers c ctx state snapshot i s h at p =
    let (w, first) = start_event-IsWellFormed headers c ctx state in
    let e = set_syscall_arg_schema state.syscall_id (start_event headers c ctx state) in
    Captures-Gives headers c ctx.ret state e h w first snapshot _ (path_args state.syscall_id)
      (captures headers c ctx.ret state snapshot e) i s at p
