-- ===== src/PathFilter/Fork.antt =====
-- What the filter knows of a new process.
use litrace.Prelude.{
  ℕ, ◌≡◌, ◌≢◌, refl, arith, List, [], ◌∷◌, true, false, none, some, Option-cases, inl, inr,
}
use litrace.Types.{Event}
use litrace.Maps.{write_through}
use litrace.Reader.{process_clone_child_pid}
use litrace.PathFilter.{PathFilter, is_empty, put_state, delete_state, fd_path, fd_tracked}
use litrace.PathFilter.Dict.{contains, lookup}
use litrace.PathFilter.Observe.{clone_process_path_state, observe_fork_child, observe_process_clone}

-- Two processes of which the same is known: descriptors with their paths, and which are tracked.
pub record SameFds (g f : PathFilter) (p q : ℕ) : Type 0 where
  pub path : (d : ℕ) → fd_path g p d ≡ fd_path f q d
  pub tracked : (d : ℕ) → fd_tracked g p d ≡ fd_tracked f q d

lookup-is_empty : (d : ℕ) (m : List (ℕ × List ℕ)) → is_empty m ≡ true → lookup d m ≡ none
unfolding lookup
lookup-is_empty d [] e = refl
lookup-is_empty d (x ∷ m) e = absurd (ground arith)

contains-is_empty : (d : ℕ) (s : List ℕ) → is_empty s ≡ true → contains d s ≡ false
unfolding contains
contains-is_empty d [] e = refl
contains-is_empty d (x ∷ s) e = absurd (ground arith)

-- The working directory that is known of a process, empty where none is.
abbrev pub known_cwd : PathFilter → ℕ → List ℕ
known_cwd f p = elim (f.state_by_pid p) [ none ↦ [] | some state ↦ state.cwd ]

-- `g` knows of `child` what `f` knows of `parent`, and of all else what `f` knows.
pub record Inherits (g f : PathFilter) (child parent : ℕ) : Type 0 where
  pub fds : SameFds g f child parent
  pub cwd : known_cwd g child ≡ known_cwd f parent
  pub others : (p : ℕ) → p ≢ child → g.state_by_pid p ≡ f.state_by_pid p
  pub paths : g.paths ≡ f.paths
  pub user_trace_ids : g.user_trace_ids ≡ f.user_trace_ids
  pub user_trace_all : g.user_trace_all ≡ f.user_trace_all
  pub path_filter_mode : g.path_filter_mode ≡ f.path_filter_mode

nil_of : (path : List ℕ) → is_empty path ≡ true → path ≡ []
nil_of [] h = refl
nil_of (b ∷ path) h = cc

-- When a process creates another, the filter knows of the child what it knew of the parent: the
-- descriptors with their paths, which of them are tracked, and the working directory. What it knows
-- of every other process, the parent included, and the options are as before.
pub observe_process_clone-Inherits :
    (f : PathFilter) (ev : Event) (child : ℕ)
    → process_clone_child_pid ev ≡ some child
    → Inherits (observe_process_clone f ev) f child ev.pid
unfolding observe_process_clone observe_fork_child clone_process_path_state put_state delete_state
    write_through fd_path fd_tracked
observe_process_clone-Inherits f ev child created = elim (Option-cases (f.state_by_pid ev.pid)) [
  | inl absent ↦ record {
    fds = record { path = λ d. ground arith; tracked = λ d. ground arith };
    cwd = ground arith;
    others = λ p other. ground arith;
    paths = ground arith;
    user_trace_ids = ground arith;
    user_trace_all = ground arith;
    path_filter_mode = ground arith;
  }
  | inr (src, found) ↦ record {
    fds = record {
      path = λ d. ground (arith, lookup-is_empty d src.fd_paths);
      tracked = λ d. ground (arith, contains-is_empty d src.tracked_fds);
    };
    cwd = ground (arith, nil_of src.cwd);
    others = λ p other. ground arith;
    paths = ground arith;
    user_trace_ids = ground arith;
    user_trace_all = ground arith;
    path_filter_mode = ground arith;
  }
]
