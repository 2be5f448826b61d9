-- ===== src/PathFilter.antt =====
-- internal/path_filter.go: what the reader knows of each process's working directory and file
-- descriptors, and which events it prints for it. This file has the state and the operations on
-- it; `Resolve` finds the path that an event names, `Observe` follows the calls, `Output` decides.
-- A Go map is an association list, a set a list, and a nil map the empty one: no operation leaves a
-- map that is empty and not nil. A `*processPathState` is held by one process only, since a fork
-- copies it, so an assignment through it is one to the map `state_by_pid`.
pub mod Dict
pub mod Resolve
pub mod Observe
pub mod Output
pub mod View
pub mod Synced
pub mod Alike
pub mod Decision
pub mod Config
pub mod Fork
pub mod Traced
use litrace.Prelude.{
  ℕ, List, [], ◌∷◌, Bool, true, false, Option, none, some, ◌==◌, ◌&&◌, ◌||◌, not, if◌then◌else◌,
}
use litrace.Maps.{Map, write_through}
use litrace.FilePath.{bytes_eq}
use Dict.{contains, add, remove, lookup, insert, erase, has_path}

-- processPathState; `cwd` is empty where it is not known.
pub record ProcessPathState : Type 0 where
  pub cwd : List ℕ
  pub tracked_fds : List ℕ
  pub fd_paths : List (ℕ × List ℕ)

-- pathFilter
pub record PathFilter : Type 0 where
  pub paths : List (List ℕ)
  pub state_by_pid : Map ProcessPathState
  pub user_trace_ids : List ℕ
  pub user_trace_all : Bool
  pub path_filter_mode : Bool

abbrev pub empty_state : ProcessPathState
empty_state = record { cwd = []; tracked_fds = []; fd_paths = [] }

abbrev pub is_empty {ℓ} : {A : Type ℓ} → List A → Bool
is_empty [] = true
is_empty (_ ∷ _) = false

-- The state that stateForPID returns; it also puts it into the map, where each caller then writes.
unfoldable pub state_for_pid : PathFilter → ℕ → ProcessPathState
state_for_pid f pid = elim (f.state_by_pid pid) [ none ↦ empty_state | some state ↦ state ]

-- `f.stateByPID[pid] = state`
unfoldable pub put_state : ℕ → ProcessPathState → PathFilter → PathFilter
unfolding write_through
put_state pid state f = record f { state_by_pid = write_through pid state f.state_by_pid }

-- `delete(f.stateByPID, pid)`
unfoldable pub delete_state : ℕ → PathFilter → PathFilter
delete_state pid f = record f { state_by_pid = λ p. if pid == p then none else f.state_by_pid p }

unfoldable pub maybe_drop_pid_state : PathFilter → ℕ → PathFilter
maybe_drop_pid_state f pid = elim (f.state_by_pid pid) [
  | none ↦ f
  | some state ↦
      let has_cwd = not (is_empty state.cwd) in
      let has_tracked_fds = not (is_empty state.tracked_fds) in
      let has_fd_paths = not (is_empty state.fd_paths) in
      if has_cwd || has_tracked_fds || has_fd_paths then f else delete_state pid f
]

unfoldable pub track_fd : PathFilter → ℕ → ℕ → PathFilter
track_fd f pid fd =
    let state = state_for_pid f pid in
    put_state pid (record state { tracked_fds = add fd state.tracked_fds }) f

unfoldable pub untrack_fd : PathFilter → ℕ → ℕ → PathFilter
untrack_fd f pid fd = elim (f.state_by_pid pid) [
  | none ↦ f
  | some state ↦
      let f' = put_state pid (record state { tracked_fds = remove fd state.tracked_fds }) f in
      if is_empty state.tracked_fds then f else maybe_drop_pid_state f' pid
]

unfoldable pub fd_tracked : PathFilter → ℕ → ℕ → Bool
fd_tracked f pid fd = elim (f.state_by_pid pid) [
  | none ↦ false
  | some state ↦ contains fd state.tracked_fds
]

unfoldable pub set_fd_path : PathFilter → ℕ → ℕ → List ℕ → PathFilter
set_fd_path f pid fd path =
    let state = state_for_pid f pid in
    put_state pid (record state { fd_paths = insert fd path state.fd_paths }) f

unfoldable pub sync_tracked_fd : PathFilter → ℕ → ℕ → List ℕ → PathFilter
sync_tracked_fd f pid fd path =
    if has_path path f.paths then track_fd f pid fd else untrack_fd f pid fd

unfoldable pub unset_fd_path : PathFilter → ℕ → ℕ → PathFilter
unset_fd_path f pid fd = elim (f.state_by_pid pid) [
  | none ↦ f
  | some state ↦
      let f' = put_state pid (record state { fd_paths = erase fd state.fd_paths }) f in
      if is_empty state.fd_paths then f else maybe_drop_pid_state f' pid
]

unfoldable pub fd_path : PathFilter → ℕ → ℕ → Option (List ℕ)
fd_path f pid fd = elim (f.state_by_pid pid) [ none ↦ none | some state ↦ lookup fd state.fd_paths ]

-- `f.stateForPID(pid).cwd = cwd`
unfoldable pub set_cwd : PathFilter → ℕ → List ℕ → PathFilter
set_cwd f pid cwd = put_state pid (record (state_for_pid f pid) { cwd = cwd }) f
