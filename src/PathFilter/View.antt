-- ===== src/PathFilter/View.antt =====
-- What the filter's operations do to what is known of each process: of process `q`'s working
-- directory, of the path of its descriptor `d`, and of whether `d` is tracked.
use litrace.Prelude.{
  ℕ, ◌≡◌, refl, arith, List, [], ◌∷◌, true, false, none, some, ◌==◌, ◌&&◌, ◌||◌, not, if◌then◌else◌,
  ◌∙◌, if-intro, Option-intro,
}
use litrace.Maps.{write_through}
use litrace.PathFilter.{
  ProcessPathState, PathFilter, empty_state, is_empty, state_for_pid, put_state, delete_state,
  maybe_drop_pid_state, track_fd, untrack_fd, fd_tracked, set_fd_path, unset_fd_path, fd_path,
  set_cwd,
}
use litrace.PathFilter.Dict.{
  contains, add, remove, lookup, insert, erase, contains-add, contains-remove, lookup-insert,
  lookup-erase,
}

-- The working directory that is known, or the empty path.
abbrev pub cwd_of : PathFilter → ℕ → List ℕ
unfolding state_for_pid
cwd_of f q = (state_for_pid f q).cwd

pub fd_path-state :
    (f : PathFilter) (q d : ℕ) → fd_path f q d ≡ lookup d (state_for_pid f q).fd_paths
unfolding fd_path state_for_pid lookup
fd_path-state f q d = ground arith

pub fd_tracked-state :
    (f : PathFilter) (q d : ℕ) → fd_tracked f q d ≡ contains d (state_for_pid f q).tracked_fds
unfolding fd_tracked state_for_pid contains
fd_tracked-state f q d = ground arith

pub state-put_state :
    (pid q : ℕ) (s : ProcessPathState) (f : PathFilter)
    → state_for_pid (put_state pid s f) q ≡ (if pid == q then s else state_for_pid f q)
unfolding put_state state_for_pid write_through
state-put_state pid q s f = ground arith

pub state-delete_state :
    (pid q : ℕ) (f : PathFilter)
    → state_for_pid (delete_state pid f) q ≡ (if pid == q then empty_state else state_for_pid f q)
unfolding delete_state state_for_pid
state-delete_state pid q f = ground arith

is_empty-eq {ℓ} : {A : Type ℓ} (xs : List A) → is_empty xs ≡ true → xs ≡ []
is_empty-eq [] e = refl
is_empty-eq (x ∷ xs) e = cc

pub state-maybe_drop_pid_state :
    (f : PathFilter) (pid q : ℕ) → state_for_pid (maybe_drop_pid_state f pid) q ≡ state_for_pid f q
unfolding maybe_drop_pid_state state_for_pid
state-maybe_drop_pid_state f pid q =
    Option-intro (λ g. state_for_pid g q ≡ state_for_pid f q) (f.state_by_pid pid) (λ absent. refl)
      λ s found.
        if-intro (λ g. state_for_pid g q ≡ state_for_pid f q)
          (not (is_empty s.cwd) || not (is_empty s.tracked_fds) || not (is_empty s.fd_paths))
          (λ keep. refl)
          λ drop. ground (
            arith,
            state-delete_state pid q f,
            is_empty-eq s.cwd,
            is_empty-eq s.tracked_fds,
            is_empty-eq s.fd_paths,
          )

pub state-track_fd :
    (f : PathFilter) (pid fd q : ℕ)
    → state_for_pid (track_fd f pid fd) q ≡ (
        if pid == q
        then record (state_for_pid f pid) { tracked_fds = add fd (state_for_pid f pid).tracked_fds }
        else state_for_pid f q)
unfolding track_fd
state-track_fd f pid fd q = state-put_state pid q _ f

pub state-untrack_fd :
    (f : PathFilter) (pid fd q : ℕ)
    → state_for_pid (untrack_fd f pid fd) q ≡ (
        if pid == q
        then record (state_for_pid f pid) {
          tracked_fds = remove fd (state_for_pid f pid).tracked_fds;
        }
        else state_for_pid f q)
unfolding untrack_fd state_for_pid remove
state-untrack_fd f pid fd q =
    Option-intro (λ g. state_for_pid g q ≡ untracked) (f.state_by_pid pid) (λ absent. ground arith)
      λ s found.
        if-intro (λ g. state_for_pid g q ≡ untracked) (is_empty s.tracked_fds)
          (λ none_. ground (arith, is_empty-eq s.tracked_fds))
          λ some_. state-maybe_drop_pid_state _ pid q ∙ state-put_state pid q _ f ∙ ground arith
  where
    untracked : ProcessPathState
    untracked =
        if pid == q
        then record (state_for_pid f pid) {
          tracked_fds = remove fd (state_for_pid f pid).tracked_fds;
        }
        else state_for_pid f q

pub state-set_fd_path :
    (f : PathFilter) (pid fd : ℕ) (path : List ℕ) (q : ℕ)
    → state_for_pid (set_fd_path f pid fd path) q ≡ (
        if pid == q
        then record (state_for_pid f pid) {
          fd_paths = insert fd path (state_for_pid f pid).fd_paths;
        }
        else state_for_pid f q)
unfolding set_fd_path
state-set_fd_path f pid fd path q = state-put_state pid q _ f

pub state-set_cwd :
    (f : PathFilter) (pid : ℕ) (path : List ℕ) (q : ℕ)
    → state_for_pid (set_cwd f pid path) q
      ≡ (if pid == q then record (state_for_pid f pid) { cwd = path } else state_for_pid f q)
unfolding set_cwd
state-set_cwd f pid path q = state-put_state pid q _ f

pub state-unset_fd_path :
    (f : PathFilter) (pid fd q : ℕ)
    → state_for_pid (unset_fd_path f pid fd) q ≡ (
        if pid == q
        then record (state_for_pid f pid) { fd_paths = erase fd (state_for_pid f pid).fd_paths }
        else state_for_pid f q)
unfolding unset_fd_path state_for_pid erase
state-unset_fd_path f pid fd q =
    Option-intro (λ g. state_for_pid g q ≡ unset) (f.state_by_pid pid) (λ absent. ground arith)
      λ s found.
        if-intro (λ g. state_for_pid g q ≡ unset) (is_empty s.fd_paths)
          (λ none_. ground (arith, is_empty-eq s.fd_paths))
          λ some_. state-maybe_drop_pid_state _ pid q ∙ state-put_state pid q _ f ∙ ground arith
  where
    unset : ProcessPathState
    unset =
        if pid == q
        then record (state_for_pid f pid) { fd_paths = erase fd (state_for_pid f pid).fd_paths }
        else state_for_pid f q

module _ (f : PathFilter) (pid fd q d : ℕ) where
  pub fd_path-track_fd : fd_path (track_fd f pid fd) q d ≡ fd_path f q d
  fd_path-track_fd =
      ground (
        arith,
        fd_path-state (track_fd f pid fd) q d,
        fd_path-state f q d,
        state-track_fd f pid fd q,
      )

  pub fd_path-untrack_fd : fd_path (untrack_fd f pid fd) q d ≡ fd_path f q d
  fd_path-untrack_fd = ground (
    arith,
    fd_path-state (untrack_fd f pid fd) q d,
    fd_path-state f q d,
    state-untrack_fd f pid fd q,
  )

  pub fd_path-set_fd_path :
      (path : List ℕ)
      → fd_path (set_fd_path f pid fd path) q d
        ≡ (if (pid == q) && (fd == d) then some path else fd_path f q d)
  fd_path-set_fd_path path = ground (
    arith,
    fd_path-state (set_fd_path f pid fd path) q d,
    fd_path-state f q d,
    state-set_fd_path f pid fd path q,
    lookup-insert d fd path (state_for_pid f pid).fd_paths,
  )

  pub fd_path-unset_fd_path :
      fd_path (unset_fd_path f pid fd) q d
      ≡ (if (pid == q) && (fd == d) then none else fd_path f q d)
  fd_path-unset_fd_path = ground (
    arith,
    fd_path-state (unset_fd_path f pid fd) q d,
    fd_path-state f q d,
    state-unset_fd_path f pid fd q,
    lookup-erase d fd (state_for_pid f pid).fd_paths,
  )

  pub fd_tracked-track_fd :
      fd_tracked (track_fd f pid fd) q d
      ≡ (if (pid == q) && (fd == d) then true else fd_tracked f q d)
  fd_tracked-track_fd = ground (
    arith,
    fd_tracked-state (track_fd f pid fd) q d,
    fd_tracked-state f q d,
    state-track_fd f pid fd q,
    contains-add d fd (state_for_pid f pid).tracked_fds,
  )

  pub fd_tracked-untrack_fd :
      fd_tracked (untrack_fd f pid fd) q d
      ≡ (if (pid == q) && (fd == d) then false else fd_tracked f q d)
  fd_tracked-untrack_fd = ground (
    arith,
    fd_tracked-state (untrack_fd f pid fd) q d,
    fd_tracked-state f q d,
    state-untrack_fd f pid fd q,
    contains-remove d fd (state_for_pid f pid).tracked_fds,
  )

  pub fd_tracked-set_fd_path :
      (path : List ℕ) → fd_tracked (set_fd_path f pid fd path) q d ≡ fd_tracked f q d
  fd_tracked-set_fd_path path = ground (
    arith,
    fd_tracked-state (set_fd_path f pid fd path) q d,
    fd_tracked-state f q d,
    state-set_fd_path f pid fd path q,
  )

  pub fd_tracked-unset_fd_path : fd_tracked (unset_fd_path f pid fd) q d ≡ fd_tracked f q d
  fd_tracked-unset_fd_path = ground (
    arith,
    fd_tracked-state (unset_fd_path f pid fd) q d,
    fd_tracked-state f q d,
    state-unset_fd_path f pid fd q,
  )

module _ (f : PathFilter) (pid : ℕ) (path : List ℕ) (q d : ℕ) where
  pub fd_path-set_cwd : fd_path (set_cwd f pid path) q d ≡ fd_path f q d
  fd_path-set_cwd = ground (
    arith,
    fd_path-state (set_cwd f pid path) q d,
    fd_path-state f q d,
    state-set_cwd f pid path q,
  )

  pub fd_tracked-set_cwd : fd_tracked (set_cwd f pid path) q d ≡ fd_tracked f q d
  fd_tracked-set_cwd = ground (
    arith,
    fd_tracked-state (set_cwd f pid path) q d,
    fd_tracked-state f q d,
    state-set_cwd f pid path q,
  )

module _ (f : PathFilter) (pid fd : ℕ) where
  pub track_fd-paths : (track_fd f pid fd).paths ≡ f.paths
  unfolding track_fd put_state
  track_fd-paths = refl

  pub untrack_fd-paths : (untrack_fd f pid fd).paths ≡ f.paths
  unfolding untrack_fd put_state maybe_drop_pid_state delete_state
  untrack_fd-paths = ground arith

  pub unset_fd_path-paths : (unset_fd_path f pid fd).paths ≡ f.paths
  unfolding unset_fd_path put_state maybe_drop_pid_state delete_state
  unset_fd_path-paths = ground arith

pub maybe_drop_pid_state-paths :
    (f : PathFilter) (pid : ℕ) → (maybe_drop_pid_state f pid).paths ≡ f.paths
unfolding maybe_drop_pid_state delete_state
maybe_drop_pid_state-paths f pid = ground arith
