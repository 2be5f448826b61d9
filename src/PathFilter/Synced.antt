-- ===== src/PathFilter/Synced.antt =====
-- A descriptor is tracked exactly if its path is known and is one of the traced paths.
pub mod Calls
pub mod Paths
pub mod Events
use litrace.Prelude.{
  ℕ, ◌%◌, ◌^◌, ◌≡◌, refl, sym, ◌∙◌, ap, arith, List, [], ◌∷◌, Bool, true, false, Option, none, some,
  ◌==◌, ◌&&◌, ◌||◌, not, if◌then◌else◌, leb, ltb, if-intro, Option-intro, Bool-cases, inl, inr,
  get_or, length,
}
use mathlib.Core.Path.{subst}
use litrace.Types.{Event, is_negative, u32, arg_fd}
use litrace.Reader.{process_clone_child_pid}
use litrace.FilePath.{bytes_eq}
use litrace.PathFilter.{
  ProcessPathState, PathFilter, empty_state, is_empty, state_for_pid, put_state, delete_state,
  maybe_drop_pid_state, track_fd, untrack_fd, fd_tracked, set_fd_path, sync_tracked_fd,
  unset_fd_path, fd_path, set_cwd,
}
use litrace.PathFilter.Dict.{has_path, erase, lookup-erase}
use litrace.PathFilter.Observe.{
  fd_arg, arg_tracked, learn_fd, copy_fd_path, move_fd_path, clone_process_path_state,
  observe_fork_child, observe_process_clone, observe_dup_ret, observe_dup_pair, observe_fcntl,
  observe_close, observe_fchdir, rewrite_path_prefix, rewrite_loop, rewrite_cwd, rewrite_pid_paths,
  delete_fd_path, drop_loop, drop_pid_paths,
}
use litrace.PathFilter.View.{
  fd_path-state, fd_tracked-state, state-put_state, state-maybe_drop_pid_state, fd_path-track_fd,
  fd_path-untrack_fd, fd_path-set_fd_path, fd_path-unset_fd_path, fd_tracked-track_fd,
  fd_tracked-untrack_fd, fd_tracked-set_fd_path, fd_tracked-unset_fd_path, fd_path-set_cwd,
  fd_tracked-set_cwd, track_fd-paths, untrack_fd-paths, unset_fd_path-paths,
}

-- Whether a known path is a traced one.
unfoldable pub traced_path : List (List ℕ) → Option (List ℕ) → Bool
traced_path paths none = false
traced_path paths (some path) = has_path path paths

-- The traced paths are `paths`, and exactly the descriptors of these are tracked.
pub record Synced (paths : List (List ℕ)) (f : PathFilter) : Type 0 where
  pub same_paths : f.paths ≡ paths
  pub tracked : (q d : ℕ) → fd_tracked f q d ≡ traced_path paths (fd_path f q d)

module _ (paths : List (List ℕ)) where
  pub learn_fd-Synced :
      (f : PathFilter) (pid fd : ℕ) (path : List ℕ)
      → Synced paths f
      → Synced paths (learn_fd f pid fd path)
  unfolding learn_fd sync_tracked_fd traced_path
  learn_fd-Synced f pid fd path s =
      let g = set_fd_path f pid fd path in
      let same : g.paths ≡ paths = unfold set_fd_path put_state in s.same_paths in
      if-intro (Synced paths) (has_path path g.paths)
        (λ hit. record {
          same_paths = track_fd-paths g pid fd ∙ same;
          tracked = λ q d. ground (
            arith,
            same,
            s.tracked q d,
            fd_tracked-track_fd g pid fd q d,
            fd_path-track_fd g pid fd q d,
            fd_path-set_fd_path f pid fd q d path,
            fd_tracked-set_fd_path f pid fd q d path,
          );
        })
        λ miss. record {
          same_paths = untrack_fd-paths g pid fd ∙ same;
          tracked = λ q d. ground (
            arith,
            same,
            s.tracked q d,
            fd_tracked-untrack_fd g pid fd q d,
            fd_path-untrack_fd g pid fd q d,
            fd_path-set_fd_path f pid fd q d path,
            fd_tracked-set_fd_path f pid fd q d path,
          );
        }

  pub fd_path-learn_fd :
      (f : PathFilter) (pid fd : ℕ) (path : List ℕ) (q d : ℕ)
      → fd_path (learn_fd f pid fd path) q d
        ≡ (if (pid == q) && (fd == d) then some path else fd_path f q d)
  unfolding learn_fd sync_tracked_fd
  fd_path-learn_fd f pid fd path q d =
      let g = set_fd_path f pid fd path in
      ground (
        arith,
        fd_path-track_fd g pid fd q d,
        fd_path-untrack_fd g pid fd q d,
        fd_path-set_fd_path f pid fd q d path,
      )

  pub track_fd-Synced :
      (f : PathFilter) (pid fd : ℕ)
      → Synced paths f
      → traced_path paths (fd_path f pid fd) ≡ true
      → Synced paths (track_fd f pid fd)
  track_fd-Synced f pid fd s hit = record {
    same_paths = track_fd-paths f pid fd ∙ s.same_paths;
    tracked = λ q d.
        ground
          (arith, s.tracked q d, fd_tracked-track_fd f pid fd q d, fd_path-track_fd f pid fd q d);
  }

  pub untrack_fd-Synced :
      (f : PathFilter) (pid fd : ℕ)
      → Synced paths f
      → traced_path paths (fd_path f pid fd) ≡ false
      → Synced paths (untrack_fd f pid fd)
  untrack_fd-Synced f pid fd s miss = record {
    same_paths = untrack_fd-paths f pid fd ∙ s.same_paths;
    tracked = λ q d.
        ground (
          arith,
          s.tracked q d,
          fd_tracked-untrack_fd f pid fd q d,
          fd_path-untrack_fd f pid fd q d,
        );
  }

  -- Where nothing is known of a descriptor any more, it is not tracked either, in either order.
  pub unset_untrack-Synced :
      (f : PathFilter) (pid fd : ℕ)
      → Synced paths f
      → Synced paths (unset_fd_path (untrack_fd f pid fd) pid fd)
  unfolding traced_path
  unset_untrack-Synced f pid fd s =
      let g = untrack_fd f pid fd in
      record {
        same_paths = unset_fd_path-paths g pid fd ∙ untrack_fd-paths f pid fd ∙ s.same_paths;
        tracked = λ q d. ground (
          arith,
          s.tracked q d,
          fd_tracked-untrack_fd f pid fd q d,
          fd_path-untrack_fd f pid fd q d,
          fd_tracked-unset_fd_path g pid fd q d,
          fd_path-unset_fd_path g pid fd q d,
        );
      }

  pub untrack_unset-Synced :
      (f : PathFilter) (pid fd : ℕ)
      → Synced paths f
      → Synced paths (untrack_fd (unset_fd_path f pid fd) pid fd)
  unfolding traced_path
  untrack_unset-Synced f pid fd s =
      let g = unset_fd_path f pid fd in
      record {
        same_paths = untrack_fd-paths g pid fd ∙ unset_fd_path-paths f pid fd ∙ s.same_paths;
        tracked = λ q d. ground (
          arith,
          s.tracked q d,
          fd_tracked-untrack_fd g pid fd q d,
          fd_path-untrack_fd g pid fd q d,
          fd_tracked-unset_fd_path f pid fd q d,
          fd_path-unset_fd_path f pid fd q d,
        );
      }

  pub set_cwd-Synced :
      (f : PathFilter) (pid : ℕ) (cwd : List ℕ) → Synced paths f → Synced paths (set_cwd f pid cwd)
  set_cwd-Synced f pid cwd s = record {
    same_paths = unfold set_cwd put_state in s.same_paths;
    tracked = λ q d.
        ground
          (arith, s.tracked q d, fd_path-set_cwd f pid cwd q d, fd_tracked-set_cwd f pid cwd q d);
  }

  pub copy_fd_path-Synced :
      (f : PathFilter) (pid old new : ℕ)
      → Synced paths f
      → Synced paths (copy_fd_path f pid old new)
  unfolding copy_fd_path
  copy_fd_path-Synced f pid old new s =
      Option-intro (Synced paths) (fd_path f pid old) (λ _. s)
        λ path _. learn_fd-Synced f pid new path s

  -- After a copy both descriptors are traced or neither is, if the old one is.
  pub copy_fd_path-traced :
      (f : PathFilter) (pid old new : ℕ)
      → traced_path paths (fd_path (copy_fd_path f pid old new) pid old) ≡ true
      → traced_path paths (fd_path (copy_fd_path f pid old new) pid new) ≡ true
  unfolding copy_fd_path traced_path
  copy_fd_path-traced f pid old new =
      Option-intro
        (λ g.
          traced_path paths (fd_path g pid old) ≡ true
          → traced_path paths (fd_path g pid new) ≡ true)
        (fd_path f pid old) (λ none_ hit. cc)
        λ path known hit.
          ground (
            arith,
            fd_path-learn_fd f pid new path pid old,
            fd_path-learn_fd f pid new path pid new,
          )

  pub move_fd_path-Synced :
      (f : PathFilter) (pid old new : ℕ)
      → Synced paths f
      → Synced paths (move_fd_path f pid old new)
  unfolding move_fd_path
  move_fd_path-Synced f pid old new s =
      Option-intro (Synced paths) (fd_path f pid old) (λ _. untrack_unset-Synced f pid new s)
        λ path _. learn_fd-Synced f pid new path s

  pub move_fd_path-traced :
      (f : PathFilter) (pid old new : ℕ)
      → traced_path paths (fd_path (move_fd_path f pid old new) pid old)
        ≡ traced_path paths (fd_path (move_fd_path f pid old new) pid new)
  unfolding move_fd_path traced_path
  move_fd_path-traced f pid old new =
      let g = unset_fd_path f pid new in
      Option-intro
        (λ h. traced_path paths (fd_path h pid old) ≡ traced_path paths (fd_path h pid new))
        (fd_path f pid old)
        (λ none_. ground (
          arith,
          fd_path-untrack_fd g pid new pid old,
          fd_path-untrack_fd g pid new pid new,
          fd_path-unset_fd_path f pid new pid old,
          fd_path-unset_fd_path f pid new pid new,
        ))
        λ path known.
          ground (
            arith,
            fd_path-learn_fd f pid new path pid old,
            fd_path-learn_fd f pid new path pid new,
          )
