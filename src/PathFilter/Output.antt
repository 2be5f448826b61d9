-- ===== src/PathFilter/Output.antt =====
-- shouldOutput: which events are printed.
use litrace.Prelude.{
  ℕ, zero, suc, ◌+◌, List, [], ◌∷◌, Bool, true, false, Option, none, some, ◌==◌, if◌then◌else◌,
  get_or, length, min,
}
use litrace.Types.{Event, arg_fd}
use litrace.Reader.Paths.{path_args}
use litrace.PathFilter.{PathFilter, fd_tracked}
use litrace.PathFilter.Dict.{contains, has_path}
use litrace.PathFilter.Resolve.{resolve_path_at}
use litrace.PathFilter.Observe.{observe, fd_arg}

unfoldable pub user_allows : PathFilter → ℕ → Bool
user_allows f id = if f.user_trace_all then true else contains id f.user_trace_ids

-- The loop of hasTrackedFDArg, `rounds` rounds from index `i` on.
unfoldable pub tracked_loop : PathFilter → Event → ℕ → ℕ → Bool
tracked_loop f ev zero i = false
tracked_loop f ev (suc rounds) i =
    let rest = tracked_loop f ev rounds (i + 1) in
    if get_or ev.arg_types i 0 == arg_fd
    then (if fd_tracked f ev.pid (fd_arg ev i) then true else rest)
    else rest

unfoldable pub has_tracked_fd_arg : PathFilter → Event → Bool
has_tracked_fd_arg f ev = tracked_loop f ev (min ev.arg_count (length ev.arg_types)) 0

module _ (proc_cwd : ℕ → Option (List ℕ)) where
  -- The end of matchesPathAt.
  unfoldable pub matched : Option (List ℕ) × PathFilter → Bool × PathFilter
  matched (none, f) = (false, f)
  matched (some path, f) = (has_path path f.paths, f)

  unfoldable pub matches_path_at : PathFilter → Event → ℕ → Bool × PathFilter
  matches_path_at f ev arg_index = matched (resolve_path_at proc_cwd f ev arg_index)

  -- matchesPath on the arguments that its switch names, in order, up to the first match.
  unfoldable pub matches_any : PathFilter → Event → List ℕ → Bool × PathFilter
  matches_any f ev [] = (false, f)
  matches_any f ev (i ∷ is) =
      let (b, g) = matches_path_at f ev i in
      elim b [ true ↦ (true, g) | false ↦ matches_any g ev is ]

  unfoldable pub matches_path : PathFilter → Event → Bool × PathFilter
  matches_path f ev = matches_any f ev (path_args ev.syscall_id)

  -- The end of shouldPrint.
  unfoldable pub or_tracked : Event → Bool × PathFilter → Bool × PathFilter
  or_tracked ev (b, f) = if b then (true, f) else (has_tracked_fd_arg f ev, f)

  unfoldable pub should_print : PathFilter → Event → Bool × PathFilter
  should_print f ev =
      if user_allows f ev.syscall_id then or_tracked ev (matches_path f ev) else (false, f)

  unfoldable pub observed : Event → Bool × PathFilter → Bool × PathFilter
  observed ev (b, f) = (b, observe proc_cwd f ev)

  unfoldable pub should_output : PathFilter → Event → Bool × PathFilter
  should_output f ev = if f.path_filter_mode then observed ev (should_print f ev) else (true, f)
