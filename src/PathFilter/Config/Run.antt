-- ===== src/PathFilter/Config/Run.antt =====
-- The path filter over a run: the events in the order of the ring buffer, each with what /proc
-- answers at its time.
use litrace.Prelude.{
  ℕ, ◌≡◌, refl, ◌↔◌, List, [], ◌∷◌, true, Option, some, sym, ◌∙◌, ap, Option-cases, inl, inr, arith,
}
use mathlib.Core.Path.{subst}
use litrace.PathFilter.Dict.{has_path}
use litrace.Types.{Event}
use litrace.PathFilter.{PathFilter, fd_path, fd_tracked}
use litrace.PathFilter.Output.{user_allows, should_print, should_output}
use litrace.PathFilter.Synced.{Synced, traced_path}
use litrace.PathFilter.Synced.Events.{should_output-Synced}
use litrace.PathFilter.Decision.{Concerns, should_print-Concerns}
use litrace.PathFilter.Config.{Config, new_path_filter}

-- The filter after the events of a run.
unfoldable pub after : PathFilter → List ((ℕ → Option (List ℕ)) × Event) → PathFilter
after f [] = f
after f ((proc_cwd, ev) ∷ steps) = after (should_output proc_cwd f ev).1 steps

pub new_path_filter-Synced : (cfg : Config) → Synced cfg.trace_paths (new_path_filter cfg)
unfolding new_path_filter fd_tracked fd_path traced_path
new_path_filter-Synced cfg = record { same_paths = refl; tracked = λ q d. refl }

pub after-Synced :
    (paths : List (List ℕ)) (f : PathFilter) (steps : List ((ℕ → Option (List ℕ)) × Event))
    → Synced paths f
    → Synced paths (after f steps)
unfolding after
after-Synced paths f [] s = s
after-Synced paths f ((proc_cwd, ev) ∷ steps) s =
    after-Synced paths (should_output proc_cwd f ev).1 steps
      (should_output-Synced proc_cwd paths f ev s)

-- The filter that newPathFilter makes tracks, after any events and whatever /proc answered, exactly
-- the descriptors whose known path is one of the traced paths of the options.
pub after-tracked :
    (cfg : Config) (steps : List ((ℕ → Option (List ℕ)) × Event)) (pid fd : ℕ)
    → let f = after (new_path_filter cfg) steps in
      (fd_tracked f pid fd ≡ true)
      ↔ ((path : List ℕ) × (fd_path f pid fd ≡ some path) × (has_path path cfg.trace_paths ≡ true))
unfolding traced_path
after-tracked cfg steps pid fd =
    let f = after (new_path_filter cfg) steps in
    let s = after-Synced cfg.trace_paths (new_path_filter cfg) steps (new_path_filter-Synced cfg) in
    elim (Option-cases (fd_path f pid fd)) [
      | inl unknown ↦
          (λ on. absurd (ground (arith, s.tracked pid fd)), λ (path, known, hit). absurd (cc))
      | inr (path, known) ↦ (
        λ on. (path, known, ground (arith, s.tracked pid fd)),
        λ (path', known', hit). s.tracked pid fd ∙ ap (traced_path cfg.trace_paths) known' ∙ hit,
      )
    ]

-- After any events and whatever /proc answered, shouldPrint prints an event exactly if the user
-- asked for its system call, and one of the arguments that matchesPath looks at is resolved to a
-- traced path of the options or one of its descriptor arguments has a known path that is one.
pub after-Concerns :
    (cfg : Config) (steps : List ((ℕ → Option (List ℕ)) × Event)) (proc_cwd : ℕ → Option (List ℕ))
    (ev : Event)
    → let f = after (new_path_filter cfg) steps in
      ((should_print proc_cwd f ev).0 ≡ true)
      ↔ ((user_allows f ev.syscall_id ≡ true) × Concerns proc_cwd cfg.trace_paths f ev)
after-Concerns cfg steps proc_cwd ev =
    let f = after (new_path_filter cfg) steps in
    let s = after-Synced cfg.trace_paths (new_path_filter cfg) steps (new_path_filter-Synced cfg) in
    subst
      (λ paths.
        ((should_print proc_cwd f ev).0 ≡ true)
        ↔ ((user_allows f ev.syscall_id ≡ true) × Concerns proc_cwd paths f ev))
      s.same_paths
      (should_print-Concerns proc_cwd f ev (subst (λ paths. Synced paths f) (sym s.same_paths) s))
