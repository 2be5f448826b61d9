-- ===== src/Tests/Filter.antt =====
-- Examples of the theorems on the path filter: the process opens the traced path "/a" as descriptor 3.
use litrace.Prelude.{
  ℕ, ◌≡◌, ◌↔◌, refl, sym, ap, arith, inl, inr, List, [], ◌∷◌, true, false, Option, none, some, ◌==◌,
  if◌then◌else◌, replicate,
}
use litrace.Types.{Event, zero_desc}
use litrace.Maps.{Map}
use litrace.Clone.Spec.{ForkFamily}
use litrace.Tracer.State.{Env}
use litrace.Tracer.Exit.Event.{exit_event}
use litrace.Tracer.Invariant.{Chosen}
use litrace.Reader.{process_clone_child_pid, event_creates_process}
use litrace.Reader.Paths.{path_args}
use litrace.Reader.Paths.Found.{IsPath}
use litrace.FilePath.{
  clean, is_abs, render, clean_loop, elements, take_element, up, join_reversed, bytes_eq,
}
use litrace.Handle.{HandleConfig, IsPut, put_all, put_targets, apply_config, load}
use litrace.PathFilter.{fd_path, fd_tracked}
use litrace.PathFilter.Dict.{has_path, contains, add}
use litrace.PathFilter.Observe.{observe, observe_process_clone}
use litrace.PathFilter.Output.{user_allows, should_print, should_output}
use litrace.PathFilter.Synced.{Synced}
use litrace.PathFilter.Synced.Events.{should_output-Synced}
use litrace.PathFilter.Decision.{Concerns}
use litrace.PathFilter.Config.{Config, new_path_filter, handle_trace_syscall_ids, add_all}
use litrace.PathFilter.Config.Run.{after, after-Concerns, new_path_filter-Synced}
use litrace.PathFilter.Config.Complete.{should_output-unreported}
use litrace.PathFilter.Fork.{Inherits, observe_process_clone-Inherits}
use litrace.PathFilter.Traced.{exit_event-should_print, exit_event-observe}
use litrace.Tests.{call, call-IsHelper, headers, env, targets, opened, returned}

-- The path that the openat of the examples names, and options that trace it.
abbrev traced : List ℕ
traced = 47 ∷ 97 ∷ []

abbrev options : Config
options = record { trace_paths = traced ∷ []; trace_syscall_ids = 257 ∷ []; follow_forks = true }

-- /proc says "/" of every process.
abbrev at_root : ℕ → Option (List ℕ)
at_root pid = some (47 ∷ [])

abbrev open_event : Event
open_event = exit_event headers (call true) returned opened none

abbrev fork_event : Event
fork_event = record {
  ts = 90;
  dur = 10;
  syscall_id = 57;
  ret = 8;
  args = replicate 6 0;
  var_desc = replicate 6 zero_desc;
  payload = replicate 512 0;
  pid = 7;
  tid = 7;
  seq = 1;
  payload_len = 0;
  arg_count = 0;
  var_count = 0;
  arg_types = replicate 6 0;
  event_flags = 1;
}

abbrev getpid_event : Event
getpid_event = record fork_event { syscall_id = 39; ret = 7; event_flags = 0 }

abbrev steps : List ((ℕ → Option (List ℕ)) × Event)
steps = (at_root, open_event) ∷ (at_root, fork_event) ∷ []

opened-IsPath : IsPath (call true) opened 1 traced
opened-IsPath = record { given = omega arith; read = refl; short = omega arith }

should_output-Synced_example :
    Synced (traced ∷ []) (should_output at_root (new_path_filter options) open_event).1
should_output-Synced_example =
    should_output-Synced at_root (traced ∷ []) (new_path_filter options) open_event
      (new_path_filter-Synced options)

after-Concerns_example :
    ((should_print at_root (after (new_path_filter options) steps) open_event).0 ≡ true) ↔ (
      (user_allows (after (new_path_filter options) steps) open_event.syscall_id ≡ true)
      × Concerns at_root options.trace_paths (after (new_path_filter options) steps) open_event)
after-Concerns_example = after-Concerns options steps at_root open_event

exit_event-should_print_example :
    (should_print at_root (new_path_filter options) open_event).0 ≡ true
unfolding path_args new_path_filter is_abs clean user_allows contains has_path render clean_loop
    elements take_element join_reversed bytes_eq
exit_event-should_print_example =
    exit_event-should_print at_root headers (call true) returned opened none (call-IsHelper true)
      (new_path_filter options) 1 traced (inl refl) opened-IsPath refl refl refl
      (new_path_filter-Synced options)

exit_event-observe_example :
    (fd_path (observe at_root (new_path_filter options) open_event) 7 3 ≡ some traced)
    × (fd_tracked (observe at_root (new_path_filter options) open_event) 7 3 ≡ true)
unfolding is_abs clean render clean_loop elements take_element join_reversed bytes_eq
    new_path_filter has_path
exit_event-observe_example =
    exit_event-observe at_root headers (call true) returned opened none (call-IsHelper true)
      (new_path_filter options) traced refl opened-IsPath refl refl (new_path_filter-Synced options)
      7 3

child : process_clone_child_pid fork_event ≡ some 8
unfolding process_clone_child_pid event_creates_process
child = refl

observe_process_clone-Inherits_example :
    Inherits
      (observe_process_clone (new_path_filter options) fork_event)
      (new_path_filter options)
      8
      7
observe_process_clone-Inherits_example =
    observe_process_clone-Inherits (new_path_filter options) fork_event 8 child

abbrev pub plain_put : ℕ → ℕ → Map ℕ → Option (Map ℕ)
plain_put k v m = some (λ j. if k == j then some v else m j)

pub plain_put-IsPut : IsPut plain_put
plain_put-IsPut = record {
  lookup_put = λ k v j m n done.
      ap (λ (o : Option (Map ℕ)). (elim o as (λ x. Map ℕ) [ none ↦ m | some x ↦ x ]) j) (sym done);
}

abbrev pub or_unloaded : Option (Env × Map ℕ) → Env × Map ℕ
or_unloaded none = (env, targets)
or_unloaded (some r) = r

abbrev handle_config : HandleConfig
handle_config = record { follow_forks = true; trace_syscall_ids = handle_trace_syscall_ids options }

abbrev loaded : Env × Map ℕ
loaded = or_unloaded (apply_config plain_put env (7 ∷ []) handle_config)

loaded_right : apply_config plain_put env (7 ∷ []) handle_config ≡ some loaded
unfolding apply_config put_all put_targets handle_trace_syscall_ids add_all add
loaded_right = refl

getpid_kept_back : ¬ Chosen loaded.0 39
unfolding apply_config put_all put_targets handle_trace_syscall_ids add_all add load
getpid_kept_back chosen = elim chosen [
  | inl off ↦ absurd (omega arith)
  | inr (v, present) ↦ absurd (cc)
]

no_child : event_creates_process getpid_event ≡ true → ForkFamily 39
unfolding event_creates_process
no_child h = absurd (cc)

should_output-unreported_example :
    should_output at_root
      (record (new_path_filter options) { state_by_pid = λ _. none })
      getpid_event
    ≡ (false, record (new_path_filter options) { state_by_pid = λ _. none })
should_output-unreported_example =
    should_output-unreported plain_put at_root env loaded.0 (7 ∷ []) loaded.1 options (λ _. none)
      getpid_event plain_put-IsPut loaded_right refl no_child getpid_kept_back

-- Clean takes "/a/..//b/" to "/b", and "a/../../b/c" to "../b/c".
clean_rooted : clean (47 ∷ 97 ∷ 47 ∷ 46 ∷ 46 ∷ 47 ∷ 47 ∷ 98 ∷ 47 ∷ []) ≡ 47 ∷ 98 ∷ []
unfolding bytes_eq is_abs elements up take_element clean_loop join_reversed render clean
clean_rooted = refl

clean_relative :
    clean (97 ∷ 47 ∷ 46 ∷ 46 ∷ 47 ∷ 46 ∷ 46 ∷ 47 ∷ 98 ∷ 47 ∷ 99 ∷ [])
    ≡ 46 ∷ 46 ∷ 47 ∷ 98 ∷ 47 ∷ 99 ∷ []
unfolding bytes_eq is_abs elements up take_element clean_loop join_reversed render clean
clean_relative = refl
