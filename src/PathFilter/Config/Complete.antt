-- ===== src/PathFilter/Config/Complete.antt =====
-- The filter in the kernel keeps back no event that the path filter needs.
use litrace.Prelude.{
  ℕ, ◌≡◌, refl, sym, ◌∙◌, ap, if_true, if_false, arith, List, [], ◌∷◌, true, false, Option, none,
  some, ◌==◌, ◌||◌, if◌then◌else◌, Option-cases, Bool-cases, inl, inr,
}
use mathlib.Core.Bool.{false≢true}
use litrace.Types.{Event, u32}
use litrace.Maps.{Map}
use litrace.Clone.Spec.{ForkFamily}
use litrace.Clone.Spec.ForkFamily.{fork, vfork, clone, clone3}
use litrace.Tracer.State.{Env}
use litrace.Tracer.Invariant.{Chosen}
use litrace.Reader.{event_creates_process, process_clone_child_pid}
use litrace.Handle.{HandleConfig, IsPut, put_all, load, put_targets, apply_config}
use litrace.PathFilter.{ProcessPathState, PathFilter, is_empty}
use litrace.PathFilter.Dict.{contains, add, contains-add}
use litrace.PathFilter.Observe.{observe, observe_call, observe_process_clone}
use litrace.PathFilter.Output.{user_allows, should_print, should_output, observed}
use litrace.PathFilter.Config.{
  Config, new_path_filter, path_filter_support_syscall_ids, path_filter_fork_support_syscall_ids,
  add_all, handle_trace_syscall_ids,
}

pub contains-add_all :
    (k : ℕ) (xs s : List ℕ)
    → contains k (add_all xs s) ≡ (if contains k xs then true else contains k s)
unfolding contains add_all
contains-add_all k [] s = refl
contains-add_all k (x ∷ xs) s = ground (arith, contains-add_all k xs (add x s), contains-add k x s)

module _ (put : ℕ → ℕ → Map ℕ → Option (Map ℕ)) (law : IsPut put) where
  put_all-keeps :
      (ids : List ℕ) (m n : Map ℕ) (k v : ℕ)
      → put_all put ids m ≡ some n
      → m k ≡ some v
      → (w : ℕ) × (n k ≡ some w)
  unfolding put_all
  put_all-keeps [] m n k v done present = (v, cc)
  put_all-keeps (id ∷ ids) m n k v done present = elim (Option-cases (put (u32 id) 1 m)) [
    | inl failed ↦ absurd (ground arith)
    | inr (next, ok) ↦ elim (Bool-cases (u32 id == k)) [
      | inl here ↦
          put_all-keeps ids next n k 1 (ground arith)
            (ground (arith, law.lookup_put _ _ k m next ok))
      | inr other ↦
          put_all-keeps ids next n k v (ground arith)
            (ground (arith, law.lookup_put _ _ k m next ok))
    ]
  ]

  put_all-present :
      (ids : List ℕ) (m n : Map ℕ) (id : ℕ)
      → put_all put ids m ≡ some n
      → contains id ids ≡ true
      → (w : ℕ) × (n (u32 id) ≡ some w)
  unfolding put_all contains
  put_all-present [] m n id done inside = absurd (ground arith)
  put_all-present (i ∷ ids) m n id done inside = elim (Option-cases (put (u32 i) 1 m)) [
    | inl failed ↦ absurd (ground arith)
    | inr (next, ok) ↦ elim (Bool-cases (i == id)) [
      | inl here ↦
          put_all-keeps ids next n (u32 id) 1 (ground arith)
            (ground (arith, law.lookup_put (u32 i) 1 (u32 id) m next ok))
      | inr other ↦ put_all-present ids next n id (ground arith) (ground arith)
    ]
  ]

  pub put_targets-env :
      (tgids : List ℕ) (env loaded : Env) (targets : Map ℕ)
      → put_targets put tgids env ≡ some (loaded, targets)
      → loaded ≡ env
  unfolding put_targets
  put_targets-env tgids env loaded targets done =
      elim (Option-cases (put_all put tgids (λ _. none))) [
        | inl failed ↦ absurd (ground arith)
        | inr (m, ok) ↦ ground arith
      ]

  -- The filter lets through what it was given, and everything if it was given nothing.
  pub apply_config-Chosen :
      (env loaded : Env) (tgids : List ℕ) (targets : Map ℕ) (cfg : HandleConfig) (id : ℕ)
      → apply_config put env tgids cfg ≡ some (loaded, targets)
      → (is_empty cfg.trace_syscall_ids || contains id cfg.trace_syscall_ids) ≡ true
      → Chosen loaded id
  unfolding apply_config load
  apply_config-Chosen env loaded tgids targets cfg id done asked =
      elim (Bool-cases (is_empty cfg.trace_syscall_ids)) [
        | inl all_ ↦
            let same =
              put_targets-env tgids (load env cfg (λ _. none)) loaded targets (ground arith) in
            inl (ap (λ (e : Env). e.trace_filter_enabled) same ∙ ground arith)
        | inr some_ ↦ elim (Option-cases (put_all put cfg.trace_syscall_ids (λ _. none))) [
          | inl failed ↦ absurd (ground arith)
          | inr (filter, ok) ↦
              let same =
                put_targets-env tgids (load env cfg filter) loaded targets (ground arith) in
              let (w, present) =
                put_all-present cfg.trace_syscall_ids (λ _. none) filter id ok (ground arith) in
              inr (w, ap (λ (e : Env). e.trace_syscall_filter (u32 id)) same ∙ present)
        ]
      ]

observe_call-unsupported :
    (proc_cwd : ℕ → Option (List ℕ)) (f : PathFilter) (ev : Event)
    → contains ev.syscall_id path_filter_support_syscall_ids ≡ false
    → observe_call proc_cwd f ev ≡ f
unfolding observe_call contains
observe_call-unsupported proc_cwd f ev other = ground arith

fork_ids-ForkFamily :
    (id : ℕ) → ForkFamily id → contains id path_filter_fork_support_syscall_ids ≡ true
unfolding contains
fork_ids-ForkFamily id family = elim family [
  | fork e ↦ ground arith
  | vfork e ↦ ground arith
  | clone e ↦ ground arith
  | clone3 e ↦ ground arith
]

-- What a system call that is not among the ids of the loaded filter is not.
record Unneeded (cfg : Config) (id : ℕ) : Type 0 where
  pub some_asked : is_empty cfg.trace_syscall_ids ≡ false
  pub not_asked : contains id cfg.trace_syscall_ids ≡ false
  pub not_observed : contains id path_filter_support_syscall_ids ≡ false
  pub not_fork : cfg.follow_forks ≡ true → contains id path_filter_fork_support_syscall_ids ≡ false

handle_trace_syscall_ids-Unneeded :
    (cfg : Config) (id : ℕ)
    → is_empty cfg.trace_paths ≡ false
    → (is_empty (handle_trace_syscall_ids cfg) || contains id (handle_trace_syscall_ids cfg))
      ≡ false
    → Unneeded cfg id
unfolding handle_trace_syscall_ids
handle_trace_syscall_ids-Unneeded cfg id paths kept =
    let asked = add_all cfg.trace_syscall_ids [] in
    let ids = add_all path_filter_support_syscall_ids asked in
    let some_asked : is_empty cfg.trace_syscall_ids ≡ false = ground arith in
    let in_asked = contains-add_all id cfg.trace_syscall_ids [] in
    let in_ids = contains-add_all id path_filter_support_syscall_ids asked in
    let in_all = contains-add_all id path_filter_fork_support_syscall_ids ids in
    record {
      some_asked = some_asked;
      not_asked = ground arith;
      not_observed = ground arith;
      not_fork = λ follows. ground arith;
    }

observe_process_clone-unforked :
    (f : PathFilter) (ev : Event)
    → ¬ (event_creates_process ev ≡ true)
    → observe_process_clone f ev ≡ f
unfolding observe_process_clone process_clone_child_pid
observe_process_clone-unforked f ev none_ = elim (Bool-cases (event_creates_process ev)) [
  | inl creates ↦ absurd (none_ creates)
  | inr other ↦ ground arith
]

-- If the programs were loaded with the ids that handleTraceSyscallIDs gives, and an event says that it
-- created a process only if it is of fork, vfork, clone or clone3: if their filter keeps its system
-- call back, then in path mode shouldOutput would not print the event. It would not change what the
-- filter knows either, whatever that is, where forks are followed; where they are not, the event
-- would do no more than pass the state of a process on to a child, as observeProcessClone does.
pub should_output-unreported :
    (put : ℕ → ℕ → Map ℕ → Option (Map ℕ)) (proc_cwd : ℕ → Option (List ℕ)) (env loaded : Env)
    (tgids : List ℕ) (targets : Map ℕ) (cfg : Config) (state : Map ProcessPathState) (ev : Event)
    → IsPut put
    → apply_config put env tgids (record {
      follow_forks = cfg.follow_forks;
      trace_syscall_ids = handle_trace_syscall_ids cfg;
    })
      ≡ some (loaded, targets)
    → is_empty cfg.trace_paths ≡ false
    → (event_creates_process ev ≡ true → ForkFamily ev.syscall_id)
    → ¬ Chosen loaded ev.syscall_id
    → let f = record (new_path_filter cfg) { state_by_pid = state } in
      should_output proc_cwd f ev
      ≡ (false, if cfg.follow_forks then f else observe_process_clone f ev)
unfolding should_output observed observe should_print user_allows new_path_filter
should_output-unreported put proc_cwd env loaded tgids targets cfg state ev law done paths forks
      unchosen =
    let kept_back : (is_empty (handle_trace_syscall_ids cfg)
          || contains ev.syscall_id (handle_trace_syscall_ids cfg))
        ≡ false =
      elim (Bool-cases (
        is_empty (handle_trace_syscall_ids cfg)
        || contains ev.syscall_id (handle_trace_syscall_ids cfg))) [
          | inl passed ↦ absurd (
              unchosen
                (apply_config-Chosen put law env loaded tgids targets _ ev.syscall_id done passed))
          | inr kept ↦ kept
        ] in
    let u = handle_trace_syscall_ids-Unneeded cfg ev.syscall_id paths kept_back in
    let f = record (new_path_filter cfg) { state_by_pid = state } in
    let unasked : user_allows f ev.syscall_id ≡ false = ground (arith, u.some_asked, u.not_asked) in
    let seen : should_output proc_cwd f ev ≡ (false, observe_process_clone f ev) =
      ground
        (arith, observe_call-unsupported proc_cwd (observe_process_clone f ev) ev u.not_observed) in
    elim (Bool-cases cfg.follow_forks) [
      | inl follows ↦
          seen
          ∙ ap (λ g. (false, g))
              (observe_process_clone-unforked f ev (λ creates.
                  false≢true
                    (sym (u.not_fork follows) ∙ fork_ids-ForkFamily ev.syscall_id (forks creates)))
                ∙ sym (if_true cfg.follow_forks _ _ follows))
      | inr alone ↦ seen ∙ ap (λ g. (false, g)) (sym (if_false cfg.follow_forks _ _ alone))
    ]
