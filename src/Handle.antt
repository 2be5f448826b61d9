-- ===== src/Handle.antt =====
-- applyConfig of internal/bpf/handle.go: the constants and maps that the programs are loaded with.
-- `put` is Map.Put of the eBPF library, which gives no map where it reports an error. The errors of
-- the library before that, when it loads the object file, are not modelled.
use litrace.Prelude.{ℕ, ◌≡◌, List, [], ◌∷◌, Bool, Option, none, some, ◌==◌, if◌then◌else◌}
use litrace.Types.{u32}
use litrace.Maps.{Map}
use litrace.Tracer.State.{Env}
use litrace.PathFilter.{is_empty}

pub record HandleConfig : Type 0 where
  pub follow_forks : Bool
  pub trace_syscall_ids : List ℕ

-- After a Put without an error, the key has the value, and the other keys have theirs.
pub record IsPut (put : ℕ → ℕ → Map ℕ → Option (Map ℕ)) : Type 0 where
  pub lookup_put :
      (k v j : ℕ) (m n : Map ℕ) → put k v m ≡ some n → n j ≡ (if k == j then some v else m j)

-- The constants that are set before the programs are loaded, with the filter map.
unfoldable pub load : Env → HandleConfig → Map ℕ → Env
load env cfg filter = record env {
  follow_forks = if cfg.follow_forks then 1 else 0;
  trace_filter_enabled = if is_empty cfg.trace_syscall_ids then 0 else 1;
  trace_syscall_filter = filter;
}

module _ (put : ℕ → ℕ → Map ℕ → Option (Map ℕ)) where
  -- The loops that fill a map; an error ends them.
  unfoldable pub put_all : List ℕ → Map ℕ → Option (Map ℕ)
  put_all [] m = some m
  put_all (id ∷ ids) m = elim (put (u32 id) 1 m) [ none ↦ none | some n ↦ put_all ids n ]

  -- The end of applyConfig, with the filter map.
  unfoldable pub put_targets : List ℕ → Env → Option (Env × Map ℕ)
  put_targets tgids env = elim (put_all tgids (λ _. none)) [
    | none ↦ none
    | some targets ↦ some (env, targets)
  ]

  -- The environment of the programs and the targets. `env` has what belongs to the kernel.
  unfoldable pub apply_config : Env → List ℕ → HandleConfig → Option (Env × Map ℕ)
  apply_config env target_tgids cfg =
      if is_empty cfg.trace_syscall_ids
      then put_targets target_tgids (load env cfg (λ _. none))
      else elim (put_all cfg.trace_syscall_ids (λ _. none)) [
        | none ↦ none
        | some filter ↦ put_targets target_tgids (load env cfg filter)
      ]
