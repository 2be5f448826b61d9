-- ===== src/PathFilter/Alike.antt =====
-- Filters that answer every question alike: resolving a path leaves one.
use litrace.Prelude.{
  ℕ, ◌≡◌, inl, inr, refl, sym, ◌∙◌, ap, arith, List, Option, none, some, ◌==◌, if◌then◌else◌,
  if-intro, Option-intro, Option-cases, Bool-cases, ==_iff, if_true, if_false, leb, get_or,
}
use mathlib.Core.Path.{subst}
use litrace.Types.{Event, u32}
use litrace.Maps.{write_through}
use litrace.Reader.{event_trace_path_at}
use litrace.FilePath.{is_abs, clean}
use litrace.PathFilter.{
  ProcessPathState, PathFilter, is_empty, put_state, fd_path, fd_tracked, set_cwd,
}
use litrace.PathFilter.Resolve.{
  at_fdcwd, normalize_tracked_fd, path_base_fd_arg_index, read_cwd, cwd_for_pid, resolve_dirfd,
  resolve_path_base, join_base, resolve_path, resolve_path_at,
}
use litrace.PathFilter.View.{fd_path-set_cwd, fd_tracked-set_cwd}

module _ (proc_cwd : ℕ → Option (List ℕ)) where
  -- The two filters answer every question alike.
  pub record Alike (f g : PathFilter) : Type 0 where
    pub cwds : (q : ℕ) → (cwd_for_pid proc_cwd g q).0 ≡ (cwd_for_pid proc_cwd f q).0
    pub fds : (q d : ℕ) → fd_path g q d ≡ fd_path f q d
    pub tracks : (q d : ℕ) → fd_tracked g q d ≡ fd_tracked f q d
    pub path_set : g.paths ≡ f.paths

  pub Alike-refl : (f : PathFilter) → Alike f f
  Alike-refl f = record {
    cwds = λ q. refl;
    fds = λ q d. refl;
    tracks = λ q d. refl;
    path_set = refl;
  }

  cwd_for_pid-set_cwd :
      (f : PathFilter) (pid q : ℕ) (link : List ℕ)
      → proc_cwd pid ≡ some link
      → (cwd_for_pid proc_cwd (set_cwd f pid (clean link)) q).0
        ≡ (if pid == q then some (clean link) else (cwd_for_pid proc_cwd f q).0)
  unfolding cwd_for_pid set_cwd put_state write_through read_cwd
  cwd_for_pid-set_cwd f pid q link found = ground arith

  -- Reading a working directory that is not known changes no answer.
  read_cwd-Alike :
      (f : PathFilter) (pid : ℕ)
      → cwd_for_pid proc_cwd f pid ≡ read_cwd proc_cwd f pid
      → Alike f (read_cwd proc_cwd f pid).1
  unfolding read_cwd
  read_cwd-Alike f pid unknown =
      Option-intro (λ (r : Option (List ℕ) × PathFilter). Alike f r.1) (proc_cwd pid)
        (λ _. Alike-refl f)
        λ link found. record {
          cwds = λ q.
              cwd_for_pid-set_cwd f pid q link found
              ∙ if-intro (λ (o : Option (List ℕ)). o ≡ (cwd_for_pid proc_cwd f q).0) (pid == q)
                  (λ here.
                    subst (λ p. some (clean link) ≡ (cwd_for_pid proc_cwd f p).0)
                      ((==_iff pid q).0 here)
                      (sym (ap (λ (r : Option (List ℕ) × PathFilter). r.0) unknown ∙ ground arith)))
                  (λ _. refl);
          fds = λ q d. fd_path-set_cwd f pid (clean link) q d;
          tracks = λ q d. fd_tracked-set_cwd f pid (clean link) q d;
          path_set = unfold set_cwd put_state in refl;
        }

  cwd_for_pid-absent :
      (f : PathFilter) (pid : ℕ)
      → f.state_by_pid pid ≡ none
      → cwd_for_pid proc_cwd f pid ≡ read_cwd proc_cwd f pid
  unfolding cwd_for_pid
  cwd_for_pid-absent f pid absent = ground arith

  cwd_for_pid-state :
      (f : PathFilter) (pid : ℕ) (s : ProcessPathState)
      → f.state_by_pid pid ≡ some s
      → cwd_for_pid proc_cwd f pid
        ≡ (if is_empty s.cwd then read_cwd proc_cwd f pid else (some s.cwd, f))
  unfolding cwd_for_pid
  cwd_for_pid-state f pid s found = ground arith

  cwd_for_pid-Alike : (f : PathFilter) (pid : ℕ) → Alike f (cwd_for_pid proc_cwd f pid).1
  cwd_for_pid-Alike f pid =
      let P = λ (r : Option (List ℕ) × PathFilter). Alike f r.1 in
      elim (Option-cases (f.state_by_pid pid)) [
        | inl absent ↦
            let unknown = cwd_for_pid-absent f pid absent in
            subst P (sym unknown) (read_cwd-Alike f pid unknown)
        | inr (s, found) ↦ elim (Bool-cases (is_empty s.cwd)) [
          | inl empty ↦
              let unknown = cwd_for_pid-state f pid s found ∙ if_true (is_empty s.cwd) _ _ empty in
              subst P (sym unknown) (read_cwd-Alike f pid unknown)
          | inr known ↦
              subst P (sym (cwd_for_pid-state f pid s found ∙ if_false (is_empty s.cwd) _ _ known))
                (Alike-refl f)
        ]
      ]

  resolve_dirfd-Alike :
      (f : PathFilter) (ev : Event) (i : ℕ) → Alike f (resolve_dirfd proc_cwd f ev i).1
  unfolding resolve_dirfd
  resolve_dirfd-Alike f ev i =
      let P = λ (r : Option (List ℕ) × PathFilter). Alike f r.1 in
      if-intro P (leb ev.arg_count i) (λ _. Alike-refl f)
        λ _.
          if-intro P (u32 (get_or ev.args i 0) == at_fdcwd) (λ _. cwd_for_pid-Alike f ev.pid)
            (λ _. Alike-refl f)

  resolve_path_base-Alike :
      (f : PathFilter) (ev : Event) (i : ℕ) → Alike f (resolve_path_base proc_cwd f ev i).1
  unfolding resolve_path_base
  resolve_path_base-Alike f ev i =
      let P = λ (r : Option (List ℕ) × PathFilter). Alike f r.1 in
      let base = path_base_fd_arg_index ev.syscall_id i in
      if-intro P base.1
        (λ _.
          Option-intro P base.0 (λ _. cwd_for_pid-Alike f ev.pid)
            (λ j _. resolve_dirfd-Alike f ev j))
        (λ _. cwd_for_pid-Alike f ev.pid)

  join_base-Alike :
      (f : PathFilter) (path : List ℕ) (r : Option (List ℕ) × PathFilter)
      → Alike f r.1
      → Alike f (join_base proc_cwd path r).1
  unfolding join_base
  join_base-Alike f path (none, g) s = s
  join_base-Alike f path (some base, g) s = s

  pub resolve_path_at-Alike :
      (f : PathFilter) (ev : Event) (i : ℕ) → Alike f (resolve_path_at proc_cwd f ev i).1
  unfolding resolve_path_at resolve_path
  resolve_path_at-Alike f ev i =
      let P = λ (r : Option (List ℕ) × PathFilter). Alike f r.1 in
      Option-intro P (event_trace_path_at ev i) (λ _. Alike-refl f)
        λ path _.
          if-intro P (is_empty path) (λ _. Alike-refl f)
            λ _.
              if-intro P (is_abs path) (λ _. Alike-refl f)
                λ _. join_base-Alike f path _ (resolve_path_base-Alike f ev i)

  -- Alike filters resolve every path to the same.
  join_base-path :
      (path : List ℕ) (r t : Option (List ℕ) × PathFilter)
      → r.0 ≡ t.0
      → (join_base proc_cwd path r).0 ≡ (join_base proc_cwd path t).0
  unfolding join_base
  join_base-path path (none, f) (none, g) same = refl
  join_base-path path (none, f) (some b, g) same = cc
  join_base-path path (some a, f) (none, g) same = cc
  join_base-path path (some a, f) (some b, g) same = ground arith

  resolve_dirfd-same :
      (f g : PathFilter) (ev : Event) (i : ℕ)
      → Alike f g
      → (resolve_dirfd proc_cwd g ev i).0 ≡ (resolve_dirfd proc_cwd f ev i).0
  unfolding resolve_dirfd
  resolve_dirfd-same f g ev i a =
      ground (arith, a.cwds ev.pid, a.fds ev.pid (normalize_tracked_fd (get_or ev.args i 0)))

  resolve_path_base-same :
      (f g : PathFilter) (ev : Event) (i : ℕ)
      → Alike f g
      → (resolve_path_base proc_cwd g ev i).0 ≡ (resolve_path_base proc_cwd f ev i).0
  unfolding resolve_path_base
  resolve_path_base-same f g ev i a =
      let base = path_base_fd_arg_index ev.syscall_id i in
      elim (Option-cases base.0) [
        | inl none_ ↦ ground (arith, a.cwds ev.pid)
        | inr (j, at) ↦ ground (arith, a.cwds ev.pid, resolve_dirfd-same f g ev j a)
      ]

  pub resolve_path_at-same :
      (f g : PathFilter) (ev : Event) (i : ℕ)
      → Alike f g
      → (resolve_path_at proc_cwd g ev i).0 ≡ (resolve_path_at proc_cwd f ev i).0
  unfolding resolve_path_at resolve_path
  resolve_path_at-same f g ev i a = elim (Option-cases (event_trace_path_at ev i)) [
    | inl absent ↦ ground arith
    | inr (path, at) ↦ ground (
      arith,
      join_base-path path (resolve_path_base proc_cwd g ev i) (resolve_path_base proc_cwd f ev i)
          (resolve_path_base-same f g ev i a),
    )
  ]

  pub Alike-trans : {f g h : PathFilter} → Alike f g → Alike g h → Alike f h
  Alike-trans a b = record {
    cwds = λ q. b.cwds q ∙ a.cwds q;
    fds = λ q d. b.fds q d ∙ a.fds q d;
    tracks = λ q d. b.tracks q d ∙ a.tracks q d;
    path_set = b.path_set ∙ a.path_set;
  }
