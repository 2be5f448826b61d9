-- ===== src/PathFilter/Decision.antt =====
-- What shouldPrint decides, without the set of tracked descriptors and the order of the lookups.
use litrace.Prelude.{
  ℕ, zero, suc, ◌+◌, ◌<◌, ◌≤◌, ◌≡◌, ◌↔◌, ◌⊎◌, inl, inr, refl, sym, ◌∙◌, ap, arith, List, [], ◌∷◌,
  true, Option, none, some, ◌==◌, Bool-cases, ==_iff, get_or, min, length,
}
use mathlib.Core.Path.{subst}
use litrace.Types.{Event, arg_fd}
use litrace.Reader.Paths.{path_args}
use litrace.PathFilter.{PathFilter, fd_path, fd_tracked}
use litrace.PathFilter.Resolve.{resolve_path_at}
use litrace.PathFilter.Observe.{fd_arg}
use litrace.PathFilter.Output.{
  user_allows, tracked_loop, has_tracked_fd_arg, matched, matches_path_at, matches_any,
  matches_path, or_tracked, should_print,
}
use litrace.PathFilter.Synced.{traced_path, Synced}
use litrace.PathFilter.Alike.{
  Alike, Alike-refl, Alike-trans, resolve_path_at-Alike, resolve_path_at-same,
}

-- Some argument in `args` is resolved to a traced path.
abbrev pub AnyPath : (ℕ → Option (List ℕ)) → List (List ℕ) → List ℕ → Type 0
AnyPath resolved paths [] = ⊥
AnyPath resolved paths (i ∷ args) =
    (traced_path paths (resolved i) ≡ true) ⊎ AnyPath resolved paths args

-- The event is of a call with an argument that names a traced path, or with a descriptor of one.
pub data Concerns (proc_cwd : ℕ → Option (List ℕ)) (paths : List (List ℕ)) (f : PathFilter)
    (ev : Event) : Type 0 where
  by_path :
      AnyPath (λ i. (resolve_path_at proc_cwd f ev i).0) paths (path_args ev.syscall_id)
      → Concerns proc_cwd paths f ev
  by_fd :
      (i : ℕ)
      → i < ev.arg_count
      → i < length ev.arg_types
      → get_or ev.arg_types i 0 ≡ arg_fd
      → traced_path paths (fd_path f ev.pid (fd_arg ev i)) ≡ true
      → Concerns proc_cwd paths f ev

module _ (proc_cwd : ℕ → Option (List ℕ)) where
  matched-eq :
      (r : Option (List ℕ) × PathFilter)
      → ((matched proc_cwd r).0 ≡ traced_path r.1.paths r.0) × ((matched proc_cwd r).1 ≡ r.1)
  unfolding matched traced_path
  matched-eq (none, f) = (refl, refl)
  matched-eq (some path, f) = (refl, refl)

  -- The state that a path lookup leaves does not matter for the later ones.
  matches_any-AnyPath :
      (f g : PathFilter) (ev : Event) (args : List ℕ)
      → Alike proc_cwd f g
      → (((matches_any proc_cwd g ev args).0 ≡ true)
          ↔ AnyPath (λ i. (resolve_path_at proc_cwd f ev i).0) f.paths args)
        × Alike proc_cwd f (matches_any proc_cwd g ev args).1
  unfolding matches_any matches_path_at
  matches_any-AnyPath f g ev [] a = ((λ h. cc, λ h. elim h [ ]), a)
  matches_any-AnyPath f g ev (i ∷ args) a =
      let r = resolve_path_at proc_cwd g ev i in
      let (hit, left) = matched-eq r in
      let later = Alike-trans proc_cwd a (resolve_path_at-Alike proc_cwd g ev i) in
      let same : (matched proc_cwd r).0 ≡ traced_path f.paths (resolve_path_at proc_cwd f ev i).0 =
        hit
        ∙ ap (λ ps. traced_path ps r.0) later.path_set
        ∙ ap (traced_path f.paths) (resolve_path_at-same proc_cwd f g ev i a) in
      let m = matches_path_at proc_cwd g ev i in
      let alike : Alike proc_cwd f m.1 = subst (Alike proc_cwd f) (sym left) later in
      let (iff, after) = matches_any-AnyPath f m.1 ev args alike in
      elim (Bool-cases (matched proc_cwd r).0) [
        | inl yes_ ↦
            let taken : matches_any proc_cwd g ev (i ∷ args) ≡ (true, m.1) = ground arith in
            rw taken ((λ h. inl (sym same ∙ yes_), λ h. refl), alike)
        | inr no_ ↦
            let passed : matches_any proc_cwd g ev (i ∷ args) ≡ matches_any proc_cwd m.1 ev args =
              ground arith in
            rw passed (
              (
                λ h. inr (iff.0 h),
                λ h. elim h [ inl now ↦ absurd (ground arith) | inr rest ↦ iff.1 rest ],
              ),
              after,
            )
      ]

  -- The loop of hasTrackedFDArg, on a filter that tracks exactly the traced descriptors of `f`.
  tracked_loop-fd :
      (f g : PathFilter) (ev : Event) (rounds i : ℕ)
      → ((q d : ℕ) → fd_tracked g q d ≡ traced_path f.paths (fd_path f q d))
      → (tracked_loop g ev rounds i ≡ true) ↔ (
          (j : ℕ) × (i ≤ j)
          × (j < i + rounds)
          × (get_or ev.arg_types j 0 ≡ arg_fd)
          × (traced_path f.paths (fd_path f ev.pid (fd_arg ev j)) ≡ true))
  unfolding tracked_loop
  tracked_loop-fd f g ev zero i t = (λ h. cc, λ (j, le, lt, k, on). absurd (omega arith))
  tracked_loop-fd f g ev (suc rounds) i t =
      let rest = tracked_loop-fd f g ev rounds (i + 1) t in
      (
        λ h. elim (Bool-cases (get_or ev.arg_types i 0 == arg_fd)) [
          | inl is_fd ↦ elim (Bool-cases (fd_tracked g ev.pid (fd_arg ev i))) [
            | inl on ↦ (
              i,
              omega arith,
              omega arith,
              (==_iff _ _).0 is_fd,
              sym (t ev.pid (fd_arg ev i)) ∙ on,
            )
            | inr off ↦
                let (j, le, lt, k, on) = rest.0 (ground arith) in
                (j, omega arith, omega arith, k, on)
          ]
          | inr other ↦
              let (j, le, lt, k, on) = rest.0 (ground arith) in (j, omega arith, omega arith, k, on)
        ],
        λ (j, le, lt, k, on). elim (Bool-cases (i == j)) [
          | inl here ↦ ground (arith, t ev.pid (fd_arg ev j))
          | inr later ↦
              let beyond : i + 1 ≤ j = ground arith in
              let found = rest.1 (j, beyond, omega arith, k, on) in ground arith
        ],
      )

  -- If the tracked descriptors are those of the traced paths, an event is printed exactly if the
  -- user asked for its system call, and one of the arguments that matchesPath looks at is resolved to
  -- a traced path or one of its descriptor arguments has a known path that is traced.
  pub should_print-Concerns :
      (f : PathFilter) (ev : Event)
      → Synced f.paths f
      → ((should_print proc_cwd f ev).0 ≡ true)
        ↔ ((user_allows f ev.syscall_id ≡ true) × Concerns proc_cwd f.paths f ev)
  unfolding should_print matches_path has_tracked_fd_arg or_tracked
  should_print-Concerns f ev s =
      let args = path_args ev.syscall_id in
      let m = matches_any proc_cwd f ev args in
      let (iff, alike) = matches_any-AnyPath f f ev args (Alike-refl proc_cwd f) in
      let rounds = min ev.arg_count (length ev.arg_types) in
      let fds = tracked_loop-fd f m.1 ev rounds 0 (λ q d. alike.tracks q d ∙ s.tracked q d) in
      elim (Bool-cases (user_allows f ev.syscall_id)) [
        | inl asked ↦ elim (Bool-cases m.0) [
          | inl hit ↦ (λ h. (asked, by_path (iff.0 hit)), λ h. ground arith)
          | inr miss ↦
              let printed : (should_print proc_cwd f ev).0 ≡ tracked_loop m.1 ev rounds 0 =
                ground arith in
              (
                λ h.
                    let (j, le, lt, k, on) = fds.0 (sym printed ∙ h) in
                    (asked, by_fd j (omega arith) (omega arith) k on),
                λ (a, c). printed ∙ elim c [
                  | by_path p ↦ absurd (ground (arith, iff.1 p))
                  | by_fd j lt lt' k on ↦ fds.1 (j, omega arith, omega arith, k, on)
                ],
              )
        ]
        | inr refused ↦ (λ h. absurd (ground arith), λ (a, c). absurd (ground arith))
      ]
