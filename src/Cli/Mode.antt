-- ===== src/Cli/Mode.antt =====
-- What ParseArgs accepts.
use litrace.Prelude.{
  ℕ, ◌≡◌, ◌⊎◌, inl, inr, refl, arith, List, [], ◌∷◌, true, false, Option, none, some, Option-cases,
  Bool-cases,
}
use mathlib.Core.Path.{subst, sym, ap, ◌∙◌}
use litrace.FilePath.{is_abs, render, clean, join}
use litrace.Decode.Reads.{All}
use litrace.PathFilter.{is_empty}
use litrace.PathFilter.Config.{Config}
use litrace.Cli.{
  Result, ok, err, and_then, ParsedFlags, CliConfig, absolute, trace_path, parse_trace_paths,
  parse_trace_ids, parse_attach_expressions, choose_mode, parse_args,
}
use litrace.Cli.Values.{value_of, bind, read_all, parts_of}
use litrace.Cli.Attach.{pid_of, keep_first, parse_attach_expressions-pids}
use litrace.Cli.Selectors.{Same, named, parse_trace_ids-named}

abbrev IsAbs : List ℕ → Type 0
IsAbs path = is_abs path ≡ true

clean-IsAbs : (path : List ℕ) → IsAbs path → IsAbs (clean path)
unfolding clean render is_abs
clean-IsAbs path rooted = rw rooted refl

join-IsAbs : (wd path : List ℕ) → IsAbs wd → IsAbs (join wd path)
unfolding join is_abs
join-IsAbs [] path rooted = cc
join-IsAbs (b ∷ base) path rooted = clean-IsAbs _ rooted

-- A result is a value or an error.
Result-cases : {A : Type 0} (r : Result A) → ((a : A) × (r ≡ ok a)) ⊎ (value_of r ≡ none)
unfolding value_of
Result-cases (ok a) = inl (a, refl)
Result-cases (err e) = inr refl

-- A value comes from a value.
accepted :
    {A B : Type 0} (r : Result A) (f : A → Result B) (b : B)
    → and_then r f ≡ ok b
    → (a : A) × ((r ≡ ok a) × (f a ≡ ok b))
accepted (ok a) f b done = (a, (refl, done))
accepted (err e) f b done = absurd (cc)

-- The two ways to trace: running processes, or a program that is started.
pub record Attaches (args : List (List ℕ)) (cfg : CliConfig) : Type 0 where
  pub some_pids : is_empty cfg.attach_pids ≡ false
  pub no_program : args ≡ []

pub record Launches (look_path : List ℕ → Option (List ℕ)) (args : List (List ℕ)) (cfg : CliConfig)
    : Type 0 where
  pub no_pids : cfg.attach_pids ≡ []
  pub program : args ≡ cfg.program_name ∷ cfg.program_args
  pub found : look_path cfg.program_name ≡ some cfg.program_path

-- What an accepted command line says.
pub record Accepted (look_path : List ℕ → Option (List ℕ)) (flags : ParsedFlags) (cfg : CliConfig)
    : Type 0 where
  pub calls :
      Same
        (some cfg.filters.trace_syscall_ids)
        (named flags.trace_expressions flags.trace_selectors)
  pub pids :
      bind (read_all pid_of (parts_of flags.attach_expressions)) (λ pids. some (keep_first pids))
      ≡ some cfg.attach_pids
  pub paths : All IsAbs cfg.filters.trace_paths
  pub follow_forks : cfg.filters.follow_forks ≡ flags.follow_forks
  pub summary_only : cfg.summary_only ≡ flags.summary_only
  pub output : cfg.trace_output_path ≡ flags.output
  pub mode : Attaches flags.args cfg ⊎ Launches look_path flags.args cfg

absolute-IsAbs : (wd path abs : List ℕ) → IsAbs wd → absolute (some wd) path ≡ some abs → IsAbs abs
unfolding absolute
absolute-IsAbs wd path abs rooted found = elim (Bool-cases (is_abs path)) [
  | inl here ↦ ground (arith, clean-IsAbs path here)
  | inr relative ↦ ground (arith, join-IsAbs wd path rooted)
]

trace_path-IsAbs :
    (wd path abs : List ℕ) → IsAbs wd → trace_path (some wd) path ≡ ok abs → IsAbs abs
unfolding trace_path
trace_path-IsAbs wd path abs rooted done = elim (Option-cases (absolute (some wd) path)) [
  | inl lost ↦ absurd (ground arith)
  | inr (a, found) ↦ ground (arith, clean-IsAbs a, absolute-IsAbs wd path a rooted found)
]

parse_trace_paths-IsAbs :
    (wd : List ℕ) (paths normalized : List (List ℕ))
    → IsAbs wd
    → parse_trace_paths (some wd) paths ≡ ok normalized
    → All IsAbs normalized
unfolding parse_trace_paths All
parse_trace_paths-IsAbs wd [] normalized rooted done =
    let same : [] ≡ normalized = cc in subst (All IsAbs) same tt
parse_trace_paths-IsAbs wd (path ∷ paths) normalized rooted done =
    let (abs, (here, later)) = accepted (trace_path (some wd) path) _ normalized done in
    let (rest, (there, last)) = accepted (parse_trace_paths (some wd) paths) _ normalized later in
    let same : (abs ∷ rest) ≡ normalized = cc in
    subst (All IsAbs) same
      (trace_path-IsAbs wd path abs rooted here, parse_trace_paths-IsAbs wd paths rest rooted there)

-- The last step keeps the other fields, and decides between the two modes.
record Decided (look_path : List ℕ → Option (List ℕ)) (args : List (List ℕ)) (given cfg : CliConfig)
    : Type 0 where
  pub filters : cfg.filters ≡ given.filters
  pub attach_pids : cfg.attach_pids ≡ given.attach_pids
  pub summary_only : cfg.summary_only ≡ given.summary_only
  pub output : cfg.trace_output_path ≡ given.trace_output_path
  pub mode : Attaches args cfg ⊎ Launches look_path args cfg

is_empty_sound : (xs : List ℕ) → is_empty xs ≡ true → xs ≡ []
is_empty_sound [] h = refl
is_empty_sound (x ∷ xs) h = cc

choose_mode-Decided :
    (look_path : List ℕ → Option (List ℕ)) (args : List (List ℕ)) (given cfg : CliConfig)
    → choose_mode look_path args given ≡ ok cfg
    → Decided look_path args given cfg
unfolding choose_mode
choose_mode-Decided look_path [] given cfg done = elim (Bool-cases (is_empty given.attach_pids)) [
  | inl none_given ↦ absurd (ground arith)
  | inr some_given ↦
      let same : given ≡ cfg = ground arith in
      subst (Decided look_path [] given) same (record {
        filters = refl;
        attach_pids = refl;
        summary_only = refl;
        output = refl;
        mode = inl (record { some_pids = some_given; no_program = refl });
      })
]
choose_mode-Decided look_path (name ∷ args) given cfg done =
    elim (Bool-cases (is_empty given.attach_pids)) [
      | inl none_given ↦ elim (Option-cases (look_path name)) [
        | inl lost ↦ absurd (ground arith)
        | inr (path, found) ↦
            let same : record given {
              program_name = name;
              program_path = path;
              program_args = args;
            }
                ≡ cfg =
              ground arith in
            subst (Decided look_path (name ∷ args) given) same (record {
              filters = refl;
              attach_pids = refl;
              summary_only = refl;
              output = refl;
              mode = inr (record {
                no_pids = is_empty_sound given.attach_pids none_given;
                program = refl;
                found = found;
              });
            })
      ]
      | inr some_given ↦ absurd (ground arith)
    ]

-- If the command line is accepted in an absolute directory, then: the system calls are the set of those that -e
-- and --trace name; the PIDs are those of -p, each one where it stands first; the traced paths are absolute; and
-- either there are PIDs and no program, or there is a program that exec.LookPath finds, and no PID.
pub parse_args-Accepted :
    (look_path : List ℕ → Option (List ℕ)) (wd : List ℕ) (flags : ParsedFlags) (cfg : CliConfig)
    → is_abs wd ≡ true
    → parse_args look_path (some wd) (some flags) ≡ ok cfg
    → Accepted look_path flags cfg
unfolding parse_args value_of
parse_args-Accepted look_path wd flags cfg rooted done =
    let ids_ =
      accepted (parse_trace_ids flags.trace_expressions flags.trace_selectors) _ cfg done in
    let pids_ = accepted (parse_attach_expressions flags.attach_expressions) _ cfg ids_.1.1 in
    let paths_ = accepted (parse_trace_paths (some wd) flags.trace_paths) _ cfg pids_.1.1 in
    let chosen = choose_mode-Decided look_path flags.args _ cfg paths_.1.1 in
    record {
      calls =
          subst
            (λ (c : List ℕ). Same (some c) (named flags.trace_expressions flags.trace_selectors))
            (sym (ap (λ (f : Config). f.trace_syscall_ids) chosen.filters))
            (subst (λ r. Same (value_of r) (named flags.trace_expressions flags.trace_selectors))
              ids_.1.0 (parse_trace_ids-named flags.trace_expressions flags.trace_selectors));
      pids =
          sym (parse_attach_expressions-pids flags.attach_expressions)
          ∙ ap value_of pids_.1.0
          ∙ ap some (sym chosen.attach_pids);
      paths =
          subst (All IsAbs) (sym (ap (λ (f : Config). f.trace_paths) chosen.filters))
            (parse_trace_paths-IsAbs wd flags.trace_paths paths_.0 rooted paths_.1.0);
      follow_forks = ap (λ (f : Config). f.follow_forks) chosen.filters;
      summary_only = chosen.summary_only;
      output = chosen.output;
      mode = chosen.mode;
    }
