-- ===== src/Tests/Cli.antt =====
-- Examples of the theorems on the command line.
use litrace.Prelude.{ℕ, ◌≡◌, ◌↔◌, refl, arith, List, [], ◌∷◌, ◌++◌, true, false, Option, some}
use litrace.Maps.{Map}
use litrace.Decode.Reads.{All}
use litrace.FilePath.{
  bytes_eq, clean, clean_loop, elements, is_abs, join as join_paths, join_reversed, render,
  take_element,
}
use litrace.Handle.{apply_config, put_all, put_targets, load}
use litrace.Text.{codes, decimal, split, join, cut_prefix, has_byte}
use litrace.Names.{entries, id_to_name, name_to_id, syscall_name, syscall_id_of}
use litrace.Names.Part1.{entries_1}
use litrace.Names.Part2.{entries_2}
use litrace.Names.Part3.{entries_3}
use litrace.Names.Distinct.{syscall_id_of-id_to_name}
use litrace.Tracer.State.{Env}
use litrace.Tracer.Invariant.{Chosen}
use litrace.PathFilter.Dict.{contains, add}
use litrace.PathFilter.Config.{add_all, handle_trace_syscall_ids}
use litrace.Cli.{
  ok, ParsedFlags, CliConfig, parse_attach_expressions, attach_loop, parse_trace_ids,
  parse_trace_expressions, parse_trace_selectors, expressions_loop, selectors_loop, selector_of,
  select, select_names, select_name, parse_trace_paths, trace_path, absolute, choose_mode,
  parse_args,
}
use litrace.Cli.Values.{value_of}
use litrace.Cli.Options.{listed, options, texts}
use litrace.Cli.Attach.{keep_first, IsPid, parse_attach_expressions-decimals}
use litrace.Cli.Selectors.{Same}
use litrace.Cli.Named.{IsNamed, with_trace, parse_trace_ids-names}
use litrace.Cli.Mode.{Accepted, parse_args-Accepted}
use litrace.Cli.Loaded.{parse_trace_ids-Chosen}
use litrace.Tests.{env}
use litrace.Tests.Filter.{plain_put, plain_put-IsPut, or_unloaded}

-- read is known as 0, and close as 3.
abbrev read_close : List (ℕ × List ℕ)
read_close = (0, 3 ∷ []) ∷ []

abbrev openat : List (ℕ × List ℕ)
openat = (257, []) ∷ []

read_close-IsNamed : All IsNamed (listed read_close)
unfolding All listed id_to_name entries entries_1 entries_2 entries_3
read_close-IsNamed = ((codes "read", refl), ((codes "close", refl), tt))

openat-IsNamed : All IsNamed (listed openat)
unfolding All listed id_to_name entries entries_1 entries_2 entries_3
openat-IsNamed = ((codes "openat", refl), tt)

parse_trace_ids-names_example :
    Same
      (value_of (
        parse_trace_ids
          (with_trace (true ∷ []) (options syscall_name read_close))
          (options syscall_name openat)))
      (some (listed read_close ++ listed openat))
parse_trace_ids-names_example =
    parse_trace_ids-names (true ∷ []) read_close openat read_close-IsNamed openat-IsNamed

syscall_id_of-id_to_name_example :
    (syscall_id_of (codes "mmap") ≡ some 9) ↔ (id_to_name entries 9 ≡ some (codes "mmap"))
syscall_id_of-id_to_name_example = syscall_id_of-id_to_name (codes "mmap") 9

-- PIDs in two options, one of them twice.
abbrev pids : List (ℕ × List ℕ)
pids = (42, 7 ∷ []) ∷ (42, []) ∷ []

pids-IsPid : All IsPid (listed pids)
unfolding All listed
pids-IsPid =
    ((omega arith, omega arith), ((omega arith, omega arith), ((omega arith, omega arith), tt)))

parse_attach_expressions-decimals_example :
    value_of (parse_attach_expressions (options decimal pids)) ≡ some (keep_first (listed pids))
parse_attach_expressions-decimals_example = parse_attach_expressions-decimals pids pids-IsPid

-- `-f -e read -P x ls -l` in the directory /a, where ls stands in /bin.
abbrev flags : ParsedFlags
flags = record {
  trace_expressions = codes "read" ∷ [];
  trace_selectors = [];
  attach_expressions = [];
  trace_paths = codes "x" ∷ [];
  follow_forks = true;
  summary_only = false;
  output = [];
  args = codes "ls" ∷ codes "-l" ∷ [];
}

abbrev look_path : List ℕ → Option (List ℕ)
look_path name = some (codes "/bin/" ++ name)

abbrev cfg : CliConfig
cfg = record {
  trace_output_path = [];
  summary_only = false;
  filters = record {
    trace_paths = codes "/a/x" ∷ [];
    trace_syscall_ids = 0 ∷ [];
    follow_forks = true;
  };
  attach_pids = [];
  program_name = codes "ls";
  program_path = codes "/bin/ls";
  program_args = codes "-l" ∷ [];
}

flags-ok : parse_args look_path (some (codes "/a")) (some flags) ≡ ok cfg
unfolding parse_args parse_trace_ids parse_trace_expressions parse_trace_selectors expressions_loop
    selectors_loop selector_of cut_prefix has_byte select select_names select_name split
    syscall_id_of name_to_id entries entries_1 entries_2 entries_3 bytes_eq add_all add attach_loop
    parse_attach_expressions parse_trace_paths trace_path absolute choose_mode clean clean_loop
    elements is_abs join_paths join_reversed render take_element
flags-ok = refl

parse_args-Accepted_example : Accepted look_path flags cfg
unfolding is_abs
parse_args-Accepted_example = parse_args-Accepted look_path (codes "/a") flags cfg refl flags-ok

selected-ok :
    parse_trace_ids
      (with_trace (true ∷ []) (options syscall_name read_close))
      (options syscall_name openat)
    ≡ ok (0 ∷ 3 ∷ 257 ∷ [])
unfolding parse_trace_ids parse_trace_expressions parse_trace_selectors expressions_loop
    selectors_loop selector_of cut_prefix has_byte select select_names select_name split
    syscall_id_of name_to_id entries entries_1 entries_2 entries_3 bytes_eq add_all add with_trace
    options texts join syscall_name id_to_name
selected-ok = refl

abbrev loaded : Env × Map ℕ
loaded = or_unloaded (
    apply_config plain_put env (7 ∷ []) (record {
      follow_forks = false;
      trace_syscall_ids =
          handle_trace_syscall_ids (record {
            trace_paths = [];
            trace_syscall_ids = 0 ∷ 3 ∷ 257 ∷ [];
            follow_forks = false;
          });
    }))

loaded_right :
    apply_config plain_put env (7 ∷ []) (record {
      follow_forks = false;
      trace_syscall_ids =
          handle_trace_syscall_ids (record {
            trace_paths = [];
            trace_syscall_ids = 0 ∷ 3 ∷ 257 ∷ [];
            follow_forks = false;
          });
    })
    ≡ some loaded
unfolding apply_config put_all put_targets handle_trace_syscall_ids load
loaded_right = refl

parse_trace_ids-Chosen_example :
    Chosen loaded.0 3 ↔ (contains 3 (listed read_close ++ listed openat) ≡ true)
unfolding listed
parse_trace_ids-Chosen_example =
    parse_trace_ids-Chosen plain_put (true ∷ []) read_close openat (0 ∷ 3 ∷ 257 ∷ []) false env
      loaded.0 (7 ∷ []) loaded.1 3 plain_put-IsPut read_close-IsNamed openat-IsNamed refl
      selected-ok loaded_right (omega arith)
