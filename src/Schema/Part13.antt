-- ===== src/Schema/Part13.antt =====
-- internal/bpf/syscalls/x86_64.h: the schemas of __NR_listxattrat to __NR_file_setattr.
use litrace.Prelude.{List, [], ◌∷◌}
use litrace.Types.{SyscallArgSchema, arg_fd, arg_none, arg_ptr, arg_uint, var_arg_string}
use litrace.Syscalls.{
  nr_listxattrat, nr_removexattrat, nr_open_tree_attr, nr_file_getattr, nr_file_setattr,
}
use litrace.Schema.Entry.{entry}

unfoldable pub schemas_13 : List SyscallArgSchema
schemas_13 =
    entry nr_listxattrat 5
      (arg_fd ∷ var_arg_string ∷ arg_uint ∷ var_arg_string ∷ arg_uint ∷ arg_none ∷ [])
    ∷ entry nr_removexattrat 4
        (arg_fd ∷ var_arg_string ∷ arg_uint ∷ var_arg_string ∷ arg_none ∷ arg_none ∷ [])
    ∷ entry nr_open_tree_attr 5
        (arg_fd ∷ var_arg_string ∷ arg_uint ∷ arg_ptr ∷ arg_uint ∷ arg_none ∷ [])
    ∷ entry nr_file_getattr 5
        (arg_fd ∷ var_arg_string ∷ arg_ptr ∷ arg_uint ∷ arg_uint ∷ arg_none ∷ [])
    ∷ entry nr_file_setattr 5
        (arg_fd ∷ var_arg_string ∷ arg_ptr ∷ arg_uint ∷ arg_uint ∷ arg_none ∷ [])
    ∷ []
