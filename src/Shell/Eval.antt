-- ===== src/Shell/Eval.antt =====
-- shell/ast.cc, shell/value.hh, `execute` of shell/main.cc and the destructor of libs/core/file.cc that
-- ends its pipes: from the tree to the jobs that run. What the shell asks of the system is a list of
-- events.
pub mod Pipeline
use umbongo.Base.{
  ℕ, zero, suc, ◌+◌, List, [], ◌∷◌, ◌++◌, Option, none, some, Bool, true, false, ◌==◌, ◌&&◌,
  if◌then◌else◌, length,
}
use umbongo.Base.Panic.{◌>>=◌}
use umbongo.Shell.Parser.{Node, Nodes, nil, cons, command, list, pipe, string_literal}

pub data BuiltinFunction : Type 0 where
  cd : BuiltinFunction

mutual
  pub data Value : Type 0 where
    builtin : BuiltinFunction → List (List ℕ) → Value
    job : List ℕ → List (List ℕ) → Value
    list_value : Values → Value
    pipe_value : Value → Value → Value
    string_value : List ℕ → Value

  pub data Values : Type 0 where
    empty : Values
    push : Value → Values → Values

-- A `const char *` that points into a string: what a reader of it sees ends at the first zero.
abbrev pub c_string : List ℕ → List ℕ
c_string [] = []
c_string (x ∷ s) = let rest = c_string s in if x == 0 then [] else x ∷ rest

abbrev pub same_text : List ℕ → List ℕ → Bool
same_text [] [] = true
same_text (x ∷ s) (y ∷ t) = x == y && same_text s t
same_text _ _ = false

-- The strings in a value, in order; a value of another kind is never reached.
unfoldable mutual
  pub build_string_vector : Value → Option (List (List ℕ))
  build_string_vector (builtin f args) = none
  build_string_vector (job path args) = none
  build_string_vector (list_value vs) = build_all vs
  build_string_vector (pipe_value v w) = none
  build_string_vector (string_value s) = some (c_string s ∷ [])

  pub build_all : Values → Option (List (List ℕ))
  build_all empty = some []
  build_all (push v vs) = build_string_vector v >>= λ s. build_all vs >>= λ rest. some (s ++ rest)

abbrev pub bin : List ℕ
bin = 47 ∷ 98 ∷ 105 ∷ 110 ∷ 47 ∷ []

abbrev pub cd_name : List ℕ
cd_name = 99 ∷ 100 ∷ []

unfoldable pub find_command : List ℕ → List ℕ
find_command name = bin ++ name

-- `Command::evaluate` behind the arguments. `args[0]` of no arguments fails an assertion.
unfoldable pub command_value : List (List ℕ) → Option Value
unfolding find_command
command_value [] = none
command_value (name ∷ args) =
    if same_text name cd_name
    then some (builtin cd (name ∷ args))
    else some (job (find_command name) (name ∷ args))

unfoldable mutual
  pub evaluate : Node → Option Value
  evaluate (command n) = evaluate n >>= λ v. build_string_vector v >>= command_value
  evaluate (list ns) = evaluate_all ns >>= λ vs. some (list_value vs)
  evaluate (pipe lhs rhs) = evaluate lhs >>= λ v. evaluate rhs >>= λ w. some (pipe_value v w)
  evaluate (string_literal s) = some (string_value s)

  pub evaluate_all : Nodes → Option Values
  evaluate_all nil = some empty
  evaluate_all (cons n ns) = evaluate n >>= λ v. evaluate_all ns >>= λ vs. some (push v vs)

-- `ub_fd_pair_t`
pub record FdPair : Type 0 where
  pub parent : ℕ
  pub child : ℕ

-- A line that `core::println` writes to the shell's own output, by two calls.
pub data Message : Type 0 where
  too_many_arguments : Message
  cannot_change : List ℕ → List ℕ → Message
  command_not_found : List ℕ → Message

pub data Event : Type 0 where
  println : Message → Event
  change_dir : List ℕ → Event
  open_pipe close_write close_read : ℕ → Event
  spawn : List ℕ → List (List ℕ) → List FdPair → Event
  await : List ℕ → Event

-- The system as the shell meets it: the descriptors of the pipe that it makes as its `n`-th, whether
-- a program can be started, and the text of the error with which a change of directory fails.
pub record System : Type 0 where
  pub read_fd : ℕ → ℕ
  pub write_fd : ℕ → ℕ
  pub starts : List ℕ → Bool
  pub change_error : List ℕ → Option (List ℕ)

pub record Run : Type 0 where
  pub rewirings : List FdPair
  pub pipes : ℕ
  pub events : List Event

abbrev pub emit : List Event → Run → Run
emit es r = record r { events = r.events ++ es }

abbrev pub add : FdPair → Run → Run
add p r = record r { rewirings = r.rewirings ++ p ∷ [] }

-- `Vector::pop`
abbrev pub without_last {ℓ} : {A : Type ℓ} → List A → List A
without_last [] = []
without_last (x ∷ []) = []
without_last (x ∷ y ∷ xs) = x ∷ without_last (y ∷ xs)

abbrev pub home : List ℕ
home = 47 ∷ 104 ∷ 111 ∷ 109 ∷ 101 ∷ []

module _ (sys : System) where
  abbrev pub change_to : List ℕ → List Event
  change_to dir = change_dir dir ∷ elim (sys.change_error dir) [
    | some error ↦ println (cannot_change dir error) ∷ []
    | none ↦ []
  ]

  -- `cd` with its own name and at most one argument.
  abbrev pub change : List (List ℕ) → List Event
  change (name ∷ []) = change_to home
  change (name ∷ dir ∷ []) = change_to dir
  change _ = println too_many_arguments ∷ []

  -- `spawn` and `await_completion`: a program that does not start is reported and not waited for.
  abbrev pub job_events : List ℕ → List (List ℕ) → List FdPair → List Event
  job_events path args fds =
      spawn path args fds
      ∷ (if sys.starts path then await path ∷ [] else (println (command_not_found path) ∷ []))

  abbrev pub write_end : ℕ → FdPair
  write_end n = record { parent = sys.write_fd n; child = 1 }

  abbrev pub read_end : ℕ → FdPair
  read_end n = record { parent = sys.read_fd n; child = 0 }

  -- `execute` of a pipe before its first part, and between the two.
  abbrev pub opened : Run → Run
  opened r =
      add (write_end r.pipes) (emit (open_pipe r.pipes ∷ []) (record r { pipes = r.pipes + 1 }))

  abbrev pub between : ℕ → Run → Run
  between n r =
      add (read_end n)
        (emit (close_write n ∷ []) (record r { rewirings = without_last r.rewirings }))

  -- The end of that branch: `~Pipe` closes the read end, the write end being closed already.
  abbrev pub closed : ℕ → Run → Run
  closed n r = emit (close_read n ∷ []) r

  pub execute : Value → Run → Run
  execute (builtin f args) r = emit (change args) r
  execute (job path args) r = emit (job_events path args r.rewirings) r
  execute (list_value vs) r = r
  execute (pipe_value lhs rhs) r =
      closed r.pipes (execute rhs (between r.pipes (execute lhs (opened r))))
  execute (string_value s) r = r
