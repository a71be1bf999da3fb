-- ===== src/Shell/Eval/Pipeline.antt =====
-- From a line of text to the system calls: what a pipeline of commands does.
use umbongo.Base.{
  ℕ, ◌+◌, ◌≡◌, refl, ap, ◌∙◌, List, [], ◌∷◌, ◌++◌, append_assoc, Option, none, some, false, ◌==◌,
  arith, Bool-cases, inl, inr, if◌then◌else◌,
}
use umbongo.Base.Outcome
use umbongo.Base.Outcome.{done}
use umbongo.Base.Panic.{◌>>=◌}
use umbongo.Shell.Lexer.{is_identifier_character, lexer}
use umbongo.Shell.Lexer.Words.{All, IsInner, IsWord}
use umbongo.Shell.Parser.{parse}
use umbongo.Shell.Parser.RoundTrip.{Words, AreWords, line, literals, command_tree, tree, parse-line}
use umbongo.Shell.Eval.{
  Value, Values, builtin, cd, job, pipe_value, string_value, c_string, same_text,
  build_string_vector, build_all, bin, cd_name, command_value, evaluate, evaluate_all, FdPair,
  Event, open_pipe, close_write, close_read, System, Run, without_last, change, job_events,
  write_end, read_end, opened, between, execute,
}

-- The value of a command, and of a pipeline of commands.
abbrev command_of : Words → Value
command_of c =
    if same_text c.first cd_name
    then builtin cd (c.first ∷ c.others)
    else job (bin ++ c.first) (c.first ∷ c.others)

abbrev value_of : Words → List Words → Value
value_of c [] = command_of c
value_of c (d ∷ ds) = pipe_value (command_of c) (value_of d ds)

inner-ne-zero : (ch : ℕ) → IsInner ch → (ch == 0) ≡ false
unfolding is_identifier_character
inner-ne-zero ch h = ground arith

c_string-inner : (s : List ℕ) → All IsInner s → c_string s ≡ s
c_string-inner [] h = refl
c_string-inner (ch ∷ s) h = rw (inner-ne-zero ch h.0, c_string-inner s h.1)

c_string-word : (w : List ℕ) → IsWord w → c_string w ≡ w
c_string-word [] h = absurd h
c_string-word (ch ∷ w) h = c_string-inner (ch ∷ w) (h.2, h.3)

-- The string values of words, and the arguments that are made of them.
abbrev strings : List (List ℕ) → Values
strings [] = Values.empty
strings (w ∷ ws) = Values.push (string_value w) (strings ws)

evaluate-literals : (ws : List (List ℕ)) → evaluate_all (literals ws) ≡ some (strings ws)
unfolding evaluate_all
evaluate-literals [] = refl
evaluate-literals (w ∷ ws) = rw (evaluate-literals ws)

build-strings : (ws : List (List ℕ)) → All IsWord ws → build_all (strings ws) ≡ some ws
unfolding build_all
build-strings [] h = refl
build-strings (w ∷ ws) h = rw (build-strings ws h.1, c_string-word w h.0)

evaluate-command : (c : Words) → AreWords c → evaluate (command_tree c) ≡ some (command_of c)
unfolding evaluate build_string_vector command_value
evaluate-command c h =
    rw (evaluate-literals c.others, build-strings c.others h.1, c_string-word c.first h.0)
      (ground arith)

evaluate-tree :
    (c : Words) (cs : List Words)
    → AreWords c
    → All AreWords cs
    → evaluate (tree c cs) ≡ some (value_of c cs)
unfolding evaluate
evaluate-tree c [] h hs = evaluate-command c h
evaluate-tree c (d ∷ ds) h hs = rw (evaluate-command c h, evaluate-tree d ds hs.0 hs.1)

without_last-append {ℓ} : {A : Type ℓ} (xs : List A) (x : A) → without_last (xs ++ x ∷ []) ≡ xs
without_last-append [] x = refl
without_last-append (y ∷ []) x = refl
without_last-append (y ∷ z ∷ xs) x = ap (λ t. y ∷ t) (without_last-append (z ∷ xs) x)

module _ (sys : System) where
  -- What a command does with the descriptors that it is given.
  abbrev pub command_events : Words → List FdPair → List Event
  command_events c fds =
      if same_text c.first cd_name
      then change sys (c.first ∷ c.others)
      else job_events sys (bin ++ c.first) (c.first ∷ c.others) fds

  -- What a pipeline does whose first pipe is the system's `n`-th: each command but the last writes to
  -- a pipe of its own, which is closed for writing once the command has ended and for reading once all
  -- commands behind it have; and each command is given the read ends of all pipes before it, in order.
  abbrev pub pipeline_events : ℕ → List FdPair → Words → List Words → List Event
  pipeline_events n fds c [] = command_events c fds
  pipeline_events n fds c (d ∷ ds) =
      open_pipe n
      ∷ (command_events c (fds ++ write_end sys n ∷ [])
          ++ (close_write n
              ∷ (pipeline_events (n + 1) (fds ++ read_end sys n ∷ []) d ds ++ close_read n ∷ [])))

  execute-command :
      (c : Words) (r : Run)
      → execute sys (command_of c) r
        ≡ record r { events = r.events ++ command_events c r.rewirings }
  unfolding execute
  execute-command c r = elim (Bool-cases (same_text c.first cd_name)) [
    | inl e ↦ rw e
    | inr e ↦ rw e
  ]

  -- The run of a pipe's first command, up to the second.
  after_first : Words → Run → Run
  after_first c r = record r {
    rewirings = r.rewirings ++ read_end sys r.pipes ∷ [];
    pipes = r.pipes + 1;
    events =
        r.events
        ++ (open_pipe r.pipes
            ∷ (command_events c (r.rewirings ++ write_end sys r.pipes ∷ [])
                ++ close_write r.pipes ∷ []));
  }

  between-command :
      (c : Words) (r : Run)
      → between sys r.pipes (execute sys (command_of c) (opened sys r)) ≡ after_first c r
  unfolding after_first
  between-command c r = rw (
    execute-command c (opened sys r),
    without_last-append r.rewirings (write_end sys r.pipes),
    append_assoc,
    append_assoc,
  )

  execute-pipeline :
      (c : Words) (cs : List Words) (r : Run)
      → (execute sys (value_of c cs) r).events
        ≡ r.events ++ pipeline_events r.pipes r.rewirings c cs
  unfolding execute after_first
  execute-pipeline c [] r = ap (λ (t : Run). t.events) (execute-command c r)
  execute-pipeline c (d ∷ ds) r =
      ap (λ (t : Run). (execute sys (value_of d ds) t).events ++ close_read r.pipes ∷ [])
        (between-command c r)
      ∙ ap (λ es. es ++ close_read r.pipes ∷ []) (execute-pipeline d ds (after_first c r))
      ∙ simp append_assoc

-- The body of the shell's loop once a line is there: `none` is a panic.
abbrev pub fresh_run : Run
fresh_run = record { rewirings = []; pipes = 0; events = [] }

pub run_line : System → List ℕ → Option (List Event)
run_line sys s = elim (parse (lexer s)) [
  | done (node, l) ↦ evaluate node >>= λ v. some (execute sys v fresh_run).events
  | Outcome.panic ↦ none
  | Outcome.no_fuel ↦ none
]

-- The text of a pipeline, its words set apart by single spaces and its commands by ` | `, runs
-- to the system calls of its commands: `/bin/` programs with their words as arguments, or a
-- change of directory for `cd`; each command but the last with the write end of a new pipe as
-- its output; each with the read ends of the pipes before it as its input. A pipe's write end is
-- closed when its command has ended, its read end when all commands behind it have, the last pipe's
-- first. A failed start or change of directory, and a `cd` of too many arguments, print a message.
-- Each word is one: not empty, not begun by a space character or a bar, and without a blank,
-- a bar, a line break or a zero.
pub run_line-line :
    (sys : System) (c : Words) (cs : List Words)
    → AreWords c
    → All AreWords cs
    → run_line sys (line c cs) ≡ some (pipeline_events sys 0 [] c cs)
unfolding run_line
run_line-line sys c cs h hs =
    let (l, parsed) = parse-line c cs h hs in
    rw (parsed, run_line)
      (rw (evaluate-tree c cs h hs) (ap some (execute-pipeline sys c cs fresh_run)))
