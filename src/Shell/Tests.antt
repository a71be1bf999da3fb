-- ===== src/Shell/Tests.antt =====
-- Lines that are lexed, parsed and run, and the shell's theorems at the line `ls -l | wc`.
use umbongo.Base.{ℕ, ◌+◌, ◌≡◌, ◌≢◌, refl, List, [], ◌∷◌, none, some, true}
use umbongo.Base.Outcome.{done, no_fuel}
use umbongo.Shell.Lexer.{Lexer, lexer, is_identifier_character, is_space}
use umbongo.Shell.Parser.{parse}
use umbongo.Shell.Parser.Ends.{parse-ne-no_fuel}
use umbongo.Shell.Parser.RoundTrip.{Words, AreWords, line, tree, parse-line}
use umbongo.Shell.Eval.{System}
use umbongo.Shell.Eval.Pipeline.{run_line, pipeline_events, run_line-line}

abbrev ls : List ℕ
ls = 108 ∷ 115 ∷ []

abbrev dash_l : List ℕ
dash_l = 45 ∷ 108 ∷ []

abbrev wc : List ℕ
wc = 119 ∷ 99 ∷ []

abbrev ls_words : Words
ls_words = record { first = ls; others = dash_l ∷ [] }

abbrev wc_words : Words
wc_words = record { first = wc; others = [] }

-- `ls -l | wc`
abbrev text : List ℕ
text = line ls_words (wc_words ∷ [])

ls_words-AreWords : AreWords ls_words
unfolding is_identifier_character is_space
ls_words-AreWords = ((refl, refl, refl, (refl, tt)), ((refl, refl, refl, (refl, tt)), tt))

wc_words-AreWords : AreWords wc_words
unfolding is_identifier_character is_space
wc_words-AreWords = ((refl, refl, refl, (refl, tt)), tt)

-- The first pipe has the descriptors 3 and 4, the next 5 and 6; all programs can be started
-- and all directories entered.
abbrev sys : System
sys = record {
  read_fd = λ n. n + n + 3;
  write_fd = λ n. n + n + 4;
  starts = λ path. true;
  change_error = λ dir. none;
}

text-eq : text ≡ 108 ∷ 115 ∷ 32 ∷ 45 ∷ 108 ∷ 32 ∷ 124 ∷ 32 ∷ 119 ∷ 99 ∷ []
text-eq = refl

parse-ne-no_fuel_example : parse (lexer text) ≢ no_fuel
parse-ne-no_fuel_example = parse-ne-no_fuel (lexer text)

parse-line_example : (l : Lexer) × (parse (lexer text) ≡ done (tree ls_words (wc_words ∷ []), l))
parse-line_example = parse-line ls_words (wc_words ∷ []) ls_words-AreWords (wc_words-AreWords, tt)

run_line-line_example : run_line sys text ≡ some (pipeline_events sys 0 [] ls_words (wc_words ∷ []))
run_line-line_example =
    run_line-line sys ls_words (wc_words ∷ []) ls_words-AreWords (wc_words-AreWords, tt)
