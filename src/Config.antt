-- ===== src/Config.antt =====
-- servers/config/main.cc: a domain of the configuration, the server's state, and what the server
-- does with one request. A client is the number of its object; a file's contents are a parameter.
pub mod Parse
pub mod Print
pub mod Requests
pub mod Wire
pub mod Transport
pub mod Serve
pub mod Dispatched
pub mod Replies
pub mod Lookup
pub mod Watchers
mod Tests
use umbongo.Base.{
  ℕ, ◌+◌, List, [], ◌∷◌, ◌++◌, Option, none, some, Bool, true, false, ◌||◌, ◌==◌, if◌then◌else◌,
}
use umbongo.Strings.{same_view, substr, substr_from}
use umbongo.Base.Panic.{◌>>=◌}

pub record KeyValue : Type 0 where
  pub key : List ℕ
  pub value : List ℕ

pub record Domain : Type 0 where
  pub name : List ℕ
  pub key_values : List KeyValue
  pub watchers : List ℕ

-- The loop that cuts the file into lines, from some place on: the line there and those behind it.
unfoldable pub lines_from : List ℕ → List ℕ × List (List ℕ)
lines_from [] = ([], [])
lines_from (ch ∷ source) =
    let rest = lines_from source in
    if ch == 10 then ([], rest.0 ∷ rest.1) else (ch ∷ rest.0, rest.1)

abbrev pub lines_of : List ℕ → List (List ℕ)
lines_of source = (lines_from source).0 ∷ (lines_from source).1

-- `equal_index` after its loop.
unfoldable pub equal_index : List ℕ → ℕ
equal_index [] = 0
equal_index (ch ∷ line) = let rest = equal_index line in if ch == 61 then 0 else rest + 1

-- `line.empty() || line[0] == '#'`
abbrev pub is_skipped : List ℕ → Bool
is_skipped [] = true
is_skipped (ch ∷ line) = ch == 35

unfoldable pub parse_pair : List ℕ → Option KeyValue
parse_pair line = substr 0 (equal_index line) line >>= λ key.
    substr_from (equal_index line + 1) line >>= λ value. some (record { key = key; value = value })

-- The loop over the lines.
unfoldable pub parse_lines : List (List ℕ) → Option (List KeyValue)
parse_lines [] = some []
parse_lines (line ∷ lines) =
    let rest = parse_lines lines in
    if is_skipped line
    then rest
    else (parse_pair line >>= λ pair. rest >>= λ pairs. some (pair ∷ pairs))

unfoldable pub parse : List ℕ → Option (List KeyValue)
parse source = parse_lines (lines_of source)

-- `Domain::Domain`, which panics when there is no such file.
unfoldable pub open_domain : (List ℕ → Option (List ℕ)) → List ℕ → Option Domain
open_domain config_file name = config_file name >>= parse >>= λ pairs.
    some (record { name = name; key_values = pairs; watchers = [] })

-- `Domain::lookup` and the loop of `Domain::update`, which tells whether it found the key.
unfoldable pub lookup_pairs : List ℕ → List KeyValue → Option (List ℕ)
lookup_pairs key [] = none
lookup_pairs key (pair ∷ pairs) =
    let rest = lookup_pairs key pairs in if same_view pair.key key then some pair.value else rest

unfoldable pub update_pairs : List ℕ → List ℕ → List KeyValue → Bool × List KeyValue
update_pairs key value [] = (false, [])
update_pairs key value (pair ∷ pairs) =
    let rest = update_pairs key value pairs in
    if same_view pair.key key
    then (true, record pair { value = value } ∷ pairs)
    else (rest.0, pair ∷ rest.1)

abbrev pub lookup : List ℕ → Domain → Option (List ℕ)
lookup key domain = lookup_pairs key domain.key_values

-- `watcher == &client` for one of the watchers.
unfoldable pub is_watching : ℕ → List ℕ → Bool
is_watching client [] = false
is_watching client (watcher ∷ watchers) = watcher == client || is_watching client watchers

unfoldable pub watch : ℕ → Domain → Domain
watch client domain =
    if is_watching client domain.watchers
    then domain
    else record domain { watchers = domain.watchers ++ client ∷ [] }
