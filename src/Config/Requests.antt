-- ===== src/Config/Requests.antt =====
-- The message handler of servers/config/main.cc, after the request is decoded and before the
-- messages it sends are encoded.
use umbongo.Base.{
  ℕ, List, [], ◌∷◌, ◌++◌, map, Option, none, some, Bool, true, false, ◌&&◌, if◌then◌else◌,
}
use umbongo.Base.Panic.{◌>>=◌}
use umbongo.Strings.{same_view}
use umbongo.Config.{KeyValue, Domain, open_domain, lookup, update_pairs, watch}

pub data Request : Type 0 where
  list_all : Request
  lookup_key : List ℕ → List ℕ → Request
  read_domain : List ℕ → Request
  update_key : List ℕ → List ℕ → List ℕ → Request
  watch_domain : List ℕ → Request
  unknown : ℕ → Request

pub data Reply : Type 0 where
  notify_change : List ℕ → List ℕ → Reply
  list_all_response : List (List ℕ) → Reply
  lookup_response : List ℕ → Bool → Reply
  update_response : Bool → Reply

-- What is sent, and to whom.
abbrev pub Sends : Type 0
Sends = List (ℕ × Reply)

abbrev pub notifications : List ℕ → List ℕ → Domain → Sends
notifications key value domain = map (λ watcher. (watcher, notify_change key value)) domain.watchers

-- `Domain::update`
unfoldable pub update : List ℕ → List ℕ → Domain → Bool × Domain × Sends
update key value domain =
    let found = update_pairs key value domain.key_values in
    if found.0
    then (true, record domain { key_values = found.1 }, notifications key value domain)
    else (false, domain, [])

-- The loops over the domains.
unfoldable pub lookup_all : List ℕ → List ℕ → List Domain → Option (List ℕ)
lookup_all name key [] = none
lookup_all name key (domain ∷ domains) =
    let rest = lookup_all name key domains in
    if same_view domain.name name
    then elim (lookup key domain) [ some value ↦ some value | none ↦ rest ]
    else rest

unfoldable pub update_all : List ℕ → List ℕ → List ℕ → List Domain → Bool × List Domain × Sends
update_all name key value [] = (false, [], [])
update_all name key value (domain ∷ domains) =
    let rest = update_all name key value domains in
    let here = update key value domain in
    if same_view domain.name name && here.0
    then (true, here.1 ∷ domains, here.2)
    else (rest.0, domain ∷ rest.1, rest.2)

unfoldable pub watch_all : ℕ → List ℕ → List Domain → List Domain
watch_all client name [] = []
watch_all client name (domain ∷ domains) =
    (if same_view domain.name name then watch client domain else domain)
    ∷ watch_all client name domains

unfoldable pub watch_sends : ℕ → List ℕ → List Domain → Sends
watch_sends client name [] = []
watch_sends client name (domain ∷ domains) =
    let rest = watch_sends client name domains in
    if same_view domain.name name
    then map (λ (pair : KeyValue). (client, notify_change pair.key pair.value)) domain.key_values
      ++ rest
    else rest

-- `format("{}.{}={}", name, key, value)`
abbrev pub listed : List ℕ → KeyValue → List ℕ
listed name pair = name ++ 46 ∷ (pair.key ++ 61 ∷ pair.value)

unfoldable pub list_domains : List Domain → List (List ℕ)
list_domains [] = []
list_domains (domain ∷ domains) = map (listed domain.name) domain.key_values ++ list_domains domains

abbrev pub lookup_reply : Option (List ℕ) → Reply
lookup_reply none = lookup_response [] false
lookup_reply (some value) = lookup_response value true

-- The switch of the handler: whether it is content with the request, the domains and what is sent.
-- A panic has no result.
unfoldable pub answer :
    (List ℕ → Option (List ℕ)) → ℕ → Request → List Domain → Option (Bool × List Domain × Sends)
answer config_file client (read_domain name) domains =
    open_domain config_file name >>= λ domain. some (true, domains ++ domain ∷ [], [])
answer config_file client list_all domains =
    some (true, domains, (client, list_all_response (list_domains domains)) ∷ [])
answer config_file client (lookup_key name key) domains =
    some (true, domains, (client, lookup_reply (lookup_all name key domains)) ∷ [])
answer config_file client (update_key name key value) domains =
    let done = update_all name key value domains in
    some (true, done.1, done.2 ++ (client, update_response done.0) ∷ [])
answer config_file client (watch_domain name) domains =
    some (true, watch_all client name domains, watch_sends client name domains)
answer config_file client (unknown kind) domains = some (false, domains, [])
