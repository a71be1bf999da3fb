-- ===== src/Config/Watchers.antt =====
-- Who watches a domain, and who is told of an update.
use umbongo.Base.{
  ℕ, ◌+◌, ◌≡◌, refl, sym, ap, subst, ==_iff, ◌∙◌, List, [], ◌∷◌, ◌++◌, map, Option, some, Bool,
  false, ◌&&◌, ◌||◌, ◌==◌, if◌then◌else◌, Bool-cases, Option-cases, inl, inr, arith,
}
use umbongo.Strings.{same_view}
use umbongo.Config.{Domain, update_pairs, watch, is_watching, open_domain}
use umbongo.Config.Requests.{
  Request, list_all, lookup_key, read_domain, update_key, watch_domain, unknown, Reply,
  notify_change, Sends, update, update_all, watch_all, answer,
}

abbrev pub AreDistinct : List ℕ → Type 0
AreDistinct [] = Unit
AreDistinct (watcher ∷ watchers) = (is_watching watcher watchers ≡ false) × AreDistinct watchers

-- In each domain no client is held twice.
abbrev pub AreWatched : List Domain → Type 0
AreWatched [] = Unit
AreWatched (domain ∷ domains) = AreDistinct domain.watchers × AreWatched domains

is_watching-append :
    (c d : ℕ) (watchers : List ℕ)
    → is_watching c (watchers ++ d ∷ []) ≡ (is_watching c watchers || d == c)
unfolding is_watching
is_watching-append c d [] = ground arith
is_watching-append c d (w ∷ watchers) = ground (arith, is_watching-append c d watchers)

append-AreDistinct :
    (c : ℕ) (watchers : List ℕ)
    → is_watching c watchers ≡ false
    → AreDistinct watchers
    → AreDistinct (watchers ++ c ∷ [])
unfolding is_watching
append-AreDistinct c [] fresh h = (refl, tt)
append-AreDistinct c (w ∷ watchers) fresh h = (
  ground (arith, is_watching-append w c watchers, h.0),
  append-AreDistinct c watchers (ground (arith, fresh)) h.1,
)

watch-AreDistinct :
    (client : ℕ) (domain : Domain)
    → AreDistinct domain.watchers
    → AreDistinct (watch client domain).watchers
unfolding watch
watch-AreDistinct client domain h = elim (Bool-cases (is_watching client domain.watchers)) [
  | inl old ↦ rw old h
  | inr fresh ↦ rw fresh (append-AreDistinct client domain.watchers fresh h)
]

watch_all-AreWatched :
    (client : ℕ) (name : List ℕ) (domains : List Domain)
    → AreWatched domains
    → AreWatched (watch_all client name domains)
unfolding watch_all
watch_all-AreWatched client name [] h = tt
watch_all-AreWatched client name (domain ∷ domains) (here, rest) =
    let rest' = watch_all-AreWatched client name domains rest in
    elim (Bool-cases (same_view domain.name name)) [
      | inl same ↦ rw same (watch-AreDistinct client domain here, rest')
      | inr other ↦ rw other (here, rest')
    ]

update-watchers :
    (key value : List ℕ) (domain : Domain) → (update key value domain).1.watchers ≡ domain.watchers
unfolding update
update-watchers key value domain = ground arith

update_all-AreWatched :
    (name key value : List ℕ) (domains : List Domain)
    → AreWatched domains
    → AreWatched (update_all name key value domains).1
unfolding update_all
update_all-AreWatched name key value [] h = tt
update_all-AreWatched name key value (domain ∷ domains) (here, rest) =
    let rest' = update_all-AreWatched name key value domains rest in
    let same = update-watchers key value domain in
    elim (Bool-cases (same_view domain.name name && (update key value domain).0)) [
      | inl hit ↦ rw hit ((rw same here), rest)
      | inr other ↦ rw other (here, rest')
    ]

append-AreWatched :
    (domains : List Domain) (domain : Domain)
    → AreWatched domains
    → AreDistinct domain.watchers
    → AreWatched (domains ++ domain ∷ [])
append-AreWatched [] domain h h' = (h', tt)
append-AreWatched (d ∷ domains) domain (here, rest) h' =
    (here, append-AreWatched domains domain rest h')

open_domain-watchers :
    (config_file : List ℕ → Option (List ℕ)) (name : List ℕ) (domain : Domain)
    → open_domain config_file name ≡ some domain
    → domain.watchers ≡ []
unfolding open_domain
open_domain-watchers config_file name domain h = ground arith

-- A step of the server keeps its watchers: where no client is held twice by a domain, none is after
-- any request of any client.
pub answer-AreWatched :
    (config_file : List ℕ → Option (List ℕ)) (client : ℕ) (request : Request)
    (domains : List Domain) (result : Bool × List Domain × Sends)
    → answer config_file client request domains ≡ some result
    → AreWatched domains
    → AreWatched result.1
unfolding answer
answer-AreWatched config_file client list_all domains result e h =
    subst (λ r. AreWatched r) (ground arith) h
answer-AreWatched config_file client (lookup_key name key) domains result e h =
    subst (λ r. AreWatched r) (ground arith) h
answer-AreWatched config_file client (read_domain name) domains result e h =
    elim (Option-cases (open_domain config_file name)) [
      | inl closed ↦ absurd (ground (arith, closed))
      | inr (domain, opened) ↦
          let empty = open_domain-watchers config_file name domain opened in
          let last : AreDistinct domain.watchers = rw empty tt in
          subst (λ r. AreWatched r) (ground (arith, opened))
            (append-AreWatched domains domain h last)
    ]
answer-AreWatched config_file client (update_key name key value) domains result e h =
    subst (λ r. AreWatched r) (ground arith) (update_all-AreWatched name key value domains h)
answer-AreWatched config_file client (watch_domain name) domains result e h =
    subst (λ r. AreWatched r) (ground arith) (watch_all-AreWatched client name domains h)
answer-AreWatched config_file client (unknown kind) domains result e h =
    subst (λ r. AreWatched r) (ground arith) h

-- How often a client is told of a change.
abbrev pub told : ℕ → Sends → ℕ
told client [] = 0
told client (sent ∷ sends) = (if sent.0 == client then 1 else 0) + told client sends

told-notifications :
    (client : ℕ) (reply : Reply) (watchers : List ℕ)
    → AreDistinct watchers
    → told client (map (λ watcher. (watcher, reply)) watchers)
      ≡ (if is_watching client watchers then 1 else 0)
unfolding is_watching
told-notifications client reply [] h = refl
told-notifications client reply (w ∷ watchers) (fresh, h) =
    let rest = told-notifications client reply watchers h in
    elim (Bool-cases (w == client)) [
      | inl same ↦
          let other : is_watching client watchers ≡ false =
            sym (ap (λ c. is_watching c watchers) ((==_iff w client).0 same)) ∙ fresh in
          rw (rest, other, same) refl
      | inr differs ↦ ground (arith, differs, rest)
    ]

-- An update of a key that the domain has tells each of its watchers once, and nobody else; one of a
-- key that it does not have tells nobody. No client is held twice by the domain.
pub told-update :
    (client : ℕ) (key value : List ℕ) (domain : Domain)
    → AreDistinct domain.watchers
    → told client (update key value domain).2
      ≡ (if (update key value domain).0 && is_watching client domain.watchers then 1 else 0)
unfolding update
told-update client key value domain h =
    elim (Bool-cases (update_pairs key value domain.key_values).0) [
      | inl found ↦ rw found (told-notifications client (notify_change key value) domain.watchers h)
      | inr missing ↦ rw missing refl
    ]
