-- ===== src/Config/Tests.antt =====
-- A small configuration: "#c" and "k=v", and the requests of two clients.
use umbongo.Base.{
  ℕ, ◌≡◌, ◌↔◌, refl, List, [], ◌∷◌, ◌++◌, Option, none, some, Bool, true, ◌&&◌, if◌then◌else◌,
  length, arith,
}
use umbongo.Strings.{same_view}
use umbongo.Messages.{decoder}
use umbongo.Messages.RoundTrip.{message_bytes}
use umbongo.Messages.Dispatch.{outcome, on_read_ready}
use umbongo.Config.{KeyValue, Domain, lines_of, parse, is_watching, watch}
use umbongo.Config.Parse.{any_malformed, parse-none_iff}
use umbongo.Config.Print.{print, parse-print}
use umbongo.Config.Requests.{
  Request, lookup_key, watch_domain, list_all_response, lookup_reply, Sends, answer, lookup_all,
  update_all, watch_all, watch_sends, notify_change,
}
use umbongo.Config.Lookup.{lookup_all-update_all}
use umbongo.Config.Watchers.{AreWatched, answer-AreWatched}
use umbongo.Config.Wire.{
  request_fields, reply_fields, decode_request, message_of, decode_lookup_response,
  decode_list_all_response,
}
use umbongo.Config.Transport.{decode_request_lem}
use umbongo.Config.Replies.{lookup-arrives, list_all-arrives}
use umbongo.Config.Serve.{Served, handle}
use umbongo.Config.Dispatched.{requests_bytes, serve_all, on_read_ready-serves}

abbrev source : List ℕ
source = 35 ∷ 99 ∷ 10 ∷ 107 ∷ 61 ∷ 118 ∷ []

abbrev malformed : List ℕ
malformed = 107 ∷ []

abbrev pair : KeyValue
pair = record { key = 107 ∷ []; value = 118 ∷ [] }

abbrev domain : Domain
domain = record { name = 97 ∷ []; key_values = pair ∷ []; watchers = 7 ∷ 9 ∷ [] }

abbrev config_file : List ℕ → Option (List ℕ)
config_file name = some source

abbrev start : Served
start = record { domains = []; written = [] }

abbrev requests : List Request
requests = lookup_key (97 ∷ []) (107 ∷ []) ∷ []

parse_test : parse source ≡ some (pair ∷ [])
unfolding parse umbongo.Config.parse_lines umbongo.Config.lines_from umbongo.Config.parse_pair
    umbongo.Config.equal_index umbongo.Strings.substr umbongo.Strings.substr_from
parse_test = refl

parse-none_iff_example : (parse malformed ≡ none) ↔ (any_malformed (lines_of malformed) ≡ true)
parse-none_iff_example = parse-none_iff malformed (omega arith)

parse-print_example : parse (print (pair ∷ [])) ≡ some (pair ∷ [])
parse-print_example = parse-print (pair ∷ []) (refl, tt) (omega arith)

lookup_all-update_all_example :
    lookup_all (97 ∷ []) (107 ∷ []) (update_all (97 ∷ []) (107 ∷ []) (119 ∷ []) (domain ∷ [])).1 ≡ (
      if same_view (97 ∷ []) (97 ∷ [])
        && same_view (107 ∷ []) (107 ∷ [])
        && (update_all (97 ∷ []) (107 ∷ []) (119 ∷ []) (domain ∷ [])).0
      then some (119 ∷ [])
      else lookup_all (97 ∷ []) (107 ∷ []) (domain ∷ []))
lookup_all-update_all_example =
    lookup_all-update_all (97 ∷ []) (97 ∷ []) (107 ∷ []) (107 ∷ []) (119 ∷ []) (domain ∷ [])

abbrev watched : Domain
watched = record domain { watchers = 7 ∷ 9 ∷ 11 ∷ [] }

abbrev after_watch : Bool × List Domain × Sends
after_watch = (true, watched ∷ [], (11, notify_change (107 ∷ []) (118 ∷ [])) ∷ [])

watch_test : answer config_file 11 (watch_domain (97 ∷ [])) (domain ∷ []) ≡ some after_watch
unfolding answer watch_all watch_sends watch is_watching same_view
watch_test = refl

answer-AreWatched_example : AreWatched (watched ∷ [])
unfolding is_watching
answer-AreWatched_example =
    answer-AreWatched config_file 11 (watch_domain (97 ∷ [])) (domain ∷ []) after_watch watch_test
      ((refl, (refl, tt)), tt)

decode_request_lem_example :
    decode_request
      (decoder (message_bytes (request_fields (lookup_key (97 ∷ []) (107 ∷ []))) ++ 1 ∷ []))
    ≡ some (
      lookup_key (97 ∷ []) (107 ∷ []),
      record {
        buffer = message_bytes (request_fields (lookup_key (97 ∷ []) (107 ∷ []))) ++ 1 ∷ [];
        bytes_decoded = length (message_bytes (request_fields (lookup_key (97 ∷ []) (107 ∷ []))));
      },
    )
decode_request_lem_example =
    decode_request_lem (lookup_key (97 ∷ []) (107 ∷ [])) (1 ∷ []) refl
      (omega arith, (omega arith, (omega arith, tt)))

lookup-arrives_example :
    (bytes : List ℕ) × ((message_of (reply_fields (lookup_reply (some (118 ∷ [])))) ≡ some bytes)
      × (decode_lookup_response bytes ≡ some (some (118 ∷ []))))
unfolding umbongo.Messages.to_bytes
lookup-arrives_example = lookup-arrives (some (118 ∷ [])) (omega arith)

list_all-arrives_example :
    (bytes : List ℕ) × ((message_of (reply_fields (list_all_response ((118 ∷ []) ∷ [] ∷ [])))
        ≡ some bytes)
      × (decode_list_all_response bytes ≡ some ((118 ∷ []) ∷ [] ∷ [])))
unfolding umbongo.Messages.to_bytes
list_all-arrives_example =
    list_all-arrives ((118 ∷ []) ∷ [] ∷ [])
      (omega arith, (omega arith, (omega arith, (omega arith, tt)))) (omega arith)

on_read_ready-serves_example :
    on_read_ready 3
      (handle config_file 7)
      (requests_bytes requests ++ 1 ∷ [])
      (length (requests_bytes requests))
      start
    ≡ outcome (serve_all config_file 7 requests start)
unfolding umbongo.Messages.to_bytes
on_read_ready-serves_example =
    on_read_ready-serves config_file 7 3 (lookup_key (97 ∷ []) (107 ∷ [])) [] (1 ∷ []) start
      (refl, (omega arith, (omega arith, (omega arith, tt))), tt) (omega arith) (omega arith)
