-- ===== src/Config/Dispatched.antt =====
-- The requests that one read brings are served in order.
use umbongo.Base.{
  ℕ, zero, suc, ◌+◌, ◌-◌, ◌<◌, ◌≤◌, ◌^◌, ◌≡◌, refl, sym, ap, ◌∙◌, List, [], ◌∷◌, ◌++◌, Option, none,
  some, Bool, true, false, ◌==◌, length, arith, append_assoc, length-append, take, drop, ltb,
  add_size, Option-cases, inl, inr, lt→ltb,
}
use umbongo.Base.Panic.{◌>>=◌}
use umbongo.Base.Outcome.{done, panic}
use umbongo.Messages.{MessageDecoder, decoder, to_bytes}
use umbongo.Messages.Dispatch.{Handler, outcome, dispatch, on_read_ready}
use umbongo.Messages.RoundTrip.{AreFields, message_bytes, string}
use umbongo.Config.Requests.{
  Request, answer, list_all, lookup_key, read_domain, update_key, watch_domain, unknown,
}
use umbongo.Config.Wire.{request_fields}
use umbongo.Config.Transport.{is_known, decode_request_lem}
use umbongo.Config.Serve.{Served, serve, handle}

-- The requests one after the other.
pub serve_all : (List ℕ → Option (List ℕ)) → ℕ → List Request → Served → Option (Bool × Served)
serve_all config_file client [] s = some (true, s)
serve_all config_file client (request ∷ requests) s =
    serve config_file client request s >>= λ r. serve_all config_file client requests r.1

abbrev pub requests_bytes : List Request → List ℕ
requests_bytes [] = []
requests_bytes (request ∷ requests) =
    message_bytes (request_fields request) ++ requests_bytes requests

-- Requests that the server knows, with texts that are shorter than 2^64.
abbrev pub AreRequests : List Request → Type 0
AreRequests [] = Unit
AreRequests (request ∷ requests) =
    (is_known request ≡ true) × AreFields (request_fields request) × AreRequests requests

take-append :
    (n : ℕ) (xs ys : List ℕ) → length xs ≤ n → take n (xs ++ ys) ≡ xs ++ take (n - length xs) ys
take-append n [] ys h = ap (λ m. take m ys) (omega arith)
take-append zero (x ∷ xs) ys h = absurd (omega arith)
take-append (suc n) (x ∷ xs) ys h =
    let shift : suc n - suc (length xs) ≡ n - length xs = omega arith in
    rw shift (ap (λ t. x ∷ t) (take-append n xs ys (omega arith)))

drop-append : (xs ys : List ℕ) → drop (length xs) (xs ++ ys) ≡ ys
drop-append [] ys = refl
drop-append (x ∷ xs) ys = drop-append xs ys

-- A known request is never answered with a disconnection.
answer-true :
    (config_file : List ℕ → Option (List ℕ)) (client : ℕ) (request : Request) (s s' : Served)
    (ok : Bool)
    → is_known request ≡ true
    → serve config_file client request s ≡ some (ok, s')
    → ok ≡ true
unfolding serve answer
answer-true config_file client list_all s s' ok known h = ground arith
answer-true config_file client (read_domain name) s s' ok known h = ground arith
answer-true config_file client (lookup_key name key) s s' ok known h = ground arith
answer-true config_file client (update_key name key value) s s' ok known h = ground arith
answer-true config_file client (watch_domain name) s s' ok known h = ground arith
answer-true config_file client (unknown kind) s s' ok known h = ground (arith, known)

-- One round of the loop.
handle-message :
    (config_file : List ℕ → Option (List ℕ)) (client : ℕ) (request : Request) (rest : List ℕ)
    (s : Served)
    → is_known request ≡ true
    → AreFields (request_fields request)
    → handle config_file client (decoder (message_bytes (request_fields request) ++ rest)) s ≡ (
        serve config_file client request s >>= λ r. some (
          r.0,
          record {
            buffer = message_bytes (request_fields request) ++ rest;
            bytes_decoded = length (message_bytes (request_fields request));
          },
          r.1,
        ))
unfolding handle
handle-message config_file client request rest s known fields =
    rw (decode_request_lem request rest known fields) refl

kind-positive : (kind : ℕ) (rest : List ℕ) → 0 < length (to_bytes 4 kind ++ rest)
unfolding to_bytes
kind-positive kind rest = omega arith

-- A request's bytes begin with its kind.
message_bytes-positive : (request : Request) → 0 < length (message_bytes (request_fields request))
message_bytes-positive list_all = kind-positive 1 []
message_bytes-positive (read_domain name) = kind-positive 5 (message_bytes (string name ∷ []))
message_bytes-positive (lookup_key name key) =
    kind-positive 3 (message_bytes (string name ∷ string key ∷ []))
message_bytes-positive (update_key name key value) =
    kind-positive 6 (message_bytes (string name ∷ string key ∷ string value ∷ []))
message_bytes-positive (watch_domain name) = kind-positive 8 (message_bytes (string name ∷ []))
message_bytes-positive (unknown kind) = kind-positive kind []

module _ {ℓ} {S : Type ℓ} (handler : Handler S) (buffer : List ℕ) (n position fuel : ℕ)
    (s : S) where
  dispatch-end :
      ltb position n ≡ false → dispatch (suc fuel) handler buffer n position s ≡ done (true, s)
  unfolding dispatch
  dispatch-end over = rw over refl

  dispatch-panic :
      ltb position n ≡ true
      → handler (decoder (take n (drop position buffer))) s ≡ none
      → dispatch (suc fuel) handler buffer n position s ≡ panic
  unfolding dispatch
  dispatch-panic inside h = rw (inside, h) refl

  dispatch-more :
      (d : MessageDecoder) (s' : S)
      → ltb position n ≡ true
      → handler (decoder (take n (drop position buffer))) s ≡ some (true, d, s')
      → (d.bytes_decoded == 0) ≡ false
      → dispatch (suc fuel) handler buffer n position s
        ≡ dispatch fuel handler buffer n (add_size position d.bytes_decoded) s'
  unfolding dispatch
  dispatch-more d s' inside h some_bytes = rw (inside, h, some_bytes) refl

-- What the loop hands to the handler: a request's bytes and some more.
span-append :
    (n : ℕ) (before bytes rest : List ℕ)
    → length bytes ≤ n
    → take n (drop (length before) (before ++ (bytes ++ rest)))
      ≡ bytes ++ take (n - length bytes) rest
span-append n before bytes rest h =
    rw (drop-append before (bytes ++ rest)) (take-append n bytes rest h)

dispatch-serves :
    (config_file : List ℕ → Option (List ℕ)) (client fuel n : ℕ) (requests : List Request)
    (before junk : List ℕ) (s : Served)
    → AreRequests requests
    → length requests < fuel
    → n ≡ length before + length (requests_bytes requests)
    → n < 2 ^ 64
    → dispatch fuel
        (handle config_file client)
        (before ++ (requests_bytes requests ++ junk))
        n
        (length before)
        s
      ≡ outcome (serve_all config_file client requests s)
unfolding serve_all
dispatch-serves config_file client zero n requests before junk s h fuel total small =
    absurd (omega arith)
dispatch-serves config_file client (suc fuel) n [] before junk s h enough total small =
    dispatch-end (handle config_file client) (before ++ junk) n (length before) fuel s
      (ground arith)
dispatch-serves config_file client (suc fuel) n (request ∷ requests) before junk s
      (known, fields, h) enough total small =
    let rest = dispatch-serves config_file client fuel n requests in
    let bytes : List ℕ = message_bytes (request_fields request) in
    let behind : List ℕ = requests_bytes requests ++ junk in
    let count = length-append (message_bytes (request_fields request)) (requests_bytes requests) in
    let positive = message_bytes-positive request in
    let inside : ltb (length before) n ≡ true = lt→ltb (length before) n (omega (arith, count)) in
    let shape : before ++ ((bytes ++ requests_bytes requests) ++ junk)
        ≡ before ++ (bytes ++ behind) =
      ap (λ t. before ++ t) (append_assoc bytes (requests_bytes requests) junk) in
    let handled =
      handle-message config_file client request (take (n - length bytes) behind) s known fields in
    let span = span-append n before bytes behind (omega (arith, count)) in
    let memory : List ℕ = before ++ (bytes ++ behind) in
    let got = ap (λ t. handle config_file client (decoder t) s) span ∙ handled in
    let round : dispatch (suc fuel) (handle config_file client) memory n (length before) s
        ≡ outcome (serve_all config_file client (request ∷ requests) s) =
      elim (Option-cases (serve config_file client request s)) [
        | inl stopped ↦
            let none_left = got ∙ rw stopped refl in
            rw stopped (
              dispatch-panic (handle config_file client) memory n (length before) fuel s inside
                none_left)
        | inr ((ok, s'), ran) ↦
            let content = answer-true config_file client request s s' ok known ran in
            let ran' : serve config_file client request s ≡ some (true, s') =
              ran ∙ ap (λ b. some (b, s')) content in
            let after : MessageDecoder = record {
              buffer = bytes ++ take (n - length bytes) behind;
              bytes_decoded = length bytes;
            } in
            let one =
              dispatch-more (handle config_file client) memory n (length before) fuel s after s'
                inside (got ∙ rw ran' refl) (ground arith) in
            let place : add_size (length before) (length bytes) ≡ length (before ++ bytes) =
              omega (arith, count, length-append before bytes) in
            let shape' : before ++ (bytes ++ behind) ≡ (before ++ bytes) ++ behind =
              sym (append_assoc before bytes behind) in
            let tail =
              rest (before ++ bytes) junk s' h (omega arith)
                (omega (arith, count, length-append before bytes)) small in
            let rest_round : dispatch fuel (handle config_file client) memory n
                  (add_size (length before) (length bytes)) s'
                ≡ outcome (serve_all config_file client requests s') =
              rw (place, shape') tail in
            rw ran' (one ∙ rest_round)
      ] in
    rw shape round

-- One read that brings the bytes of known requests, at least one and in the buffer before anything
-- else, serves them in order: the loop ends in as many rounds, panics if one of them does, and the
-- client stays connected otherwise. Their texts are shorter than 2^64, and so are their bytes.
pub on_read_ready-serves :
    (config_file : List ℕ → Option (List ℕ)) (client fuel : ℕ) (request : Request)
    (requests : List Request) (junk : List ℕ) (s : Served)
    → AreRequests (request ∷ requests)
    → length (request ∷ requests) < fuel
    → length (requests_bytes (request ∷ requests)) < 2 ^ 64
    → on_read_ready fuel
        (handle config_file client)
        (requests_bytes (request ∷ requests) ++ junk)
        (length (requests_bytes (request ∷ requests)))
        s
      ≡ outcome (serve_all config_file client (request ∷ requests) s)
unfolding on_read_ready
on_read_ready-serves config_file client fuel request requests junk s h enough small =
    let count = length-append (message_bytes (request_fields request)) (requests_bytes requests) in
    let positive = message_bytes-positive request in
    let some_read : (length (requests_bytes (request ∷ requests)) == 0) ≡ false =
      ground (arith, count, positive) in
    rw some_read (
      dispatch-serves config_file client fuel (length (requests_bytes (request ∷ requests)))
        (request ∷ requests) [] junk s h enough (omega arith) small)
