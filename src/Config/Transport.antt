-- ===== src/Config/Transport.antt =====
-- Requests and replies arrive as they were sent.
use umbongo.Base.{
  ℕ, ◌+◌, ◌<◌, ◌^◌, ◌≡◌, refl, sym, ap, ◌∙◌, List, [], ◌∷◌, ◌++◌, map, some, Bool, true, false,
  length, arith, append_assoc, length-append,
}
use umbongo.Messages.{MessageDecoder, decoder, decode_number, decode_string, to_bytes}
use umbongo.Messages.Bytes.{length-to_bytes}
use umbongo.Messages.RoundTrip.{
  Field, number, string, AreFields, field_bytes, message_bytes, decode_number-append,
  decode_string-append,
}
use umbongo.Config.Requests.{
  Request, list_all, lookup_key, read_domain, update_key, watch_domain, unknown,
}
use umbongo.Config.Wire.{request_fields, decode_request, decode_case, decode_strings}

abbrev pub at : List ℕ → ℕ → MessageDecoder
at buffer position = record { buffer = buffer; bytes_decoded = position }

-- What lies behind a position of a buffer.
abbrev pub Holds : List ℕ → ℕ → List ℕ → Type 0
Holds buffer position rest =
    (before : List ℕ) × ((buffer ≡ before ++ rest) × (position ≡ length before))

Holds-step :
    (buffer bytes rest : List ℕ) (position : ℕ)
    → Holds buffer position (bytes ++ rest)
    → Holds buffer (position + length bytes) rest
Holds-step buffer bytes rest position (before, (shape, place)) = (
  before ++ bytes,
  (shape ∙ sym (append_assoc before bytes rest), omega (arith, place, length-append before bytes)),
)

decode_string-Holds :
    (buffer s rest : List ℕ) (position : ℕ)
    → Holds buffer position (field_bytes (string s) ++ rest)
    → length s < 256 ^ 8
    → decode_string (at buffer position)
      ≡ some (s, at buffer (position + length (field_bytes (string s))))
decode_string-Holds buffer s rest position (before, (shape, place)) small =
    rw shape (decode_string-append s before rest position place small)

decode_number-Holds :
    (n v position : ℕ) (buffer rest : List ℕ)
    → Holds buffer position (to_bytes n v ++ rest)
    → v < 256 ^ n
    → decode_number n (at buffer position) ≡ some (v, at buffer (position + length (to_bytes n v)))
decode_number-Holds n v position buffer rest (before, (shape, place)) small =
    rw (shape, length-to_bytes n v) (decode_number-append n v before rest position place small)

-- The bytes of some fields and of what follows them, and the position behind the fields.
abbrev pub bytes_then : List Field → List ℕ → List ℕ
bytes_then [] rest = rest
bytes_then (f ∷ fields) rest = field_bytes f ++ bytes_then fields rest

abbrev pub end_of : ℕ → List Field → ℕ
end_of position [] = position
end_of position (f ∷ fields) = end_of (position + length (field_bytes f)) fields

pub bytes_then_lem :
    (fields : List Field) (rest : List ℕ) → message_bytes fields ++ rest ≡ bytes_then fields rest
bytes_then_lem [] rest = refl
bytes_then_lem (f ∷ fields) rest =
    append_assoc (field_bytes f) (message_bytes fields) rest
    ∙ ap (λ t. field_bytes f ++ t) (bytes_then_lem fields rest)

end_of_lem :
    (position : ℕ) (fields : List Field)
    → end_of position fields ≡ position + length (message_bytes fields)
end_of_lem position [] = omega arith
end_of_lem position (f ∷ fields) =
    end_of_lem (position + length (field_bytes f)) fields
    ∙ omega (arith, length-append (field_bytes f) (message_bytes fields))

-- One decode, and where it leaves the buffer.
pub string-next :
    (s : List ℕ) (fields : List Field) (buffer rest : List ℕ) (p : ℕ)
    → Holds buffer p (bytes_then (string s ∷ fields) rest)
    → length s < 256 ^ 8
    → (decode_string (at buffer p) ≡ some (s, at buffer (p + length (field_bytes (string s)))))
      × Holds buffer (p + length (field_bytes (string s))) (bytes_then fields rest)
string-next s fields buffer rest p h small = (
  decode_string-Holds buffer s (bytes_then fields rest) p h small,
  Holds-step buffer (field_bytes (string s)) (bytes_then fields rest) p h,
)

pub number-next :
    (n v : ℕ) (fields : List Field) (buffer rest : List ℕ) (p : ℕ)
    → Holds buffer p (bytes_then (number n v ∷ fields) rest)
    → v < 256 ^ n
    → (decode_number n (at buffer p) ≡ some (v, at buffer (p + length (to_bytes n v))))
      × Holds buffer (p + length (to_bytes n v)) (bytes_then fields rest)
number-next n v fields buffer rest p h small = (
  decode_number-Holds n v p buffer (bytes_then fields rest) h small,
  Holds-step buffer (to_bytes n v) (bytes_then fields rest) p h,
)

-- A request that the server knows.
abbrev pub is_known : Request → Bool
is_known (unknown kind) = false
is_known request = true

decode_request-Holds :
    (request : Request) (buffer rest : List ℕ) (p : ℕ)
    → Holds buffer p (bytes_then (request_fields request) rest)
    → is_known request ≡ true
    → AreFields (request_fields request)
    → decode_request (at buffer p) ≡ some (request, at buffer (end_of p (request_fields request)))
unfolding decode_request decode_case
decode_request-Holds list_all buffer rest p h known (k, _) =
    rw ((number-next 4 1 [] buffer rest p h k).0) refl
decode_request-Holds (read_domain name) buffer rest p h known (k, (n, _)) =
    let (kind, h') = number-next 4 5 (string name ∷ []) buffer rest p h k in
    let (first, _) = string-next name [] buffer rest (end_of p (number 4 5 ∷ [])) h' n in
    rw kind (rw first refl)
decode_request-Holds (watch_domain name) buffer rest p h known (k, (n, _)) =
    let (kind, h') = number-next 4 8 (string name ∷ []) buffer rest p h k in
    let (first, _) = string-next name [] buffer rest (end_of p (number 4 8 ∷ [])) h' n in
    rw kind (rw first refl)
decode_request-Holds (lookup_key name key) buffer rest p h known (k, (n, (n', _))) =
    let (kind, h') = number-next 4 3 (string name ∷ string key ∷ []) buffer rest p h k in
    let (first, h'') =
      string-next name (string key ∷ []) buffer rest (end_of p (number 4 3 ∷ [])) h' n in
    let (second, _) =
      string-next key [] buffer rest (end_of p (number 4 3 ∷ string name ∷ [])) h'' n' in
    rw kind (rw first (rw second refl))
decode_request-Holds (update_key name key value) buffer rest p h known (k, (n, (n', (n'', _)))) =
    let texts = string name ∷ string key ∷ string value ∷ [] in
    let (kind, h') = number-next 4 6 texts buffer rest p h k in
    let (first, h'') =
      string-next name (string key ∷ string value ∷ []) buffer rest (end_of p (number 4 6 ∷ [])) h'
        n in
    let (second, h''') =
      string-next key (string value ∷ []) buffer rest (end_of p (number 4 6 ∷ string name ∷ [])) h''
        n' in
    let (third, _) =
      string-next value [] buffer rest (end_of p (number 4 6 ∷ string name ∷ string key ∷ [])) h'''
        n'' in
    rw kind (rw first (rw second (rw third refl)))
decode_request-Holds (unknown kind) buffer rest p h known fields = absurd (ground (arith, known))

-- A known request is decoded from its bytes, whatever lies behind them, and they are all taken. Each
-- of its texts is shorter than 2^64.
pub decode_request_lem :
    (request : Request) (rest : List ℕ)
    → is_known request ≡ true
    → AreFields (request_fields request)
    → decode_request (decoder (message_bytes (request_fields request) ++ rest))
      ≡ some (
        request,
        record {
          buffer = message_bytes (request_fields request) ++ rest;
          bytes_decoded = length (message_bytes (request_fields request));
        },
      )
decode_request_lem request rest known fields =
    let fs = request_fields request in
    let buffer = message_bytes (request_fields request) ++ rest in
    let placed : Holds (message_bytes (request_fields request) ++ rest) 0
        (bytes_then (request_fields request) rest) =
      ([], (bytes_then_lem (request_fields request) rest, refl)) in
    let end : end_of 0 (request_fields request) ≡ length (message_bytes (request_fields request)) =
      end_of_lem 0 (request_fields request) ∙ omega arith in
    decode_request-Holds request buffer rest 0 placed known fields
    ∙ ap (λ t. some (request, at (message_bytes (request_fields request) ++ rest) t)) end

pub decode_strings-Holds :
    (list : List (List ℕ)) (buffer rest : List ℕ) (p : ℕ)
    → Holds buffer p (bytes_then (map string list) rest)
    → AreFields (map string list)
    → decode_strings (length list) (at buffer p) ≡ some list
unfolding decode_strings
decode_strings-Holds [] buffer rest p h fields = refl
decode_strings-Holds (s ∷ list) buffer rest p h (small, fields) =
    let (first, h') = string-next s (map string list) buffer rest p h small in
    rw first (
      rw (decode_strings-Holds list buffer rest (p + length (field_bytes (string s))) h' fields)
        refl)
