-- ===== src/Config/Replies.antt =====
-- The replies of the configuration server, as its clients in libs/config/config.cc take them apart.
use umbongo.Base.{
  ℕ, ◌+◌, ◌<◌, ◌≤◌, ◌^◌, ◌≡◌, refl, sym, ap, ◌∙◌, List, [], ◌∷◌, ◌++◌, map, Option, none, some,
  ◌==◌, not, if◌then◌else◌, length, arith, append-nil, length-append, length-replicate, replicate,
  copy_out-zero,
}
use umbongo.Messages.{encoder, to_bytes}
use umbongo.Messages.Bytes.{written}
use umbongo.Messages.RoundTrip.{Field, number, string, AreFields, message_bytes, encode_all-Wrote}
use umbongo.Config.Requests.{lookup_reply, list_all_response}
use umbongo.Config.Wire.{reply_fields, message_of, decode_lookup_response, decode_list_all_response}
use umbongo.Config.Transport.{
  end_of, Holds, bytes_then, bytes_then_lem, string-next, number-next, decode_strings-Holds,
}

message_of-fields :
    (fields : List Field)
    → length (message_bytes fields) < 8192
    → message_of fields ≡ some (message_bytes fields)
unfolding message_of
message_of-fields fields room =
    let clear : ℕ = 0 in
    let start : List ℕ = replicate 8192 clear in
    let size = length-replicate 8192 clear in
    let (e, ran, bytes, count, len) =
      encode_all-Wrote fields (encoder start) (omega (arith, size)) (omega (arith, size)) in
    let all : written e ≡ message_bytes fields =
      bytes ∙ ap (λ t. t ++ message_bytes fields) (copy_out-zero start 0) in
    rw ran (ap (λ t. some t) all)

message-Holds : (fields : List Field) → Holds (message_bytes fields) 0 (bytes_then fields [])
message-Holds fields =
    ([], (sym (append-nil (message_bytes fields)) ∙ bytes_then_lem fields [], refl))

decode_lookup_response-fields :
    (value : List ℕ) (byte : ℕ)
    → length value < 256 ^ 8
    → byte < 256 ^ 1
    → decode_lookup_response (message_bytes (number 4 4 ∷ string value ∷ number 1 byte ∷ []))
      ≡ some (if not (byte == 0) then some value else none)
unfolding decode_lookup_response
decode_lookup_response-fields value byte small small' =
    let fields : List Field = number 4 4 ∷ string value ∷ number 1 byte ∷ [] in
    let buffer : List ℕ = message_bytes fields in
    let (kind, h) =
      number-next 4 4 (string value ∷ number 1 byte ∷ []) buffer [] 0 (message-Holds fields)
        (omega arith) in
    let (text, h') =
      string-next value (number 1 byte ∷ []) buffer [] (0 + length (to_bytes 4 4)) h small in
    let (present, _) =
      number-next 1 byte [] buffer [] (end_of 0 (number 4 4 ∷ string value ∷ [])) h' small' in
    rw kind (rw text (rw present refl))

length-string :
    (value : List ℕ) (fields : List Field)
    → length value ≤ length (message_bytes (number 4 4 ∷ string value ∷ fields))
length-string value fields = omega (
  arith,
  length-append (to_bytes 4 4) (message_bytes (string value ∷ fields)),
  length-append (to_bytes 8 (length value) ++ value) (message_bytes fields),
  length-append (to_bytes 8 (length value)) value,
)

-- A looked up value, or that there is none, is what the client gets. The message is shorter than
-- the buffer of 8192 bytes.
pub lookup-arrives :
    (found : Option (List ℕ))
    → length (message_bytes (reply_fields (lookup_reply found))) < 8192
    → (bytes : List ℕ) × ((message_of (reply_fields (lookup_reply found)) ≡ some bytes)
        × (decode_lookup_response bytes ≡ some found))
lookup-arrives none room = (
  message_bytes (reply_fields (lookup_reply none)),
  (
    message_of-fields (reply_fields (lookup_reply none)) room,
    decode_lookup_response-fields [] 0 (omega arith) (omega arith),
  ),
)
lookup-arrives (some value) room =
    let short : length value < 256 ^ 8 = omega (arith, length-string value (number 1 1 ∷ [])) in
    (
      message_bytes (reply_fields (lookup_reply (some value))),
      (
        message_of-fields (reply_fields (lookup_reply (some value))) room,
        decode_lookup_response-fields value 1 short (omega arith),
      ),
    )

-- So are the pairs that the server lists. Their number is below 2^32, each text is shorter than
-- 2^64, and the message is shorter than the buffer.
pub list_all-arrives :
    (list : List (List ℕ))
    → AreFields (reply_fields (list_all_response list))
    → length (message_bytes (reply_fields (list_all_response list))) < 8192
    → (bytes : List ℕ) × ((message_of (reply_fields (list_all_response list)) ≡ some bytes)
        × (decode_list_all_response bytes ≡ some list))
unfolding decode_list_all_response
list_all-arrives list (k, (count, texts)) room =
    let fields : List Field = reply_fields (list_all_response list) in
    let buffer : List ℕ = message_bytes fields in
    let (kind, h) =
      number-next 4 2 (number 4 (length list) ∷ map string list) buffer [] 0 (message-Holds fields)
        (omega arith) in
    let (size, h') =
      number-next 4 (length list) (map string list) buffer [] (0 + length (to_bytes 4 2)) h count in
    let strings =
      decode_strings-Holds list buffer [] (end_of 0 (number 4 2 ∷ number 4 (length list) ∷ [])) h'
        texts in
    (buffer, (message_of-fields fields room, rw kind (rw size strings)))
