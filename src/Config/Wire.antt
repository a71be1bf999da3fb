-- ===== src/Config/Wire.antt =====
-- libs/config/ipc_messages.hh: the bytes of the requests and replies, and how the handler of
-- servers/config/main.cc and the client in libs/config/config.cc take them apart.
use umbongo.Base.{
  ℕ, zero, suc, List, [], ◌∷◌, map, Option, none, some, Bool, true, false, ◌==◌, not, if◌then◌else◌,
  length, replicate, copy_out,
}
use umbongo.Base.Panic.{◌>>=◌, ◌>>◌, assert}
use umbongo.Messages.{MessageDecoder, encoder, decoder, decode_number, decode_string}
use umbongo.Messages.RoundTrip.{Field, number, string, encode_all}
use umbongo.Config.Requests.{
  Request, list_all, lookup_key, read_domain, update_key, watch_domain, unknown, Reply,
  notify_change, list_all_response, lookup_response, update_response,
}

-- `MessageKind`
pub data MessageKind : Type 0 where
  notify_change_kind : MessageKind
  list_all_kind : MessageKind
  list_all_response_kind : MessageKind
  lookup_kind : MessageKind
  lookup_response_kind : MessageKind
  read_kind : MessageKind
  update_kind : MessageKind
  update_response_kind : MessageKind
  watch_kind : MessageKind

abbrev pub code : MessageKind → ℕ
code notify_change_kind = 0
code list_all_kind = 1
code list_all_response_kind = 2
code lookup_kind = 3
code lookup_response_kind = 4
code read_kind = 5
code update_kind = 6
code update_response_kind = 7
code watch_kind = 8

-- What the messages' `encode` functions encode, one after the other.
abbrev pub request_fields : Request → List Field
request_fields list_all = number 4 (code list_all_kind) ∷ []
request_fields (lookup_key name key) = number 4 (code lookup_kind) ∷ string name ∷ string key ∷ []
request_fields (read_domain name) = number 4 (code read_kind) ∷ string name ∷ []
request_fields (update_key name key value) =
    number 4 (code update_kind) ∷ string name ∷ string key ∷ string value ∷ []
request_fields (watch_domain name) = number 4 (code watch_kind) ∷ string name ∷ []
request_fields (unknown kind) = number 4 kind ∷ []

abbrev pub byte_of : Bool → ℕ
byte_of true = 1
byte_of false = 0

abbrev pub reply_fields : Reply → List Field
reply_fields (notify_change key value) =
    number 4 (code notify_change_kind) ∷ string key ∷ string value ∷ []
reply_fields (list_all_response list) =
    number 4 (code list_all_response_kind) ∷ number 4 (length list) ∷ map string list
reply_fields (lookup_response value present) =
    number 4 (code lookup_response_kind) ∷ string value ∷ number 1 (byte_of present) ∷ []
reply_fields (update_response success) =
    number 4 (code update_response_kind) ∷ number 1 (byte_of success) ∷ []

abbrev message_size : ℕ
message_size = 8192

-- `Client::send_message` of a message up to the call of the kernel: the bytes that are written.
unfoldable pub message_of : List Field → Option (List ℕ)
message_of fields = encode_all fields (encoder (replicate message_size 0)) >>= λ e.
    some (copy_out e.buffer 0 e.size)

-- The decodes of each case of the handler's switch.
unfoldable pub decode_case : ℕ → MessageDecoder → Option (Request × MessageDecoder)
decode_case kind d =
    if kind == code read_kind
    then (decode_string d >>= λ name. some (read_domain name.0, name.1))
    else if kind == code list_all_kind
    then some (list_all, d)
    else if kind == code lookup_kind
    then (decode_string d >>= λ name.
        decode_string name.1 >>= λ key. some (lookup_key name.0 key.0, key.1))
    else if kind == code update_kind
    then (decode_string d >>= λ name. decode_string name.1 >>= λ key.
        decode_string key.1 >>= λ value. some (update_key name.0 key.0 value.0, value.1))
    else if kind == code watch_kind
    then (decode_string d >>= λ name. some (watch_domain name.0, name.1))
    else some (unknown kind, d)

unfoldable pub decode_request : MessageDecoder → Option (Request × MessageDecoder)
decode_request d = decode_number 4 d >>= λ kind. decode_case kind.0 kind.1

-- `LookupResponseMessage::decode` and `value`, and `UpdateResponseMessage::decode`.
unfoldable pub decode_lookup_response : List ℕ → Option (Option (List ℕ))
decode_lookup_response buffer = decode_number 4 (decoder buffer) >>= λ kind.
    assert (kind.0 == code lookup_response_kind) >> decode_string kind.1 >>= λ value.
    decode_number 1 value.1 >>= λ present.
    some (if not (present.0 == 0) then some value.0 else none)

unfoldable pub decode_update_response : List ℕ → Option Bool
decode_update_response buffer = decode_number 4 (decoder buffer) >>= λ kind.
    assert (kind.0 == code update_response_kind) >> decode_number 1 kind.1 >>= λ success.
    some (not (success.0 == 0))

-- The strings of `ListAllResponseMessage::decode`, and the whole.
unfoldable pub decode_strings : ℕ → MessageDecoder → Option (List (List ℕ))
decode_strings zero d = some []
decode_strings (suc n) d =
    decode_string d >>= λ elem. decode_strings n elem.1 >>= λ list. some (elem.0 ∷ list)

unfoldable pub decode_list_all_response : List ℕ → Option (List (List ℕ))
decode_list_all_response buffer = decode_number 4 (decoder buffer) >>= λ kind.
    assert (kind.0 == code list_all_response_kind) >> decode_number 4 kind.1 >>= λ count.
    decode_strings count.0 count.1
