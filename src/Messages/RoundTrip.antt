-- ===== src/Messages/RoundTrip.antt =====
-- A message of numbers and strings is decoded to what was encoded.
use umbongo.Base.{
  ℕ, ◌+◌, ◌^◌, ◌<◌, ◌≡◌, refl, sym, ap, ◌∙◌, List, [], ◌∷◌, ◌++◌, append_assoc, append-nil, Option,
  some, arith, length, length-append, copy_out, copy_out-zero,
}
use umbongo.Base.Panic.{◌>>=◌}
use umbongo.Messages.{
  MessageEncoder, MessageDecoder, encoder, decoder, to_bytes, encode_bytes, encode_number,
  encode_string, decode_number, decode_string,
}
use umbongo.Messages.Bytes.{
  length-to_bytes, of_bytes-to_bytes, written, encode_bytes_lem, decode_bytes-append,
}

-- The fields of a message: a number of so many bytes, or a string.
pub data Field : Type 0 where
  number : ℕ → ℕ → Field
  string : List ℕ → Field

-- A number is held by its bytes; a string is not longer than a `size_t` tells.
abbrev pub IsField : Field → Type 0
IsField (number n v) = v < 256 ^ n
IsField (string s) = length s < 256 ^ 8

abbrev pub AreFields : List Field → Type 0
AreFields [] = Unit
AreFields (f ∷ fields) = IsField f × AreFields fields

abbrev pub encode_field : Field → MessageEncoder → Option MessageEncoder
encode_field (number n v) e = encode_number n v e
encode_field (string s) e = encode_string s e

pub encode_all : List Field → MessageEncoder → Option MessageEncoder
encode_all [] e = some e
encode_all (f ∷ fields) e = encode_field f e >>= encode_all fields

-- A decode of the kind of a field.
abbrev pub decode_like : Field → MessageDecoder → Option (Field × MessageDecoder)
decode_like (number n v) d = decode_number n d >>= λ r. some (number n r.0, r.1)
decode_like (string s) d = decode_string d >>= λ r. some (string r.0, r.1)

pub decode_all : List Field → MessageDecoder → Option (List Field × MessageDecoder)
decode_all [] d = some ([], d)
decode_all (f ∷ fields) d =
    decode_like f d >>= λ r. decode_all fields r.1 >>= λ rest. some (r.0 ∷ rest.0, rest.1)

abbrev pub field_bytes : Field → List ℕ
field_bytes (number n v) = to_bytes n v
field_bytes (string s) = to_bytes 8 (length s) ++ s

abbrev pub message_bytes : List Field → List ℕ
message_bytes [] = []
message_bytes (f ∷ fields) = field_bytes f ++ message_bytes fields

-- What an encoder is behind some bytes.
abbrev pub Wrote : List ℕ → MessageEncoder → Option MessageEncoder → Type 0
Wrote bytes e m =
    (f : MessageEncoder) × (m ≡ some f)
    × (written f ≡ written e ++ bytes)
    × (f.size ≡ e.size + length bytes)
    × (length f.buffer ≡ length e.buffer)

Wrote-then :
    (xs ys : List ℕ) (e : MessageEncoder) (m : Option MessageEncoder)
    (g : MessageEncoder → Option MessageEncoder)
    → Wrote xs e m
    → ((f : MessageEncoder)
        → f.size ≡ e.size + length xs
        → length f.buffer ≡ length e.buffer
        → Wrote ys f (g f))
    → Wrote (xs ++ ys) e (m >>= g)
Wrote-then xs ys e m g (f, ran, bytes, size, len) next =
    let (h, ran', bytes', size', len') = next f size len in
    (
      h,
      rw ran ran',
      bytes' ∙ ap (λ t. t ++ ys) bytes ∙ append_assoc (written e) xs ys,
      omega (arith, size, size', length-append xs ys),
      len' ∙ len,
    )

encode_field-Wrote :
    (f : Field) (e : MessageEncoder)
    → e.size + length (field_bytes f) < length e.buffer
    → length e.buffer < 2 ^ 64
    → Wrote (field_bytes f) e (encode_field f e)
encode_field-Wrote (number n v) e room small = encode_bytes_lem (to_bytes n v) e room small
encode_field-Wrote (string s) e room small =
    let len = length-append (to_bytes 8 (length s)) s in
    Wrote-then (to_bytes 8 (length s)) s e (encode_number 8 (length s) e) (encode_bytes s)
      (encode_bytes_lem (to_bytes 8 (length s)) e (omega (arith, len)) small)
      (λ f size buffer.
        encode_bytes_lem s f (omega (arith, size, buffer, len)) (omega (arith, buffer)))

pub encode_all-Wrote :
    (fields : List Field) (e : MessageEncoder)
    → e.size + length (message_bytes fields) < length e.buffer
    → length e.buffer < 2 ^ 64
    → Wrote (message_bytes fields) e (encode_all fields e)
unfolding encode_all
encode_all-Wrote [] e room small = (e, refl, sym (append-nil (written e)), omega arith, refl)
encode_all-Wrote (f ∷ fields) e room small =
    let len = length-append (field_bytes f) (message_bytes fields) in
    Wrote-then (field_bytes f) (message_bytes fields) e (encode_field f e) (encode_all fields)
      (encode_field-Wrote f e (omega (arith, len)) small)
      (λ g size buffer.
        encode_all-Wrote fields g (omega (arith, size, buffer, len)) (omega (arith, buffer)))

pub decode_number-append :
    (n v : ℕ) (xs ys : List ℕ) (at : ℕ)
    → at ≡ length xs
    → v < 256 ^ n
    → decode_number n (record { buffer = xs ++ (to_bytes n v ++ ys); bytes_decoded = at })
      ≡ some (v, record { buffer = xs ++ (to_bytes n v ++ ys); bytes_decoded = at + n })
decode_number-append n v xs ys at e small = rw (
  decode_bytes-append xs (to_bytes n v) ys n at e (sym (length-to_bytes n v)),
  of_bytes-to_bytes n v small,
)

pub decode_string-append :
    (s xs ys : List ℕ) (at : ℕ)
    → at ≡ length xs
    → length s < 256 ^ 8
    → decode_string (record { buffer = xs ++ (field_bytes (string s) ++ ys); bytes_decoded = at })
      ≡ some (
        s,
        record {
          buffer = xs ++ (field_bytes (string s) ++ ys);
          bytes_decoded = at + length (field_bytes (string s));
        },
      )
decode_string-append s xs ys at e small =
    let head = to_bytes 8 (length s) in
    let len = length-to_bytes 8 (length s) in
    let shape : xs ++ ((head ++ s) ++ ys) ≡ xs ++ (head ++ (s ++ ys)) =
      ap (λ t. xs ++ t) (append_assoc head s ys) in
    let shape' : xs ++ (head ++ (s ++ ys)) ≡ (xs ++ head) ++ (s ++ ys) =
      sym (append_assoc xs head (s ++ ys)) in
    let end : at + length (head ++ s) ≡ at + 8 + length s =
      omega (arith, length-append head s, len) in
    rw (shape, end, decode_number-append 8 (length s) xs (s ++ ys) at e small)
      (rw (
        shape',
        decode_bytes-append (xs ++ head) s ys (length s) (at + 8)
            (omega (arith, length-append xs head, len)) refl,
      ))

decode_like-append :
    (f : Field) (xs ys : List ℕ) (at : ℕ)
    → at ≡ length xs
    → IsField f
    → decode_like f (record { buffer = xs ++ (field_bytes f ++ ys); bytes_decoded = at })
      ≡ some (
        f,
        record {
          buffer = xs ++ (field_bytes f ++ ys);
          bytes_decoded = at + length (field_bytes f);
        },
      )
decode_like-append (number n v) xs ys at e small =
    rw (decode_number-append n v xs ys at e small, length-to_bytes n v)
decode_like-append (string s) xs ys at e small = rw (decode_string-append s xs ys at e small)

decode_all-append :
    (fields : List Field) (xs : List ℕ) (at : ℕ)
    → at ≡ length xs
    → AreFields fields
    → decode_all fields (record { buffer = xs ++ message_bytes fields; bytes_decoded = at })
      ≡ some (
        fields,
        record {
          buffer = xs ++ message_bytes fields;
          bytes_decoded = at + length (message_bytes fields);
        },
      )
unfolding decode_all
decode_all-append [] xs at e h =
    ap (λ t. some ([], record { buffer = xs ++ []; bytes_decoded = t })) (omega arith)
decode_all-append (f ∷ fields) xs at e h =
    let head = field_bytes f in
    let rest = message_bytes fields in
    let shape : xs ++ (head ++ rest) ≡ (xs ++ head) ++ rest = sym (append_assoc xs head rest) in
    let end : at + length (head ++ rest) ≡ at + length head + length rest =
      omega (arith, length-append head rest) in
    rw (decode_like-append f xs rest at e h.0, end)
      (rw (
        shape,
        decode_all-append fields (xs ++ head) (at + length head)
            (omega (arith, e, length-append xs head)) h.1,
      ))

-- Fields that are encoded into a buffer that they do not fill are all taken, and the bytes that the
-- encoder then holds are decoded to the same fields, with none left over. Each number is held by
-- its bytes, and the buffer is shorter than 2^64.
pub decode_all-encode_all :
    (fields : List Field) (buffer : List ℕ)
    → AreFields fields
    → length (message_bytes fields) < length buffer
    → length buffer < 2 ^ 64
    → (e : MessageEncoder) × (d : MessageDecoder) × (encode_all fields (encoder buffer) ≡ some e)
      × (decode_all fields (decoder (copy_out e.buffer 0 e.size)) ≡ some (fields, d))
      × (d.bytes_decoded ≡ e.size)
decode_all-encode_all fields buffer h room small =
    let (e, ran, bytes, size, len) = encode_all-Wrote fields (encoder buffer) (omega arith) small in
    let all : written e ≡ message_bytes fields =
      bytes ∙ ap (λ t. t ++ message_bytes fields) (copy_out-zero buffer 0) in
    (
      e,
      record { buffer = message_bytes fields; bytes_decoded = 0 + length (message_bytes fields) },
      ran,
      rw all (decode_all-append fields [] 0 refl h),
      omega (arith, size),
    )
