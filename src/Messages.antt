-- ===== src/Messages.antt =====
-- libs/ipc/message_encoder.hh and libs/ipc/message_decoder.hh: the bytes of a message. An object that
-- is copied as it is has the little-endian bytes of a number; a string is its length and its bytes.
pub mod Bytes
pub mod RoundTrip
pub mod Dispatch
mod Tests
use umbongo.Base.{
  ℕ, zero, suc, ◌+◌, ◌*◌, ◌/◌, ◌%◌, List, [], ◌∷◌, Option, some, none, ltb, leb, length, add_size,
  copy_in, copy_out,
}
use umbongo.Base.Panic.{◌>>=◌, ◌>>◌, assert}

pub record MessageEncoder : Type 0 where
  pub buffer : List ℕ
  pub size : ℕ

-- The decoder's pointer is kept as its distance from the start of the buffer.
pub record MessageDecoder : Type 0 where
  pub buffer : List ℕ
  pub bytes_decoded : ℕ

abbrev pub encoder : List ℕ → MessageEncoder
encoder buffer = record { buffer = buffer; size = 0 }

abbrev pub decoder : List ℕ → MessageDecoder
decoder buffer = record { buffer = buffer; bytes_decoded = 0 }

-- The `n` bytes of a number in memory, and the number that they are.
unfoldable pub to_bytes : ℕ → ℕ → List ℕ
to_bytes zero v = []
to_bytes (suc n) v = v % 256 ∷ to_bytes n (v / 256)

unfoldable pub of_bytes : List ℕ → ℕ
of_bytes [] = 0
of_bytes (b ∷ bytes) = b + 256 * of_bytes bytes

-- `encode` of an object's bytes, and the end of `encode` of a string, which does the same.
unfoldable pub encode_bytes : List ℕ → MessageEncoder → Option MessageEncoder
encode_bytes obj e =
    assert (ltb (add_size e.size (length obj)) (length e.buffer))
    >> some (record e { buffer = copy_in e.buffer e.size obj; size = add_size e.size (length obj) })

abbrev pub encode_number : ℕ → ℕ → MessageEncoder → Option MessageEncoder
encode_number n v = encode_bytes (to_bytes n v)

abbrev pub encode_string : List ℕ → MessageEncoder → Option MessageEncoder
encode_string view e = encode_number 8 (length view) e >>= encode_bytes view

unfoldable pub decode_bytes : ℕ → MessageDecoder → Option (List ℕ × MessageDecoder)
decode_bytes n d =
    assert (leb (d.bytes_decoded + n) (length d.buffer))
    >> some (copy_out d.buffer d.bytes_decoded n, record d { bytes_decoded = d.bytes_decoded + n })

abbrev pub decode_number : ℕ → MessageDecoder → Option (ℕ × MessageDecoder)
decode_number n d = decode_bytes n d >>= λ r. some (of_bytes r.0, r.1)

-- The view is not checked to be in the buffer; reading one that is not has no result.
abbrev pub decode_string : MessageDecoder → Option (List ℕ × MessageDecoder)
decode_string d = decode_number 8 d >>= λ r. decode_bytes r.0 r.1
