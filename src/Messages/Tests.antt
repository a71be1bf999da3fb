-- ===== src/Messages/Tests.antt =====
-- A message of a one-byte kind, a string and a word in a buffer of 32 bytes.
use umbongo.Base.{ℕ, ◌≡◌, List, [], ◌∷◌, some, arith, replicate, copy_out}
use umbongo.Messages.{MessageEncoder, MessageDecoder, encoder, decoder, to_bytes}
use umbongo.Messages.RoundTrip.{
  Field, number, string, AreFields, encode_all, decode_all, decode_all-encode_all,
}

abbrev fields : List Field
fields = number 1 2 ∷ string (97 ∷ 98 ∷ []) ∷ number 4 70000 ∷ []

abbrev buffer : List ℕ
buffer = replicate 32 0

fields-AreFields : AreFields fields
fields-AreFields = (omega arith, (omega arith, (omega arith, tt)))

decode_all-encode_all_example :
    (e : MessageEncoder) × (d : MessageDecoder) × (encode_all fields (encoder buffer) ≡ some e)
    × (decode_all fields (decoder (copy_out e.buffer 0 e.size)) ≡ some (fields, d))
    × (d.bytes_decoded ≡ e.size)
unfolding to_bytes
decode_all-encode_all_example =
    decode_all-encode_all fields buffer fields-AreFields (omega arith) (omega arith)
