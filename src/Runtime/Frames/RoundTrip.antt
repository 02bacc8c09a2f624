-- ===== src/Runtime/Frames/RoundTrip.antt =====
-- Decoding after encoding: the parts of a message.
use executor_service.Common.{ℕ, ◌+◌, ◌≤◌, ◌≡◌, refl, String, List, ◌∷◌, arith, length}
use executor_service.Action.{Outcome, ok, raised}
use executor_service.Action.Outcomes.{◌>>=◌, chained-eq-ok}
use executor_service.Schemas.Value.{
  Value, str_value, list_value, dict_value, Values, nil, members, Fields, empty, get_or,
}
use executor_service.Runtime.Frames.{
  Codec, binary, buffers_of, frame_of, as_buffers, parts_of, encode_v1_message, message_of,
  message_of_parts, decode_v1_message, decode_message_frame, decode_text, json_object, or_legacy,
}
use executor_service.Runtime.Frames.Table.{v1_parts-frame_of}

abbrev Bytes : Type 0
Bytes = List ℕ

-- Where five calls in a row give a list of parts, each of them gave its part.
record Made (a b c d : Outcome Bytes) (e : Outcome (List Bytes)) (first_part : Bytes)
    (parts : List Bytes) : Type 0 where
  pub a' : Bytes
  pub b' : Bytes
  pub c' : Bytes
  pub d' : Bytes
  pub e' : List Bytes
  pub a_ok : a ≡ ok a'
  pub b_ok : b ≡ ok b'
  pub c_ok : c ≡ ok c'
  pub d_ok : d ≡ ok d'
  pub e_ok : e ≡ ok e'
  pub shape : parts ≡ first_part ∷ a' ∷ b' ∷ c' ∷ d' ∷ e'

Made-of_parts :
    (a b c d : Outcome Bytes) (e : Outcome (List Bytes)) (first_part : Bytes) (parts : List Bytes)
    → (do a' ← a; b' ← b; c' ← c; d' ← d; e' ← e; ok (first_part ∷ a' ∷ b' ∷ c' ∷ d' ∷ e'))
      ≡ ok parts
    → Made a b c d e first_part parts
Made-of_parts (ok a) (ok b) (ok c) (ok d) (ok e) f parts h = record {
  a' = a;
  b' = b;
  c' = c;
  d' = d;
  e' = e;
  a_ok = refl;
  b_ok = refl;
  c_ok = refl;
  d_ok = refl;
  e_ok = refl;
  shape = cc;
}
Made-of_parts (raised x) b c d e f parts h = cc
Made-of_parts (ok a) (raised x) c d e f parts h = cc
Made-of_parts (ok a) (ok b) (raised x) d e f parts h = cc
Made-of_parts (ok a) (ok b) (ok c) (raised x) e f parts h = cc
Made-of_parts (ok a) (ok b) (ok c) (ok d) (raised x) f parts h = cc

module _ (codec : Codec) where
  open codec use {str, encode, dumps}

  parse-dumps :
      (fields : Fields) (bytes : List ℕ)
      → dumps (dict_value fields) ≡ ok bytes
      → json_object codec bytes ≡ ok fields
  unfolding json_object
  parse-dumps fields bytes h = rw (codec.loads-dumps fields bytes h)

  decode_text-encode : (s : String) → decode_text codec (encode s) ≡ ok s
  unfolding decode_text
  decode_text-encode s = rw (codec.decode-encode s, decode_text)

  module _ (channel : String) (header parent_header metadata content : Fields) (items : List Value)
      (buffers parts : List (List ℕ)) (buffers_eq : buffers_of items ≡ ok buffers)
      (made : parts_of codec channel
          (dict_value header)
          (dict_value parent_header)
          (dict_value metadata)
          (dict_value content)
          items
        ≡ ok parts) where
    -- The parts of a message are its five and its buffers, and are read back one by one.
    message_of_parts-parts_of :
        (message_of_parts codec parts
          ≡ ok (message_of channel header parent_header metadata content buffers))
        × (length parts ≡ 5 + length buffers)
    unfolding parts_of message_of_parts
    message_of_parts-parts_of =
        let made' =
          Made-of_parts (dumps (dict_value header)) (dumps (dict_value parent_header))
            (dumps (dict_value metadata)) (dumps (dict_value content)) (buffers_of items)
            (encode channel) parts made in
        let same : made'.e' ≡ buffers = cc (made'.e_ok) in
        rw
          (
            made'.shape,
            same,
            decode_text-encode channel,
            parse-dumps header made'.a' made'.a_ok,
            parse-dumps parent_header made'.b' made'.b_ok,
            parse-dumps metadata made'.c' made'.c_ok,
            parse-dumps content made'.d' made'.d_ok,
          )
          (refl, omega arith)

  module _ (header parent_header metadata content : Fields) (items : Values)
      (buffers : List (List ℕ)) (frame : List ℕ)
      (buffers_eq : buffers_of (members items) ≡ ok buffers) (few : length buffers ≤ 994) where
    decode-frame :
        (channel : String)
        → (do
          given ← as_buffers codec (list_value items)
          parts ←
              parts_of codec channel
                (dict_value header)
                (dict_value parent_header)
                (dict_value metadata)
                (dict_value content)
                given
          frame_of parts)
          ≡ ok frame
        → decode_message_frame codec (binary frame)
          ≡ ok (message_of channel header parent_header metadata content buffers)
    unfolding as_buffers decode_message_frame decode_v1_message or_legacy
    decode-frame channel h =
        let (parts, made, framed) =
          chained-eq-ok
            (parts_of codec channel (dict_value header) (dict_value parent_header)
              (dict_value metadata) (dict_value content) (members items))
            _ h in
        let (read, long) =
          message_of_parts-parts_of channel header parent_header metadata content (members items)
            buffers parts buffers_eq made in
        rw (v1_parts-frame_of parts frame (omega arith) (omega arith) framed, read)

  module _ (message header parent_header metadata content : Fields) (items : Values)
      (buffers : List (List ℕ)) (frame : List ℕ)
      (header_eq : get_or "header" (dict_value empty) message ≡ dict_value header)
      (parent_eq : get_or "parent_header" (dict_value empty) message ≡ dict_value parent_header)
      (metadata_eq : get_or "metadata" (dict_value empty) message ≡ dict_value metadata)
      (content_eq : get_or "content" (dict_value empty) message ≡ dict_value content)
      (items_eq : get_or "buffers" (list_value nil) message ≡ list_value items)
      (buffers_eq : buffers_of (members items) ≡ ok buffers) (few : length buffers ≤ 994)
      (encoded : encode_v1_message codec message ≡ ok frame) where
    -- If the headers, the metadata and the content of a message are dictionaries, it has at most
    -- 994 buffers, and it can be encoded, then the frame decodes to the message with its channel as
    -- text, those four dictionaries and its buffers.
    pub decode-encode_v1 :
        decode_message_frame codec (binary frame)
        ≡ ok (
            message_of
              (str (get_or "channel" (str_value "shell") message))
              header
              parent_header
              metadata
              content
              buffers)
    unfolding encode_v1_message
    decode-encode_v1 =
        decode-frame header parent_header metadata content items buffers frame buffers_eq few
          (str (get_or "channel" (str_value "shell") message))
          (rw (items_eq, header_eq, parent_eq, metadata_eq, content_eq) at encoded)
