-- ===== src/Runtime/Frames.antt =====
-- runtime/runner.py, the functions on WebSocket frames: encode_v1_message, decode_message_frame and
-- the three decoders behind it. A byte is a number.
pub mod Table
pub mod RoundTrip
pub mod Rejects
use executor_service.Common.{
  ℕ, zero, suc, ◌+◌, ◌*◌, ◌^◌, ◌≡◌, Bool, true, false, not, ◌||◌, ◌&&◌, String, List, [], ◌∷◌, ◌++◌,
  Option, none, some, ltb, leb, ◌==◌, length, take, drop, slice, join, if◌then◌else◌, map, str_eq,
}
use executor_service.Common.Bytes.{le_bytes, le_value, be_from, words, packed}
use executor_service.Errors.{
  Error, infrastructure_error, value_error, type_error, struct_error, is_bad_frame,
}
use executor_service.Action.{Outcome, ok, raised}
use executor_service.Action.Outcomes.{◌>>=◌, ◌>>◌, raise_if}
use executor_service.Schemas.Value.{
  ℤ, pos, negsuc, Value, none_value, bool_value, int_value, float_value, str_value, list_value,
  dict_value, bytes_value, Values, nil, cons, Fields, empty, field, get_or, as_list, members,
  values,
}

-- Python's `str`, its UTF-8, and its `json`, of which the code relies on this: what is encoded
-- decodes to itself, and the JSON of a dictionary loads as that dictionary. `dumps` stands for
-- `json.dumps(...).encode()` and `loads` for `json.loads(value.decode())`, where `none` is a
-- UnicodeDecodeError or a JSONDecodeError.
pub record Codec : Type 0 where
  pub str : Value → String
  pub encode : String → List ℕ
  pub decode : List ℕ → Option String
  pub dumps : Value → Outcome (List ℕ)
  pub loads : List ℕ → Option Value
  pub decode-encode : (s : String) → decode (encode s) ≡ some s
  pub loads-dumps :
      (fields : Fields) (bytes : List ℕ)
      → dumps (dict_value fields) ≡ ok bytes
      → loads bytes ≡ some (dict_value fields)

abbrev zeros : ℕ → List ℕ
zeros zero = []
zeros (suc n) = 0 ∷ zeros n

abbrev byte_of : Value → Outcome ℕ
byte_of (int_value (pos n)) =
    if ltb n 256 then ok n else raised (value_error "bytes must be in range(0, 256)")
byte_of (int_value (negsuc n)) = raised (value_error "bytes must be in range(0, 256)")
byte_of (bool_value b) = ok (if b then 1 else 0)
byte_of _ = raised (type_error "object cannot be interpreted as an integer")

bytes_of_members : Values → Outcome (List ℕ)
bytes_of_members nil = ok []
bytes_of_members (cons v vs) = do b ← byte_of v; bs ← bytes_of_members vs; ok (b ∷ bs)

-- `bytes(buffer)`
unfoldable pub bytes_of : Value → Outcome (List ℕ)
unfolding bytes_of_members
bytes_of (bytes_value bs) = ok bs
bytes_of (int_value (pos n)) = ok (zeros n)
bytes_of (int_value (negsuc n)) = raised (value_error "negative count")
bytes_of (bool_value b) = ok (if b then 0 ∷ [] else [])
bytes_of (list_value vs) = bytes_of_members vs
bytes_of (dict_value empty) = ok []
bytes_of _ = raised (type_error "cannot convert object to bytes")

-- `[bytes(buffer) for buffer in buffers]`
unfoldable pub buffers_of : List Value → Outcome (List (List ℕ))
unfolding bytes_of
buffers_of [] = ok []
buffers_of (v ∷ vs) = do b ← bytes_of v; bs ← buffers_of vs; ok (b ∷ bs)

-- The offsets of the parts, and after them the end of the frame.
unfoldable pub offsets_from : ℕ → List (List ℕ) → List ℕ
offsets_from offset [] = offset ∷ []
offsets_from offset (part ∷ parts) = offset ∷ offsets_from (offset + length part) parts

-- `struct.pack("<Q", n)`
unfoldable pub pack_q : ℕ → Outcome (List ℕ)
unfolding le_bytes
pack_q n = if ltb n (2 ^ 64) then ok (le_bytes 8 n) else raised struct_error

-- `struct.pack(f"<{len(ns)}Q", *ns)`
unfoldable pub pack_qs : List ℕ → Outcome (List ℕ)
unfolding pack_q
pack_qs [] = ok []
pack_qs (n ∷ ns) = do b ← pack_q n; bs ← pack_qs ns; ok (b ++ bs)

-- The end of `encode_v1_message`, from the parts on.
unfoldable pub frame_of : List (List ℕ) → Outcome (List ℕ)
unfolding pack_qs offsets_from
frame_of parts = do
  let offset_count = length parts + 1
  count ← pack_q offset_count
  offsets ← pack_qs (offsets_from (8 * (offset_count + 1)) parts)
  ok (count ++ (offsets ++ join parts))

-- `struct.unpack_from` of `count` numbers of `width` bytes.
unfoldable pub unpack_from : (List ℕ → ℕ) → ℕ → ℕ → List ℕ → ℕ → Outcome (List ℕ)
unfolding words
unpack_from value width count frame offset =
    if leb (offset + width * count) (length frame)
    then ok (words value width count (drop offset frame))
    else raised struct_error

-- `offsets[0]` and `offsets[-1]`; the lists have a member, so an IndexError does not occur.
abbrev pub first : List ℕ → ℕ
first [] = 0
first (n ∷ ns) = n

abbrev pub last : List ℕ → ℕ
last [] = 0
last (n ∷ []) = n
last (n ∷ k ∷ ns) = last (k ∷ ns)

-- `any(left > right for left, right in zip(offsets, offsets[1:]))`
unfoldable pub is_unordered : List ℕ → Bool
is_unordered [] = false
is_unordered (n ∷ []) = false
is_unordered (n ∷ k ∷ ns) = ltb k n || is_unordered (k ∷ ns)

-- `[frame[offsets[i] : offsets[i + 1]] for i in range(len(offsets) - 1)]`
unfoldable pub slices : List ℕ → List ℕ → List (List ℕ)
slices frame [] = []
slices frame (n ∷ []) = []
slices frame (n ∷ k ∷ ns) = slice frame n k ∷ slices frame (k ∷ ns)

-- `_decode_v1_message` up to the parts.
unfoldable pub v1_parts : List ℕ → Outcome (List (List ℕ))
v1_parts frame = do
  raise_if (ltb (length frame) 56) (infrastructure_error "Jupyter v1 frame is too short")
  counts ← unpack_from le_value 8 1 frame 0
  let offset_count = first counts
  raise_if (ltb offset_count 6 || ltb 1000 offset_count)
      (infrastructure_error "Invalid Jupyter v1 offset count")
  let table_end = 8 * (offset_count + 1)
  raise_if (ltb (length frame) table_end) (infrastructure_error "Truncated Jupyter v1 offset table")
  offsets ← unpack_from le_value 8 offset_count frame 8
  raise_if (not (first offsets == table_end) || not (last offsets == length frame))
      (infrastructure_error "Invalid Jupyter v1 offsets")
  raise_if (is_unordered offsets) (infrastructure_error "Unordered Jupyter v1 offsets")
  ok (slices frame offsets)

-- `_decode_legacy_binary_message` up to the parts.
unfoldable pub legacy_parts : List ℕ → Outcome (List (List ℕ))
legacy_parts frame = do
  raise_if (ltb (length frame) 8) (infrastructure_error "Jupyter binary frame is too short")
  counts ← unpack_from (be_from 0) 4 1 frame 0
  let part_count = first counts
  raise_if (ltb part_count 1 || ltb 1000 part_count)
      (infrastructure_error "Invalid Jupyter binary part count")
  let table_end = 4 * (part_count + 1)
  raise_if (ltb (length frame) table_end)
      (infrastructure_error "Truncated Jupyter binary offset table")
  offsets ← unpack_from (be_from 0) 4 part_count frame 4
  raise_if (not (first offsets == table_end))
      (infrastructure_error "Invalid Jupyter binary offsets")
  ok (slices frame (offsets ++ (length frame ∷ [])))

-- `message[key] = value`
unfoldable pub set_value : String → Value → Fields → Fields
set_value key v empty = field key v empty
set_value key v (field k u fields) =
    if str_eq k key then field k v fields else field k u (set_value key v fields)

-- A frame that the connection gives: text or bytes.
pub data Frame : Type 0 where
  text : String → Frame
  binary : List ℕ → Frame

-- `parts[0]` and the like; the lists are long enough, so an IndexError does not occur.
abbrev part_at : ℕ → List (List ℕ) → List ℕ
part_at n [] = []
part_at zero (p ∷ ps) = p
part_at (suc n) (p ∷ ps) = part_at n ps

-- The dictionary that a frame is decoded to.
abbrev pub message_of : String → Fields → Fields → Fields → Fields → List (List ℕ) → Fields
message_of channel header parent_header metadata content buffers =
    field "channel" (str_value channel) (
      field "header" (dict_value header) (
        field "parent_header" (dict_value parent_header) (
          field "metadata" (dict_value metadata) (
            field "content" (dict_value content)
              (field "buffers" (list_value (values (map bytes_value buffers))) empty)))))

module _ (codec : Codec) where
  open codec use {str, encode, decode, dumps, loads}

  as_object : Option Value → Outcome Fields
  as_object none = raised (infrastructure_error "Invalid Jupyter JSON message")
  as_object (some (dict_value fields)) = ok fields
  as_object (some _) = raised (infrastructure_error "Jupyter message is not an object")

  -- `_json_object`
  unfoldable pub json_object : List ℕ → Outcome Fields
  unfolding as_object
  json_object bytes = as_object (loads bytes)

  unfoldable pub as_buffers : Value → Outcome (List Value)
  as_buffers v = elim (as_list v) [
    | none ↦ raised (infrastructure_error "Jupyter buffers must be a list")
    | some items ↦ ok items
  ]

  -- `parts` of `encode_v1_message`.
  unfoldable pub parts_of :
      String → Value → Value → Value → Value → List Value → Outcome (List (List ℕ))
  unfolding buffers_of
  parts_of channel header parent_header metadata content buffers = do
    header' ← dumps header
    parent_header' ← dumps parent_header
    metadata' ← dumps metadata
    content' ← dumps content
    rest ← buffers_of buffers
    ok (encode channel ∷ header' ∷ parent_header' ∷ metadata' ∷ content' ∷ rest)

  -- `encode_v1_message`
  unfoldable pub encode_v1_message : Fields → Outcome (List ℕ)
  unfolding as_buffers
  encode_v1_message message = do
    buffers ← as_buffers (get_or "buffers" (list_value nil) message)
    parts ←
        parts_of (str (get_or "channel" (str_value "shell") message))
          (get_or "header" (dict_value empty) message)
          (get_or "parent_header" (dict_value empty) message)
          (get_or "metadata" (dict_value empty) message)
          (get_or "content" (dict_value empty) message) buffers
    frame_of parts

  decode_text : List ℕ → Outcome String
  decode_text bytes = elim (decode bytes) [
    | none ↦ raised (value_error "invalid UTF-8")
    | some s ↦ ok s
  ]

  unfoldable pub message_of_parts : List (List ℕ) → Outcome Fields
  unfolding json_object decode_text
  message_of_parts parts = do
    channel ← decode_text (part_at 0 parts)
    header ← json_object (part_at 1 parts)
    parent_header ← json_object (part_at 2 parts)
    metadata ← json_object (part_at 3 parts)
    content ← json_object (part_at 4 parts)
    ok (message_of channel header parent_header metadata content (drop 5 parts))

  -- `_decode_v1_message`
  unfoldable pub decode_v1_message : List ℕ → Outcome Fields
  unfolding v1_parts message_of_parts
  decode_v1_message frame = do parts ← v1_parts frame; message_of_parts parts

  -- `_decode_legacy_binary_message`
  unfoldable pub decode_legacy_binary_message : List ℕ → Outcome Fields
  unfolding legacy_parts json_object set_value
  decode_legacy_binary_message frame = do
    parts ← legacy_parts frame
    message ← json_object (part_at 0 parts)
    ok (set_value "buffers" (list_value (values (map bytes_value (drop 1 parts)))) message)

  -- `except (InfrastructureError, ValueError, struct.error)`: the frame is read the older way.
  unfoldable pub or_legacy : List ℕ → Outcome Fields → Outcome Fields
  unfolding decode_legacy_binary_message
  or_legacy frame (ok message) = ok message
  or_legacy frame (raised x) =
      if is_bad_frame x then decode_legacy_binary_message frame else raised x

  unfoldable pub decode_message_frame : Frame → Outcome Fields
  unfolding json_object decode_v1_message or_legacy
  decode_message_frame (text s) = json_object (encode s)
  decode_message_frame (binary frame) = or_legacy frame (decode_v1_message frame)
