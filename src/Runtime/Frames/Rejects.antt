-- ===== src/Runtime/Frames/Rejects.antt =====
-- How a frame is refused: the exceptions of the decoders.
use executor_service.Common.{ℕ, ◌≡◌, refl, true, String, List, Option, none, some, arith}
use executor_service.Errors.{Error, value_error, struct_error, is_infrastructure, is_bad_frame}
use executor_service.Action.{Outcome, ok, raised}
use executor_service.Action.Outcomes.{Only, Only-ok, Only-raised, Only->>=}
use executor_service.Schemas.Value.{Value, dict_value, Fields}
use executor_service.Runtime.Frames.{
  Codec, Frame, text, binary, unpack_from, v1_parts, legacy_parts, as_object, json_object,
  decode_text, message_of_parts, decode_v1_message, decode_legacy_binary_message, or_legacy,
  decode_message_frame,
}

abbrev IsInfrastructure : Error → Type 0
IsInfrastructure x = is_infrastructure x ≡ true

abbrev IsBadFrame : Error → Type 0
IsBadFrame x = is_bad_frame x ≡ true

legacy_parts-Only :
    (frame : List ℕ) (x : Error) → legacy_parts frame ≡ raised x → IsInfrastructure x
unfolding legacy_parts unpack_from
legacy_parts-Only frame x h = ground arith

v1_parts-Only : (frame : List ℕ) (x : Error) → v1_parts frame ≡ raised x → IsBadFrame x
unfolding v1_parts unpack_from
v1_parts-Only frame x h = ground arith

IsBadFrame-of_infrastructure : (x : Error) → IsInfrastructure x → IsBadFrame x
IsBadFrame-of_infrastructure (value_error _) h = refl
IsBadFrame-of_infrastructure struct_error h = refl
IsBadFrame-of_infrastructure x h = h

module _ (codec : Codec) where
  Only-as_object : (v : Option Value) → Only IsInfrastructure (as_object codec v)
  unfolding as_object
  Only-as_object none = Only-raised _ refl
  Only-as_object (some (dict_value fields)) = Only-ok _
  Only-as_object (some _) = Only-raised _ refl

  Only-json_object : (bytes : List ℕ) → Only IsInfrastructure (json_object codec bytes)
  unfolding json_object
  Only-json_object bytes = Only-as_object (codec.loads bytes)

  weaken : {A : Type 0} (m : Outcome A) → Only IsInfrastructure m → Only IsBadFrame m
  weaken m h = record { at = λ x e. IsBadFrame-of_infrastructure x (h.at x e) }

  Only-decode_text : (bytes : List ℕ) → Only IsBadFrame (decode_text codec bytes)
  unfolding decode_text
  Only-decode_text bytes = go (codec.decode bytes) refl
    where
      go : (o : Option String) → codec.decode bytes ≡ o → Only IsBadFrame (decode_text codec bytes)
      go none e = rw (e, decode_text) (Only-raised _ refl)
      go (some s) e = rw (e, decode_text) (Only-ok _)

  Only-message_of_parts : (parts : List (List ℕ)) → Only IsBadFrame (message_of_parts codec parts)
  unfolding message_of_parts
  Only-message_of_parts parts = Only->>= (Only-decode_text _) (λ a e.
      Only->>= (weaken _ (Only-json_object _)) (λ b e.
        Only->>= (weaken _ (Only-json_object _)) (λ c e.
          Only->>= (weaken _ (Only-json_object _))
            (λ d e. Only->>= (weaken _ (Only-json_object _)) (λ f e. Only-ok _)))))

  Only-legacy : (frame : List ℕ) → Only IsInfrastructure (decode_legacy_binary_message codec frame)
  unfolding decode_legacy_binary_message
  Only-legacy frame =
      Only->>= (record { at = legacy_parts-Only frame })
        (λ parts e. Only->>= (Only-json_object _) (λ message e. Only-ok _))

  Only-or_legacy :
      (frame : List ℕ) (m : Outcome Fields)
      → Only IsBadFrame m
      → Only IsInfrastructure (or_legacy codec frame m)
  unfolding or_legacy
  Only-or_legacy frame (ok message) h = Only-ok _
  Only-or_legacy frame (raised x) h = rw (h.at x refl) (Only-legacy frame)

  -- If `json.loads` raises nothing but decoding errors, and `decode_message_frame` raises on a
  -- frame, whatever its bytes are, then it raises an InfrastructureError: no error of `struct`, of
  -- UTF-8 or of JSON leaves it.
  pub decode_message_frame-Only :
      (frame : Frame) (x : Error)
      → decode_message_frame codec frame ≡ raised x
      → is_infrastructure x ≡ true
  unfolding decode_message_frame decode_v1_message
  decode_message_frame-Only (text s) x h = (Only-json_object (codec.encode s)).at x h
  decode_message_frame-Only (binary frame) x h =
      (Only-or_legacy frame _ (
          Only->>= (record { at = v1_parts-Only frame })
            (λ parts e. Only-message_of_parts parts))).at
        x h
