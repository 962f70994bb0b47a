-- ===== src/Classifier/Payload/Inspect.antt =====
-- What `InspectRequest` finds, against the list of all strings in the body.
use lm_server.Prelude.{
  Text, Bool, false, ◌||◌, ◌&&◌, ◌≡◌, refl, List, [], ◌∷◌, ◌++◌, Option, some, arith, if◌then◌else◌,
}
use lm_server.Types.{low_latency, high_latency, unset, vllm, same_backend}
use lm_server.Classifier.Image.{GoLib, looks_like_encoded_image}
use lm_server.Classifier.Payload.{
  Value, null, boolean, number, string, array, object, Items, nil, cons, Fields, end, field,
  extract_backend_hint, contains_encoded_image, contains_items, contains_fields, inspect_request,
}

-- All strings in a value, keys left out.
unfoldable mutual
  pub strings : Value → List Text
  strings null = []
  strings (boolean b) = []
  strings (number n) = []
  strings (string s) = s ∷ []
  strings (array items) = strings_of_items items
  strings (object fields) = strings_of_fields fields

  pub strings_of_items : Items → List Text
  strings_of_items nil = []
  strings_of_items (cons v rest) = strings v ++ strings_of_items rest

  pub strings_of_fields : Fields → List Text
  strings_of_fields end = []
  strings_of_fields (field key v rest) = strings v ++ strings_of_fields rest

module _ (go : GoLib) where
  -- Whether some string of a list is an image.
  abbrev pub some_image : List Text → Bool
  some_image [] = false
  some_image (s ∷ rest) = looks_like_encoded_image go s || some_image rest

  some_image-append : (us vs : List Text) → some_image (us ++ vs) ≡ (some_image us || some_image vs)
  some_image-append [] vs = refl
  some_image-append (u ∷ us) vs = ground (arith, some_image-append us vs)

  mutual
    unfolding contains_encoded_image strings

    contains_strings : (v : Value) → contains_encoded_image go v ≡ some_image (strings v)
    contains_strings null = refl
    contains_strings (boolean b) = refl
    contains_strings (number n) = refl
    contains_strings (string s) = ground arith
    contains_strings (array items) = items_strings items
    contains_strings (object fields) = fields_strings fields

    items_strings : (xs : Items) → contains_items go xs ≡ some_image (strings_of_items xs)
    items_strings nil = refl
    items_strings (cons v rest) = ground (
      arith,
      contains_strings v,
      items_strings rest,
      some_image-append (strings v) (strings_of_items rest),
    )

    fields_strings : (fs : Fields) → contains_fields go fs ≡ some_image (strings_of_fields fs)
    fields_strings end = refl
    fields_strings (field key v rest) = ground (
      arith,
      contains_strings v,
      fields_strings rest,
      some_image-append (strings v) (strings_of_fields rest),
    )

  -- A body that decodes is of the high-latency class exactly when some string in it, at any depth and
  -- under any key, looks like an encoded image, and then it never goes without a backend hint: where
  -- the body names none it is vLLM.
  pub inspect-strings :
      (unmarshal : Text → Option Value) (body : Text) (v : Value)
      → unmarshal body ≡ some v
      → let found = some_image (strings v) in
        let hint = extract_backend_hint go v in
        inspect_request go unmarshal body ≡ record {
          queue_class = if found then high_latency else low_latency;
          backend_hint = if found && same_backend hint unset then vllm else hint;
          has_images = found;
        }
  unfolding inspect_request
  inspect-strings unmarshal body v e = rw e (ground (arith, contains_strings v))
