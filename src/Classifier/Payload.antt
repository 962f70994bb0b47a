-- ===== src/Classifier/Payload.antt =====
-- internal/orchestrator/classifier.go: `InspectRequest` and its walks over the decoded JSON.
pub mod Order
pub mod Inspect
use lm_server.Prelude.{
  Text, codes, text_eq, Bool, true, false, ◌||◌, List, [], ◌∷◌, ◌++◌, Option, none, some,
  if◌then◌else◌,
}
use lm_server.Types.{
  low_latency, high_latency, Backend, unset, llama_cpp, vllm, same_backend, RequestMeta,
}
use lm_server.Classifier.Text.{contains}
use lm_server.Classifier.Image.{GoLib, looks_like_encoded_image}

-- What `json.Unmarshal` stores in an `any`. The fields of an object stand in the order in which the
-- next `range` over the map visits them.
mutual
  pub data Value : Type 0 where
    null : Value
    boolean : Bool → Value
    number : Text → Value
    string : Text → Value
    array : Items → Value
    object : Fields → Value

  pub data Items : Type 0 where
    nil : Items
    cons : Value → Items → Items

  pub data Fields : Type 0 where
    end : Fields
    field : Text → Value → Fields → Fields

-- `if backend := …; backend != "" { return backend }`, and what follows.
abbrev pub or_else : Backend → Backend → Backend
or_else unset next = next
or_else found next = found

module _ (go : GoLib) where
  abbrev pub is_hint_key : Text → Bool
  is_hint_key key =
      text_eq key (codes "backend")
      || (text_eq key (codes "engine") || text_eq key (codes "runtime"))

  abbrev pub is_image_key : Text → Bool
  is_image_key key = contains key (codes "image") || contains key (codes "img")

  -- The inner `switch`.
  unfoldable pub backend_named : Text → Backend
  backend_named name =
      if text_eq name (codes "llama.cpp")
        || (text_eq name (codes "llama") || text_eq name (codes "llamacpp"))
      then llama_cpp
      else if text_eq name (codes "vllm")
      then vllm
      else unset

  -- The hint of a field whose key asks for one, if its value is a string.
  abbrev pub hint_of_string : Value → Backend
  hint_of_string (string s) = backend_named (go.to_lower (go.trim_space s))
  hint_of_string _ = unset

  abbrev pub named_hint : Text → Value → Backend
  named_hint key v = if is_hint_key (go.to_lower key) then hint_of_string v else unset

  unfoldable mutual
    pub extract_backend_hint : Value → Backend
    extract_backend_hint null = unset
    extract_backend_hint (boolean b) = unset
    extract_backend_hint (number n) = unset
    extract_backend_hint (string s) = unset
    extract_backend_hint (array items) = extract_items items
    extract_backend_hint (object fields) = extract_fields fields

    pub extract_items : Items → Backend
    extract_items nil = unset
    extract_items (cons v rest) = or_else (extract_backend_hint v) (extract_items rest)

    pub extract_fields : Fields → Backend
    extract_fields end = unset
    extract_fields (field key v rest) =
        or_else (named_hint key v) (or_else (extract_backend_hint v) (extract_fields rest))

  unfoldable mutual
    pub contains_encoded_image : Value → Bool
    contains_encoded_image null = false
    contains_encoded_image (boolean b) = false
    contains_encoded_image (number n) = false
    contains_encoded_image (string s) = looks_like_encoded_image go s
    contains_encoded_image (array items) = contains_items items
    contains_encoded_image (object fields) = contains_fields fields

    pub contains_items : Items → Bool
    contains_items nil = false
    contains_items (cons v rest) = contains_encoded_image v || contains_items rest

    pub contains_fields : Fields → Bool
    contains_fields end = false
    contains_fields (field key v rest) =
        (if is_image_key (go.to_lower key) then contains_encoded_image v else false)
        || (contains_encoded_image v || contains_fields rest)

  -- After the payload is decoded; `none` is an error of `json.Unmarshal`.
  unfoldable pub inspect_payload : Option Value → RequestMeta
  inspect_payload none = record {
    queue_class = low_latency;
    backend_hint = unset;
    has_images = false;
  }
  inspect_payload (some payload) =
      let hint = extract_backend_hint payload in
      if contains_encoded_image payload
      then record {
        queue_class = high_latency;
        backend_hint = or_else hint vllm;
        has_images = true;
      }
      else record { queue_class = low_latency; backend_hint = hint; has_images = false }

  -- `unmarshal` is `json.Unmarshal` into an `any`.
  unfoldable pub inspect_request : (Text → Option Value) → Text → RequestMeta
  unfolding inspect_payload
  inspect_request unmarshal body = inspect_payload (unmarshal body)
