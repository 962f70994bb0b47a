-- ===== src/Classifier/Tests.antt =====
-- Bodies of requests, and the theorems about the classifier at those.
use lm_server.Prelude.{
  ℕ, ◌+◌, ◌%◌, ◌≤◌, ◌≡◌, ◌≢◌, refl, codes, text_eq, true, ◌&&◌, leb, [], ◌∷◌, map, some,
  if◌then◌else◌, length,
}
use lm_server.Types.{high_latency, vllm}
use lm_server.Classifier.Text.{has_prefix, repeat}
use lm_server.Classifier.Image.{GoLib, looks_like_encoded_image, segment_of, segment_of_bounds}
use lm_server.Classifier.Payload.{
  Value, string, object, end, field, extract_backend_hint, inspect_request, backend_named,
}
use lm_server.Classifier.Payload.Order.{in_object, swap, class_order, hint_order}
use lm_server.Classifier.Payload.Inspect.{strings, inspect-strings}

abbrev lower : ℕ → ℕ
lower c = if leb b'A' c && leb c b'Z' then c + 32 else c

-- ASCII texts with no space around them, and a decoder that finds a JPEG.
abbrev go : GoLib
go = record {
  to_lower = map lower;
  trim_space = λ t. t;
  decode_base64 = λ t. some (0xff ∷ 0xd8 ∷ 0xff ∷ []);
}

abbrev two_hints : Value
two_hints = object (
    field (codes "Backend") (string (codes "llama"))
      (field (codes "engine") (string (codes "vllm")) end))

abbrev two_hints_swapped : Value
two_hints_swapped = object (
    field (codes "engine") (string (codes "vllm"))
      (field (codes "Backend") (string (codes "llama")) end))

hint_order_example : extract_backend_hint go two_hints ≢ extract_backend_hint go two_hints_swapped
unfolding text_eq backend_named
hint_order_example =
    hint_order go (codes "Backend") (codes "engine") (codes "llama") (codes "vllm") refl refl
      (λ e. cc) (λ e. cc) (λ e. cc)

class_order_example :
    ((inspect_request go (λ _. some two_hints) []).queue_class
      ≡ (inspect_request go (λ _. some two_hints_swapped) []).queue_class)
    × ((inspect_request go (λ _. some two_hints) []).has_images
        ≡ (inspect_request go (λ _. some two_hints_swapped) []).has_images)
class_order_example =
    class_order go (λ _. some two_hints) (λ _. some two_hints_swapped) [] two_hints
      two_hints_swapped refl refl (in_object swap)

abbrev picture : Value
picture = object (field (codes "url") (string (codes "data:image/png;base64,AAAA")) end)

inspect-strings_example :
    inspect_request go (λ _. some picture) []
    ≡ record { queue_class = high_latency; backend_hint = vllm; has_images = true }
unfolding strings looks_like_encoded_image extract_backend_hint has_prefix text_eq
inspect-strings_example = inspect-strings go (λ _. some picture) [] picture refl

segment_of_bounds_example :
    (length (segment_of (repeat b'A' 300)) ≤ 256) × (length (segment_of (repeat b'A' 300)) % 4 ≡ 0)
segment_of_bounds_example = segment_of_bounds (repeat b'A' 300)
