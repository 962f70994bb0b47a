-- ===== src/Classifier/Payload/Order.antt =====
-- Which answers depend on the order in which Go visits the fields of an object.
use lm_server.Prelude.{Text, true, ◌∙◌, ◌≡◌, ◌≢◌, refl, Option, some, arith}
use lm_server.Types.{unset}
use lm_server.Classifier.Image.{GoLib}
use lm_server.Classifier.Payload.{
  Value, string, array, object, Items, nil, cons, Fields, end, field, is_hint_key, hint_of_string,
  extract_backend_hint, inspect_payload, inspect_request, contains_encoded_image, contains_items,
  contains_fields,
}

-- Two values that differ in the order of fields only, at any depth.
mutual
  pub data Reordered : Value → Value → Type 0 where
    same : (v : Value) → Reordered v v
    in_array : {xs ys : Items} → ItemsReordered xs ys → Reordered (array xs) (array ys)
    in_object : {fs gs : Fields} → FieldsReordered fs gs → Reordered (object fs) (object gs)

  pub data ItemsReordered : Items → Items → Type 0 where
    none_left : ItemsReordered nil nil
    each :
        {v w : Value} {xs ys : Items}
        → Reordered v w
        → ItemsReordered xs ys
        → ItemsReordered (cons v xs) (cons w ys)

  pub data FieldsReordered : Fields → Fields → Type 0 where
    no_field : FieldsReordered end end
    keep :
        {k : Text} {v w : Value} {fs gs : Fields}
        → Reordered v w
        → FieldsReordered fs gs
        → FieldsReordered (field k v fs) (field k w gs)
    swap :
        {k l : Text} {v w : Value} {fs : Fields}
        → FieldsReordered (field k v (field l w fs)) (field l w (field k v fs))
    after :
        {fs gs hs : Fields} → FieldsReordered fs gs → FieldsReordered gs hs → FieldsReordered fs hs

module _ (go : GoLib) where
  keep_fields :
      (k : Text) (v w : Value) (fs gs : Fields)
      → contains_encoded_image go v ≡ contains_encoded_image go w
      → contains_fields go fs ≡ contains_fields go gs
      → contains_fields go (field k v fs) ≡ contains_fields go (field k w gs)
  unfolding contains_encoded_image
  keep_fields k v w fs gs e e' = cc

  swap_fields :
      (k l : Text) (v w : Value) (fs : Fields)
      → contains_fields go (field k v (field l w fs))
        ≡ contains_fields go (field l w (field k v fs))
  unfolding contains_encoded_image
  swap_fields k l v w fs = ground arith

  mutual
    unfolding contains_encoded_image

    contains-Reordered :
        {v w : Value} → Reordered v w → contains_encoded_image go v ≡ contains_encoded_image go w
    contains-Reordered (same v) = refl
    contains-Reordered (in_array h) = items_reordered h
    contains-Reordered (in_object h) = fields_reordered h

    items_reordered :
        {xs ys : Items} → ItemsReordered xs ys → contains_items go xs ≡ contains_items go ys
    items_reordered none_left = refl
    items_reordered (each h r) = cc (contains-Reordered h, items_reordered r)

    fields_reordered :
        {fs gs : Fields} → FieldsReordered fs gs → contains_fields go fs ≡ contains_fields go gs
    fields_reordered no_field = refl
    fields_reordered (keep {k} {v} {w} {fs} {gs} h r) =
        keep_fields k v w fs gs (contains-Reordered h) (fields_reordered r)
    fields_reordered (swap {k} {l} {v} {w} {fs}) = swap_fields k l v w fs
    fields_reordered (after h r) = fields_reordered h ∙ fields_reordered r

  inspect_reordered :
      (v w : Value)
      → contains_encoded_image go v ≡ contains_encoded_image go w
      → ((inspect_payload go (some v)).queue_class ≡ (inspect_payload go (some w)).queue_class)
        × ((inspect_payload go (some v)).has_images ≡ (inspect_payload go (some w)).has_images)
  unfolding inspect_payload
  inspect_reordered v w e = ground arith

  -- The class of a request and `HasImages` do not depend on the order in which Go visits the fields
  -- of the objects in its body: decoded to values that differ only in that order, the body gets the
  -- same class and the same answer.
  pub class_order :
      (unmarshal unmarshal' : Text → Option Value) (body : Text) (v w : Value)
      → unmarshal body ≡ some v
      → unmarshal' body ≡ some w
      → Reordered v w
      → ((inspect_request go unmarshal body).queue_class
          ≡ (inspect_request go unmarshal' body).queue_class)
        × ((inspect_request go unmarshal body).has_images
            ≡ (inspect_request go unmarshal' body).has_images)
  unfolding inspect_request
  class_order unmarshal unmarshal' body v w e e' h =
      rw (e, e') (inspect_reordered v w (contains-Reordered h))

  -- The backend hint does depend on it: an object with two hint fields whose strings name two
  -- different backends gives one hint in one order of the fields, and another in the other order.
  pub hint_order :
      (k l s t : Text)
      → is_hint_key go (go.to_lower k) ≡ true
      → is_hint_key go (go.to_lower l) ≡ true
      → hint_of_string go (string s) ≢ unset
      → hint_of_string go (string t) ≢ unset
      → hint_of_string go (string s) ≢ hint_of_string go (string t)
      → extract_backend_hint go (object (field k (string s) (field l (string t) end)))
        ≢ extract_backend_hint go (object (field l (string t) (field k (string s) end)))
  unfolding extract_backend_hint
  hint_order k l s t hk hl hs ht different e = ground arith
