-- ===== src/Classifier/Image.antt =====
-- internal/orchestrator/classifier.go: `looksLikeEncodedImage` and `hasKnownImageMagic`.
use lm_server.Prelude.{
  ℕ, ◌-◌, ◌%◌, ◌≤◌, ◌≡◌, Text, codes, text_eq, Bool, true, false, ◌&&◌, ◌||◌, ◌==◌, leb, ltb, List,
  [], ◌++◌, Option, none, some, if◌then◌else◌, length, length-append, get_elem?, arith, Bool-cases,
  inl, inr,
}
use lm_server.Classifier.Text.{
  has_prefix, after, take, trim_right, repeat, length-repeat, length-take, length-trim_right,
}

-- The functions of the standard library that are not modelled byte by byte: `strings.ToLower` and
-- `strings.TrimSpace`, which know all of Unicode, and `base64.StdEncoding.DecodeString`.
pub record GoLib : Type 0 where
  pub to_lower : Text → Text
  pub trim_space : Text → Text
  pub decode_base64 : Text → Option (List ℕ)

-- `d[i] == b`, where i is in range.
abbrev byte_is : List ℕ → ℕ → ℕ → Bool
byte_is d i b = elim (get_elem? d i) [ some x ↦ x == b | none ↦ false ]

unfoldable pub has_known_image_magic : List ℕ → Bool
has_known_image_magic d =
    leb 3 (length d) && (byte_is d 0 0xff && (byte_is d 1 0xd8 && byte_is d 2 0xff))
    || (leb 8 (length d)
          && (byte_is d 0 0x89 && (byte_is d 1 0x50 && (byte_is d 2 0x4e && byte_is d 3 0x47)))
        || (leb 4 (length d)
              && (byte_is d 0 b'G' && (byte_is d 1 b'I' && (byte_is d 2 b'F' && byte_is d 3 b'8')))
            || leb 12 (length d)
              && (byte_is d 0 b'R'
                  && (byte_is d 1 b'I'
                      && (byte_is d 2 b'F'
                          && (byte_is d 3 b'F'
                              && (byte_is d 8 b'W'
                                  && (byte_is d 9 b'E'
                                      && (byte_is d 10 b'B' && byte_is d 11 b'P')))))))))

or_whole : Option Text → Text → Text
or_whole (some rest) t = rest
or_whole none t = t

-- What follows "base64,", or the whole text.
unfoldable pub base64_part : Text → Text
unfolding or_whole
base64_part t = or_whole (after t (codes "base64,")) t

-- `if len(segment) > 256 { segment = segment[:256] }`
cut : Text → Text
cut t = if ltb 256 (length t) then take 256 t else t

-- The part that is decoded: 256 bytes at most, with the padding written anew.
unfoldable pub segment_of : Text → Text
unfolding cut
segment_of t = let s = trim_right b'=' (cut t) in s ++ repeat b'=' ((4 - length s % 4) % 4)

is_magic : Option (List ℕ) → Bool
is_magic (some d) = has_known_image_magic d
is_magic none = false

module _ (go : GoLib) where
  unfoldable pub looks_like_encoded_image : Text → Bool
  unfolding base64_part segment_of is_magic
  looks_like_encoded_image value =
      let t = go.trim_space value in
      let b = base64_part t in
      if text_eq t []
      then false
      else if has_prefix t (codes "data:image/")
      then true
      else if ltb (length b) 64
      then false
      else is_magic (go.decode_base64 (segment_of b))

padded :
    (s : Text)
    → length s ≤ 256
    → (length (s ++ repeat b'=' ((4 - length s % 4) % 4)) ≤ 256)
      × (length (s ++ repeat b'=' ((4 - length s % 4) % 4)) % 4 ≡ 0)
padded s h = omega (
  arith,
  length-append s (repeat b'=' ((4 - length s % 4) % 4)),
  length-repeat b'=' ((4 - length s % 4) % 4),
)

length-cut : (t : Text) → length (cut t) ≤ 256
unfolding cut
length-cut t = elim (Bool-cases (ltb 256 (length t))) [
  | inl long ↦ rw long (length-take 256 t)
  | inr short ↦ rw short (ground arith)
]

length-trimmed : (t : Text) → length (trim_right b'=' (cut t)) ≤ 256
length-trimmed t = omega (arith, length-trim_right b'=' (cut t), length-cut t)

-- Whatever the text, the decoder is handed at most 256 bytes, in whole groups of four.
pub segment_of_bounds : (t : Text) → (length (segment_of t) ≤ 256) × (length (segment_of t) % 4 ≡ 0)
unfolding segment_of
segment_of_bounds t = padded (trim_right b'=' (cut t)) (length-trimmed t)
