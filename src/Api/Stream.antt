-- ===== src/Api/Stream.antt =====
-- internal/api/server.go: `streamResponse`.
use lm_server.Prelude.{
  ℕ, ◌≡◌, refl, sym, ap, subst, ◌∙◌, ◌⊎◌, inl, inr, Text, true, List, [], ◌∷◌, ◌++◌, Option, none,
  some, arith,
}
use mathlib.Core.List.{append_assoc, append-nil}
use lm_server.Orchestrator.State.{GoError}
use lm_server.Metrics.Recorder.{Call, mark_first_token}
use lm_server.Metrics.Status.{StatusRecorder, Sent, header, body, write, write-late}

-- How `body.Read` ends: with no error, with `io.EOF`, or with another error.
pub data ReadEnd : Type 0 where
  more eof : ReadEnd
  read_error : GoError → ReadEnd

-- One round of the loop: the bytes that `Read` gives, the time, how `Read` ends, and the error of
-- the `Write` of these bytes.
pub record Read : Type 0 where
  pub chunk : Text
  pub at : ℕ
  pub end : ReadEnd
  pub write_error : Option GoError

-- `streaming` while the reader has not answered; `returned` with the error that is returned.
pub data Result : Type 0 where
  streaming : Result
  returned : Option GoError → Result

pub record Streamed : Type 0 where
  pub writer : StatusRecorder
  pub calls : List Call
  pub result : Result

-- The part of the body under `if n > 0`, with the error of `Write`. The writer is never an
-- `http.Flusher`, since a `statusRecorder` has no `Flush`.
abbrev pub forward_chunk : StatusRecorder → Read → StatusRecorder × List Call × Option GoError
forward_chunk w r = elim r.chunk [
  | [] ↦ (w, [], none)
  | c ∷ cs ↦ (write w (c ∷ cs), mark_first_token r.at ∷ [], r.write_error)
]

-- What the loop does after the write: go round, or return.
abbrev pub loop_end : Option GoError → ReadEnd → Option (Option GoError)
loop_end (some e) end = some (some e)
loop_end none more = none
loop_end none eof = some none
loop_end none (read_error e) = some (some e)

abbrev pub end_round : StatusRecorder → List Call → Option (Option GoError) → Streamed → Streamed
end_round w calls (some result) next = record {
  writer = w;
  calls = calls;
  result = returned result;
}
end_round w calls none next = record {
  writer = next.writer;
  calls = calls ++ next.calls;
  result = next.result;
}

unfoldable pub stream_response : StatusRecorder → List Read → Streamed
stream_response w [] = record { writer = w; calls = []; result = streaming }
stream_response w (r ∷ rest) =
    let (w', calls, err) = forward_chunk w r in
    let next = stream_response w' rest in end_round w' calls (loop_end err r.end) next

-- The specification: a round stops the loop with the error of its write, at the end, or with the
-- error of the read.
abbrev pub stop_of : Read → Option (Option GoError)
stop_of r = elim r.chunk [ [] ↦ loop_end none r.end | c ∷ cs ↦ loop_end r.write_error r.end ]

abbrev pub unless_stopped : Option (Option GoError) → Text → Text
unless_stopped (some e) rest = []
unless_stopped none rest = rest

abbrev pub or_returned : Option (Option GoError) → Result → Result
or_returned (some e) next = returned e
or_returned none next = next

-- The bytes that are read up to the first round that stops the loop, and the error it returns.
abbrev pub bytes_read : List Read → Text
bytes_read [] = []
bytes_read (r ∷ rest) = r.chunk ++ unless_stopped (stop_of r) (bytes_read rest)

abbrev pub first_stop : List Read → Result
first_stop [] = streaming
first_stop (r ∷ rest) = or_returned (stop_of r) (first_stop rest)

abbrev pub bytes_sent : List Sent → Text
bytes_sent [] = []
bytes_sent (header code ∷ s) = bytes_sent s
bytes_sent (body t ∷ s) = t ++ bytes_sent s

bytes_sent-append : (s : List Sent) (t : Text) → bytes_sent (s ++ body t ∷ []) ≡ bytes_sent s ++ t
bytes_sent-append [] t = append-nil t
bytes_sent-append (header code ∷ s) t = bytes_sent-append s t
bytes_sent-append (body u ∷ s) t =
    ap (λ b. u ++ b) (bytes_sent-append s t) ∙ sym (append_assoc u (bytes_sent s) t)

List-cases : (t : Text) → (t ≡ []) ⊎ ((c : ℕ) × (cs : Text) × (t ≡ c ∷ cs))
List-cases [] = inl refl
List-cases (c ∷ cs) = inr (c, cs, refl)

chunk_of :
    (w : StatusRecorder) (r : Read)
    → w.wrote_header ≡ true
    → let (w', calls, err) = forward_chunk w r in
      (w'.wrote_header ≡ true)
      × (w'.status_code ≡ w.status_code)
      × (bytes_sent w'.sent ≡ bytes_sent w.sent ++ r.chunk)
      × (loop_end err r.end ≡ stop_of r)
chunk_of w r h = elim (List-cases r.chunk) [
  | inl e ↦ ground (arith, append-nil (bytes_sent w.sent))
  | inr (c, cs, e) ↦ ground (arith, write-late w (c ∷ cs) h, bytes_sent-append w.sent (c ∷ cs))
]

abbrev IsForwarded : StatusRecorder → Text → Result → Streamed → Type 0
IsForwarded w bytes result s =
    (bytes_sent s.writer.sent ≡ bytes_sent w.sent ++ bytes)
    × (s.result ≡ result)
    × (s.writer.status_code ≡ w.status_code)

end_round-IsForwarded :
    (w w' : StatusRecorder) (chunk bytes : Text) (calls : List Call)
    (stop : Option (Option GoError)) (result : Result) (next : Streamed)
    → w'.status_code ≡ w.status_code
    → bytes_sent w'.sent ≡ bytes_sent w.sent ++ chunk
    → IsForwarded w' bytes result next
    → IsForwarded w
        (chunk ++ unless_stopped stop bytes)
        (or_returned stop result)
        (end_round w' calls stop next)
end_round-IsForwarded w w' chunk bytes calls none result next status e h =
    (h.0 ∙ ap (λ b. b ++ bytes) e ∙ append_assoc (bytes_sent w.sent) chunk bytes, h.1, h.2 ∙ status)
end_round-IsForwarded w w' chunk bytes calls (some x) result next status e h =
    (e ∙ ap (λ b. bytes_sent w.sent ++ b) (sym (append-nil chunk)), refl, status)

-- Once the header is out, the bytes of the body go to the client in order, each once, up to the end
-- of the body or the first error, with whose result `streamResponse` returns; the status stays.
pub stream_response-bytes :
    (w : StatusRecorder) (rs : List Read)
    → w.wrote_header ≡ true
    → let s = stream_response w rs in
      (bytes_sent s.writer.sent ≡ bytes_sent w.sent ++ bytes_read rs)
      × (s.result ≡ first_stop rs)
      × (s.writer.status_code ≡ w.status_code)
unfolding stream_response
stream_response-bytes w [] h = (sym (append-nil (bytes_sent w.sent)), refl, refl)
stream_response-bytes w (r ∷ rest) h =
    let (h', status, bytes, stop) = chunk_of w r h in
    let (w', calls, err) = forward_chunk w r in
    let next = stream_response w' rest in
    subst
      (λ o.
        IsForwarded w (r.chunk ++ unless_stopped (stop_of r) (bytes_read rest))
          (or_returned (stop_of r) (first_stop rest)) (end_round w' calls o next))
      (sym stop)
      (end_round-IsForwarded w w' r.chunk (bytes_read rest) calls (stop_of r) (first_stop rest) next
        status bytes (stream_response-bytes w' rest h'))
