-- ===== src/Metrics/Status.antt =====
-- internal/metrics/middleware.go: the response writer that remembers the status code.
use lm_server.Prelude.{
  ℕ, ◌≡◌, refl, sym, ap, ◌∙◌, Text, Bool, true, false, List, [], ◌∷◌, ◌++◌, if◌then◌else◌, arith,
}
use mathlib.Core.List.{append-nil, append_assoc}

-- What reaches the `http.ResponseWriter` below.
pub data Sent : Type 0 where
  header : ℕ → Sent
  body : Text → Sent

-- `statusRecorder`, with what it has sent on so far, in order.
pub record StatusRecorder : Type 0 where
  pub status_code : ℕ
  pub wrote_header : Bool
  pub sent : List Sent

abbrev pub status_ok : ℕ
status_ok = 200

-- As `Middleware` makes it.
unfoldable pub new_status_recorder : StatusRecorder
new_status_recorder = record { status_code = status_ok; wrote_header = false; sent = [] }

unfoldable pub write_header : StatusRecorder → ℕ → StatusRecorder
write_header r code =
    if r.wrote_header
    then r
    else record { status_code = code; wrote_header = true; sent = r.sent ++ header code ∷ [] }

unfoldable pub write : StatusRecorder → Text → StatusRecorder
unfolding write_header
write r t =
    let r' = if r.wrote_header then r else write_header r status_ok in
    record r' { sent = r'.sent ++ body t ∷ [] }

-- What a handler does with the writer.
pub data Use : Type 0 where
  writes_header : ℕ → Use
  writes : Text → Use

unfoldable pub use_writer : StatusRecorder → List Use → StatusRecorder
unfolding write write_header
use_writer r [] = r
use_writer r (writes_header code ∷ us) = use_writer (write_header r code) us
use_writer r (writes t ∷ us) = use_writer (write r t) us

-- The specification: what the handler means to send, once the header is out, and from the start.
abbrev pub bodies : List Use → List Sent
bodies [] = []
bodies (writes_header code ∷ us) = bodies us
bodies (writes t ∷ us) = body t ∷ bodies us

-- The status of a response: its first header, or 200 if it begins with a body or sends nothing.
abbrev pub status_of : List Use → ℕ
status_of [] = status_ok
status_of (writes_header code ∷ us) = code
status_of (writes t ∷ us) = status_ok

abbrev pub response : List Use → List Sent
response [] = []
response us = header (status_of us) ∷ bodies us

-- A header that is already out stays as it is, and a body goes out behind what was sent.
write_header-late :
    (r : StatusRecorder) (code : ℕ) → r.wrote_header ≡ true → write_header r code ≡ r
unfolding write_header
write_header-late r code h = ground arith

pub write-late :
    (r : StatusRecorder) (t : Text)
    → r.wrote_header ≡ true
    → write r t ≡ record r { sent = r.sent ++ body t ∷ [] }
unfolding write
write-late r t h = ground arith

after_header :
    (r : StatusRecorder) (us : List Use)
    → r.wrote_header ≡ true
    → ((use_writer r us).status_code ≡ r.status_code)
      × ((use_writer r us).sent ≡ r.sent ++ bodies us)
unfolding write_header use_writer
after_header r [] h = (refl, sym (append-nil r.sent))
after_header r (writes_header code ∷ us) h =
    let e = ap (λ q. use_writer q us) (write_header-late r code h) in
    let ih = after_header r us h in (ap (λ q. q.status_code) e ∙ ih.0, ap (λ q. q.sent) e ∙ ih.1)
after_header r (writes t ∷ us) h =
    let e = ap (λ q. use_writer q us) (write-late r t h) in
    let ih = after_header (record r { sent = r.sent ++ body t ∷ [] }) us h in
    (
      ap (λ q. q.status_code) e ∙ ih.0,
      ap (λ q. q.sent) e ∙ ih.1 ∙ append_assoc r.sent (body t ∷ []) (bodies us),
    )

-- Whatever a handler writes, exactly one header goes out, before any body, unless the handler writes
-- nothing at all; all bodies follow in order, later headers are dropped, and the status code that is
-- recorded is the one that was sent (200 where nothing was sent).
pub use_writer-response :
    (us : List Use)
    → ((use_writer new_status_recorder us).sent ≡ response us)
      × ((use_writer new_status_recorder us).status_code ≡ status_of us)
unfolding use_writer new_status_recorder
use_writer-response [] = (refl, refl)
use_writer-response (writes_header code ∷ us) =
    let (status, sent) =
      after_header (record { status_code = code; wrote_header = true; sent = header code ∷ [] }) us
        refl in
    (sent, status)
use_writer-response (writes t ∷ us) =
    let (status, sent) =
      after_header
        (record {
          status_code = status_ok;
          wrote_header = true;
          sent = header status_ok ∷ body t ∷ [];
        })
        us refl in
    (sent, status)
