-- ===== src/Legacy/Http.antt =====
-- 0old/server/net_mgr/net_http.hpp: `http_worker`, which serves one connection after another. Beast and Asio
-- are parameters: an operation that is started is seen as `pending`, what it is given to write as `sent`, and
-- its completion is a call of the handler with its result. A time is a number of seconds.
pub mod Files
pub mod Table
pub mod Answers
pub mod Serving
pub mod Release
pub mod Listening
pub mod Paths
use Prim.Native.String.{String}
use f1985gfw.Base.{
  ℕ, ◌+◌, ◌≡◌, Bool, true, false, Option, none, some, List, [], ◌∷◌, ◌++◌, if◌then◌else◌, leb, ◌==◌,
  Result, ok, fault, bad_function, ◌>>=◌, or_fault,
}
use f1985gfw.Base.Texts.{Text, codes}

-- `http::verb`, as far as the worker tells its values apart.
pub data Verb : Type 0 where
  verb_get verb_post verb_other : Verb

-- What Beast reads: a request, with the word that stands for its method.
pub record HttpRequest : Type 0 where
  pub method : Verb
  pub method_string : Text
  pub target : Text
  pub body : Text

-- The values of `http::status` that are used.
abbrev pub status_ok : ℕ
status_ok = 200

abbrev pub status_bad_request : ℕ
status_bad_request = 400

abbrev pub status_not_found : ℕ
status_not_found = 404

-- `string_response_`, and `file_response_` with the contents of its file. The field Server is always Beast.
pub record HttpResponse : Type 0 where
  pub result : ℕ
  pub keep_alive : Bool
  pub content_type : String
  pub body : Text

-- The socket: after `shutdown` it is half closed.
pub data Socket : Type 0 where
  closed opened half_closed : Socket

-- The operation on the socket that is under way.
pub data Pending : Type 0 where
  idle accepting reading writing_string writing_file : Pending

-- `get_process_t` and `post_process_t`, which act on a state.
abbrev pub Process : Type 0 → Type 0
Process S = Text → Text → S → Result (S × Text)

-- `http_worker`. `deadline` is the expiry of its timer, none for the greatest time point; `waiting` says
-- that the timer is waited for.
pub record HttpWorker (S : Type 0) : Type 0 where
  pub get_process : Option (Process S)
  pub post_process : Option (Process S)
  pub doc_root : Text
  pub socket : Socket
  pub buffer : Text
  pub deadline : Option ℕ
  pub waiting : Bool
  pub string_response : Option HttpResponse
  pub file_response : Option HttpResponse
  pub pending : Pending
  pub sent : List HttpResponse

-- `req.target().substr(0, req.target().find_first_of('?'))`
unfoldable pub path_of : Text → Text
path_of [] = []
path_of (c ∷ cs) = if c == b'?' then [] else c ∷ path_of cs

unfoldable pub string_reply : ℕ → String → Text → HttpResponse
string_reply status kind body = record {
  result = status;
  keep_alive = false;
  content_type = kind;
  body = body;
}

-- The body of the answer to a method that is not served.
unfoldable pub invalid_method : Text → Text
invalid_method name = codes "Invalid request-method '" ++ name ++ b'\'' ∷ 13 ∷ 10 ∷ []

-- `steady_timer::expiry() <= now`
unfoldable pub expired : Option ℕ → ℕ → Bool
expired none now = false
expired (some t) now = leb t now

module _ {S : Type 0} where
  -- The constructor.
  unfoldable pub http_worker : Text → HttpWorker S
  http_worker doc_root = record {
    get_process = none;
    post_process = none;
    doc_root = doc_root;
    socket = closed;
    buffer = [];
    deadline = none;
    waiting = false;
    string_response = none;
    file_response = none;
    pending = idle;
    sent = [];
  }

  unfoldable pub set_get_process : Process S → HttpWorker S → HttpWorker S
  set_get_process val w = record w { get_process = some val }

  unfoldable pub set_post_process : Process S → HttpWorker S → HttpWorker S
  set_post_process val w = record w { post_process = some val }

  -- `accept` closes what is left of the last connection.
  unfoldable pub accept : HttpWorker S → HttpWorker S
  accept w = record w { socket = closed; buffer = []; pending = accepting }

  unfoldable pub read_request : HttpWorker S → HttpWorker S
  read_request w = record w { pending = reading }

  -- The completion of `async_accept`, failed or at a time.
  unfoldable pub handle_accept : Bool → ℕ → HttpWorker S → HttpWorker S
  handle_accept ec now w =
      if ec
      then accept w
      else read_request (record w { socket = opened; deadline = some (now + 60) })

  -- The start of the write of `string_response_`.
  unfoldable pub write_string : HttpResponse → HttpWorker S → HttpWorker S
  write_string response w = record w {
    string_response = some response;
    pending = writing_string;
    sent = w.sent ++ response ∷ [];
  }

  unfoldable pub send_bad_response : ℕ → Text → HttpWorker S → HttpWorker S
  send_bad_response status error w = write_string (string_reply status "text/plain" error) w

  unfoldable pub on_get : HttpRequest → HttpWorker S → S → Result (HttpWorker S × S)
  on_get req w s = do
    get_process ← or_fault w.get_process bad_function
    (s, res_body) ← get_process (path_of req.target) req.body s
    ok (write_string (string_reply status_ok "application/json" res_body) w, s)

  unfoldable pub on_post : HttpRequest → HttpWorker S → S → Result (HttpWorker S × S)
  on_post req w s = do
    post_process ← or_fault w.post_process bad_function
    (s, res_body) ← post_process (path_of req.target) req.body s
    ok (write_string (string_reply status_ok "application/json" res_body) w, s)

  unfoldable pub process_request : HttpRequest → HttpWorker S → S → Result (HttpWorker S × S)
  process_request req w s = elim req.method [
    | verb_get ↦ on_get req w s
    | verb_post ↦ on_post req w s
    | verb_other ↦ ok (send_bad_response status_bad_request (invalid_method req.method_string) w, s)
  ]

  -- The completion of `async_read`, failed or with a request; the second argument is what it leaves in the
  -- buffer.
  unfoldable pub handle_read :
      Option HttpRequest → Text → HttpWorker S → S → Result (HttpWorker S × S)
  handle_read none buffer w s = ok (accept (record w { buffer = buffer }), s)
  handle_read (some req) buffer w s = process_request req (record w { buffer = buffer }) s

  -- The completion of the write of `string_response_`, with any result.
  unfoldable pub handle_write_string : HttpWorker S → HttpWorker S
  handle_write_string w = accept (record w { socket = half_closed; string_response = none })

  -- The same for `file_response_`.
  unfoldable pub handle_write_file : HttpWorker S → HttpWorker S
  handle_write_file w = accept (record w { socket = half_closed; file_response = none })

  -- `check_deadline`, at a time: it is also the completion of the timer's wait, which ends when the expiry
  -- passes or is moved.
  unfoldable pub check_deadline : ℕ → HttpWorker S → HttpWorker S
  check_deadline now w =
      let w : HttpWorker S =
        if expired w.deadline now then record w { socket = closed; deadline = none } else w in
      record w { waiting = true }

  unfoldable pub start : ℕ → HttpWorker S → HttpWorker S
  start now w = check_deadline now (accept w)
