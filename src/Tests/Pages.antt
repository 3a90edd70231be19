-- ===== src/Tests/Pages.antt =====
-- Examples for 0old/server/net_mgr/net_http.hpp.
use f1985gfw.Base.{
  replicate, ℕ, suc, ◌≡◌, ◌≢◌, refl, true, false, Option, none, some, [], ◌∷◌, ◌++◌, arith, ok,
}
use f1985gfw.Base.Texts.{Text, codes, lookup}
use f1985gfw.Legacy.Http.{
  HttpWorker, HttpRequest, HttpResponse, verb_post, Process, closed, accepting, reading,
  writing_string, http_worker, set_get_process, set_post_process, accept, handle_accept,
  handle_read, handle_write_string, process_request, on_post, read_request, path_of, check_deadline,
  expired, start, string_reply, status_ok, write_string,
}
use f1985gfw.Legacy.Http.Answers.{Answers}
use f1985gfw.Legacy.Http.Serving.{accepts, reads, Steps, still, then_step, Serving, Steps-Serving}
use f1985gfw.Legacy.Http.Release.{Steps-released, Steps-answered}
use f1985gfw.Legacy.Http.Files.{mime_type, send_file, is_absolute, has_dots, write_file}
use f1985gfw.Legacy.Http.Paths.{send_file-safe}
use f1985gfw.Legacy.Http.Table.{HttpServer, new_worker, startup}
use f1985gfw.Legacy.Http.Listening.{set_up, register_post-served}

-- A process that counts its calls and answers with the body.
abbrev echoes : Process ℕ
echoes path body s = ok (suc s, body)

abbrev worker : HttpWorker ℕ
worker = set_get_process echoes (set_post_process echoes (http_worker (codes "./")))

abbrev question : HttpRequest
question = record {
  method = verb_post;
  method_string = codes "POST";
  target = codes "/a?b";
  body = codes "hi";
}

abbrev hi : HttpResponse
hi = string_reply status_ok "application/json" (codes "hi")

abbrev reading_one : HttpWorker ℕ
reading_one = handle_accept false 0 (start 0 worker)

abbrev writing_one : HttpWorker ℕ
writing_one = write_string hi (record reading_one { buffer = [] })

begun : Steps 0 (start 0 worker) 0 0 reading_one 0
unfolding start check_deadline expired accept set_get_process set_post_process http_worker
begun = then_step {v = start 0 worker} still (accepts {w = start 0 worker} false refl)

is_reading : reading_one.pending ≡ reading
unfolding handle_accept start check_deadline expired accept read_request set_get_process
    set_post_process http_worker
is_reading = refl

answers : handle_read (some question) [] reading_one 0 ≡ ok (writing_one, 1)
unfolding handle_accept handle_read process_request on_post set_get_process set_post_process
    http_worker start check_deadline expired accept read_request path_of
answers = refl

served : Steps 0 (start 0 worker) 0 0 writing_one 1
served = then_step begun (
    reads {w = reading_one} {v = writing_one} {s = 0} {t = 1} (some question) [] is_reading answers)

unkept : worker.string_response ≡ none
unfolding set_get_process set_post_process http_worker
unkept = refl

no_file : worker.file_response ≡ none
unfolding set_get_process set_post_process http_worker
no_file = refl

Steps-Serving_example : Serving 0 writing_one
Steps-Serving_example = Steps-Serving worker writing_one 0 1 0 0 unkept no_file served

Steps-released_example :
    ((check_deadline 60 writing_one).socket ≡ closed)
    × ((u : HttpWorker ℕ) × Steps 60 (check_deadline 60 writing_one) 1 60 u 1
        × (u.pending ≡ accepting)
        × (u.socket ≡ closed))
Steps-released_example =
    Steps-released worker writing_one 0 1 0 0 60 unkept no_file served (omega arith)

Steps-answered_example :
    (answer : HttpResponse) × Answers reading_one.get_process reading_one.post_process question 0
      answer 1
    × (writing_one.sent ≡ reading_one.sent ++ answer ∷ [])
    × (writing_one.pending ≡ writing_string)
    × (handle_write_string writing_one
        ≡ accept (record reading_one { sent = reading_one.sent ++ answer ∷ [] }))
Steps-answered_example =
    Steps-answered worker reading_one writing_one 0 0 1 0 0 question [] unkept no_file begun
      is_reading answers

disk : Text → Option Text
disk path = some (codes "<html>")

abbrev page : HttpResponse
page = string_reply status_ok (mime_type (codes "/a.htm")) (codes "<html>")

page_sent : (send_file disk (codes "/a.htm") worker).file_response ≡ some page
unfolding send_file disk is_absolute has_dots write_file
page_sent = refl

send_file-safe_example :
    ((rest : Text) × (codes "/a.htm" ≡ b'/' ∷ rest))
    × ((a b : Text) → codes "/a.htm" ≢ a ++ b'.' ∷ b'.' ∷ b)
    × ((file : Text) × (disk (worker.doc_root ++ codes "/a.htm") ≡ some file)
        × (page ≡ string_reply status_ok (mime_type (codes "/a.htm")) file))
send_file-safe_example = send_file-safe disk (codes "/a.htm") worker page no_file page_sent

abbrev empty : HttpServer ℕ
empty = record { workers = []; get_processes = []; post_processes = []; thread = false }

abbrev shout : Text → ℕ → ℕ × Text
shout body s = (suc s, body ++ b'!' ∷ [])

abbrev echo_back : Text → ℕ → ℕ × Text
echo_back body s = (s, body)

no_handler : lookup (codes "/a") empty.post_processes ≡ none
unfolding lookup
no_handler = refl

-- Handlers for two paths, of which the first is asked for.
abbrev two_handlers : HttpServer ℕ
two_handlers = set_up (codes "/a") shout ((codes "/b", echo_back) ∷ []) empty

abbrev shouting : HttpWorker ℕ
shouting = handle_accept false 0 (new_worker (codes "./") 0 two_handlers)

asked_path : path_of question.target ≡ codes "/a"
unfolding path_of
asked_path = refl

register_post-served_example :
    ((startup true true true true 4 (codes "./") 0 two_handlers).workers
      ≡ two_handlers.workers ++ replicate 4 (new_worker (codes "./") 0 two_handlers))
    × ((new_worker (codes "./") 0 two_handlers).pending ≡ accepting)
    × (handle_read (some question) [] shouting 0
        ≡ ok (
          write_string
              (string_reply status_ok "application/json" (codes "hi!"))
              (record shouting { buffer = [] }),
          1,
        ))
unfolding path_of handle_accept new_worker read_request
register_post-served_example =
    register_post-served shout ((codes "/b", echo_back) ∷ []) empty 4 (codes "./") 0 question []
      shouting 0 refl no_handler refl
