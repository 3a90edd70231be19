-- ===== src/Legacy/Http/Answers.antt =====
-- 0old/server/net_mgr/net_http.hpp: the response to each request.
use f1985gfw.Base.{
  ◌≡◌, refl, sym, ap, subst, Option, none, some, Result, ok, bad_function, >>=-split, ◌>>=◌,
  or_fault,
}
use f1985gfw.Base.Texts.{Text}
use f1985gfw.Worker.Closing.{ok-injective}
use f1985gfw.Legacy.Http.{
  HttpWorker, HttpRequest, HttpResponse, Verb, verb_get, verb_post, verb_other, Process,
  process_request, on_get, on_post, send_bad_response, write_string, string_reply, invalid_method,
  status_ok, status_bad_request, path_of,
}

abbrev json : Text → HttpResponse
json text = string_reply status_ok "application/json" text

module _ {S : Type 0} where
  -- What the worker writes for a request, and the state after it.
  pub data Answers (get post : Option (Process S)) (req : HttpRequest) (s : S)
      : HttpResponse → S → Type 0 where
    got :
        (process : Process S) (t : S) (text : Text)
        → req.method ≡ verb_get
        → get ≡ some process
        → process (path_of req.target) req.body s ≡ ok (t, text)
        → Answers get post req s (string_reply status_ok "application/json" text) t
    posted :
        (process : Process S) (t : S) (text : Text)
        → req.method ≡ verb_post
        → post ≡ some process
        → process (path_of req.target) req.body s ≡ ok (t, text)
        → Answers get post req s (string_reply status_ok "application/json" text) t
    refused :
        req.method ≡ verb_other
        → Answers get post req s
            (string_reply status_bad_request "text/plain" (invalid_method req.method_string))
            s

  -- The end of `on_get` and of `on_post`.
  abbrev reply_with : HttpWorker S → S × Text → Result (HttpWorker S × S)
  reply_with w (s, res_body) = ok (write_string (json res_body) w, s)

  -- A process that is set gives the text of the response, or the request faults.
  process-split :
      (o : Option (Process S)) (path body : Text) (w v : HttpWorker S) (s t : S)
      → (do process ← or_fault o bad_function; process path body s >>= reply_with w) ≡ ok (v, t)
      → (f : Process S) × (text : Text) × (o ≡ some f)
        × (f path body s ≡ ok (t, text))
        × (v ≡ write_string (json text) w)
  process-split none path body w v s t e = cc
  process-split (some f) path body w v s t e =
      let ((u, text), first, second) = >>=-split (f path body s) (reply_with w) e in
      let out = ok-injective second in
      (
        f,
        text,
        refl,
        subst (λ (r : S). f path body s ≡ ok (r, text)) (ap (λ p. p.1) out) first,
        sym (ap (λ p. p.0) out),
      )

  pub process_request-answer :
      (m : Verb) (req : HttpRequest) (w v : HttpWorker S) (s t : S)
      → req.method ≡ m
      → process_request req w s ≡ ok (v, t)
      → (r : HttpResponse) × Answers w.get_process w.post_process req s r t × (v ≡ write_string r w)
  unfolding process_request on_get on_post send_bad_response
  process_request-answer verb_get req w v s t kind e =
      let (f, text, set, done, out) =
        process-split w.get_process (path_of req.target) req.body w v s t
          (rw (process_request, kind) at e) in
      (json text, got f t text kind set done, out)
  process_request-answer verb_post req w v s t kind e =
      let (f, text, set, done, out) =
        process-split w.post_process (path_of req.target) req.body w v s t
          (rw (process_request, kind) at e) in
      (json text, posted f t text kind set done, out)
  process_request-answer verb_other req w v s t kind e =
      let out : ok (send_bad_response status_bad_request (invalid_method req.method_string) w, s)
          ≡ ok (v, t) =
        rw (process_request, kind) at e in
      (
        string_reply status_bad_request "text/plain" (invalid_method req.method_string),
        subst (Answers w.get_process w.post_process req s _) (ap (λ p. p.1) (ok-injective out))
            (refused kind),
        sym (ap (λ p. p.0) (ok-injective out)),
      )
