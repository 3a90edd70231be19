-- ===== src/Legacy/Http/Listening.antt =====
-- 0old/server/net_mgr/net_http.hpp: the workers of a server that is started, and the handlers that they call.
use f1985gfw.Base.{
  ℕ, zero, suc, ◌≡◌, refl, sym, ap, ◌∙◌, Bool, true, false, ◌&&◌, none, some, List, [], ◌∷◌, ◌++◌,
  append_assoc, append-nil, replicate, Bool-cases, inl, inr, if◌then◌else◌, ok, fault, null_pointer,
}
use f1985gfw.Base.Texts.{
  Text, lookup, insert, same_text, same_text-eq, lookup-insert, lookup-insert_other,
}
use f1985gfw.Legacy.Accounts.{register_handler, dispatch}
use f1985gfw.Legacy.Http.{
  HttpWorker, HttpRequest, accepting, start, check_deadline, expired, accept, set_get_process,
  set_post_process, http_worker, verb_post, path_of, string_reply, status_ok, write_string,
  handle_read, process_request, on_post,
}
use f1985gfw.Legacy.Http.Table.{
  HttpServer, register_post, process_with, new_worker, add_worker, add_workers, startup, release,
}

module _ {S : Type 0} where
  add_workers-replicate :
      (n : ℕ) (doc_root : Text) (now : ℕ) (h : HttpServer S)
      → add_workers n doc_root now h
        ≡ record h { workers = h.workers ++ replicate n (new_worker doc_root now h) }
  unfolding add_workers add_worker new_worker
  add_workers-replicate zero doc_root now h =
      ap (λ (ws : List (HttpWorker S)). record h { workers = ws }) (sym (append-nil h.workers))
  add_workers-replicate (suc n) doc_root now h =
      add_workers-replicate n doc_root now (add_worker doc_root now h)
      ∙ ap (λ (ws : List (HttpWorker S)). record h { workers = ws })
          (append_assoc h.workers (new_worker doc_root now h ∷ [])
            (replicate n (new_worker doc_root now h)))

  -- The server after `startup`, on a server that was not started.
  abbrev pub started : Bool → ℕ → Text → ℕ → HttpServer S → HttpServer S
  started listening n doc_root now h =
      if listening
      then record h {
        workers = h.workers ++ replicate n (new_worker doc_root now h);
        thread = true;
      }
      else h

  -- `startup` on a server without a thread adds the given number of workers as `new_worker` makes them, and a
  -- thread, if open, set_option, bind and listen all succeed; else nothing changes, and `release`
  -- follows a null pointer.
  pub startup-release :
      (opened reusable bound listening : Bool) (n : ℕ) (doc_root : Text) (now : ℕ)
      (h : HttpServer S)
      → h.thread ≡ false
      → (startup opened reusable bound listening n doc_root now h
          ≡ started (opened && reusable && bound && listening) n doc_root now h)
        × (release (startup opened reusable bound listening n doc_root now h) ≡ (
            if opened && reusable && bound && listening
            then ok (started true n doc_root now h)
            else fault null_pointer))
  unfolding startup release
  startup-release true true true true n doc_root now h off =
      let done =
        ap (λ (v : HttpServer S). record v { thread = true })
          (add_workers-replicate n doc_root now h) in
      (done, ap ok done)
  startup-release false r b l n doc_root now h off = (refl, rw off refl)
  startup-release true false b l n doc_root now h off = (refl, rw off refl)
  startup-release true true false l n doc_root now h off = (refl, rw off refl)
  startup-release true true true false n doc_root now h off = (refl, rw off refl)

  -- A row of registrations of POST handlers.
  unfoldable pub register_posts : List (Text × (Text → S → S × Text)) → HttpServer S → HttpServer S
  register_posts [] h = h
  register_posts ((key, val) ∷ more) h = register_posts more (register_post key val h)

  register_post-kept :
      (key other : Text) (val new : Text → S → S × Text) (h : HttpServer S)
      → lookup key h.post_processes ≡ some val
      → lookup key (register_post other new h).post_processes ≡ some val
  unfolding register_post register_handler
  register_post-kept key other val new h found = elim (Bool-cases (same_text other key)) [
    | inr away ↦ lookup-insert_other key other new h.post_processes away ∙ found
    | inl same ↦
        let at = same_text-eq other key same in
        ap (λ (k : Text). lookup key (insert k new h.post_processes)) at
        ∙ lookup-insert key new h.post_processes
        ∙ rw found refl
  ]

  register_posts-kept :
      (key : Text) (val : Text → S → S × Text) (more : List (Text × (Text → S → S × Text)))
      (h : HttpServer S)
      → lookup key h.post_processes ≡ some val
      → lookup key (register_posts more h).post_processes ≡ some val
  unfolding register_posts
  register_posts-kept key val [] h found = found
  register_posts-kept key val ((other, new) ∷ more) h found =
      register_posts-kept key val more (register_post other new h)
        (register_post-kept key other val new h found)

  -- The server after a registration for `key` and more registrations, for the same or other paths.
  abbrev pub set_up :
      Text
      → (Text → S → S × Text)
      → List (Text × (Text → S → S × Text))
      → HttpServer S
      → HttpServer S
  set_up key val more h = register_posts more (register_post key val h)

  set_up-lookup :
      (key : Text) (val : Text → S → S × Text) (more : List (Text × (Text → S → S × Text)))
      (h : HttpServer S)
      → lookup key h.post_processes ≡ none
      → lookup key (set_up key val more h).post_processes ≡ some val
  unfolding register_post register_handler
  set_up-lookup key val more h free =
      register_posts-kept key val more (register_post key val h)
        (lookup-insert key val h.post_processes ∙ rw free refl)

  -- The first handler that is registered for a path, whatever was registered for other paths before and for
  -- any paths after it: `startup` without an error adds the given number of workers, which accept, and a
  -- worker with the processes that these were made with calls the handler with the body of each POST request
  -- whose target, up to a question mark, is the path; its text is the body of the response.
  pub register_post-served :
      (val : Text → S → S × Text) (more : List (Text × (Text → S → S × Text))) (h : HttpServer S)
      (n : ℕ) (doc_root : Text) (now : ℕ) (req : HttpRequest) (rest : Text) (w : HttpWorker S)
      (s : S)
      → req.method ≡ verb_post
      → lookup (path_of req.target) h.post_processes ≡ none
      → w.post_process
        ≡ (new_worker doc_root now (set_up (path_of req.target) val more h)).post_process
      → ((startup true true true true n doc_root now
            (set_up (path_of req.target) val more h)).workers
          ≡ (set_up (path_of req.target) val more h).workers
            ++ replicate n (new_worker doc_root now (set_up (path_of req.target) val more h)))
        × ((new_worker doc_root now (set_up (path_of req.target) val more h)).pending ≡ accepting)
        × (handle_read (some req) rest w s
            ≡ ok (
              write_string
                  (string_reply status_ok "application/json" (val req.body s).1)
                  (record w { buffer = rest }),
              (val req.body s).0,
            ))
  unfolding startup new_worker start check_deadline expired accept set_get_process set_post_process
      http_worker handle_read process_request on_post process_with dispatch
  register_post-served val more h n doc_root now req rest w s post free set = (
    ap (λ (v : HttpServer S). v.workers)
        (add_workers-replicate n doc_root now (set_up (path_of req.target) val more h)),
    refl,
    rw (post, set) (rw (dispatch, set_up-lookup (path_of req.target) val more h free) refl),
  )
