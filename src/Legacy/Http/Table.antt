-- ===== src/Legacy/Http/Table.antt =====
-- 0old/server/net_mgr/net_http.hpp: `net_http`, its tables of handlers, its workers and its thread. The
-- errors of opening the acceptor are parameters.
use f1985gfw.Base.{
  ℕ, zero, suc, Bool, true, false, List, [], ◌∷◌, ◌++◌, if◌then◌else◌, Result, ok, fault,
  null_pointer,
}
use f1985gfw.Base.Texts.{Text, TextMap}
use f1985gfw.Legacy.Accounts.{register_handler, dispatch}
use f1985gfw.Legacy.Http.{
  HttpWorker, Process, http_worker, set_get_process, set_post_process, start,
}

-- `process_map_t`
abbrev pub Handlers : Type 0 → Type 0
Handlers S = TextMap (Text → S → S × Text)

pub record HttpServer (S : Type 0) : Type 0 where
  pub workers : List (HttpWorker S)
  pub get_processes : Handlers S
  pub post_processes : Handlers S
  pub thread : Bool

module _ {S : Type 0} where
  unfoldable pub net_http : HttpServer S
  net_http = record { workers = []; get_processes = []; post_processes = []; thread = false }

  unfoldable pub register_get : Text → (Text → S → S × Text) → HttpServer S → HttpServer S
  register_get key val h = record h { get_processes = register_handler key val h.get_processes }

  unfoldable pub register_post : Text → (Text → S → S × Text) → HttpServer S → HttpServer S
  register_post key val h = record h { post_processes = register_handler key val h.post_processes }

  -- A table as the process of a worker.
  unfoldable pub process_with : Handlers S → Process S
  process_with handlers key body s = ok (dispatch key body handlers s)

  -- A worker as the loop of `startup` makes it. The bound functions read the tables of the server, which
  -- does not register any more once it has started.
  unfoldable pub new_worker : Text → ℕ → HttpServer S → HttpWorker S
  new_worker doc_root now h = start now (
      set_post_process (process_with h.post_processes)
        (set_get_process (process_with h.get_processes) (http_worker doc_root)))

  unfoldable pub add_worker : Text → ℕ → HttpServer S → HttpServer S
  add_worker doc_root now h = record h { workers = h.workers ++ new_worker doc_root now h ∷ [] }

  unfoldable pub add_workers : ℕ → Text → ℕ → HttpServer S → HttpServer S
  add_workers zero doc_root now h = h
  add_workers (suc n) doc_root now h = add_workers n doc_root now (add_worker doc_root now h)

  -- `startup`, given whether open, set_option, bind and listen succeed.
  unfoldable pub startup : Bool → Bool → Bool → Bool → ℕ → Text → ℕ → HttpServer S → HttpServer S
  startup opened reusable bound listening workers doc_root now h =
      if opened
      then (if reusable
          then (if bound
              then (if listening
                  then record (add_workers workers doc_root now h) { thread = true }
                  else h)
              else h)
          else h)
      else h

  -- `release` joins the thread, through a pointer that is null if there is none.
  unfoldable pub release : HttpServer S → Result (HttpServer S)
  release h = if h.thread then ok h else fault null_pointer
