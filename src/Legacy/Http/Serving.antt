-- ===== src/Legacy/Http/Serving.antt =====
-- 0old/server/net_mgr/net_http.hpp: an HTTP worker over all orders of the completions of its operations,
-- and its deadline.
use f1985gfw.Base.{
  ℕ, ◌+◌, ◌≤◌, ◌≡◌, refl, sym, ap, subst, ◌⊎◌, inl, inr, Bool, true, false, Option, none, some,
  arith, ok, Bool-cases,
}
use f1985gfw.Base.Texts.{Text}
use f1985gfw.Worker.Closing.{ok-injective}
use f1985gfw.Legacy.Http.Answers.{process_request-answer}
use f1985gfw.Legacy.Http.{
  HttpWorker, HttpRequest, HttpResponse, closed, half_closed, Pending, accepting, reading,
  writing_string, writing_file, accept, read_request, handle_accept, handle_read,
  handle_write_string, handle_write_file, write_string, check_deadline, expired, start,
}

-- The response that is kept while it is written, and only then.
pub data Keeps : Pending → Option HttpResponse → Type 0 where
  while_accepting : Keeps accepting none
  while_reading : Keeps reading none
  while_writing : (r : HttpResponse) → Keeps writing_string (some r)

unkept : (o : Option HttpResponse) → Keeps accepting o → o ≡ none
unkept _ while_accepting = refl

pub unkept_reading : (o : Option HttpResponse) → Keeps reading o → o ≡ none
unkept_reading _ while_reading = refl

no_file_write : (o : Option HttpResponse) → Keeps writing_file o → ⊥
no_file_write o kept = elim kept [ ]

module _ {S : Type 0} where
  -- A step of the worker at a time: time passes, an operation under way completes, or the deadline is
  -- checked. A request whose process throws has no step.
  pub data Step : ℕ → HttpWorker S → S → ℕ → HttpWorker S → S → Type 0 where
    waits : {c : ℕ} {w : HttpWorker S} {s : S} (d : ℕ) → c ≤ d → Step c w s d w s
    accepts :
        {c : ℕ} {w : HttpWorker S} {s : S} (ec : Bool)
        → w.pending ≡ accepting
        → Step c w s c (handle_accept ec c w) s
    reads :
        {c : ℕ} {w v : HttpWorker S} {s t : S} (got : Option HttpRequest) (rest : Text)
        → w.pending ≡ reading
        → handle_read got rest w s ≡ ok (v, t)
        → Step c w s c v t
    writes :
        {c : ℕ} {w : HttpWorker S} {s : S}
        → w.pending ≡ writing_string
        → Step c w s c (handle_write_string w) s
    writes_file :
        {c : ℕ} {w : HttpWorker S} {s : S}
        → w.pending ≡ writing_file
        → Step c w s c (handle_write_file w) s
    checks : {c : ℕ} {w : HttpWorker S} {s : S} → Step c w s c (check_deadline c w) s

  pub data Steps (c : ℕ) (w : HttpWorker S) (s : S) : ℕ → HttpWorker S → S → Type 0 where
    still : Steps c w s c w s
    then_step :
        {d e : ℕ} {v u : HttpWorker S} {t r : S}
        → Steps c w s d v t
        → Step d v t e u r
        → Steps c w s e u r

  -- An open socket has a deadline, at most 60 seconds ahead.
  unfoldable pub Timed : ℕ → HttpWorker S → Type 0
  Timed c w = (w.socket ≡ closed) ⊎ ((t : ℕ) × (w.deadline ≡ some t) × (t ≤ c + 60))

  pub record Serving (c : ℕ) (w : HttpWorker S) : Type 0 where
    pub waiting : w.waiting ≡ true
    pub timed : Timed c w
    pub keeps : Keeps w.pending w.string_response
    pub no_file : w.file_response ≡ none

  later : (c d : ℕ) (w : HttpWorker S) → c ≤ d → Timed c w → Timed d w
  unfolding Timed
  later c d w h (inl shut) = inl shut
  later c d w h (inr (t, set, soon)) = inr (t, set, omega arith)

  accept-Serving :
      (c : ℕ) (w : HttpWorker S)
      → w.waiting ≡ true
      → w.string_response ≡ none
      → w.file_response ≡ none
      → Serving c (accept w)
  unfolding accept Timed
  accept-Serving c w waiting kept file = record {
    waiting = waiting;
    timed = inl refl;
    keeps = rw kept while_accepting;
    no_file = file;
  }

  write_string-Serving :
      (c : ℕ) (r : HttpResponse) (w : HttpWorker S)
      → w.waiting ≡ true
      → Timed c w
      → w.file_response ≡ none
      → Serving c (write_string r w)
  unfolding write_string Timed
  write_string-Serving c r w waiting timed file = record {
    waiting = waiting;
    timed = timed;
    keeps = while_writing r;
    no_file = file;
  }

  handle_read-Serving :
      (c : ℕ) (o : Option HttpRequest) (rest : Text) (w v : HttpWorker S) (s t : S)
      → handle_read o rest w s ≡ ok (v, t)
      → w.pending ≡ reading
      → Serving c w
      → Serving c v
  unfolding handle_read Timed
  handle_read-Serving c none rest w v s t e under inv =
      subst (Serving c) (ap (λ p. p.0) (ok-injective e)) (
        accept-Serving c (record w { buffer = rest }) inv.waiting
          (unkept_reading _ (subst (λ (p : Pending). Keeps p w.string_response) under inv.keeps))
          inv.no_file)
  handle_read-Serving c (some req) rest w v s t e under inv =
      let (r, _, out) =
        process_request-answer req.method req (record w { buffer = rest }) v s t refl e in
      subst (Serving c) (sym out)
        (write_string-Serving c r (record w { buffer = rest }) inv.waiting inv.timed inv.no_file)

  handle_accept-Serving :
      (ec : Bool) (c : ℕ) (w : HttpWorker S)
      → w.pending ≡ accepting
      → Serving c w
      → Serving c (handle_accept ec c w)
  unfolding handle_accept read_request Timed
  handle_accept-Serving true c w under inv =
      accept-Serving c w inv.waiting
        (unkept _ (subst (λ (p : Pending). Keeps p w.string_response) under inv.keeps)) inv.no_file
  handle_accept-Serving false c w under inv = record {
    waiting = inv.waiting;
    timed = inr (c + 60, refl, omega arith);
    keeps =
        rw (unkept _ (subst (λ (p : Pending). Keeps p w.string_response) under inv.keeps))
          while_reading;
    no_file = inv.no_file;
  }

  check_deadline-Serving :
      (c : ℕ) (w : HttpWorker S)
      → Timed c w
      → Keeps w.pending w.string_response
      → w.file_response ≡ none
      → Serving c (check_deadline c w)
  unfolding check_deadline Timed
  check_deadline-Serving c w timed keeps file = elim (Bool-cases (expired w.deadline c)) [
    | inl past ↦
        rw past (record { waiting = refl; timed = inl refl; keeps = keeps; no_file = file })
    | inr ahead ↦ rw ahead (record { waiting = refl; timed = timed; keeps = keeps; no_file = file })
  ]

  Step-Serving :
      {c d : ℕ} {w v : HttpWorker S} {s t : S} → Step c w s d v t → Serving c w → Serving d v
  unfolding handle_write_string handle_write_file
  Step-Serving {c = c} {w = w} (waits d h) inv = record {
    waiting = inv.waiting;
    timed = later c d w h inv.timed;
    keeps = inv.keeps;
    no_file = inv.no_file;
  }
  Step-Serving {c = c} {w = w} (accepts ec under) inv = handle_accept-Serving ec c w under inv
  Step-Serving {c = c} {w = w} {v = v} {s = s} {t = t} (reads o rest under e) inv =
      handle_read-Serving c o rest w v s t e under inv
  Step-Serving {c = c} {w = w} (writes under) inv =
      accept-Serving c (record w { socket = half_closed; string_response = none }) inv.waiting refl
        inv.no_file
  Step-Serving {c = c} {w = w} (writes_file under) inv =
      absurd (no_file_write _ (subst (λ (p : Pending). Keeps p w.string_response) under inv.keeps))
  Step-Serving {c = c} {w = w} checks inv =
      check_deadline-Serving c w inv.timed inv.keeps inv.no_file

  Steps-Serving_from :
      {c : ℕ} {w : HttpWorker S} {s : S} {d : ℕ} {v : HttpWorker S} {t : S}
      → Serving c w
      → Steps c w s d v t
      → Serving d v
  Steps-Serving_from inv still = inv
  Steps-Serving_from inv (then_step before last) = Step-Serving last (Steps-Serving_from inv before)

  -- A worker that starts without a response to write, after any completions of its operations, checks of
  -- its deadline and passing of time: its timer is waited for; an open socket has a deadline at most 60
  -- seconds ahead; it is accepting, reading, or writing a response, which it keeps just as long; and it
  -- writes no file.
  pub Steps-Serving :
      (w v : HttpWorker S) (s t : S) (c d : ℕ)
      → w.string_response ≡ none
      → w.file_response ≡ none
      → Steps c (start c w) s d v t
      → Serving d v
  unfolding start accept Timed
  Steps-Serving w v s t c d kept file steps =
      Steps-Serving_from
        (check_deadline-Serving c (accept w) (inl refl) (rw kept while_accepting) file) steps
