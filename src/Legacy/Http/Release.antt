-- ===== src/Legacy/Http/Release.antt =====
-- 0old/server/net_mgr/net_http.hpp: an HTTP worker always comes back to accept.
use f1985gfw.Base.{
  ℕ, ◌+◌, ◌≤◌, ◌≡◌, refl, ap, subst, inl, inr, Option, none, some, [], ◌∷◌, ◌++◌, arith, ok, le→leb,
  Bool-cases,
}
use f1985gfw.Base.Texts.{Text}
use f1985gfw.Legacy.Http.{
  HttpWorker, HttpRequest, HttpResponse, closed, Pending, accepting, reading, writing_string,
  accept, handle_read, handle_write_string, write_string, check_deadline, expired, start,
}
use f1985gfw.Legacy.Http.Answers.{Answers, process_request-answer}
use f1985gfw.Legacy.Http.Serving.{
  reads, writes, Steps, still, then_step, Keeps, while_accepting, while_reading, while_writing,
  unkept_reading, Timed, Steps-Serving,
}

module _ {S : Type 0} where
  check_deadline-closed :
      (c e : ℕ) (w : HttpWorker S) → c + 60 ≤ e → Timed c w → (check_deadline e w).socket ≡ closed
  unfolding check_deadline Timed expired
  check_deadline-closed c e w past (inl shut) = elim (Bool-cases (expired w.deadline e)) [
    | inl out ↦ rw out refl
    | inr ahead ↦ rw ahead shut
  ]
  check_deadline-closed c e w past (inr (t, set, soon)) =
      rw (set, expired, le→leb t e (omega arith)) refl

  check_deadline-pending : (e : ℕ) (w : HttpWorker S) → (check_deadline e w).pending ≡ w.pending
  unfolding check_deadline
  check_deadline-pending e w = elim (Bool-cases (expired w.deadline e)) [
    | inl out ↦ rw out refl
    | inr ahead ↦ rw ahead refl
  ]

  -- The operation under way ends, a read without a request.
  back_to_accept :
      (c : ℕ) (w : HttpWorker S) (s : S) (p : Pending) (o : Option HttpResponse)
      → w.pending ≡ p
      → Keeps p o
      → w.socket ≡ closed
      → (v : HttpWorker S) × Steps c w s c v s × (v.pending ≡ accepting) × (v.socket ≡ closed)
  unfolding handle_read accept handle_write_string
  back_to_accept c w s _ _ under while_accepting shut = (w, still, under, shut)
  back_to_accept c w s _ _ under while_reading shut =
      (accept (record w { buffer = [] }), then_step still (reads none [] under refl), refl, refl)
  back_to_accept c w s _ _ under (while_writing r) shut =
      (handle_write_string w, then_step still (writes under), refl, refl)

  -- In any state that a worker reaches, a check of its deadline 60 seconds later or more closes its socket,
  -- and once the operation under way has ended, a read without a request, it accepts again.
  pub Steps-released :
      (w v : HttpWorker S) (s t : S) (c d e : ℕ)
      → w.string_response ≡ none
      → w.file_response ≡ none
      → Steps c (start c w) s d v t
      → d + 60 ≤ e
      → ((check_deadline e v).socket ≡ closed)
        × ((u : HttpWorker S) × Steps e (check_deadline e v) t e u t
            × (u.pending ≡ accepting)
            × (u.socket ≡ closed))
  Steps-released w v s t c d e kept file steps past =
      let inv = Steps-Serving w v s t c d kept file steps in
      let shut = check_deadline-closed d e v past inv.timed in
      (
        shut,
        back_to_accept e (check_deadline e v) t v.pending v.string_response
            (check_deadline-pending e v) inv.keeps shut,
      )

  -- A worker that reaches a read, and gets a request whose process does not throw, writes the one response to
  -- the request; when the write ends, it has forgotten the response and the unread bytes, and accepts again.
  pub Steps-answered :
      (w v u : HttpWorker S) (s t r : S) (c d : ℕ) (req : HttpRequest) (rest : Text)
      → w.string_response ≡ none
      → w.file_response ≡ none
      → Steps c (start c w) s d v t
      → v.pending ≡ reading
      → handle_read (some req) rest v t ≡ ok (u, r)
      → (answer : HttpResponse) × Answers v.get_process v.post_process req t answer r
        × (u.sent ≡ v.sent ++ answer ∷ [])
        × (u.pending ≡ writing_string)
        × (handle_write_string u ≡ accept (record v { sent = v.sent ++ answer ∷ [] }))
  unfolding handle_read write_string handle_write_string accept
  Steps-answered w v u s t r c d req rest kept file steps under e =
      let inv = Steps-Serving w v s t c d kept file steps in
      let (answer, why, out) =
        process_request-answer req.method req (record v { buffer = rest }) u t r refl e in
      let empty =
        unkept_reading _ (subst (λ (p : Pending). Keeps p v.string_response) under inv.keeps) in
      (
        answer,
        why,
        ap (λ (x : HttpWorker S). x.sent) out,
        ap (λ (x : HttpWorker S). x.pending) out,
        rw (out, empty) refl,
      )
