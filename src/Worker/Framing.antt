-- ===== src/Worker/Framing.antt =====
-- pointer::parse_data of source/net_worker.hpp against the abstract view of its buffer.
use f1985gfw.Base.{
  ℕ, zero, suc, ◌+◌, ◌-◌, ◌*◌, ◌≤◌, ◌<◌, ◌≡◌, refl, sym, ap, ◌∙◌, List, [], ◌∷◌, ◌++◌, length, take,
  drop, arith, frame, length-append, append_assoc, inl, inr, take-append-drop, length-take, ltb,
  Bool-cases, ltb→le, lt→ltb, le→ltb, fault, overlap, true, false, some, ok, u16_read, write_at,
  write_at-fits, length-write, take-write, take-append_front, drop-append_front, u16_bytes-value,
}
use f1985gfw.Worker.State.{Pointer}
use f1985gfw.Worker.Parse.{body_at, consume}
use f1985gfw.Worker.Frames.{Msg, Fits, IsPartial, length-frame}

-- The bytes that a slot has received and not yet used.
abbrev pub unread : Pointer → List ℕ
unread p = take p.recv_size p.recv_buf

-- The buffer has its size, which is at least that of a header, and what it holds lies within it.
pub record HasBuffer (p : Pointer) : Type 0 where
  pub header : 4 ≤ length p.recv_buf
  pub within : p.recv_size ≤ length p.recv_buf

buffer_split :
    (p : Pointer) (xs : List ℕ) → unread p ≡ xs → p.recv_buf ≡ xs ++ drop p.recv_size p.recv_buf
buffer_split p xs e =
    sym (take-append-drop p.recv_size p.recv_buf) ∙ ap (λ ys. ys ++ drop p.recv_size p.recv_buf) e

pub length-unread : (p : Pointer) → HasBuffer p → length (unread p) ≡ p.recv_size
length-unread p h = omega (arith, length-take p.recv_size p.recv_buf, h.within)

-- `q` is `p` but for what the buffer holds.
pub record Moved (p q : Pointer) : Type 0 where
  pub same : q ≡ record p { recv_buf = q.recv_buf; recv_size = q.recv_size }
  pub size : length q.recv_buf ≡ length p.recv_buf

nil_of_length : {rest : List ℕ} → length rest ≡ 0 → rest ≡ []
nil_of_length {rest = []} e = refl
nil_of_length {rest = x ∷ xs} e = absurd (omega arith)

module _ (p : Pointer) (n : ℕ) (body rest : List ℕ) (h : HasBuffer p)
    (e : unread p ≡ frame n body ++ rest) where
  recv_size-frame : p.recv_size ≡ 4 + length body + length rest
  recv_size-frame = omega (
    arith,
    length-unread p h,
    ap length e,
    length-append (frame n body) rest,
    length-frame n body,
  )

  recv_buf-frame : p.recv_buf ≡ frame n body ++ (rest ++ drop p.recv_size p.recv_buf)
  recv_buf-frame = buffer_split p _ e ∙ append_assoc (frame n body) rest _

  left_over : (k : ℕ) → k ≡ length rest → take k (drop (length body + 4) p.recv_buf) ≡ rest
  left_over k f =
      ap (take k) (
        ap (drop (length body + 4)) recv_buf-frame
        ∙ drop-append_front (length body + 4) (frame n body) _ (omega (arith, length-frame n body)))
      ∙ take-append_front k rest _ f

  -- Bytes behind a frame that reach over it cannot be copied to the front.
  pub consume-overlap : length body + 4 < length rest → consume (length body + 4) p ≡ fault overlap
  unfolding consume
  consume-overlap long =
      rw
        (
          consume,
          lt→ltb 0 (p.recv_size - (length body + 4)) (omega (arith, recv_size-frame)),
          lt→ltb (length body + 4) (p.recv_size - (length body + 4))
              (omega (arith, recv_size-frame)),
        )
        refl

  -- After a frame has been used, the rest of the bytes stand at the front, if they do not reach over it.
  pub consume-unread :
      length rest ≤ length body + 4
      → (q : Pointer) × (consume (length body + 4) p ≡ ok q)
        × HasBuffer q
        × (unread q ≡ rest)
        × Moved p q
  unfolding consume
  consume-unread apart = elim (Bool-cases (ltb 0 left)) [
    | inl more ↦ (
      record p { recv_buf = moved; recv_size = left },
      rw (consume, more, le→ltb (length body + 4) left (omega (arith, left_rest, apart)), fits)
          refl,
      record {
        header = omega (arith, same_length, h.header);
        within = omega (arith, same_length, h.within);
      },
      front,
      record { same = refl; size = same_length },
    )
    | inr used_up ↦ (
      record p { recv_size = left },
      rw (consume, used_up) refl,
      record { header = h.header; within = omega (arith, h.within) },
      rw (empty used_up) (sym (nil_of_length (omega (arith, left_rest, empty used_up)))),
      record { same = refl; size = refl },
    )
  ]
    where
      left : ℕ
      left = p.recv_size - (length body + 4)

      left_rest : left ≡ length rest
      left_rest = omega (arith, recv_size-frame)

      empty : ltb 0 left ≡ false → left ≡ 0
      empty f = omega (arith, ltb→le 0 left f)

      src : List ℕ
      src = take left (drop (length body + 4) p.recv_buf)

      src_rest : src ≡ rest
      src_rest = left_over left left_rest

      moved : List ℕ
      moved = take 0 p.recv_buf ++ src ++ drop (0 + length src) p.recv_buf

      room : 0 + length src ≤ length p.recv_buf
      room = omega (arith, ap length src_rest, h.within, recv_size-frame)

      fits : write_at p.recv_buf 0 src ≡ ok moved
      fits = write_at-fits p.recv_buf 0 src room

      same_length : length moved ≡ length p.recv_buf
      same_length = length-write p.recv_buf 0 src room

      front : take left moved ≡ rest
      front =
          ap (λ k. take k moved) (omega (arith, ap length src_rest, left_rest))
          ∙ take-write p.recv_buf 0 src room
          ∙ src_rest

-- The header of a whole frame and its body, as parse_data reads them.
pub record Reads (p : Pointer) (n : ℕ) (body : List ℕ) : Type 0 where
  pub number : u16_read p.recv_buf ≡ some n
  pub size : u16_read (drop 2 p.recv_buf) ≡ some (length body)
  pub content : body_at p.recv_buf (length body) ≡ body
  pub enough : ltb p.recv_size (length body + 4) ≡ false

pub frame-Reads :
    (p : Pointer) (m : Msg) (rest : List ℕ)
    → HasBuffer p
    → Fits m
    → unread p ≡ frame m.number m.body ++ rest
    → Reads p m.number m.body
unfolding frame body_at
frame-Reads p m rest h f e = record {
  number = rw buf (ap some (u16_bytes-value m.number f.0));
  size = rw buf (ap some (u16_bytes-value (length m.body) f.1));
  content = rw buf (take-append_front (length m.body) m.body _ refl);
  enough =
      le→ltb p.recv_size (length m.body + 4)
        (omega (arith, recv_size-frame p m.number m.body rest h e));
}
  where
    buf : p.recv_buf ≡ frame m.number m.body ++ (rest ++ drop p.recv_size p.recv_buf)
    buf = recv_buf-frame p m.number m.body rest h e

-- The header that parse_data reads where there is no whole frame, be it stale.
pub record Stops (p : Pointer) : Type 0 where
  pub number : ℕ
  pub size : ℕ
  pub number_read : u16_read p.recv_buf ≡ some number
  pub size_read : u16_read (drop 2 p.recv_buf) ≡ some size
  pub short : ltb p.recv_size (size + 4) ≡ true

partial_short :
    (k a b c d : ℕ) (rest : List ℕ)
    → k ≤ 4 + length rest
    → IsPartial (take k (a ∷ b ∷ c ∷ d ∷ rest))
    → ltb k (c + 256 * d + 4) ≡ true
partial_short zero a b c d rest h e = lt→ltb _ _ (omega arith)
partial_short (suc zero) a b c d rest h e = lt→ltb _ _ (omega arith)
partial_short (suc (suc zero)) a b c d rest h e = lt→ltb _ _ (omega arith)
partial_short (suc (suc (suc zero))) a b c d rest h e = lt→ltb _ _ (omega arith)
partial_short (suc (suc (suc (suc k)))) a b c d rest h e =
    lt→ltb _ _ (omega (arith, length-take k rest))

Stops-at :
    (buf : List ℕ) (p : Pointer)
    → p.recv_buf ≡ buf
    → 4 ≤ length buf
    → p.recv_size ≤ length buf
    → IsPartial (take p.recv_size buf)
    → Stops p
Stops-at [] p e h k s = absurd (omega arith)
Stops-at (a ∷ []) p e h k s = absurd (omega arith)
Stops-at (a ∷ b ∷ []) p e h k s = absurd (omega arith)
Stops-at (a ∷ b ∷ c ∷ []) p e h k s = absurd (omega arith)
Stops-at (a ∷ b ∷ c ∷ d ∷ rest) p e h k s = record {
  number = a + 256 * b;
  size = c + 256 * d;
  number_read = rw e refl;
  size_read = rw e refl;
  short = partial_short p.recv_size a b c d rest (omega arith) s;
}

pub partial-Stops : (p : Pointer) → HasBuffer p → IsPartial (unread p) → Stops p
partial-Stops p h s = Stops-at p.recv_buf p refl h.header h.within s

pub short-IsPartial : (p : Pointer) → p.recv_size < 4 → IsPartial (unread p)
short-IsPartial p h = short_take p.recv_size p.recv_buf h
  where
    short_take : (k : ℕ) (xs : List ℕ) → k < 4 → IsPartial (take k xs)
    short_take zero xs h = tt
    short_take (suc k) [] h = tt
    short_take (suc zero) (a ∷ xs) h = tt
    short_take (suc (suc k)) (a ∷ []) h = tt
    short_take (suc (suc zero)) (a ∷ b ∷ xs) h = tt
    short_take (suc (suc (suc k))) (a ∷ b ∷ []) h = tt
    short_take (suc (suc (suc zero))) (a ∷ b ∷ c ∷ xs) h = tt
    short_take (suc (suc (suc (suc k)))) (a ∷ b ∷ c ∷ xs) h = absurd (omega arith)
