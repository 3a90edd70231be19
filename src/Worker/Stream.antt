-- ===== src/Worker/Stream.antt =====
-- Byte streams of frames (source/net_worker.hpp) can be read in one way only.
use f1985gfw.Base.{
  ℕ, ◌≡◌, refl, sym, ap, ◌∙◌, List, [], ◌∷◌, ◌++◌, length, arith, frame, length-append,
  append_assoc, ◌%◌, ◌/◌, append-nil,
}
use f1985gfw.Worker.Frames.{Msg, Fits, AllFit, frames, IsPartial}

-- Two frames at the front of one stream are the same.
append_cancel :
    (xs ys us vs : List ℕ) → length xs ≡ length ys → xs ++ us ≡ ys ++ vs → (xs ≡ ys) × (us ≡ vs)
append_cancel [] [] us vs h e = (refl, e)
append_cancel [] (y ∷ ys) us vs h e = absurd (omega arith)
append_cancel (x ∷ xs) [] us vs h e = absurd (omega arith)
append_cancel (x ∷ xs) (y ∷ ys) us vs h e =
    let (same, rest) = append_cancel xs ys us vs (omega arith) (cc) in (cc, rest)

pub frame-cancel :
    (m t : Msg) (xs ys : List ℕ)
    → Fits m
    → Fits t
    → frame m.number m.body ++ xs ≡ frame t.number t.body ++ ys
    → (m ≡ t) × (xs ≡ ys)
unfolding frame
frame-cancel m t xs ys fm ft e = (ground (arith, numbers, cut.0), cut.1)
  where
    e0 : m.number % 256 ≡ t.number % 256
    e0 = cc

    e1 : m.number / 256 % 256 ≡ t.number / 256 % 256
    e1 = cc

    e2 : length m.body % 256 ≡ length t.body % 256
    e2 = cc

    e3 : length m.body / 256 % 256 ≡ length t.body / 256 % 256
    e3 = cc

    numbers : m.number ≡ t.number
    numbers = omega (arith, e0, e1)

    sizes : length m.body ≡ length t.body
    sizes = omega (arith, e2, e3)

    cut : (m.body ≡ t.body) × (xs ≡ ys)
    cut = append_cancel m.body t.body xs ys sizes (cc)

not-partial :
    (m : Msg) (xs rest : List ℕ) → Fits m → IsPartial rest → frame m.number m.body ++ xs ≡ rest → ⊥
unfolding frame
not-partial m xs [] f s e = cc
not-partial m xs (a ∷ []) f s e = cc
not-partial m xs (a ∷ b ∷ []) f s e = cc
not-partial m xs (a ∷ b ∷ c ∷ []) f s e = cc
not-partial m xs (a ∷ b ∷ c ∷ d ∷ rest) f s e =
    absurd (omega (arith, ec, ed, ap length tail, length-append m.body xs))
  where
    ec : length m.body % 256 ≡ c
    ec = cc

    ed : length m.body / 256 % 256 ≡ d
    ed = cc

    tail : m.body ++ xs ≡ rest
    tail = cc

-- The messages at the front of a stream of messages and a part of the next are the first of them.
pub frames-prefix :
    (ms ts : List Msg) (xs rest : List ℕ)
    → AllFit ms
    → AllFit ts
    → IsPartial rest
    → frames ms ++ xs ≡ frames ts ++ rest
    → (more : List Msg) × (ts ≡ ms ++ more) × AllFit more × (xs ≡ frames more ++ rest)
unfolding frames
frames-prefix [] ts xs rest fm ft s e = (ts, refl, ft, e)
frames-prefix (m ∷ ms) [] xs rest fm ft s e = absurd (
    not-partial m (frames ms ++ xs) rest fm.0 s
      (sym (append_assoc (frame m.number m.body) (frames ms) xs) ∙ e))
frames-prefix (m ∷ ms) (t ∷ ts) xs rest fm ft s e =
    let (first, others) = frame-cancel m t (frames ms ++ xs) (frames ts ++ rest) fm.0 ft.0 (
      sym (append_assoc (frame m.number m.body) (frames ms) xs)
      ∙ e
      ∙ append_assoc (frame t.number t.body) (frames ts) rest) in
    let (more, whole, fit, tail) = frames-prefix ms ts xs rest fm.1 ft.1 s others in
    (more, cc, fit, tail)

-- A stream of messages that fit and a part of a frame splits in one way only.
pub frames_unique :
    (ms ts : List Msg) (xs rest : List ℕ)
    → AllFit ms
    → AllFit ts
    → IsPartial xs
    → IsPartial rest
    → frames ms ++ xs ≡ frames ts ++ rest
    → (ms ≡ ts) × (xs ≡ rest)
unfolding frames
frames_unique ms ts xs rest fm ft sx s e =
    let (more, whole, fit, tail) = frames-prefix ms ts xs rest fm ft s e in
    no_more more whole fit tail
  where
    no_more :
        (more : List Msg)
        → ts ≡ ms ++ more
        → AllFit more
        → xs ≡ frames more ++ rest
        → (ms ≡ ts) × (xs ≡ rest)
    no_more [] whole fit tail = (sym (whole ∙ append-nil ms), tail)
    no_more (n ∷ more) whole fit tail = absurd (
        not-partial n (frames more ++ rest) xs fit.0 sx
          (sym (append_assoc (frame n.number n.body) (frames more) rest) ∙ sym tail))
