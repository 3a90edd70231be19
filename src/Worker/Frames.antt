-- ===== src/Worker/Frames.antt =====
-- The frames of source/net_worker.hpp seen abstractly: a byte stream is a sequence of messages and a
-- part of the next one.
use f1985gfw.Base.{
  ℕ, zero, suc, ◌+◌, ◌*◌, ◌≤◌, ◌<◌, ◌≡◌, refl, sym, ap, ◌∙◌, List, [], ◌∷◌, ◌++◌, length, take,
  drop, arith, frame, u16_mod, length-append, append_assoc, inl, inr, take-append-drop, length-take,
  length-drop, ltb, Bool-cases, ltb→lt, ltb→le, ◌%◌, ◌/◌,
}

pub record Msg : Type 0 where
  pub number : ℕ
  pub body : List ℕ

-- The number and the size of the body fit their fields.
abbrev pub Fits : Msg → Type 0
Fits m = (m.number < u16_mod) × (length m.body < u16_mod)

abbrev pub AllFit : List Msg → Type 0
AllFit [] = Unit {0}
AllFit (m ∷ ms) = Fits m × AllFit ms

abbrev pub AllBytes : List ℕ → Type 0
AllBytes [] = Unit {0}
AllBytes (b ∷ bs) = (b < 256) × AllBytes bs

unfoldable pub frames : List Msg → List ℕ
frames [] = []
frames (m ∷ ms) = frame m.number m.body ++ frames ms

-- Less than a frame: no whole header, or a header whose body is not all there.
abbrev pub IsPartial : List ℕ → Type 0
IsPartial [] = Unit {0}
IsPartial (a ∷ []) = Unit {0}
IsPartial (a ∷ b ∷ []) = Unit {0}
IsPartial (a ∷ b ∷ c ∷ []) = Unit {0}
IsPartial (a ∷ b ∷ c ∷ d ∷ rest) = length rest < c + 256 * d

pub frames-append : (ms ns : List Msg) → frames (ms ++ ns) ≡ frames ms ++ frames ns
unfolding frames
frames-append [] ns = refl
frames-append (m ∷ ms) ns =
    ap (λ xs. frame m.number m.body ++ xs) (frames-append ms ns)
    ∙ sym (append_assoc (frame m.number m.body) (frames ms) (frames ns))

pub length-frame : (n : ℕ) (body : List ℕ) → length (frame n body) ≡ 4 + length body
unfolding frame
length-frame n body = omega arith

pub length-le-frames : (ms : List Msg) → 4 * length ms ≤ length (frames ms)
unfolding frames
length-le-frames [] = omega arith
length-le-frames (m ∷ ms) = omega (
  arith,
  length-le-frames ms,
  length-frame m.number m.body,
  length-append (frame m.number m.body) (frames ms),
)

-- Behind each message stand no more bytes than it has itself, header included: when it is used up, they
-- can be copied over it.
abbrev pub Apart : List Msg → List ℕ → Type 0
Apart [] rest = Unit {0}
Apart (m ∷ ms) rest = (length (frames ms ++ rest) ≤ length m.body + 4) × Apart ms rest

-- How a stream splits into messages and a rest.
pub record Split (xs : List ℕ) : Type 0 where
  pub msgs : List Msg
  pub rest : List ℕ
  pub fit : AllFit msgs
  pub partial : IsPartial rest
  pub whole : xs ≡ frames msgs ++ rest

Split-cons :
    (a b c d : ℕ) (xs : List ℕ)
    → a < 256
    → b < 256
    → c < 256
    → d < 256
    → c + 256 * d ≤ length xs
    → Split (drop (c + 256 * d) xs)
    → Split (a ∷ b ∷ c ∷ d ∷ xs)
unfolding frames frame
Split-cons a b c d xs ha hb hc hd enough s = record {
  msgs = record { number = a + 256 * b; body = take (c + 256 * d) xs } ∷ s.msgs;
  rest = s.rest;
  fit = ((omega arith, omega (arith, size)), s.fit);
  partial = s.partial;
  whole = whole;
}
  where
    size : length (take (c + 256 * d) xs) ≡ c + 256 * d
    size = omega (arith, length-take (c + 256 * d) xs)

    ea : (a + 256 * b) % 256 ≡ a
    ea = omega arith

    eb : (a + 256 * b) / 256 % 256 ≡ b
    eb = omega arith

    ec : (c + 256 * d) % 256 ≡ c
    ec = omega arith

    ed : (c + 256 * d) / 256 % 256 ≡ d
    ed = omega arith

    whole :
        a ∷ b ∷ c ∷ d ∷ xs
        ≡ ((a + 256 * b) % 256
              ∷ (a + 256 * b) / 256 % 256
              ∷ length (take (c + 256 * d) xs) % 256
              ∷ length (take (c + 256 * d) xs) / 256 % 256
              ∷ take (c + 256 * d) xs
            ++ frames s.msgs)
          ++ s.rest
    whole =
        rw (size, ea, eb, ec, ed)
          (ap (λ ys. a ∷ b ∷ c ∷ d ∷ ys)
            (sym (take-append-drop (c + 256 * d) xs)
              ∙ ap (λ ys. take (c + 256 * d) xs ++ ys) s.whole
              ∙ sym (append_assoc (take (c + 256 * d) xs) (frames s.msgs) s.rest)))

no_frame : (xs : List ℕ) → IsPartial xs → Split xs
unfolding frames
no_frame xs h = record { msgs = []; rest = xs; fit = tt; partial = h; whole = refl }

AllBytes-drop : (n : ℕ) (xs : List ℕ) → AllBytes xs → AllBytes (drop n xs)
AllBytes-drop zero xs h = h
AllBytes-drop (suc n) [] h = h
AllBytes-drop (suc n) (x ∷ xs) h = AllBytes-drop n xs h.1

Split-within : (fuel : ℕ) (xs : List ℕ) → length xs < fuel → AllBytes xs → Split xs
Split-within zero xs h bs = absurd (omega arith)
Split-within (suc fuel) [] h bs = no_frame [] tt
Split-within (suc fuel) (a ∷ []) h bs = no_frame _ tt
Split-within (suc fuel) (a ∷ b ∷ []) h bs = no_frame _ tt
Split-within (suc fuel) (a ∷ b ∷ c ∷ []) h bs = no_frame _ tt
Split-within (suc fuel) (a ∷ b ∷ c ∷ d ∷ xs) h (ha, (hb, (hc, (hd, bs)))) =
    elim (Bool-cases (ltb (length xs) (c + 256 * d))) [
      | inl short ↦ no_frame _ (ltb→lt _ _ short)
      | inr whole ↦ Split-cons a b c d xs ha hb hc hd (ltb→le _ _ whole) (
          Split-within fuel (drop (c + 256 * d) xs) (omega (arith, length-drop (c + 256 * d) xs))
            (AllBytes-drop (c + 256 * d) xs bs))
    ]

-- Every sequence of bytes is a sequence of messages that fit, followed by a part of a frame.
pub split : (xs : List ℕ) → AllBytes xs → Split xs
split xs = Split-within (suc (length xs)) xs (omega arith)
