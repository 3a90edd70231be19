-- ===== src/Legacy/Client.antt =====
-- 0old/client/main.cpp: the message that the test client sends.
use f1985gfw.Base.{
  ℕ, ◌+◌, ◌≤◌, ◌<◌, ◌≡◌, refl, ap, ◌∙◌, Option, none, some, List, [], ◌∷◌, ◌++◌, length,
  length-append, take, drop, ltb, le→ltb, lt→ltb, lt→leb, arith, if◌then◌else◌, Result, ok, fault,
  out_of_bounds, ◌>>=◌, u16_bytes, frame, write_at, write_at-fits, length-write, take-append_front,
}

-- MAX_SIZE and HEADER_SIZE.
abbrev pub max_size : ℕ
max_size = 4096

abbrev pub header_size : ℕ
header_size = 4

-- `process` up to its write: the bytes that it sends, or none if the message is too long. `memory` is what
-- malloc's block holds and `body` the serialized message; SerializePartialToArray fails if the message does
-- not fit the size that it is told, which is the whole block although it writes behind the header.
unfoldable pub process : (ℕ → List ℕ) → List ℕ → Result (Option (List ℕ))
process memory body = if ltb max_size (length body) then ok none else do
  buf ← write_at (memory max_size) header_size body
  buf ← write_at buf 0 (u16_bytes 141)
  buf ← write_at buf 2 (u16_bytes (length body))
  ok (some (take (header_size + length body) buf))

four : (xs : List ℕ) → 4 ≤ length xs → (a b c d : ℕ) × (take 4 xs ≡ a ∷ b ∷ c ∷ d ∷ [])
four [] h = absurd (omega arith)
four (a ∷ []) h = absurd (omega arith)
four (a ∷ b ∷ []) h = absurd (omega arith)
four (a ∷ b ∷ c ∷ []) h = absurd (omega arith)
four (a ∷ b ∷ c ∷ d ∷ xs) h = (a, b, c, d, refl)

module _ (memory : ℕ → List ℕ) (sized : length (memory max_size) ≡ max_size) (body : List ℕ) where
  -- A message of at most 4092 bytes goes out as its frame, with number 141; one of up to 4096 bytes is
  -- written beyond the block; a longer one is not sent.
  pub process-frame :
      (length body ≤ 4092 → process memory body ≡ ok (some (frame 141 body)))
      × (4092 < length body → length body ≤ 4096 → process memory body ≡ fault out_of_bounds)
      × (4096 < length body → process memory body ≡ ok none)
  unfolding process write_at frame
  process-frame = (fits, beyond, long)
    where
      n : ℕ
      n = length body

      one : List ℕ
      one = take 4 (memory max_size) ++ body ++ drop (4 + n) (memory max_size)

      two : List ℕ
      two = take 0 one ++ u16_bytes 141 ++ drop (0 + 2) one

      three : List ℕ
      three = take 2 two ++ u16_bytes n ++ drop (2 + 2) two

      one_size : n ≤ 4092 → length one ≡ max_size
      one_size h = length-write (memory max_size) 4 body (omega (arith, sized)) ∙ sized

      two_size : n ≤ 4092 → length two ≡ max_size
      two_size h = length-write one 0 (u16_bytes 141) (omega (arith, one_size h)) ∙ one_size h

      -- The four bytes before the body are overwritten.
      whole : three ≡ frame 141 body ++ drop (4 + n) (memory max_size)
      whole =
          let (a, b, c, d, front) = four (memory max_size) (omega (arith, sized)) in
          ap
            (λ (start : List ℕ).
              let first = start ++ body ++ drop (4 + n) (memory max_size) in
              let second = take 0 first ++ u16_bytes 141 ++ drop (0 + 2) first in
              take 2 second ++ u16_bytes n ++ drop (2 + 2) second)
            front

      sent : take (4 + n) three ≡ frame 141 body
      sent =
          ap (take (4 + n)) whole
          ∙ take-append_front (4 + n) (frame 141 body) (drop (4 + n) (memory max_size))
              (omega (arith, length-append (u16_bytes 141 ++ u16_bytes n) body))

      fits : n ≤ 4092 → process memory body ≡ ok (some (frame 141 body))
      fits h =
          rw
            (
              le→ltb 4096 n (omega arith),
              write_at-fits (memory max_size) 4 body (omega (arith, sized)),
              write_at-fits one 0 (u16_bytes 141) (omega (arith, one_size h)),
              write_at-fits two 2 (u16_bytes n) (omega (arith, two_size h)),
            )
            (ap (λ bytes. ok (some bytes)) sent)

      beyond : 4092 < n → n ≤ 4096 → process memory body ≡ fault out_of_bounds
      beyond h k =
          rw
            (
              le→ltb 4096 n k,
              write_at,
              lt→leb (4 + n) (length (memory max_size)) (omega (arith, sized)),
            )
            refl

      long : 4096 < n → process memory body ≡ ok none
      long h = rw (lt→ltb 4096 n h) refl
