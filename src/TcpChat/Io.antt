-- ===== src/TcpChat/Io.antt =====
-- `read_all` and `write_all`: module3/task07/common.c.
-- What the system answers to each call is given as a list. A descriptor that is read has the bytes
-- that will still arrive before the end of the stream.
use eltex_practice.Base.{
  ℕ, zero, suc, ◌-◌, ◌≤◌, ◌≡◌, ap, sym, ◌∙◌, List, [], ◌∷◌, ◌++◌, arith, Bytes, take, drop, length,
  length-take, length-drop, take-append-drop, append_assoc, append-nil, take-take-drop,
}

-- One call of `read` or `write`: up to so many bytes go through (one more than the number), or the
-- call is interrupted, or it fails.
pub data Answer : Type 0 where
  moves : ℕ → Answer
  eintr failed : Answer

-- How `read_all` and `write_all` end: with the bytes moved, with -1, or still waiting for an answer.
pub data Outcome : Type 0 where
  done : Bytes → Outcome
  error : Outcome
  waits : Outcome

-- `total` bytes of `size` have been read into `buf`; `stream` is what will still arrive.
unfoldable pub read_loop : List Answer → ℕ → Bytes → Bytes → Outcome
read_loop ans zero stream buf = done buf
read_loop [] (suc left) stream buf = waits
read_loop (eintr ∷ ans) (suc left) stream buf = read_loop ans (suc left) stream buf
read_loop (failed ∷ ans) (suc left) stream buf = error
read_loop (moves k ∷ ans) (suc left) [] buf = done buf
read_loop (moves k ∷ ans) (suc left) (c ∷ stream) buf =
    let more = take left (take k stream) in
    read_loop ans (left - length more) (drop (length more) stream) (buf ++ c ∷ more)

unfoldable pub read_all : List Answer → ℕ → Bytes → Outcome
read_all ans size stream = read_loop ans size stream []

-- `rest` is still to be written, `sent` has gone out.
unfoldable pub write_loop : List Answer → Bytes → Bytes → Outcome
write_loop ans [] sent = done sent
write_loop [] (c ∷ rest) sent = waits
write_loop (eintr ∷ ans) (c ∷ rest) sent = write_loop ans (c ∷ rest) sent
write_loop (failed ∷ ans) (c ∷ rest) sent = error
write_loop (moves k ∷ ans) (c ∷ rest) sent =
    write_loop ans (drop (suc k) (c ∷ rest)) (sent ++ take (suc k) (c ∷ rest))

unfoldable pub write_all : List Answer → Bytes → Outcome
write_all ans buf = write_loop ans buf []

-- The calls that move bytes; no call fails.
abbrev pub moving : List Answer → ℕ
moving [] = 0
moving (moves k ∷ ans) = suc (moving ans)
moving (eintr ∷ ans) = moving ans
moving (failed ∷ ans) = moving ans

abbrev pub NoFailure : List Answer → Type 0
NoFailure [] = Unit {0}
NoFailure (moves k ∷ ans) = NoFailure ans
NoFailure (eintr ∷ ans) = NoFailure ans
NoFailure (failed ∷ ans) = ⊥

write_loop-done :
    (ans : List Answer) (rest sent : Bytes)
    → NoFailure ans
    → length rest ≤ moving ans
    → write_loop ans rest sent ≡ done (sent ++ rest)
unfolding write_loop
write_loop-done [] [] sent ok h = sym (ap done (append-nil sent))
write_loop-done (a ∷ ans) [] sent ok h = sym (ap done (append-nil sent))
write_loop-done [] (c ∷ rest) sent ok h = absurd (omega arith)
write_loop-done (eintr ∷ ans) (c ∷ rest) sent ok h = write_loop-done ans (c ∷ rest) sent ok h
write_loop-done (failed ∷ ans) (c ∷ rest) sent ok h = absurd ok
write_loop-done (moves k ∷ ans) (c ∷ rest) sent ok h =
    write_loop-done ans (drop (suc k) (c ∷ rest)) (sent ++ take (suc k) (c ∷ rest)) ok
      (omega (arith, length-drop k rest))
    ∙ ap done (
        append_assoc sent (take (suc k) (c ∷ rest)) (drop (suc k) (c ∷ rest))
        ∙ ap (◌++◌ sent) (take-append-drop (suc k) (c ∷ rest)))

read_loop-done :
    (ans : List Answer) (left : ℕ) (stream buf : Bytes)
    → NoFailure ans
    → left ≤ moving ans
    → read_loop ans left stream buf ≡ done (buf ++ take left stream)
unfolding read_loop
read_loop-done [] zero stream buf ok h = sym (ap done (append-nil buf))
read_loop-done (a ∷ ans) zero stream buf ok h = sym (ap done (append-nil buf))
read_loop-done [] (suc left) stream buf ok h = absurd (omega arith)
read_loop-done (eintr ∷ ans) (suc left) stream buf ok h =
    read_loop-done ans (suc left) stream buf ok h
read_loop-done (failed ∷ ans) (suc left) stream buf ok h = absurd ok
read_loop-done (moves k ∷ ans) (suc left) [] buf ok h = sym (ap done (append-nil buf))
read_loop-done (moves k ∷ ans) (suc left) (c ∷ stream) buf ok h =
    let more : Bytes = take left (take k stream) in
    let few : length more ≤ left = omega (arith, length-take left (take k stream)) in
    read_loop-done ans (left - length more) (drop (length more) stream) (buf ++ c ∷ more) ok
      (omega arith)
    ∙ ap done (
        append_assoc buf (c ∷ more) (take (left - length more) (drop (length more) stream))
        ∙ ap (λ t. buf ++ c ∷ t) (take-take-drop left k (left - length more) stream (omega arith)))

-- However the system splits the stream into pieces and whatever calls it interrupts, if no call fails
-- and there are enough of them, `read_all` delivers the first `size` bytes of the stream, or all of it where the stream ends before.
pub read_all-done :
    (ans : List Answer) (size : ℕ) (stream : Bytes)
    → NoFailure ans
    → size ≤ moving ans
    → read_all ans size stream ≡ done (take size stream)
unfolding read_all
read_all-done ans size stream ok h = read_loop-done ans size stream [] ok h

-- However the system splits the writes and whatever calls it interrupts, if no call fails and there
-- are enough of them, `write_all` sends exactly the buffer.
pub write_all-done :
    (ans : List Answer) (buf : Bytes)
    → NoFailure ans
    → length buf ≤ moving ans
    → write_all ans buf ≡ done buf
unfolding write_all
write_all-done ans buf ok h = write_loop-done ans buf [] ok h
