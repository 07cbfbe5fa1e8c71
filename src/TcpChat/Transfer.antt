-- ===== src/TcpChat/Transfer.antt =====
-- What of a file arrives at the other side.
use eltex_practice.Base.{
  until_nul, field, copy_string, ℕ, zero, suc, ◌≤◌, ◌<◌, ◌≡◌, ◌≢◌, refl, ap, ap₂, sym, ◌∙◌, true,
  List, [], ◌∷◌, ◌++◌, none, some, arith, Bytes, Free, append_assoc, append-nil, length, take_of_le,
  drop_of_le, lt_of_get_elem?, get_elem?-append_left, length-take, take, drop, replicate, ◌==◌,
  if◌then◌else◌, get_elem?, All, Bool-cases, inl, inr,
}
use eltex_practice.TcpChat.Packet.{file_end, ChatPacket, max_chunk_size, build_packet, max_filename}
use eltex_practice.TcpChat.Client.{
  get_base_filename, read_chunks, send_chunks, upload_file, Receiver, out_path, handle_packet,
  receive_all,
}

-- A piece after `strncpy` of `k` bytes: from the first zero byte on, and from the `k`-th byte on,
-- it is all zeros.
abbrev pub copied : ℕ → Bytes → Bytes
copied k [] = []
copied zero (c ∷ s) = 0 ∷ copied zero s
copied (suc k) (c ∷ s) = if c == 0 then 0 ∷ copied zero s else c ∷ copied k s

take-zeros : (c : Bytes) (m : ℕ) → length c ≤ m → take (length c) (replicate m 0) ≡ copied zero c
take-zeros [] m h = refl
take-zeros (x ∷ c) zero h = absurd (omega arith)
take-zeros (x ∷ c) (suc m) h = ap (◌∷◌ 0) (take-zeros c m (omega arith))

field-nil : (m : ℕ) → field m [] ≡ replicate m 0
field-nil m = ap (λ k. replicate k 0) (omega arith)

-- The bytes that `data_len` covers do not depend on what the buffer holds behind the piece.
payload-copied :
    (k m : ℕ) (c old : Bytes)
    → length c ≤ m
    → take (length c) (field m (take k (until_nul (c ++ old)))) ≡ copied k c
payload-copied k m [] old h = refl
payload-copied zero m (x ∷ c) old h = rw (field-nil m) (take-zeros (x ∷ c) m h)
payload-copied (suc k) zero (x ∷ c) old h = absurd (omega arith)
payload-copied (suc k) (suc m) (x ∷ c) old h = elim (Bool-cases (x == 0)) [
  | inl e ↦ rw (e, field-nil (suc m)) (ap (◌∷◌ 0) (take-zeros c m (omega arith)))
  | inr e ↦ rw e (
      ap (◌∷◌ x) (
        ap (λ j. take (length c) (take k (until_nul (c ++ old)) ++ replicate j 0)) (omega arith)
        ∙ payload-copied k m c old (omega arith)))
]

abbrev pub copied_all : List Bytes → Bytes
copied_all [] = []
copied_all (c ∷ cs) = copied 1023 c ++ copied_all cs

abbrev pub Pieces : List Bytes → Type 0
Pieces cs = All (λ c. length c ≤ max_chunk_size) cs

pub read_chunks-Pieces : (fuel : ℕ) (content : Bytes) → Pieces (read_chunks fuel content)
unfolding read_chunks
read_chunks-Pieces zero content = tt
read_chunks-Pieces (suc fuel) [] = tt
read_chunks-Pieces (suc fuel) (c ∷ s) = (
  omega (arith, length-take max_chunk_size (c ∷ s)),
  read_chunks-Pieces fuel (drop max_chunk_size (c ∷ s)),
)

receive_all-append :
    (ps qs : List ChatPacket) (r : Receiver)
    → receive_all (ps ++ qs) r ≡ receive_all qs (receive_all ps r)
unfolding receive_all
receive_all-append [] qs r = refl
receive_all-append (p ∷ ps) qs r = receive_all-append ps qs (handle_packet true p r)

receive-send_chunks :
    (nickname filename : Bytes) (cs : List Bytes) (old name got : Bytes)
    (saved : List (Bytes × Bytes))
    → Pieces cs
    → receive_all
        (send_chunks nickname filename cs old)
        (record { rx_file = some (name, got); saved = saved })
      ≡ record { rx_file = some (name, got ++ copied_all cs); saved = saved }
unfolding receive_all send_chunks handle_packet build_packet
receive-send_chunks nickname filename [] old name got saved h = rw (append-nil got)
receive-send_chunks nickname filename (c ∷ cs) old name got saved h =
    let rest : List ChatPacket = send_chunks nickname filename cs (replicate max_chunk_size 0) in
    ap (λ t. receive_all rest (record { rx_file = some (name, got ++ t); saved = saved }))
      (payload-copied 1023 max_chunk_size c (drop (length c) old) h.0)
    ∙ receive-send_chunks nickname filename cs (replicate max_chunk_size 0) name
        (got ++ copied 1023 c) saved h.1
    ∙ ap (λ t. record { rx_file = some (name, t); saved = saved })
        (append_assoc got (copied 1023 c) (copied_all cs))

-- The bytes of a file as the other side stores them.
abbrev pub received : Bytes → Bytes
received content = copied_all (read_chunks (length content) content)

-- The name under which they are stored.
abbrev pub stored_name : Bytes → Bytes
stored_name path = out_path (take 255 (copy_string max_filename (get_base_filename path)))

-- An upload leaves one new file, under the name made from the path, whatever was being received
-- before and whatever the sender's buffer held; its bytes are the pieces as `strncpy` copies them.
pub receive-upload_file :
    (nickname path content old : Bytes) (r : Receiver)
    → receive_all (upload_file nickname path content old) r
      ≡ record { rx_file = none; saved = (stored_name path, received content) ∷ r.saved }
unfolding upload_file receive_all handle_packet build_packet
receive-upload_file nickname path content old r =
    let filename : Bytes = get_base_filename path in
    let finish : ChatPacket = build_packet file_end nickname none (some filename) 0 in
    let cs : List Bytes = read_chunks (length content) content in
    let opened : Receiver = record { rx_file = some (stored_name path, []); saved = r.saved } in
    receive_all-append (send_chunks nickname filename cs old) (finish ∷ []) opened
    ∙ ap (receive_all (finish ∷ [])) (
        receive-send_chunks nickname filename cs old (stored_name path) [] r.saved
          (read_chunks-Pieces (length content) content))

copied_whole : (k : ℕ) (c : Bytes) → length c ≤ k → Free 0 c → copied k c ≡ c
copied_whole k [] h f = refl
copied_whole zero (x ∷ c) h f = absurd (omega arith)
copied_whole (suc k) (x ∷ c) h f = rw f.0 (ap (◌∷◌ x) (copied_whole k c (omega arith) f.1))

read_chunks-nil : (fuel : ℕ) → read_chunks fuel [] ≡ []
unfolding read_chunks
read_chunks-nil zero = refl
read_chunks-nil (suc fuel) = refl

received-cons :
    (c : ℕ) (s : Bytes)
    → received (c ∷ s)
      ≡ copied 1023 (take max_chunk_size (c ∷ s))
        ++ copied_all (read_chunks (length s) (drop max_chunk_size (c ∷ s)))
unfolding read_chunks
received-cons c s = refl

received-short :
    (content : Bytes) → length content ≤ 1023 → Free 0 content → received content ≡ content
unfolding read_chunks
received-short [] h f = refl
received-short (c ∷ s) h f =
    received-cons c s
    ∙ ap₂ (λ x y. copied 1023 x ++ copied_all (read_chunks (length s) y))
        (take_of_le max_chunk_size (c ∷ s) (omega arith))
        (drop_of_le max_chunk_size (c ∷ s) (omega arith))
    ∙ ap (λ y. copied 1023 (c ∷ s) ++ copied_all y) (read_chunks-nil (length s))
    ∙ append-nil (copied 1023 (c ∷ s))
    ∙ copied_whole 1023 (c ∷ s) h f

length-copied : (k : ℕ) (c : Bytes) → length (copied k c) ≡ length c
length-copied k [] = refl
length-copied zero (x ∷ c) = ap suc (length-copied zero c)
length-copied (suc k) (x ∷ c) = elim (Bool-cases (x == 0)) [
  | inl e ↦ rw e (ap suc (length-copied zero c))
  | inr e ↦ rw e (ap suc (length-copied k c))
]

get_elem?-copied-zero : (i : ℕ) (c : Bytes) → i < length c → get_elem? (copied zero c) i ≡ some 0
get_elem?-copied-zero i [] h = absurd (omega arith)
get_elem?-copied-zero zero (x ∷ c) h = refl
get_elem?-copied-zero (suc i) (x ∷ c) h = get_elem?-copied-zero i c (omega arith)

get_elem?-copied : (k : ℕ) (c : Bytes) → k < length c → get_elem? (copied k c) k ≡ some 0
get_elem?-copied k [] h = absurd (omega arith)
get_elem?-copied zero (x ∷ c) h = refl
get_elem?-copied (suc k) (x ∷ c) h = elim (Bool-cases (x == 0)) [
  | inl e ↦ rw e (get_elem?-copied-zero k c (omega arith))
  | inr e ↦ rw e (get_elem?-copied k c (omega arith))
]

some_inj : (a b : ℕ) → some a ≡ some b → a ≡ b
some_inj a b e = cc

received-long :
    (content : Bytes) (b : ℕ) → get_elem? content 1023 ≡ some b → b ≢ 0 → received content ≢ content
received-long [] b h ne e = ground arith
received-long (c ∷ s) b h ne e =
    let piece : Bytes = take max_chunk_size (c ∷ s) in
    let long : 1023 < length piece =
      omega (arith, length-take max_chunk_size (c ∷ s), lt_of_get_elem? (c ∷ s) 1023 h) in
    let zeroed : get_elem? (received (c ∷ s)) 1023 ≡ some 0 =
      ap (λ t. get_elem? t 1023) (received-cons c s)
      ∙ get_elem?-append_left (copied 1023 piece) _ 1023 (omega (arith, length-copied 1023 piece))
      ∙ get_elem?-copied 1023 piece long in
    ne (some_inj b 0 (sym h ∙ ap (λ t. get_elem? t 1023) (sym e) ∙ zeroed))

-- The upload of a file of at most 1023 bytes, none of them zero, leaves one new file with exactly those
-- bytes, whatever was being received before and whatever the sender's buffer held.
pub upload_file-short :
    (nickname path content old : Bytes) (r : Receiver)
    → length content ≤ 1023
    → Free 0 content
    → receive_all (upload_file nickname path content old) r
      ≡ record { rx_file = none; saved = (stored_name path, content) ∷ r.saved }
upload_file-short nickname path content old r h f =
    receive-upload_file nickname path content old r
    ∙ ap (λ c. record { rx_file = none; saved = (stored_name path, c) ∷ r.saved })
        (received-short content h f)

-- The content of the file that was stored last.
abbrev pub newest : Receiver → Bytes
newest r = elim r.saved [ [] ↦ [] | f ∷ fs ↦ f.1 ]

-- The upload of a file whose 1024th byte is there and is not zero leaves a file with other bytes, whatever
-- was being received before and whatever the sender's buffer held.
pub upload_file-long :
    (nickname path content old : Bytes) (r : Receiver) (b : ℕ)
    → get_elem? content 1023 ≡ some b
    → b ≢ 0
    → newest (receive_all (upload_file nickname path content old) r) ≢ content
upload_file-long nickname path content old r b h ne e =
    received-long content b h ne
      (sym (ap newest (receive-upload_file nickname path content old r)) ∙ e)
