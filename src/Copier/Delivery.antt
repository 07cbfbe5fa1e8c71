-- ===== src/Copier/Delivery.antt =====
-- A whole copy: parent and child of module3/task01/copier.c at both ends of the data channel.
use eltex_practice.Base.{
  ==_refl, ℕ, ◌+◌, ◌*◌, ◌/◌, ◌^◌, ◌≤◌, ◌<◌, ◌≡◌, ap, sym, ◌∙◌, true, false, not, List, [], ◌++◌,
  map, some, Bytes, codes, arith, length, take, drop, length-append, take-append, drop-append, All,
  Free, until_nul, copy_string, ltb, ◌==◌, le32, le32_at, length-copy_string, until_nul-copy_string,
}
use eltex_practice.Copier.Loops.{concat, stream, IsChunk, copy_loop-stream}
use eltex_practice.Copier.Processes.{
  name_size, header_size, header_bytes, filename_of, file_size_of, ParentAnswers,
  run_parent_process, send_header, after_sending, after_receiving, send_file, ChildAnswers,
  run_child_process, open_copy, receive_file,
}

length-header_bytes : (src : Bytes) (size : ℕ) → length (header_bytes src size) ≡ header_size
length-header_bytes src size =
    length-append (copy_string name_size src) (le32 size (le32 (size / 2 ^ 32) []))
    ∙ ap (λ n. n + 8) (length-copy_string 255 src)

-- The header gives back the name and the size.
filename_of-header_bytes :
    (src : Bytes) (size : ℕ)
    → Free 0 src
    → length src ≤ 255
    → filename_of (header_bytes src size) ≡ src
filename_of-header_bytes src size whole short =
    ap until_nul (
      ap (λ n. take n (header_bytes src size)) (sym (length-copy_string 255 src))
      ∙ take-append (copy_string name_size src) (le32 size (le32 (size / 2 ^ 32) [])))
    ∙ until_nul-copy_string name_size src whole (omega arith)

file_size_of-header_bytes :
    (src : Bytes) (size : ℕ) → size < 2 ^ 63 → file_size_of (header_bytes src size) ≡ size
file_size_of-header_bytes src size h =
    let words = le32 size (le32 (size / 2 ^ 32) []) in
    let behind : drop name_size (header_bytes src size) ≡ words =
      ap (λ n. drop n (header_bytes src size)) (sym (length-copy_string 255 src))
      ∙ drop-append (copy_string name_size src) words in
    ap (λ b. le32_at 0 b + 2 ^ 32 * le32_at 4 b) behind ∙ omega arith

-- The answers of a run in which no call fails.
abbrev pub parent_answers : ℕ → List Bytes → List ℕ → ParentAnswers
parent_answers fd_in chunks writes = record {
  fd_in = some fd_in;
  file_size = some (length (concat chunks));
  ready = some 82;
  header_write = some header_size;
  reads = stream chunks;
  writes = map some writes;
  wait = some (some 0);
}

abbrev pub child_answers : ℕ → Bytes → List Bytes → List ℕ → ChildAnswers
child_answers fd_out header chunks writes = record {
  ready_written = true;
  header_read = some header;
  malloc_works = true;
  fd_out = some fd_out;
  reads = stream chunks;
  writes = map some writes;
}

run_parent_process-sent :
    (data_fd sync_fd fd_in : ℕ) (src : Bytes) (chunks : List Bytes) (writes : List ℕ)
    → All IsChunk chunks
    → length (concat chunks) ≤ length writes
    → let parent = run_parent_process (parent_answers fd_in chunks writes) data_fd sync_fd src in
      (parent.status ≡ some true)
      × (parent.sent ≡ header_bytes src (length (concat chunks)) ++ concat chunks)
unfolding run_parent_process send_header send_file
run_parent_process-sent data_fd sync_fd fd_in src chunks writes v h =
    let header = header_bytes src (length (concat chunks)) in
    let e =
      ap (after_sending (parent_answers fd_in chunks writes) fd_in data_fd header)
        (copy_loop-stream chunks writes v h) in
    (ap (λ p. p.status) e, ap (λ p. p.sent) e)

run_child_process-content :
    (data_fd sync_fd fd_out : ℕ) (header : Bytes) (chunks : List Bytes) (writes : List ℕ)
    → length header ≡ header_size
    → file_size_of header ≡ length (concat chunks)
    → All IsChunk chunks
    → length (concat chunks) ≤ length writes
    → let child = run_child_process (child_answers fd_out header chunks writes) data_fd sync_fd in
      (child.exit ≡ some true)
      × (child.dest ≡ some (filename_of header ++ codes ".copy"))
      × (child.content ≡ concat chunks)
      × (child.warned ≡ false)
unfolding run_child_process open_copy receive_file
run_child_process-content data_fd sync_fd fd_out header chunks writes l size v h =
    let whole : ltb (length header) header_size ≡ false = ap (λ n. ltb n header_size) l in
    let same : (length (concat chunks) == file_size_of header) ≡ true =
      ap (λ n. length (concat chunks) == n) size ∙ ==_refl (length (concat chunks)) in
    let e =
      ap (after_receiving fd_out data_fd header (filename_of header ++ codes ".copy"))
        (copy_loop-stream chunks writes v h) in
    rw (whole, run_child_process)
      (
        ap (λ c. c.exit) e,
        ap (λ c. c.dest) e,
        ap (λ c. c.content) e,
        ap (λ c. c.warned) e ∙ ap not same,
      )

-- However the file, the data channel and the writes on both sides are cut in pieces: where no call fails and
-- the pieces that the child reads behind the header are what the parent wrote there, the child ends with a
-- file, named like the source with `.copy` behind it, that has exactly the source's content and the size
-- that the header announced, and both processes end with success. The name has at most 255 bytes and the
-- file less than 2^63; each side has enough calls of `write`.
pub run_child_process-run_parent_process :
    (data_fd sync_fd fd_in fd_out : ℕ) (src : Bytes) (chunks pieces : List Bytes)
    (writes copies : List ℕ)
    → Free 0 src
    → length src ≤ 255
    → length (concat chunks) < 2 ^ 63
    → All IsChunk chunks
    → All IsChunk pieces
    → length (concat chunks) ≤ length writes
    → length (concat chunks) ≤ length copies
    → let parent = run_parent_process (parent_answers fd_in chunks writes) data_fd sync_fd src in
      let child =
        run_child_process
          (child_answers fd_out (take header_size parent.sent) pieces copies)
          data_fd
          sync_fd in
      concat pieces ≡ drop header_size parent.sent
      → (parent.status ≡ some true)
        × (child.exit ≡ some true)
        × (child.dest ≡ some (src ++ codes ".copy"))
        × (child.content ≡ concat chunks)
        × (child.warned ≡ false)
run_child_process-run_parent_process data_fd sync_fd fd_in fd_out src chunks pieces writes copies
      whole short small v w e f same =
    let size = length (concat chunks) in
    let header = header_bytes src size in
    let (status, sent) = run_parent_process-sent data_fd sync_fd fd_in src chunks writes v e in
    let l = length-header_bytes src size in
    let first : take header_size (header ++ concat chunks) ≡ header =
      ap (λ n. take n (header ++ concat chunks)) (sym l) ∙ take-append header (concat chunks) in
    let rest : concat pieces ≡ concat chunks =
      same
      ∙ ap (drop header_size) sent
      ∙ ap (λ n. drop n (header ++ concat chunks)) (sym l)
      ∙ drop-append header (concat chunks) in
    let child =
      run_child_process-content data_fd sync_fd fd_out header pieces copies l
        (file_size_of-header_bytes src size small ∙ ap length (sym rest)) w
        (omega (arith, ap (length {A = ℕ}) rest)) in
    rw (sent, first)
      (
        status,
        child.0,
        child.1
            ∙ ap (λ t. some (t ++ codes ".copy")) (filename_of-header_bytes src size whole short),
        child.2 ∙ rest,
        child.3,
      )
