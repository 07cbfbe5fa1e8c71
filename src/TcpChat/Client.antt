-- ===== src/TcpChat/Client.antt =====
-- The chat client: module3/task07/client.c, sending and receiving. The disk is the list of files
-- written, newest first, each with its name and its bytes.
use eltex_practice.Base.{
  until_nul, ℕ, zero, suc, Bool, true, ◌||◌, List, [], ◌∷◌, ◌++◌, Option, none, some, Bytes, codes,
  str_eq, strip_prefix, length, take, drop, replicate, ◌==◌, if◌then◌else◌,
}
use eltex_practice.TcpChat.Packet.{
  MsgType, file_start, file_data, file_end, ChatPacket, max_chunk_size, build_packet,
}

-- `strrchr(path, c)`: what follows the last `c`, if there is one.
unfoldable pub after_last : ℕ → Bytes → Option Bytes
after_last c [] = none
after_last c (x ∷ s) = elim (after_last c s) [
  | some r ↦ some r
  | none ↦ (if x == c then some s else none)
]

unfoldable pub get_base_filename : Bytes → Bytes
get_base_filename path = elim (after_last b'/' path) [
  | some base ↦ base
  | none ↦ elim (after_last 92 path) [ some base ↦ base | none ↦ path ]
]

-- The pieces that `fread` gives: 1024 bytes each, and at last what is left.
unfoldable pub read_chunks : ℕ → Bytes → List Bytes
read_chunks zero content = []
read_chunks (suc fuel) content =
    let rest = read_chunks fuel (drop max_chunk_size content) in
    elim content [ [] ↦ [] | c ∷ s ↦ take max_chunk_size (c ∷ s) ∷ rest ]

-- The loop of `upload_file`. `old` is what the buffer holds behind the bytes just read: anything
-- in the first round, zeros after the `memset`.
unfoldable pub send_chunks : Bytes → Bytes → List Bytes → Bytes → List ChatPacket
send_chunks nickname filename [] old = []
send_chunks nickname filename (c ∷ cs) old =
    build_packet file_data nickname (some (c ++ drop (length c) old)) (some filename) (length c)
    ∷ send_chunks nickname filename cs (replicate max_chunk_size 0)

-- `upload_file` on a file that opens, with its bytes; each piece but the last is full, so that the
-- length of the file bounds their number.
unfoldable pub upload_file : Bytes → Bytes → Bytes → Bytes → List ChatPacket
upload_file nickname path content old =
    let filename = get_base_filename path in
    build_packet file_start nickname none (some filename) 0
    ∷ (send_chunks nickname filename (read_chunks (length content) content) old
        ++ build_packet file_end nickname none (some filename) 0 ∷ [])

-- The receiving side: the file being received, and the files that are closed.
pub record Receiver : Type 0 where
  pub rx_file : Option (Bytes × Bytes)
  pub saved : List (Bytes × Bytes)

-- `received_<filename>`, cut at 511 bytes.
abbrev pub out_path : Bytes → Bytes
out_path filename = take 511 (codes "received_" ++ until_nul filename)

-- The switch of `handle_server_message`, on what is being received. `fwrite` takes `data_len`
-- bytes from the payload; past its 1024 bytes the source reads what lies behind.
unfoldable pub dispatch : Bool → ChatPacket → MsgType → Option (Bytes × Bytes) → Receiver → Receiver
dispatch opens p file_start rx r = record r {
  rx_file = if opens then some (out_path (take 255 p.filename), []) else none;
}
dispatch opens p file_data (some (name, bytes)) r = record r {
  rx_file = some (name, bytes ++ take p.data_len p.payload);
}
dispatch opens p file_end (some (name, bytes)) r = record {
  rx_file = none;
  saved = (name, bytes) ∷ r.saved;
}
dispatch opens p _ rx r = r

-- `handle_server_message` once a packet has been read; `opens` says whether `fopen` succeeds.
unfoldable pub handle_packet : Bool → ChatPacket → Receiver → Receiver
unfolding dispatch
handle_packet opens p r = dispatch opens p p.kind r.rx_file r

-- The client's packets in the order in which the stream delivers them; every `fopen` succeeds.
unfoldable pub receive_all : List ChatPacket → Receiver → Receiver
receive_all [] r = r
receive_all (p ∷ ps) r = receive_all ps (handle_packet true p r)

-- A line of the user: `exit`, `quit` and an empty line send nothing; `/file <path>` uploads.
pub data Command : Type 0 where
  nothing quit : Command
  upload : Bytes → Command
  say : Bytes → Command

unfoldable pub user_command : Bytes → Command
user_command [] = nothing
user_command (c ∷ s) =
    if str_eq (c ∷ s) (codes "exit") || str_eq (c ∷ s) (codes "quit")
    then quit
    else elim (strip_prefix (codes "/file ") (c ∷ s)) [
      | some path ↦ upload path
      | none ↦ say (c ∷ s)
    ]
