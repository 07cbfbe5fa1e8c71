-- ===== src/TcpChat/Server/Clients.antt =====
-- The state of the server and its handlers.
use eltex_practice.Base.{
  ℕ, Bool, List, [], ◌∷◌, ◌++◌, map, Option, none, some, length, leb, ◌==◌, if◌then◌else◌,
}
use eltex_practice.TcpChat.Packet.{ChatPacket}

abbrev pub max_clients : ℕ
max_clients = 128

pub record Server : Type 0 where
  pub clients : List ℕ
  pub watched : List ℕ
  pub open_fds : List ℕ

abbrev pub delete : ℕ → List ℕ → List ℕ
delete fd [] = []
delete fd (x ∷ xs) = if x == fd then xs else x ∷ delete fd xs

-- The last entry, and the list without it.
abbrev pub last_of : ℕ → List ℕ → ℕ
last_of x [] = x
last_of x (y ∷ ys) = last_of y ys

abbrev pub all_but_last : ℕ → List ℕ → List ℕ
all_but_last x [] = []
all_but_last x (y ∷ ys) = x ∷ all_but_last y ys

-- The entry met first is overwritten by the last one, and the count falls by one.
unfoldable pub remove_client : ℕ → List ℕ → List ℕ
remove_client fd [] = []
remove_client fd (x ∷ []) = if x == fd then [] else x ∷ []
remove_client fd (x ∷ y ∷ ys) =
    if x == fd then last_of y ys ∷ all_but_last y ys else x ∷ remove_client fd (y ∷ ys)

-- `fd` is what `accept` returned, if it did; `watch` says whether `epoll_ctl` succeeded.
unfoldable pub handle_new_connection : Option ℕ → Bool → Server → Server
handle_new_connection none watch s = s
handle_new_connection (some fd) watch s =
    if leb max_clients (length s.clients)
    then s
    else if watch
    then record {
      clients = s.clients ++ fd ∷ [];
      watched = fd ∷ s.watched;
      open_fds = fd ∷ s.open_fds;
    }
    else s

unfoldable pub handle_client_disconnect : ℕ → Server → Server
handle_client_disconnect fd s = record {
  clients = remove_client fd s.clients;
  watched = delete fd s.watched;
  open_fds = delete fd s.open_fds;
}

-- The sockets that `write_all` is called with, in order; its result is ignored.
unfoldable pub broadcast_packet : ℕ → List ℕ → List ℕ
broadcast_packet sender [] = []
broadcast_packet sender (c ∷ cs) =
    if c == sender then broadcast_packet sender cs else c ∷ broadcast_packet sender cs

-- What `read_all` gave: nothing, because of the end or an error; or a packet.
unfoldable pub handle_client_data : ℕ → Option ChatPacket → Server → Server × List (ℕ × ChatPacket)
handle_client_data fd none s = (handle_client_disconnect fd s, [])
handle_client_data fd (some packet) s = (s, map (λ c. (c, packet)) (broadcast_packet fd s.clients))

-- What `epoll_wait` reports: the listening socket, with what `accept` and `epoll_ctl` then answer,
-- or a client socket, with what `read_all` gives on it.
pub data Event : Type 0 where
  listening : Option ℕ → Bool → Event
  ready : ℕ → Option ChatPacket → Event

unfoldable pub handle_event : Event → Server → Server × List (ℕ × ChatPacket)
handle_event (listening fd watch) s = (handle_new_connection fd watch s, [])
handle_event (ready fd r) s = handle_client_data fd r s

-- The loop of `run_server_loop` over the events in their order.
unfoldable pub run_server_loop : List Event → Server → Server × List (ℕ × ChatPacket)
run_server_loop [] s = (s, [])
run_server_loop (e ∷ es) s =
    let (s1, now) = handle_event e s in
    let (s2, later) = run_server_loop es s1 in (s2, now ++ later)
