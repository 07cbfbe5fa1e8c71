-- ===== src/TcpChat/Server/Table.antt =====
-- The server as its clients see it: its table of sockets up to their order, which `remove_client` changes.
use mathlib.Core.Quot
use mathlib.Core.Quot.{Quot, Quot-set}
use eltex_practice.Base.{
  ℕ, suc, ◌+◌, ◌-◌, ◌≤◌, ◌≡◌, refl, ap, ap₂, sym, ◌∙◌, Bool, true, false, List, [], ◌∷◌, ◌++◌, none,
  some, arith, length, leb, ◌==◌, if◌then◌else◌, Bool-cases, inl, inr,
}
use eltex_practice.TcpChat.Packet.{ChatPacket}
use eltex_practice.TcpChat.Server.Clients.{
  Server, max_clients, delete, last_of, all_but_last, remove_client, handle_new_connection,
  handle_client_disconnect, broadcast_packet, handle_client_data, Event, listening, ready,
  handle_event, run_server_loop,
}
use eltex_practice.TcpChat.Server.Steps.{count, packets_to, packets_to-map, copies}

abbrev pub SameSockets : List ℕ → List ℕ → Type 0
SameSockets xs ys = (k : ℕ) → count k xs ≡ count k ys

abbrev pub Table : Type 0
Table = Quot SameSockets

abbrev pub table : List ℕ → Table
table = Quot.mk

-- One socket less, if it is there.
abbrev one_if : Bool → ℕ
one_if b = if b then 1 else 0

count-delete : (k fd : ℕ) (xs : List ℕ) → count k (delete fd xs) ≡ count k xs - one_if (fd == k)
count-delete k fd [] = ground arith
count-delete k fd (x ∷ xs) = ground (arith, count-delete k fd xs)

count-append : (k : ℕ) (xs ys : List ℕ) → count k (xs ++ ys) ≡ count k xs + count k ys
count-append k [] ys = omega arith
count-append k (x ∷ xs) ys = ground (arith, count-append k xs ys)

count-last : (k y : ℕ) (ys : List ℕ) → count k (last_of y ys ∷ all_but_last y ys) ≡ count k (y ∷ ys)
count-last k y [] = refl
count-last k y (z ∷ zs) = ground (arith, count-last k z zs)

-- Overwriting with the last entry is deletion, up to the order.
count-remove_client :
    (k fd : ℕ) (xs : List ℕ) → count k (remove_client fd xs) ≡ count k xs - one_if (fd == k)
unfolding remove_client
count-remove_client k fd [] = ground arith
count-remove_client k fd (x ∷ []) = ground arith
count-remove_client k fd (x ∷ y ∷ ys) =
    ground (arith, count-last k y ys, count-remove_client k fd (y ∷ ys))

count-broadcast_packet_any :
    (k sender : ℕ) (xs : List ℕ)
    → count k (broadcast_packet sender xs) ≡ (if k == sender then 0 else count k xs)
unfolding broadcast_packet
count-broadcast_packet_any k sender [] = ground arith
count-broadcast_packet_any k sender (x ∷ xs) =
    ground (arith, count-broadcast_packet_any k sender xs)

length-delete : (fd : ℕ) (xs : List ℕ) → 1 ≤ count fd xs → suc (length (delete fd xs)) ≡ length xs
length-delete fd [] h = absurd (omega arith)
length-delete fd (x ∷ xs) h = ground (arith, length-delete fd xs)

-- Lists with the same sockets are of one length.
pub SameSockets-length : (xs ys : List ℕ) → SameSockets xs ys → length xs ≡ length ys
SameSockets-length [] [] h = refl
SameSockets-length [] (y ∷ ys) h =
    let d : (y == y) ≡ true = ground arith in absurd (ground (arith, h y))
SameSockets-length (x ∷ xs) ys h =
    let d : (x == x) ≡ true = ground arith in
    let there : 1 ≤ count x ys = ground (arith, h x) in
    ap suc (SameSockets-length xs (delete x ys) λ k. ground (arith, h k, count-delete k x ys))
    ∙ length-delete x ys there

abbrev pub size : Table → ℕ
size = Quot.lift (hlevel) length SameSockets-length

-- How often a socket stands in the table.
abbrev pub places : ℕ → Table → ℕ
places k = Quot.lift (hlevel) (count k) λ xs ys h. h k

pub SameSockets-cons :
    (fd : ℕ) (xs ys : List ℕ) → SameSockets xs ys → SameSockets (fd ∷ xs) (fd ∷ ys)
SameSockets-cons fd xs ys h k = ground (arith, h k)

pub SameSockets-delete :
    (fd : ℕ) (xs ys : List ℕ) → SameSockets xs ys → SameSockets (delete fd xs) (delete fd ys)
SameSockets-delete fd xs ys h k = omega (arith, count-delete k fd xs, count-delete k fd ys, h k)

abbrev pub enter : ℕ → Table → Table
enter fd =
    Quot.lift Quot-set (λ xs. table (fd ∷ xs)) λ xs ys h. Quot.sound (SameSockets-cons fd xs ys h)

abbrev pub depart : ℕ → Table → Table
depart fd =
    Quot.lift Quot-set (λ xs. table (delete fd xs))
      λ xs ys h. Quot.sound (SameSockets-delete fd xs ys h)

-- What an event makes of the table.
abbrev pub after : Event → Table → Table
after (listening none watch) t = t
after (listening (some fd) watch) t =
    if leb max_clients (size t) then t else if watch then enter fd t else t
after (ready fd none) t = depart fd t
after (ready fd (some packet)) t = t

-- The packets that a socket gets of an event.
abbrev pub arrivals : ℕ → Event → Table → List ChatPacket
arrivals k (listening fd watch) t = []
arrivals k (ready fd none) t = []
arrivals k (ready fd (some packet)) t = if k == fd then [] else copies (places k t) packet

abbrev pub replay : List Event → Table → Table
replay [] t = t
replay (e ∷ es) t = replay es (after e t)

abbrev pub all_arrivals : ℕ → List Event → Table → List ChatPacket
all_arrivals k [] t = []
all_arrivals k (e ∷ es) t = arrivals k e t ++ all_arrivals k es (after e t)

pub packets_to-append :
    (k : ℕ) (xs ys : List (ℕ × ChatPacket))
    → packets_to k (xs ++ ys) ≡ packets_to k xs ++ packets_to k ys
packets_to-append k [] ys = refl
packets_to-append k ((c, p) ∷ xs) ys = ground (arith, packets_to-append k xs ys)

-- What one event comes to, on the table as it lies in memory and up to its order.
record Refines (k : ℕ) (e : Event) (s : Server) : Type 0 where
  same_table : table (handle_event e s).0.clients ≡ after e (table s.clients)
  same_packets : packets_to k (handle_event e s).1 ≡ arrivals k e (table s.clients)

connection-table :
    (fd : ℕ) (watch : Bool) (s : Server)
    → table (handle_new_connection (some fd) watch s).clients
      ≡ after (listening (some fd) watch) (table s.clients)
unfolding handle_new_connection
connection-table fd watch s = elim (Bool-cases (leb max_clients (length s.clients))) [
  | inl full ↦ rw full refl
  | inr room ↦ elim (Bool-cases watch) [
    | inr w ↦ rw (room, w) refl
    | inl w ↦ rw (room, w) (Quot.sound λ k. ground (arith, count-append k s.clients (fd ∷ [])))
  ]
]

handle_event-Refines : (k : ℕ) (e : Event) (s : Server) → Refines k e s
unfolding handle_event handle_client_data handle_client_disconnect handle_new_connection
handle_event-Refines k (listening none watch) s = record { same_table = refl; same_packets = refl }
handle_event-Refines k (listening (some fd) watch) s = record {
  same_table = connection-table fd watch s;
  same_packets = refl;
}
handle_event-Refines k (ready fd none) s = record {
  same_table =
      Quot.sound λ c. count-remove_client c fd s.clients ∙ sym (count-delete c fd s.clients);
  same_packets = refl;
}
handle_event-Refines k (ready fd (some packet)) s = record {
  same_table = refl;
  same_packets =
      packets_to-map k packet (broadcast_packet fd s.clients)
      ∙ rw (count-broadcast_packet_any k fd s.clients) (if_copies (k == fd));
}
  where
    if_copies :
        (b : Bool)
        → copies (if b then 0 else count k s.clients) packet
          ≡ (if b then [] else copies (count k s.clients) packet)
    if_copies true = refl
    if_copies false = refl

-- Whatever events arrive, the server acts on its table only up to the order of the sockets: the packets that
-- each socket gets, in their order, and the table that is left are those of the table without order, in
-- which a connection adds a socket while there are fewer than 128, the end of one takes it out,
-- and a packet goes to every place of every other socket.
pub run_server_loop-replay :
    (k : ℕ) (es : List Event) (s : Server)
    → (table (run_server_loop es s).0.clients ≡ replay es (table s.clients))
      × (packets_to k (run_server_loop es s).1 ≡ all_arrivals k es (table s.clients))
unfolding run_server_loop
run_server_loop-replay k [] s = (refl, refl)
run_server_loop-replay k (e ∷ es) s =
    let one = handle_event-Refines k e s in
    let (left, got) = run_server_loop-replay k es (handle_event e s).0 in
    (
      left ∙ ap (replay es) one.same_table,
      packets_to-append k (handle_event e s).1 _
          ∙ ap₂ ◌++◌ one.same_packets (got ∙ ap (all_arrivals k es) one.same_table),
    )
