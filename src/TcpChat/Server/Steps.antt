-- ===== src/TcpChat/Server/Steps.antt =====
-- The client table under the server's events, and who receives a packet.
use eltex_practice.Base.{
  ℕ, zero, suc, ◌≤◌, ◌<◌, ◌≡◌, refl, ap, sym, subst, map, ◌∙◌, Bool, true, false, not, ◌&&◌, ◌||◌,
  List, [], ◌∷◌, ◌++◌, none, some, arith, length, length-append, leb, ◌==◌, if◌then◌else◌, any,
  any-append, Bool-cases, inl, inr,
}
use eltex_practice.TcpChat.Packet.{ChatPacket}
use eltex_practice.TcpChat.Server.Clients.{
  Server, max_clients, delete, last_of, all_but_last, remove_client, handle_new_connection,
  handle_client_disconnect, broadcast_packet, handle_client_data, Event, listening, ready,
  handle_event, run_server_loop,
}

abbrev pub has : ℕ → List ℕ → Bool
has k xs = any (λ x. x == k) xs

abbrev pub Distinct : List ℕ → Type 0
Distinct [] = Unit {0}
Distinct (x ∷ xs) = (has x xs ≡ false) × Distinct xs

abbrev pub count : ℕ → List ℕ → ℕ
count k [] = 0
count k (x ∷ xs) = if x == k then suc (count k xs) else count k xs

-- The last entry put first: the same entries.
has-last :
    (k y : ℕ) (ys : List ℕ) → (last_of y ys == k || has k (all_but_last y ys)) ≡ has k (y ∷ ys)
has-last k y [] = refl
has-last k y (z ∷ zs) = ground (arith, has-last k z zs)

Distinct-last :
    (y : ℕ) (ys : List ℕ) → Distinct (y ∷ ys) → Distinct (last_of y ys ∷ all_but_last y ys)
Distinct-last y [] d = d
Distinct-last y (z ∷ zs) d =
    let ih = Distinct-last z zs d.1 in
    (
      ground (arith, has-last (last_of z zs) z zs, has-last y z zs),
      (ground (arith, has-last y z zs), ih.1),
    )

-- Removal takes out exactly the one socket.
pub has-remove_client :
    (k fd : ℕ) (xs : List ℕ)
    → Distinct xs
    → has k (remove_client fd xs) ≡ (has k xs && not (k == fd))
unfolding remove_client
has-remove_client k fd [] d = refl
has-remove_client k fd (x ∷ []) d = ground arith
has-remove_client k fd (x ∷ y ∷ ys) d =
    ground (arith, has-last k y ys, has-remove_client k fd (y ∷ ys) d.1)

has-delete :
    (k fd : ℕ) (xs : List ℕ) → Distinct xs → has k (delete fd xs) ≡ (has k xs && not (k == fd))
has-delete k fd [] d = refl
has-delete k fd (x ∷ xs) d = ground (arith, has-delete k fd xs d.1)

has-absent : (p : ℕ → Bool) (fd : ℕ) (xs : List ℕ) → any p xs ≡ false → any p (delete fd xs) ≡ false
has-absent p fd [] h = refl
has-absent p fd (x ∷ xs) h = ground (arith, has-absent p fd xs)

delete-Distinct : (fd : ℕ) (xs : List ℕ) → Distinct xs → Distinct (delete fd xs)
delete-Distinct fd [] d = tt
delete-Distinct fd (x ∷ xs) d =
    ground (arith, delete-Distinct fd xs d.1, has-absent (λ y. y == x) fd xs)

remove_client-Distinct : (fd : ℕ) (xs : List ℕ) → Distinct xs → Distinct (remove_client fd xs)
unfolding remove_client
remove_client-Distinct fd [] d = tt
remove_client-Distinct fd (x ∷ []) d = ground arith
remove_client-Distinct fd (x ∷ y ∷ ys) d = elim (Bool-cases (x == fd)) [
  | inl e ↦ rw e (Distinct-last y ys d.1)
  | inr e ↦
      rw e (
        ground (arith, has-remove_client x fd (y ∷ ys) d.1),
        remove_client-Distinct fd (y ∷ ys) d.1,
      )
]

length-all_but_last : (y : ℕ) (ys : List ℕ) → length (all_but_last y ys) ≡ length ys
length-all_but_last y [] = refl
length-all_but_last y (z ∷ zs) = ap suc (length-all_but_last z zs)

length-remove_client : (fd : ℕ) (xs : List ℕ) → length (remove_client fd xs) ≤ length xs
unfolding remove_client
length-remove_client fd [] = omega arith
length-remove_client fd (x ∷ []) = ground arith
length-remove_client fd (x ∷ y ∷ ys) =
    ground (arith, length-all_but_last y ys, length-remove_client fd (y ∷ ys))

-- The table is within its array and has no socket twice, and what epoll watches and what is open
-- are exactly its sockets.
pub record Inv (s : Server) : Type 0 where
  pub few : length s.clients ≤ max_clients
  pub distinct : Distinct s.clients
  pub distinct_watched : Distinct s.watched
  pub distinct_open : Distinct s.open_fds
  pub watches : (k : ℕ) → has k s.watched ≡ has k s.clients
  pub opens : (k : ℕ) → has k s.open_fds ≡ has k s.clients

-- What may happen: `accept` gives a descriptor that is not open.
abbrev pub May : Event → Server → Type 0
May (listening none watch) s = Unit {0}
May (listening (some fd) watch) s = has fd s.open_fds ≡ false
May (ready fd r) s = has fd s.watched ≡ true

Distinct-snoc : (fd : ℕ) (xs : List ℕ) → Distinct xs → has fd xs ≡ false → Distinct (xs ++ fd ∷ [])
Distinct-snoc fd [] d h = (refl, tt)
Distinct-snoc fd (x ∷ xs) d h =
    (ground (arith, any-append (λ y. y == x) xs (fd ∷ [])), Distinct-snoc fd xs d.1 (ground arith))

connection-Inv :
    (fd : ℕ) (watch : Bool) {s : Server}
    → has fd s.open_fds ≡ false
    → Inv s
    → Inv (handle_new_connection (some fd) watch s)
unfolding handle_new_connection
connection-Inv fd watch {s} free v = elim (Bool-cases (leb max_clients (length s.clients))) [
  | inl full ↦ rw (full, handle_new_connection) v
  | inr room ↦ elim (Bool-cases watch) [
    | inr w ↦ rw (room, w, handle_new_connection) v
    | inl w ↦
        rw (room, w, handle_new_connection)
          (record {
            few = omega (arith, length-append s.clients (fd ∷ []), below room);
            distinct = Distinct-snoc fd s.clients v.distinct (sym (v.opens fd) ∙ free);
            distinct_watched = (v.watches fd ∙ sym (v.opens fd) ∙ free, v.distinct_watched);
            distinct_open = (free, v.distinct_open);
            watches =
                λ k. ground (arith, any-append (λ y. y == k) s.clients (fd ∷ []), v.watches k);
            opens = λ k. ground (arith, any-append (λ y. y == k) s.clients (fd ∷ []), v.opens k);
          })
  ]
]
  where
    below : leb max_clients (length s.clients) ≡ false → length s.clients < max_clients
    below e = ground arith

disconnect-Inv : (fd : ℕ) {s : Server} → Inv s → Inv (handle_client_disconnect fd s)
unfolding handle_client_disconnect
disconnect-Inv fd {s} v = record {
  few = omega (arith, length-remove_client fd s.clients, v.few);
  distinct = remove_client-Distinct fd s.clients v.distinct;
  distinct_watched = delete-Distinct fd s.watched v.distinct_watched;
  distinct_open = delete-Distinct fd s.open_fds v.distinct_open;
  watches = λ k.
      has-delete k fd s.watched v.distinct_watched
      ∙ ap (λ b. b && not (k == fd)) (v.watches k)
      ∙ sym (has-remove_client k fd s.clients v.distinct);
  opens = λ k.
      has-delete k fd s.open_fds v.distinct_open
      ∙ ap (λ b. b && not (k == fd)) (v.opens k)
      ∙ sym (has-remove_client k fd s.clients v.distinct);
}

pub handle_event-Inv : (e : Event) {s : Server} → May e s → Inv s → Inv (handle_event e s).0
unfolding handle_event handle_client_data handle_new_connection
handle_event-Inv (listening none watch) m v = v
handle_event-Inv (listening (some fd) watch) m v = connection-Inv fd watch m v
handle_event-Inv (ready fd none) m v = disconnect-Inv fd v
handle_event-Inv (ready fd (some packet)) m v = v

-- Each event may happen in the state that those before it have left.
abbrev pub MayAll : List Event → Server → Type 0
MayAll [] s = Unit {0}
MayAll (e ∷ es) s = May e s × MayAll es (handle_event e s).0

-- After any events that may happen, the table is within its 128 entries and has no socket twice,
-- and the sockets that are open and those that epoll watches are exactly those of the table: none
-- is leaked and none is forgotten.
pub run_server_loop-Inv :
    (es : List Event) {s : Server} → MayAll es s → Inv s → Inv (run_server_loop es s).0
unfolding run_server_loop
run_server_loop-Inv [] m v = v
run_server_loop-Inv (e ∷ es) m v = run_server_loop-Inv es m.1 (handle_event-Inv e m.0 v)

count-broadcast_absent :
    (k sender : ℕ) (xs : List ℕ) → has k xs ≡ false → count k (broadcast_packet sender xs) ≡ 0
unfolding broadcast_packet
count-broadcast_absent k sender [] h = refl
count-broadcast_absent k sender (x ∷ xs) h = ground (arith, count-broadcast_absent k sender xs)

count-broadcast_packet :
    (k sender : ℕ) (xs : List ℕ)
    → Distinct xs
    → count k (broadcast_packet sender xs) ≡ (if has k xs && not (k == sender) then 1 else 0)
unfolding broadcast_packet
count-broadcast_packet k sender [] d = refl
count-broadcast_packet k sender (x ∷ xs) d = elim (Bool-cases (x == k)) [
  | inl e ↦
      (let f : x ≡ k = ground arith in
        let g : has k xs ≡ false = subst (λ y. has y xs ≡ false) f d.0 in
        ground (arith, count-broadcast_absent k sender xs g))
  | inr e ↦ ground (arith, count-broadcast_packet k sender xs d.1)
]

-- The packets that a socket gets.
abbrev pub packets_to : ℕ → List (ℕ × ChatPacket) → List ChatPacket
packets_to k [] = []
packets_to k ((c, p) ∷ cs) = if c == k then p ∷ packets_to k cs else packets_to k cs

abbrev pub copies : ℕ → ChatPacket → List ChatPacket
copies zero p = []
copies (suc n) p = p ∷ copies n p

pub packets_to-map :
    (k : ℕ) (p : ChatPacket) (cs : List ℕ)
    → packets_to k (map (λ c. (c, p)) cs) ≡ copies (count k cs) p
packets_to-map k p [] = refl
packets_to-map k p (c ∷ cs) = elim (Bool-cases (c == k)) [
  | inl e ↦ rw e (ap (◌∷◌ p) (packets_to-map k p cs))
  | inr e ↦ rw e (packets_to-map k p cs)
]

-- A packet that arrives is sent on once to every other client of a table without repetition, and to
-- nobody else; the sender does not get it back.
pub packets_to-handle_client_data :
    (k fd : ℕ) (packet : ChatPacket) (s : Server)
    → Distinct s.clients
    → packets_to k (handle_client_data fd (some packet) s).1
      ≡ (if has k s.clients && not (k == fd) then packet ∷ [] else [])
unfolding handle_client_data
packets_to-handle_client_data k fd packet s d =
    packets_to-map k packet (broadcast_packet fd s.clients)
    ∙ rw (count-broadcast_packet k fd s.clients d) (one_or_none (has k s.clients && not (k == fd)))
  where
    one_or_none : (b : Bool) → copies (if b then 1 else 0) packet ≡ (if b then packet ∷ [] else [])
    one_or_none true = refl
    one_or_none false = refl
