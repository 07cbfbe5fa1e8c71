-- ===== src/RawUdp/Counting.antt =====
-- The echo server as its clients see it: one count for each address and port, and an answer to each message.
use eltex_practice.Base.{
  ℕ, suc, ◌+◌, ◌^◌, ◌≤◌, ◌<◌, ◌≡◌, refl, ap, ap₂, sym, ◌∙◌, Bool, not, ◌||◌, true, false, List, [],
  ◌∷◌, map, Option, none, some, arith, length, Bytes, Free, str_eq, ◌==◌, word, if◌then◌else◌,
  Bool-cases, inl, inr, subst,
}
use eltex_practice.Resources.{if_both}
use eltex_practice.RawUdp.Packet.{build_udp_packet}
use eltex_practice.RawUdp.Clients.{
  ClientRecord, next_count, next_count-small, count_of, same, count_message_lem,
  count_of-reset_client,
}
use eltex_practice.RawUdp.Room.{
  Clients, is_listed, HasRoom, count_message-HasRoom, reset_client-HasRoom,
}
use eltex_practice.RawUdp.Server.{
  Reaction, ignored, reset, reply, response, respond, process_incoming_packet, shutdown_msg,
}
use eltex_practice.RawUdp.Echo.{frame, process-frame, respond-message}
use eltex_practice.RawUdp.Loop.{server_loop}

-- A packet of a client, and what the buffer holds behind it.
pub record Datagram : Type 0 where
  pub saddr : ℕ
  pub daddr : ℕ
  pub src_port : ℕ
  pub dest_port : ℕ
  pub text : Bytes
  pub behind : Bytes

abbrev pub frame_of : Datagram → Bytes
frame_of d = frame d.saddr d.daddr d.src_port d.dest_port d.text d.behind

-- Its addresses and ports are in range, and its text has no zero byte and at most 60000 bytes.
pub record IsDatagram (d : Datagram) : Type 0 where
  pub saddr : d.saddr < 2 ^ 32
  pub daddr : d.daddr < 2 ^ 32
  pub src_port : d.src_port < 65536
  pub dest_port : d.dest_port < 65536
  pub text : Free 0 d.text
  pub short : length d.text ≤ 60000

abbrev pub Counts : Type 0
Counts = ℕ → ℕ → ℕ

abbrev pub set_count : ℕ → ℕ → ℕ → Counts → Counts
set_count ip port n counts p q = if same p q ip port then n else counts p q

-- What a packet makes of the counts, and the answer to it.
abbrev pub counted : ℕ → Datagram → Counts → Counts
counted server_port d counts =
    if d.dest_port == server_port
    then if str_eq d.text shutdown_msg
      then set_count d.saddr d.src_port 0 counts
      else set_count d.saddr d.src_port (counts d.saddr d.src_port + 1) counts
    else counts

abbrev pub answer : ℕ → Datagram → Counts → Reaction
answer server_port d counts =
    if d.dest_port == server_port
    then if str_eq d.text shutdown_msg
      then reset
      else reply (
          build_udp_packet d.daddr d.saddr server_port d.src_port
            (response d.text (counts d.saddr d.src_port + 1)))
    else ignored

-- Of all that `recvfrom` gives: a packet, or none for an error.
abbrev pub counted_all : ℕ → List (Option Datagram) → Counts → Counts
counted_all server_port [] counts = counts
counted_all server_port (none ∷ ds) counts = counted_all server_port ds counts
counted_all server_port (some d ∷ ds) counts =
    counted_all server_port ds (counted server_port d counts)

abbrev pub answers : ℕ → List (Option Datagram) → Counts → List Reaction
answers server_port [] counts = []
answers server_port (none ∷ ds) counts = answers server_port ds counts
answers server_port (some d ∷ ds) counts =
    answer server_port d counts ∷ answers server_port ds (counted server_port d counts)

abbrev pub received : Option Datagram → Option Bytes
received none = none
received (some d) = some (frame_of d)

-- It is to another port, or comes from one of these clients.
abbrev pub is_expected : ℕ → Clients → Datagram → Bool
is_expected server_port clients d =
    not (d.dest_port == server_port) || is_listed d.saddr d.src_port clients

abbrev pub AreDatagrams : ℕ → Clients → List (Option Datagram) → Type 0
AreDatagrams server_port clients [] = Unit {0}
AreDatagrams server_port clients (none ∷ ds) = AreDatagrams server_port clients ds
AreDatagrams server_port clients (some d ∷ ds) =
    IsDatagram d × (is_expected server_port clients d ≡ true) × AreDatagrams server_port clients ds

-- The table holds these counts and has room for these clients, and so many more messages overflow no count.
pub record Holds (clients : Clients) (more : ℕ) (db : List ClientRecord) (counts : Counts)
    : Type 0 where
  pub fits : HasRoom clients db
  pub same_as : (p q : ℕ) → count_of p q db ≡ counts p q
  pub small : (p q : ℕ) → counts p q + more < 2 ^ 31

-- One packet: the table holds what the packet makes of the counts, and the answer is the one to it.
record Served (server_port more : ℕ) (clients : Clients) (d : Datagram) (counts : Counts)
    (r : Reaction × List ClientRecord) : Type 0 where
  holds : Holds clients more r.1 (counted server_port d counts)
  answered : r.0 ≡ answer server_port d counts

process-other :
    (server_port : ℕ) (d : Datagram) (db : List ClientRecord)
    → d.dest_port < 65536
    → (d.dest_port == server_port) ≡ false
    → process_incoming_packet server_port (frame_of d) db ≡ (ignored, db)
unfolding process_incoming_packet build_udp_packet
process-other server_port d db p other = rw (word d.dest_port p, other) refl

-- A count set to something small keeps all of them small.
set_count-small :
    (ip port n more p q : ℕ) (counts : Counts)
    → n + more < 2 ^ 31
    → counts p q + suc more < 2 ^ 31
    → set_count ip port n counts p q + more < 2 ^ 31
set_count-small ip port n more p q counts h k =
    if_both (λ c. c + more < 2 ^ 31) (same p q ip port) n (counts p q) h (omega arith)

module _ (server_port more : ℕ) (clients : Clients) (d : Datagram) (db : List ClientRecord)
    (counts : Counts) (h : Holds clients (suc more) db counts) where
  abbrev Answered : Reaction × List ClientRecord → Type 0
  Answered = Served server_port more clients d counts

  serve_message :
      IsDatagram d
      → (d.dest_port == server_port) ≡ true
      → str_eq d.text shutdown_msg ≡ false
      → is_listed d.saddr d.src_port clients ≡ true
      → Answered (respond server_port d.saddr d.daddr d.src_port d.text db)
  serve_message v mine text l =
      let (room, fits) = count_message-HasRoom clients d.saddr d.src_port db l h.fits in
      let lem = count_message_lem d.saddr d.src_port db room in
      let n : ℕ = counts d.saddr d.src_port + 1 in
      let next : next_count (count_of d.saddr d.src_port db) ≡ n =
        ap next_count (h.same_as d.saddr d.src_port)
        ∙ next_count-small (counts d.saddr d.src_port)
            (omega (arith, h.small d.saddr d.src_port)) in
      rw
        (respond-message server_port d.saddr d.daddr d.src_port n d.text db text v.short
          (lem.0 ∙ next))
        (record {
          holds = record {
            fits = fits;
            same_as = λ p q.
                rw (mine, text)
                  (lem.1 p q
                    ∙ ap₂ (λ k m. if same p q d.saddr d.src_port then k else m) next
                        (h.same_as p q));
            small = λ p q.
                rw (mine, text)
                  (set_count-small d.saddr d.src_port n more p q counts
                    (omega (arith, h.small d.saddr d.src_port)) (h.small p q));
          };
          answered = rw (mine, text) refl;
        })

  serve_shutdown :
      (d.dest_port == server_port) ≡ true
      → str_eq d.text shutdown_msg ≡ true
      → Answered (respond server_port d.saddr d.daddr d.src_port d.text db)
  unfolding respond
  serve_shutdown mine text =
      rw (text, respond)
        (record {
          holds = record {
            fits = reset_client-HasRoom clients d.saddr d.src_port db h.fits;
            same_as = λ p q.
                rw (mine, text)
                  (count_of-reset_client p q d.saddr d.src_port db
                    ∙ ap (λ m. if same p q d.saddr d.src_port then 0 else m) (h.same_as p q));
            small = λ p q.
                rw (mine, text)
                  (set_count-small d.saddr d.src_port 0 more p q counts
                    (omega (arith, h.small d.saddr d.src_port)) (h.small p q));
          };
          answered = rw (mine, text) refl;
        })

  serve_datagram :
      server_port < 65536
      → IsDatagram d
      → is_expected server_port clients d ≡ true
      → Answered (process_incoming_packet server_port (frame_of d) db)
  serve_datagram b v l = elim (Bool-cases (d.dest_port == server_port)) [
    | inr other ↦ rw (process-other server_port d db v.dest_port other) (record {
      holds = record {
        fits = h.fits;
        same_as = λ p q. rw other (h.same_as p q);
        small = λ p q. rw other (omega (arith, h.small p q));
      };
      answered = rw other refl;
    })
    | inl mine ↦
        (let e : d.dest_port ≡ server_port = ground arith in
          let from_client : is_listed d.saddr d.src_port clients ≡ true = rw mine at l in
          let processed : process_incoming_packet server_port (frame_of d) db
              ≡ respond server_port d.saddr d.daddr d.src_port d.text db =
            subst
              (λ k.
                process_incoming_packet server_port
                  (frame d.saddr d.daddr d.src_port k d.text d.behind) db
                ≡ respond server_port d.saddr d.daddr d.src_port d.text db)
              (sym e)
              (process-frame d.saddr d.daddr d.src_port server_port d.text d.behind db v.saddr
                v.daddr v.src_port b v.text v.short) in
          rw processed (elim (Bool-cases (str_eq d.text shutdown_msg)) [
            | inl t ↦ serve_shutdown mine t
            | inr t ↦ serve_message v mine t from_client
          ]))
  ]

-- The server refines the counts: whatever packets and errors come, it answers each message to its port with the
-- text and the count of its address and port, one more than before; a notice of shutdown sets that count to
-- zero, and packets to other ports are ignored. At the end the table holds the counts. Addresses and ports
-- are in range, the texts have no zero byte and at most 60000 bytes; the table has room for all the clients
-- that send to the port, and each count with the number of receptions stays below 2^31, the limit of `int`.
pub server_loop-answers :
    (server_port : ℕ) (clients : Clients) (ds : List (Option Datagram)) (db : List ClientRecord)
    (counts : Counts)
    → server_port < 65536
    → AreDatagrams server_port clients ds
    → Holds clients (length ds) db counts
    → ((server_loop server_port (map received ds) db).0 ≡ answers server_port ds counts)
      × Holds clients 0
          (server_loop server_port (map received ds) db).1
          (counted_all server_port ds counts)
unfolding server_loop
server_loop-answers server_port clients [] db counts b v h = (refl, h)
server_loop-answers server_port clients (none ∷ ds) db counts b v h =
    server_loop-answers server_port clients ds db counts b v
      (record { fits = h.fits; same_as = h.same_as; small = λ p q. omega (arith, h.small p q) })
server_loop-answers server_port clients (some d ∷ ds) db counts b v h =
    let one = serve_datagram server_port (length ds) clients d db counts h b v.0 v.1 in
    let (answered, holds) =
      server_loop-answers server_port clients ds
        (process_incoming_packet server_port (frame_of d) db).1 (counted server_port d counts) b v.2
        one.holds in
    (ap₂ (λ r rs. r ∷ rs) one.answered answered, holds)
