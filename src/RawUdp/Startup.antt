-- ===== src/RawUdp/Startup.antt =====
-- The two programs from their arguments to their end: `main` of module3/task09/client_main.c, with
-- `reserve_local_port` of client_logic.c, and `main` of server_main.c.
use eltex_practice.Base.{
  ℕ, ◌%◌, ◌≡◌, Bool, true, false, List, [], ◌∷◌, Option, none, some, Bytes, atoi, if◌then◌else◌,
}
use eltex_practice.Resources.{
  descriptor, Effect, takes, frees, Settles, Settles-all, Settles-takes, before,
}
use eltex_practice.RawUdp.Server.{Reaction}
use eltex_practice.RawUdp.Client.{Event, Client, client_main}
use eltex_practice.RawUdp.Loop.{init_client_db, server_loop}

-- The socket that keeps the port; a failing `bind` is only reported.
unfoldable pub reserve_local_port : Option ℕ → Bool → Option ℕ × List Effect
reserve_local_port none bind_works = (none, [])
reserve_local_port (some dummy_fd) bind_works = (some dummy_fd, takes (descriptor dummy_fd) ∷ [])

-- What the sockets come to at the end.
abbrev pub close_both : ℕ → Option ℕ → List Effect
close_both sockfd none = frees (descriptor sockfd) ∷ []
close_both sockfd (some dummy_fd) = frees (descriptor dummy_fd) ∷ frees (descriptor sockfd) ∷ []

-- The result of the program, none while it runs, with what it takes and gives back; and what it sent.
pub record ClientRun : Type 0 where
  pub outcome : Option Bool × List Effect
  pub sent : List Bytes

abbrev pub failure : ClientRun
failure = record { outcome = (some false, []); sent = [] }

-- Behind the socket.
abbrev pub behind_sockets : ℕ → Option ℕ × List Effect → Client → ClientRun
behind_sockets sockfd (dummy, reserved) client = record {
  outcome =
      before (takes (descriptor sockfd) ∷ []) (
        before reserved
          (if client.ended then (some true, close_both sockfd dummy) else (none, [])));
  sent = client.sent;
}

-- `inet_addr` reads an address; `socket` and `dummy` are what the two calls of `socket` give.
unfoldable pub client_program :
    (Bytes → ℕ) → List Bytes → Option ℕ → Option ℕ → Bool → List Event → ClientRun
client_program inet_addr (local_ip ∷ local_port ∷ server_ip ∷ server_port ∷ args) none dummy
      bind_works events =
    failure
client_program inet_addr (local_ip ∷ local_port ∷ server_ip ∷ server_port ∷ args) (some sockfd)
      dummy bind_works events =
    behind_sockets sockfd (reserve_local_port dummy bind_works) (
      client_main (inet_addr local_ip) (inet_addr server_ip) (atoi local_port % 65536)
        (atoi server_port % 65536) events)
client_program inet_addr args socket dummy bind_works events = failure

-- The server has no way out of its loop: none where it runs, with the socket taken and what it does about the
-- frames; a failure before is false.
unfoldable pub server_program :
    List Bytes → Option ℕ → List (Option Bytes) → Option Bool × List Effect × List Reaction
server_program [] socket frames = (some false, [], [])
server_program (server_port ∷ args) none frames = (some false, [], [])
server_program (server_port ∷ args) (some sockfd) frames =
    let (reactions, db) = server_loop (atoi server_port % 65536) frames init_client_db in
    (none, takes (descriptor sockfd) ∷ [], reactions)

behind_sockets-Settles :
    (sockfd : ℕ) (dummy : Option ℕ) (bind_works : Bool) (client : Client)
    → client.ended ≡ true
    → Settles [] (behind_sockets sockfd (reserve_local_port dummy bind_works) client).outcome
unfolding reserve_local_port
behind_sockets-Settles sockfd none b client h =
    rw h (Settles-takes (descriptor sockfd) [] _ (Settles-all (descriptor sockfd ∷ []) true))
behind_sockets-Settles sockfd (some dummy_fd) b client h = rw h (
    Settles-takes (descriptor sockfd) [] _ (
      Settles-takes (descriptor dummy_fd) (descriptor sockfd ∷ []) _
        (Settles-all (descriptor dummy_fd ∷ descriptor sockfd ∷ []) true)))

-- With four arguments, once the loop has ended, both sockets are closed, and also where the raw one cannot be made;
-- the reserving one may fail in any way.
pub client_program-Settles :
    (inet_addr : Bytes → ℕ) (local_ip local_port server_ip server_port : Bytes) (args : List Bytes)
    (socket dummy : Option ℕ) (bind_works : Bool) (events : List Event)
    → (client_main
        (inet_addr local_ip)
        (inet_addr server_ip)
        (atoi local_port % 65536)
        (atoi server_port % 65536)
        events).ended
      ≡ true
    → Settles []
        (client_program inet_addr
          (local_ip ∷ local_port ∷ server_ip ∷ server_port ∷ args)
          socket
          dummy
          bind_works
          events).outcome
unfolding client_program
client_program-Settles inet_addr l p s q args none dummy b events h = Settles-all [] false
client_program-Settles inet_addr l p s q args (some sockfd) dummy b events h =
    let client : Client =
      client_main (inet_addr l) (inet_addr s) (atoi p % 65536) (atoi q % 65536) events in
    behind_sockets-Settles sockfd dummy b client h
