-- ===== src/UdpChat/Startup.antt =====
-- The socket of the group chat from its creation to its end: `setup_broadcast_socket` of module3/task06/chat.c
-- and `main` of main.c.
use eltex_practice.Base.{
  ℕ, ◌≡◌, Bool, true, false, not, List, [], ◌∷◌, ◌++◌, Option, none, some, Bytes, if◌then◌else◌,
}
use eltex_practice.Resources.{descriptor, Effect, takes, frees, Settles, Settles-all, Settles-takes}
use eltex_practice.UdpChat.Chat.{Event, Done, chat_main}

-- The options of the socket are set whether or not that works; `bind` decides.
unfoldable pub setup_broadcast_socket : Option ℕ → Bool → Option ℕ × List Effect
setup_broadcast_socket none bind_works = (none, [])
setup_broadcast_socket (some sockfd) bind_works =
    if not bind_works
    then (none, takes (descriptor sockfd) ∷ frees (descriptor sockfd) ∷ [])
    else (some sockfd, takes (descriptor sockfd) ∷ [])

-- Behind the socket: none while the loop goes on.
abbrev pub behind_socket : Done → Option ℕ × List Effect → Option Bool × List Effect
behind_socket done (none, effects) = (some false, effects)
behind_socket done (some sockfd, effects) =
    if done.running then (none, effects) else (some true, effects ++ frees (descriptor sockfd) ∷ [])

-- `pton_works` is the broadcast address being one. The result, and what was taken and given back.
unfoldable pub program : Bool → Option ℕ → Bool → Done → Option Bool × List Effect
program pton_works socket bind_works done =
    if not pton_works
    then (some false, [])
    else behind_socket done (setup_broadcast_socket socket bind_works)

-- The program closes its socket, whichever call fails, and where the loop ends.
pub program-Settles :
    (pton_works : Bool) (socket : Option ℕ) (bind_works : Bool) (getpid : ℕ)
    (nickname stack : Bytes) (events : List Event)
    → (chat_main getpid nickname stack events).running ≡ false
    → Settles [] (program pton_works socket bind_works (chat_main getpid nickname stack events))
unfolding program setup_broadcast_socket
program-Settles false socket b pid n s events h = Settles-all [] false
program-Settles true none b pid n s events h = Settles-all [] false
program-Settles true (some fd) false pid n s events h =
    Settles-takes (descriptor fd) [] _ (Settles-all (descriptor fd ∷ []) false)
program-Settles true (some fd) true pid n s events h =
    rw (h) (Settles-takes (descriptor fd) [] _ (Settles-all (descriptor fd ∷ []) true))
