-- ===== src/TcpChat/Startup.antt =====
-- Setting up and ending the two programs of module3/task07: `init_server_socket`, `init_epoll` and `main` of
-- server.c, `init_client_socket` of client.c, and the server's record of a packet. Every call of the system
-- gives a descriptor, or whether it works.
use eltex_practice.Base.{
  ℕ, refl, Bool, true, false, not, List, [], ◌∷◌, ◌++◌, Option, none, some, Bytes, until_nul,
  if◌then◌else◌, inl, inr,
}
use eltex_practice.Resources.{
  descriptor, Effect, takes, frees, Settles, if_both, Option-both, Settles-all, Settles-takes,
}
use eltex_practice.TcpChat.Packet.{
  ChatPacket, MsgType, join, leave, chat, file_start, file_data, file_end, other,
}

pub record Answers : Type 0 where
  pub socket : Option ℕ
  pub bind_works : Bool
  pub listen_works : Bool
  pub epoll_create1 : Option ℕ
  pub epoll_ctl_works : Bool

-- The result, none for -1, and the effects.
unfoldable pub init_server_socket : Answers → Option ℕ × List Effect
init_server_socket a = elim a.socket [
  | none ↦ (none, [])
  | some listen_fd ↦
      let closed = takes (descriptor listen_fd) ∷ frees (descriptor listen_fd) ∷ [] in
      if not a.bind_works
      then (none, closed)
      else if not a.listen_works
      then (none, closed)
      else (some listen_fd, takes (descriptor listen_fd) ∷ [])
]

unfoldable pub init_epoll : Answers → Option ℕ × List Effect
init_epoll a = elim a.epoll_create1 [
  | none ↦ (none, [])
  | some epoll_fd ↦
      if not a.epoll_ctl_works
      then (none, takes (descriptor epoll_fd) ∷ frees (descriptor epoll_fd) ∷ [])
      else (some epoll_fd, takes (descriptor epoll_fd) ∷ [])
]

-- `main` of the server, whose loop ends when `epoll_wait` fails; true is the result 0.
abbrev pub behind_epoll : ℕ → Option ℕ × List Effect → Option Bool × List Effect
behind_epoll listen_fd (none, effects) = (some false, effects ++ frees (descriptor listen_fd) ∷ [])
behind_epoll listen_fd (some epoll_fd, effects) =
    (some true, effects ++ frees (descriptor listen_fd) ∷ frees (descriptor epoll_fd) ∷ [])

abbrev pub behind_socket : Answers → Option ℕ × List Effect → Option Bool × List Effect
behind_socket a (none, effects) = (some false, effects)
behind_socket a (some listen_fd, effects) =
    (let end = behind_epoll listen_fd (init_epoll a) in (end.0, effects ++ end.1))

unfoldable pub server_main : Answers → Option Bool × List Effect
server_main a = behind_socket a (init_server_socket a)

-- The client's socket; `pton_works` is the address being one.
unfoldable pub init_client_socket : Option ℕ → Bool → Bool → Option ℕ × List Effect
init_client_socket none pton_works connect_works = (none, [])
init_client_socket (some sockfd) pton_works connect_works =
    let closed = takes (descriptor sockfd) ∷ frees (descriptor sockfd) ∷ [] in
    if not pton_works
    then (none, closed)
    else if not connect_works
    then (none, closed)
    else (some sockfd, takes (descriptor sockfd) ∷ [])

-- What the server prints about a packet.
pub data Logged : Type 0 where
  came left : Bytes → Logged
  said starts_file : Bytes → Bytes → Logged
  silent : Logged

unfoldable pub log_packet : ChatPacket → MsgType → Logged
log_packet p join = came (until_nul p.nickname)
log_packet p leave = left (until_nul p.nickname)
log_packet p chat = said (until_nul p.nickname) (until_nul p.payload)
log_packet p file_start = starts_file (until_nul p.nickname) (until_nul p.filename)
log_packet p file_data = silent
log_packet p file_end = silent
log_packet p other = silent

init_epoll-Settles :
    (a : Answers) (listen_fd : ℕ)
    → Settles (descriptor listen_fd ∷ []) (behind_epoll listen_fd (init_epoll a))
unfolding init_epoll
init_epoll-Settles a listen_fd =
    let P : Option ℕ × List Effect → Type 0 =
      λ r. Settles (descriptor listen_fd ∷ []) (behind_epoll listen_fd r) in
    Option-both P a.epoll_create1 _ _ (Settles-all (descriptor listen_fd ∷ []) false) λ epoll_fd.
      if_both P (not a.epoll_ctl_works) _ _
        (record { ended = (false, refl); freed = (inr (inl refl), tt); released = (inl refl, tt) })
        (record { ended = (true, refl); freed = (inl refl, tt); released = (inr (inl refl), tt) })

-- Whichever call fails, the server's `main` closes what it opened.
pub server_main-Settles : (a : Answers) → Settles [] (server_main a)
unfolding server_main init_server_socket
server_main-Settles a =
    let P : Option ℕ × List Effect → Type 0 = λ r. Settles [] (behind_socket a r) in
    let failed =
      λ (fd : ℕ). Settles-takes (descriptor fd) [] _ (Settles-all (descriptor fd ∷ []) false) in
    Option-both P a.socket _ _ (Settles-all [] false) λ listen_fd.
      if_both P (not a.bind_works) _ _ (failed listen_fd) (
        if_both P (not a.listen_works) _ _ (failed listen_fd)
          (Settles-takes (descriptor listen_fd) [] _ (init_epoll-Settles a listen_fd)))
