-- ===== src/Devices/Netlink.antt =====
-- The kernel module that answers over netlink, and the program that asks it: module5/task5.
use eltex_practice.Base.{
  true, until_nul, ℕ, refl, Bool, false, not, List, [], ◌∷◌, Option, none, some, Bytes, codes, ltb,
  inl, if◌then◌else◌,
}
use eltex_practice.Resources.{
  descriptor, memory, Effect, takes, frees, Released, Settles, if_both, Option-both, Settles-all,
  Settles-takes,
}

abbrev pub kernel_response_msg : Bytes
kernel_response_msg = codes "Hello from kernel"

abbrev pub sizeof_nlmsghdr : ℕ
sizeof_nlmsghdr = 16

-- What arrives: the length of the buffer and the sender in its header; and what the calls answer.
pub record Arrival : Type 0 where
  pub len : ℕ
  pub nlmsg_pid : ℕ
  pub nlmsg_new_works : Bool
  pub nlmsg_put_works : Bool
  pub has_socket : Bool

-- The reply that is handed to `nlmsg_unicast`, with its receiver; and what is taken and given back. The
-- call takes over the buffer, whether it can send it or not.
unfoldable pub hello_nl_recv_msg : Option Arrival → Option (ℕ × Bytes) × List Effect
hello_nl_recv_msg none = (none, [])
hello_nl_recv_msg (some a) =
    if ltb a.len sizeof_nlmsghdr
    then (none, [])
    else if not a.nlmsg_new_works
    then (none, [])
    else if not a.nlmsg_put_works
    then (none, takes memory ∷ frees memory ∷ [])
    else if not a.has_socket
    then (none, takes memory ∷ frees memory ∷ [])
    else (some (a.nlmsg_pid, kernel_response_msg), takes memory ∷ frees memory ∷ [])

-- `nl_sk` behind loading, and whether loading succeeds; and behind unloading.
abbrev pub hello_init : Bool → Bool × Bool
hello_init netlink_kernel_create_works = (netlink_kernel_create_works, netlink_kernel_create_works)

abbrev pub hello_exit : Bool → Bool
hello_exit nl_sk = false

-- On every path the buffer for the reply is given back or handed over.
pub hello_nl_recv_msg-Released : (arrival : Option Arrival) → Released (hello_nl_recv_msg arrival).1
unfolding hello_nl_recv_msg
hello_nl_recv_msg-Released none = tt
hello_nl_recv_msg-Released (some a) =
    let P : Option (ℕ × Bytes) × List Effect → Type 0 = λ r. Released r.1 in
    if_both P (ltb a.len sizeof_nlmsghdr) _ _ tt (
      if_both P (not a.nlmsg_new_works) _ _ tt (
        if_both P (not a.nlmsg_put_works) _ _ (inl refl, tt)
          (if_both P (not a.has_socket) _ _ (inl refl, tt) (inl refl, tt))))

-- The program that talks to the module, nl_user.c: which of its calls work, and the message that it gets.
pub record User : Type 0 where
  pub socket : Option ℕ
  pub bind_works : Bool
  pub malloc_works : Bool
  pub sendmsg_works : Bool
  pub received : Option Bytes

abbrev pub user_send_msg : Bytes
user_send_msg = codes "Hello"

-- Whether it succeeds with the text that it prints, and the effects; `received` is none for an error.
unfoldable pub user_main : User → (Option Bool × Option Bytes) × List Effect
user_main u = elim u.socket [
  | none ↦ ((some false, none), [])
  | some sock_fd ↦
      let closing = frees memory ∷ frees (descriptor sock_fd) ∷ [] in
      let failed : (Option Bool × Option Bytes) × List Effect =
        ((some false, none), takes (descriptor sock_fd) ∷ takes memory ∷ closing) in
      if not u.bind_works
      then ((some false, none), takes (descriptor sock_fd) ∷ frees (descriptor sock_fd) ∷ [])
      else if not u.malloc_works
      then ((some false, none), takes (descriptor sock_fd) ∷ frees (descriptor sock_fd) ∷ [])
      else if not u.sendmsg_works
      then failed
      else elim u.received [
        | none ↦ failed
        | some payload ↦ (
          (some true, some (until_nul payload)),
          takes (descriptor sock_fd) ∷ takes memory ∷ closing,
        )
      ]
]

-- Whatever fails, the program closes its socket and frees its message.
pub user_main-Settles : (u : User) → Settles [] ((user_main u).0.0, (user_main u).1)
unfolding user_main
user_main-Settles u =
    let P : (Option Bool × Option Bytes) × List Effect → Type 0 = λ r. Settles [] (r.0.0, r.1) in
    Option-both P u.socket _ _ (record { ended = (false, refl); freed = tt; released = tt })
      λ sock_fd.
        let closed =
          Settles-takes (descriptor sock_fd) [] _ (Settles-all (descriptor sock_fd ∷ []) false) in
        let all = λ (ok : Bool). Settles-takes (descriptor sock_fd) [] _ (
          Settles-takes memory (descriptor sock_fd ∷ []) _
            (Settles-all (memory ∷ descriptor sock_fd ∷ []) ok)) in
        if_both P (not u.bind_works) _ _ closed (
          if_both P (not u.malloc_works) _ _ closed (
            if_both P (not u.sendmsg_works) _ _ (all false)
              (Option-both P u.received _ _ (all false) λ payload. all true)))
