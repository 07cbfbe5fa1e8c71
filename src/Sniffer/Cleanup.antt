-- ===== src/Sniffer/Cleanup.antt =====
-- What `main` of module3/task08/main.c leaves behind when it ends.
use eltex_practice.Base.{
  ℕ, ◌≡◌, refl, ap, ◌∙◌, Bool, true, false, List, [], ◌∷◌, ◌++◌, none, some, Bytes, ◌==◌,
  if◌then◌else◌, Bool-cases, Option-cases, inl, inr, ◌⊎◌,
}
use eltex_practice.Sniffer.Main.{
  Effect, opens_socket, closes_socket, opens_log, closes_log, fault, Event, packet, recv_error,
  interrupted, log_match, capture, run_sniffer_loop, Setup, init_raw_socket, set_promisc_mode,
  prompt_filter_choice, prompt_port, give_up, run_capture, with_choice, sniffer_main, Left, apply,
  settle, nothing, is_match,
}
use eltex_practice.Sniffer.Parse.{ParsedPacket, parse_udp_packet}
use eltex_practice.Sniffer.Log.{process_and_log_packet}

settle-append : (es fs : List Effect) (l : Left) → settle (es ++ fs) l ≡ settle fs (settle es l)
settle-append [] fs l = refl
settle-append (e ∷ es) fs l = settle-append es fs (apply e l)

module _ (ntoa : Bytes → Bytes) where
  settle-log_match :
      (pkt : ParsedPacket) (elapsed : Bytes) (choice : ℕ) (l : Left)
      → settle (log_match ntoa pkt elapsed choice) l ≡ l
  unfolding log_match
  settle-log_match pkt elapsed choice l =
      elim (Option-cases (process_and_log_packet ntoa pkt elapsed choice)) [
        | inl e ↦ rw (e, log_match) refl
        | inr (a, e) ↦ rw (e, log_match) refl
      ]

  settle-capture :
      (choice port : ℕ) (buffer elapsed : Bytes) (l : Left)
      → settle (capture ntoa choice port buffer elapsed) l ≡ l
  unfolding capture
  settle-capture choice port buffer elapsed l =
      elim (parse_udp_packet buffer)
        as (λ r.
          settle
            (elim r as (λ _. List Effect) [
              | none ↦ fault ∷ []
              | some none ↦ []
              | some (some pkt) ↦
                  if is_match ntoa pkt choice port then log_match ntoa pkt elapsed choice else []
            ])
            l
          ≡ l) [
            | none ↦ refl
            | some none ↦ refl
            | some (some pkt) ↦ elim (Bool-cases (is_match ntoa pkt choice port)) [
              | inl e ↦ rw (e) (settle-log_match pkt elapsed choice l)
              | inr e ↦ rw (e) refl
            ]
          ]

  -- The loop leaves everything as it is.
  settle-run_sniffer_loop :
      (choice port : ℕ) (events : List Event) (l : Left)
      → settle (run_sniffer_loop ntoa choice port events).1 l ≡ l
  unfolding run_sniffer_loop
  settle-run_sniffer_loop choice port [] l = refl
  settle-run_sniffer_loop choice port (interrupted ∷ events) l = refl
  settle-run_sniffer_loop choice port (recv_error ∷ events) l =
      settle-run_sniffer_loop choice port events l
  settle-run_sniffer_loop choice port (packet buffer elapsed ∷ events) l =
      settle-append (capture ntoa choice port buffer elapsed)
        (run_sniffer_loop ntoa choice port events).1 l
      ∙ ap (settle (run_sniffer_loop ntoa choice port events).1)
          (settle-capture choice port buffer elapsed l)
      ∙ settle-run_sniffer_loop choice port events l

  -- The signal ends the loop.
  run_sniffer_loop-interrupted :
      (choice port : ℕ) (events rest : List Event)
      → (run_sniffer_loop ntoa choice port (events ++ interrupted ∷ rest)).0 ≡ true
  unfolding run_sniffer_loop
  run_sniffer_loop-interrupted choice port [] rest = refl
  run_sniffer_loop-interrupted choice port (interrupted ∷ events) rest = refl
  run_sniffer_loop-interrupted choice port (recv_error ∷ events) rest =
      run_sniffer_loop-interrupted choice port events rest
  run_sniffer_loop-interrupted choice port (packet buffer elapsed ∷ events) rest =
      run_sniffer_loop-interrupted choice port events rest

  settle-off :
      (setup : Setup) (l : Left)
      → (setup.if_index == 0) ≡ false
      → setup.promisc_off_works ≡ true
      → settle (set_promisc_mode setup false) l
        ≡ record { socket = l.socket; promiscuous = false; log = l.log }
  unfolding set_promisc_mode
  settle-off setup l i off = rw (i) (rw (off) refl)

  -- What is open when the capture starts.
  abbrev IsStart : Left → Type 0
  IsStart l = (l.socket ≡ true) × (l.log ≡ false)

  -- An end of the program that leaves nothing behind.
  abbrev Clean : Bool × List Effect → Left → Type 0
  Clean run l = (run.0 ≡ true) × (settle run.1 l ≡ nothing)

  give_up-Clean :
      (setup : Setup) (l : Left)
      → (setup.if_index == 0) ≡ false
      → setup.promisc_off_works ≡ true
      → IsStart l
      → Clean (give_up setup) l
  unfolding give_up
  give_up-Clean setup l i off s = (
    refl,
    settle-append (set_promisc_mode setup false) (closes_socket ∷ []) l
        ∙ ap (settle (closes_socket ∷ [])) (settle-off setup l i off)
        ∙ (λ k. record { socket = false; promiscuous = false; log = s.1 k }),
  )

  run_capture-Clean :
      (setup : Setup) (choice port : ℕ) (events rest : List Event) (l : Left)
      → (setup.if_index == 0) ≡ false
      → setup.promisc_off_works ≡ true
      → IsStart l
      → Clean (run_capture ntoa setup choice port (events ++ interrupted ∷ rest)) l
  unfolding run_capture
  run_capture-Clean setup choice port events rest l i off s =
      let all = events ++ interrupted ∷ rest in
      let effects = (run_sniffer_loop ntoa choice port all).1 in
      let close = if setup.fopen_works then closes_log ∷ [] else [] in
      let log = if setup.fopen_works then opens_log ∷ [] else [] in
      let end = set_promisc_mode setup false ++ (closes_socket ∷ close) in
      let opened = settle log l in
      rw (run_sniffer_loop-interrupted choice port events rest) (
        refl,
        settle-append log (effects ++ end) l
            ∙ settle-append effects end opened
            ∙ ap (settle end) (settle-run_sniffer_loop choice port all opened)
            ∙ settle-append (set_promisc_mode setup false) (closes_socket ∷ close) opened
            ∙ ap (settle (closes_socket ∷ close)) (settle-off setup opened i off)
            ∙ elim (Bool-cases setup.fopen_works) [
              | inl f ↦ rw (f) refl
              | inr f ↦ rw (f) (λ k. record { socket = false; promiscuous = false; log = s.1 k })
            ],
      )

  with_choice-Clean :
      (setup : Setup) (events rest : List Event) (l : Left)
      → (setup.if_index == 0) ≡ false
      → setup.promisc_off_works ≡ true
      → IsStart l
      → Clean (with_choice ntoa setup (events ++ interrupted ∷ rest)) l
  unfolding with_choice
  with_choice-Clean setup events rest l i off s = elim (Option-cases (prompt_filter_choice setup)) [
    | inl e ↦ rw (e, with_choice) (give_up-Clean setup l i off s)
    | inr (choice, e) ↦ elim (Option-cases (prompt_port setup choice)) [
      | inl p ↦ rw (e, with_choice) (rw (p) (give_up-Clean setup l i off s))
      | inr (port, p) ↦
          rw (e, with_choice) (rw (p) (run_capture-Clean setup choice port events rest l i off s))
    ]
  ]

  -- Turning promiscuous mode on leaves the socket and the log as they are.
  settle-on :
      (setup : Setup) (l : Left) → IsStart l → IsStart (settle (set_promisc_mode setup true) l)
  unfolding set_promisc_mode
  settle-on setup l s = elim (Bool-cases (setup.if_index == 0)) [
    | inl e ↦ rw (e) s
    | inr e ↦ elim (Bool-cases setup.promisc_on_works) [
      | inl f ↦ rw (e) (rw (f) s)
      | inr f ↦ rw (e) (rw (f) s)
    ]
  ]

  -- Either the socket is open, or everything is closed again.
  init_raw_socket-cases :
      (setup : Setup)
      → (((init_raw_socket setup).0 ≡ false) × (settle (init_raw_socket setup).1 nothing ≡ nothing))
        ⊎ (((setup.if_index == 0) ≡ false) × (init_raw_socket setup ≡ (true, opens_socket ∷ [])))
  unfolding init_raw_socket
  init_raw_socket-cases setup = elim (Bool-cases setup.socket_works) [
    | inl e ↦ elim (Bool-cases (setup.if_index == 0)) [
      | inl f ↦ inl (rw (e) (rw (f) (refl, refl)))
      | inr f ↦ elim (Bool-cases setup.bind_works) [
        | inl g ↦ inr (f, rw (e) (rw (f) (rw (g) refl)))
        | inr g ↦ inl (rw (e) (rw (f) (rw (g) (refl, refl))))
      ]
    ]
    | inr e ↦ inl (rw (e) (refl, refl))
  ]

  -- Whatever fails before the capture, and whatever arrives until the signal, the program ends and leaves
  -- the socket closed, the interface out of promiscuous mode and the log closed, provided that the system
  -- lets it turn promiscuous mode off.
  pub sniffer_main-nothing :
      (setup : Setup) (events rest : List Event)
      → setup.promisc_off_works ≡ true
      → let run = sniffer_main ntoa setup (events ++ interrupted ∷ rest) in
        (run.0 ≡ true) × (settle run.1 nothing ≡ nothing)
  unfolding sniffer_main init_raw_socket with_choice give_up run_capture prompt_port
      prompt_filter_choice set_promisc_mode
  sniffer_main-nothing setup events rest off =
      let on = settle (set_promisc_mode setup true) (settle (opens_socket ∷ []) nothing) in
      let run = with_choice ntoa setup (events ++ interrupted ∷ rest) in
      elim (Bool-cases setup.has_device) [
        | inr d ↦ rw (d, sniffer_main) (refl, refl)
        | inl d ↦ elim (init_raw_socket-cases setup) [
          | inl (f, c) ↦ rw (d, sniffer_main) (rw (f) (refl, c))
          | inr (i, o) ↦
              let clean =
                with_choice-Clean setup events rest on i off (settle-on setup _ (refl, refl)) in
              rw (d, sniffer_main)
                (rw (o) (
                  clean.0,
                  settle-append (set_promisc_mode setup true) run.1
                        (settle (opens_socket ∷ []) nothing)
                      ∙ clean.1,
                ))
        ]
      ]
