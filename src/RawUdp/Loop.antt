-- ===== src/RawUdp/Loop.antt =====
-- The loop of the echo server: module3/task09/server_main.c.
use eltex_practice.Base.{
  ℕ, zero, suc, ◌≤◌, ◌≡◌, refl, ap, List, [], ◌∷◌, Option, none, some, Bytes, arith, length,
  length-append, ltb, str_eq, Bool-cases, Option-cases, inl, inr, ◌&&◌, ◌==◌, le32_at,
}
use eltex_practice.Resources.{if_both, Option-both}
use eltex_practice.RawUdp.Clients.{
  ClientRecord, max_clients, is_client, find_client, find_or_create_client, increment, reset_client,
  count_message,
}
use eltex_practice.RawUdp.Server.{
  Reaction, process_incoming_packet, respond, payload_str, is_udp, dest_port_of, src_port_of,
  shutdown_msg,
}

-- `recvfrom` gives none for an error. The server never ends by itself.
unfoldable pub server_loop :
    ℕ → List (Option Bytes) → List ClientRecord → List Reaction × List ClientRecord
server_loop server_port [] db = ([], db)
server_loop server_port (none ∷ frames) db = server_loop server_port frames db
server_loop server_port (some buffer ∷ frames) db =
    let (reaction, db') = process_incoming_packet server_port buffer db in
    let (reactions, last) = server_loop server_port frames db' in (reaction ∷ reactions, last)

-- `init_client_db`
abbrev pub init_client_db : List ClientRecord
init_client_db = []

abbrev Fitting {ℓ} : {A : Type ℓ} → A × List ClientRecord → Type 0
Fitting r = length r.1 ≤ max_clients

pub length-increment : (i : ℕ) (db : List ClientRecord) → length (increment i db).1 ≡ length db
unfolding increment
length-increment zero [] = refl
length-increment (suc i) [] = refl
length-increment zero (c ∷ db) = refl
length-increment (suc i) (c ∷ db) = ap suc (length-increment i db)

pub length-reset_client :
    (ip port : ℕ) (db : List ClientRecord) → length (reset_client ip port db) ≡ length db
unfolding reset_client
length-reset_client ip port [] = refl
length-reset_client ip port (c ∷ db) = elim (Bool-cases (is_client ip port c)) [
  | inl e ↦ rw (e) refl
  | inr e ↦ rw (e) (ap suc (length-reset_client ip port db))
]

find_or_create_client-Fitting :
    (ip port : ℕ) (db : List ClientRecord)
    → length db ≤ max_clients
    → Fitting (find_or_create_client ip port db)
unfolding find_or_create_client
find_or_create_client-Fitting ip port db h = elim (Option-cases (find_client ip port db)) [
  | inr (i, e) ↦ rw (e, find_or_create_client) h
  | inl e ↦ elim (Bool-cases (ltb (length db) max_clients)) [
    | inl t ↦
        rw (e, find_or_create_client)
          (rw (t) (
            ground (
              arith,
              length-append {A = ClientRecord} db
                  (record { ip = ip; port = port; message_count = 0 } ∷ []),
            )))
    | inr t ↦ rw (e, find_or_create_client) (rw (t) h)
  ]
]

count_message-Fitting :
    (ip port : ℕ) (db : List ClientRecord)
    → length db ≤ max_clients
    → Fitting (count_message ip port db)
unfolding count_message
count_message-Fitting ip port db h =
    let fits = find_or_create_client-Fitting ip port db h in
    let db' = (find_or_create_client ip port db).1 in
    Option-both Fitting (find_or_create_client ip port db).0 _ _ fits
      λ i. omega (arith, length-increment i db', fits)

process-Fitting :
    (server_port : ℕ) (buffer : Bytes) (db : List ClientRecord)
    → length db ≤ max_clients
    → Fitting (process_incoming_packet server_port buffer db)
unfolding process_incoming_packet respond
process-Fitting server_port buffer db h =
    if_both Fitting (is_udp buffer && (dest_port_of buffer == server_port)) _ _
      (Option-both Fitting (payload_str buffer) _ _ h λ text.
        if_both Fitting (str_eq text shutdown_msg) _ _
          (omega (arith, length-reset_client (le32_at 12 buffer) (src_port_of buffer) db))
          (count_message-Fitting (le32_at 12 buffer) (src_port_of buffer) db h))
      h

-- Whatever frames arrive, the table of clients stays within its 128 entries.
pub server_loop-Fitting :
    (server_port : ℕ) (frames : List (Option Bytes)) (db : List ClientRecord)
    → length db ≤ max_clients
    → Fitting (server_loop server_port frames db)
unfolding server_loop
server_loop-Fitting server_port [] db h = h
server_loop-Fitting server_port (none ∷ frames) db h = server_loop-Fitting server_port frames db h
server_loop-Fitting server_port (some buffer ∷ frames) db h =
    server_loop-Fitting server_port frames (process_incoming_packet server_port buffer db).1
      (process-Fitting server_port buffer db h)
