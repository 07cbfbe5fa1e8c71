-- ===== src/RawUdp/Echo.antt =====
-- From the packets of module3/task09/utils.c through server_logic.c and back to client_logic.c.
use eltex_practice.Base.{
  ==_refl, word, long, take-append, until_nul_whole, ℕ, zero, suc, ◌+◌, ◌-◌, ◌*◌, ◌%◌, ◌/◌, ◌^◌,
  ◌≤◌, ◌<◌, ◌≡◌, refl, ap, ◌∙◌, false, List, [], ◌∷◌, ◌++◌, Option, none, some, arith, length,
  length-append, ltb, Bytes, str_eq, show, length-show, Free, Free-show, replicate,
}
use eltex_practice.RawUdp.Packet.{udp_length, build_udp_packet}
use eltex_practice.RawUdp.Clients.{
  ClientRecord, count_message, count_of, max_clients, count_message_lem, next_count-small,
}
use eltex_practice.Resources.{if_both}
use eltex_practice.RawUdp.Server.{
  reply, payload_str, response, respond, send_raw_reply, process_incoming_packet,
  wait_for_server_reply, show_int, show_int-small, ip_header, shutdown_msg, buffer_size,
}

-- A frame that carries a packet made by `build_udp_packet`, and what follows it in the buffer.
abbrev pub frame : ℕ → ℕ → ℕ → ℕ → Bytes → Bytes → Bytes
frame saddr daddr src_port dest_port text behind =
    ip_header saddr daddr (build_udp_packet saddr daddr src_port dest_port text ++ behind)

payload_str-frame :
    (saddr daddr src_port dest_port : ℕ) (text behind : Bytes)
    → Free 0 text
    → length text ≤ 60000
    → payload_str (frame saddr daddr src_port dest_port text behind) ≡ some text
unfolding payload_str build_udp_packet
payload_str-frame saddr daddr src_port dest_port text behind f h =
    let u : udp_length text / 256 % 256 * 256 + udp_length text % 256 ≡ 8 + length text =
      omega arith in
    let v : ltb (8 + length text) 8 ≡ false = ground arith in
    let w : ltb buffer_size (20 + (8 + length text)) ≡ false = ground arith in
    let n : 8 + length text - 8 ≡ length text = omega arith in
    rw (u) (rw (v, w, n) (ap some (rw (take-append text behind) (until_nul_whole text f))))

pub process-frame :
    (saddr daddr src_port server_port : ℕ) (text behind : Bytes) (db : List ClientRecord)
    → saddr < 2 ^ 32
    → daddr < 2 ^ 32
    → src_port < 65536
    → server_port < 65536
    → Free 0 text
    → length text ≤ 60000
    → process_incoming_packet server_port (frame saddr daddr src_port server_port text behind) db
      ≡ respond server_port saddr daddr src_port text db
unfolding process_incoming_packet build_udp_packet
process-frame saddr daddr src_port server_port text behind db a b p q f h =
    let t = payload_str-frame saddr daddr src_port server_port text behind f h in
    rw (t, word src_port p, word server_port q, long saddr a, long daddr b, ==_refl server_port)
      refl

length-show_int : (n : ℕ) → length (show_int n) ≤ 11
unfolding show_int
length-show_int n =
    if_both (λ s. length s ≤ 11) (ltb n (2 ^ 31)) (show n) (45 ∷ show (2 ^ 32 - n))
      (omega (arith, length-show n)) (omega (arith, length-show (2 ^ 32 - n)))

pub respond-message :
    (server_port saddr daddr src_port n : ℕ) (text : Bytes) (db : List ClientRecord)
    → str_eq text shutdown_msg ≡ false
    → length text ≤ 60000
    → (count_message saddr src_port db).0 ≡ n
    → respond server_port saddr daddr src_port text db ≡ (
      reply (build_udp_packet daddr saddr server_port src_port (response text n)),
      (count_message saddr src_port db).1,
    )
unfolding respond send_raw_reply
respond-message server_port saddr daddr src_port n text db s h c =
    let short : ltb buffer_size (8 + length (response text n)) ≡ false =
      ground (arith, length-append text (32 ∷ show_int n), length-show_int n) in
    rw (s, c) (rw (short) refl)

-- The server answers a message with its text and the count that the table held plus one, from its port
-- to the client's, and counts it. The text is not the shutdown notice, has no zero byte and at most 60000
-- bytes; the addresses and ports are in range, the table has a free entry, and the new count is below 2^31.
pub process-build_udp_packet :
    (saddr daddr src_port server_port : ℕ) (text behind : Bytes) (db : List ClientRecord)
    → saddr < 2 ^ 32
    → daddr < 2 ^ 32
    → src_port < 65536
    → server_port < 65536
    → Free 0 text
    → length text ≤ 60000
    → str_eq text shutdown_msg ≡ false
    → length db < max_clients
    → count_of saddr src_port db + 1 < 2 ^ 31
    → process_incoming_packet server_port (frame saddr daddr src_port server_port text behind) db
      ≡ (
        reply (
            build_udp_packet daddr saddr server_port src_port
              (response text (count_of saddr src_port db + 1))),
        (count_message saddr src_port db).1,
      )
process-build_udp_packet saddr daddr src_port server_port text behind db a b p q f h s room small =
    process-frame saddr daddr src_port server_port text behind db a b p q f h
    ∙ respond-message server_port saddr daddr src_port (count_of saddr src_port db + 1) text db s h
        ((count_message_lem saddr src_port db (λ _. room)).0
          ∙ next_count-small (count_of saddr src_port db) small)

-- The client finds the reply behind timeouts, as long as they are fewer than its retries.
wait_for_server_reply-frame :
    (saddr daddr client_port server_port timeouts retries : ℕ) (text behind : Bytes)
    (later : List (Option Bytes))
    → client_port < 65536
    → server_port < 65536
    → Free 0 text
    → length text ≤ 60000
    → timeouts < retries
    → wait_for_server_reply retries client_port server_port (
        replicate timeouts none
        ++ some (frame saddr daddr server_port client_port text behind) ∷ later)
      ≡ some (some text)
unfolding wait_for_server_reply build_udp_packet
wait_for_server_reply-frame s d c v zero zero text behind later p q f h t = ground arith
wait_for_server_reply-frame s d c v zero (suc retries) text behind later p q f h t =
    let e = payload_str-frame s d v c text behind f h in
    rw (e, word v q, word c p, ==_refl c, ==_refl v) refl
wait_for_server_reply-frame s d c v (suc n) zero text behind later p q f h t = ground arith
wait_for_server_reply-frame s d c v (suc n) (suc retries) text behind later p q f h t =
    wait_for_server_reply-frame s d c v n retries text behind later p q f h (omega arith)

Free-append : (c : ℕ) (s t : Bytes) → Free c s → Free c t → Free c (s ++ t)
Free-append c [] t h k = k
Free-append c (x ∷ s) t h k = (h.0, Free-append c s t h.1 k)

Free-show_int : (n : ℕ) → Free 0 (show_int n)
unfolding show_int
Free-show_int n =
    if_both (Free 0) (ltb n (2 ^ 31)) _ _ (Free-show n 0 refl) (refl, Free-show (2 ^ 32 - n) 0 refl)

Free-response : (text : Bytes) (n : ℕ) → Free 0 text → Free 0 (response text n)
Free-response text n h = Free-append 0 text (32 ∷ show_int n) h (refl, Free-show_int n)

length-response : (text : Bytes) (n : ℕ) → length (response text n) ≤ length text + 12
length-response text n = ground (arith, length-append text (32 ∷ show_int n), length-show_int n)

-- A message of the client comes back to it as its text and the count that the server's table held for it
-- plus one, behind at most four timeouts. The addresses and ports are in range, the text is not the
-- shutdown notice, has no zero byte and at most 59000 bytes, the table has a free entry, and the new count
-- is below 2^31, so that the `int` does not overflow.
pub process-wait_for_server_reply :
    (saddr daddr client_port server_port timeouts : ℕ) (text behind rest : Bytes)
    (later : List (Option Bytes)) (db : List ClientRecord)
    → saddr < 2 ^ 32
    → daddr < 2 ^ 32
    → client_port < 65536
    → server_port < 65536
    → Free 0 text
    → length text ≤ 59000
    → str_eq text shutdown_msg ≡ false
    → length db < max_clients
    → count_of saddr client_port db + 1 < 2 ^ 31
    → timeouts ≤ 4
    → (packet : Bytes) × ((process_incoming_packet server_port
          (frame saddr daddr client_port server_port text behind)
          db).0
        ≡ reply packet)
      × (wait_for_server_reply 5 client_port server_port
            (replicate timeouts none ++ some (ip_header daddr saddr (packet ++ rest)) ∷ later)
          ≡ some (some (text ++ 32 ∷ show (count_of saddr client_port db + 1))))
process-wait_for_server_reply saddr daddr c v n text behind rest later db a b p q f h s room small
      t =
    let count = count_of saddr c db + 1 in
    let answer = response text count in
    (
      build_udp_packet daddr saddr v c answer,
      ap (λ r. r.0)
          (process-build_udp_packet saddr daddr c v text behind db a b p q f (omega arith) s room
            small),
      wait_for_server_reply-frame daddr saddr c v n 5 answer rest later p q
            (Free-response text count f) (omega (arith, length-response text count)) (omega arith)
          ∙ ap (λ d. some (some (text ++ 32 ∷ d))) (show_int-small count small),
    )
