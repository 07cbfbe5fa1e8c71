-- ===== src/UdpChat/Delivery.antt =====
-- From the packet that one program of the group sends to the line that another prints: module3/task06.
use eltex_practice.Base.{
  ℕ, ◌<◌, ◌≡◌, refl, ap, ap₂, ◌∙◌, false, true, [], ◌∷◌, ◌++◌, Option, none, some, Bytes, arith,
  length, length-append, take, drop, take_of_le, ◌==◌, if◌then◌else◌, ◌^◌, length-copy_string, long,
  append_assoc, length-field, take-array, drop-array, Fits, ended_at-copy_string,
}
use eltex_practice.UdpChat.Packet.{
  ChatPacket, build_packet, packet_of, packet_bytes, sizeof_packet, max_nick_len, max_text_len,
  msg_join, msg_chat, msg_leave, text_field,
}
use eltex_practice.UdpChat.Chat.{joined, said, left, prompt, show_packet, handle_incoming_packet}

-- What every packet of the programs has.
pub record IsPacket (p : ChatPacket) : Type 0 where
  pub kind : p.kind < 2 ^ 32
  pub pid : p.pid < 2 ^ 32
  pub nickname : length p.nickname ≡ max_nick_len
  pub text : length p.text ≡ max_text_len

pub length-packet_bytes : (p : ChatPacket) → IsPacket p → length (packet_bytes p) ≡ sizeof_packet
length-packet_bytes p v = omega (arith, v.nickname, v.text, length-append p.nickname p.text)

-- The bytes of a packet are read back, whatever stands behind them.
pub packet_of-packet_bytes :
    (p : ChatPacket) (rest : Bytes) → IsPacket p → packet_of (packet_bytes p ++ rest) ≡ p
unfolding packet_of
packet_of-packet_bytes p rest v =
    let body : (p.nickname ++ p.text) ++ rest ≡ p.nickname ++ (p.text ++ rest) =
      append_assoc p.nickname p.text rest in
    let nick : take max_nick_len ((p.nickname ++ p.text) ++ rest) ≡ p.nickname =
      ap (take max_nick_len) body
      ∙ take-array max_nick_len p.nickname (p.text ++ rest) v.nickname in
    let text : take max_text_len (drop max_nick_len ((p.nickname ++ p.text) ++ rest)) ≡ p.text =
      ap (λ t. take max_text_len (drop max_nick_len t)) body
      ∙ ap (take max_text_len) (drop-array max_nick_len p.nickname (p.text ++ rest) v.nickname)
      ∙ take-array max_text_len p.text rest v.text in
    λ i. record {
      kind = long p.kind v.kind i;
      pid = long p.pid v.pid i;
      nickname = nick i;
      text = text i;
    }

length-text_field : (text : Option Bytes) → length (text_field text) ≡ max_text_len
length-text_field none = length-field max_text_len [] (omega arith)
length-text_field (some text) = length-copy_string 511 text

pub build_packet-IsPacket :
    (pid kind : ℕ) (nickname : Bytes) (text : Option Bytes)
    → pid < 2 ^ 32
    → kind < 2 ^ 32
    → IsPacket (build_packet pid kind nickname text)
unfolding build_packet
build_packet-IsPacket pid kind nickname text h k = record {
  kind = k;
  pid = h;
  nickname = length-copy_string 31 nickname;
  text = length-text_field text;
}

-- A whole datagram is the packet, whatever the memory held before.
handle-packet_bytes :
    (me : ℕ) (stack : Bytes) (p : ChatPacket)
    → IsPacket p
    → handle_incoming_packet me stack (some (packet_bytes p))
      ≡ (if p.pid == me then [] else show_packet p)
unfolding handle_incoming_packet
handle-packet_bytes me stack p v =
    let whole : take sizeof_packet (packet_bytes p) ≡ packet_bytes p =
      take_of_le sizeof_packet (packet_bytes p) (omega (arith, length-packet_bytes p v)) in
    ap
      (λ t.
        let q = packet_of (t ++ drop (length (packet_bytes p)) stack) in
        if q.pid == me then [] else show_packet q)
      whole
    ∙ ap (λ q. if q.pid == me then [] else show_packet q)
        (packet_of-packet_bytes p (drop (length (packet_bytes p)) stack) v)

-- What one program of the group sends, another prints: a text under the sender's nickname, and that the
-- sender came or went, with its pid. The sender itself prints nothing for any of the three. Nickname and text fit their arrays,
-- and the pids are 32-bit values.
pub handle-build_packet :
    (pid me : ℕ) (stack nickname text : Bytes)
    → pid < 2 ^ 32
    → Fits max_nick_len nickname
    → Fits max_text_len text
    → (pid == me) ≡ false
    → (handle_incoming_packet me stack
          (some (packet_bytes (build_packet pid msg_chat nickname (some text))))
        ≡ said nickname text ∷ prompt ∷ [])
      × (handle_incoming_packet me stack
            (some (packet_bytes (build_packet pid msg_join nickname none)))
          ≡ joined nickname pid ∷ prompt ∷ [])
      × (handle_incoming_packet me stack
            (some (packet_bytes (build_packet pid msg_leave nickname none)))
          ≡ left nickname pid ∷ prompt ∷ [])
      × (handle_incoming_packet pid stack
            (some (packet_bytes (build_packet pid msg_chat nickname (some text))))
          ≡ [])
      × (handle_incoming_packet pid stack
            (some (packet_bytes (build_packet pid msg_join nickname none)))
          ≡ [])
      × (handle_incoming_packet pid stack
            (some (packet_bytes (build_packet pid msg_leave nickname none)))
          ≡ [])
unfolding build_packet show_packet
handle-build_packet pid me stack nickname text h n t other =
    let v =
      λ (k : ℕ) (o : Option Bytes) (b : k < 2 ^ 32). build_packet-IsPacket pid k nickname o h b in
    let nick = ended_at-copy_string max_nick_len nickname n in
    let body = ended_at-copy_string max_text_len text t in
    let self : (pid == pid) ≡ true = ground arith in
    (
      handle-packet_bytes me stack (build_packet pid msg_chat nickname (some text))
            (v msg_chat (some text) (omega arith))
          ∙ rw (other) (ap₂ (λ a b. said a b ∷ prompt ∷ []) nick body),
      handle-packet_bytes me stack (build_packet pid msg_join nickname none)
            (v msg_join none (omega arith))
          ∙ rw (other) (ap (λ a. joined a pid ∷ prompt ∷ []) nick),
      handle-packet_bytes me stack (build_packet pid msg_leave nickname none)
            (v msg_leave none (omega arith))
          ∙ rw (other) (ap (λ a. left a pid ∷ prompt ∷ []) nick),
      handle-packet_bytes pid stack (build_packet pid msg_chat nickname (some text))
            (v msg_chat (some text) (omega arith))
          ∙ rw (self) refl,
      handle-packet_bytes pid stack (build_packet pid msg_join nickname none)
            (v msg_join none (omega arith))
          ∙ rw (self) refl,
      handle-packet_bytes pid stack (build_packet pid msg_leave nickname none)
            (v msg_leave none (omega arith))
          ∙ rw (self) refl,
    )
