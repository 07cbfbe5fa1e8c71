-- ===== src/MqChat/Queues.antt =====
-- The two queues of a session, from their names to their removal: `format_queue_names`,
-- `init_chat_queues` and `cleanup_chat_queues` of module3/task03/chat.c.
use eltex_practice.Base.{
  ℕ, Bool, true, false, List, [], ◌∷◌, ◌++◌, Option, none, some, Bytes, codes, take, get_or, ◌==◌,
  if◌then◌else◌,
}
use eltex_practice.Resources.{descriptor, named, Effect, takes, frees}

-- `snprintf` into an array of 128 bytes; the name gets a slash in front where it has none.
unfoldable pub queue_name : Bytes → Bytes → Bytes
queue_name base_name suffix =
    if get_or base_name 0 0 == 47
    then take 127 (base_name ++ suffix)
    else take 127 (47 ∷ (base_name ++ suffix))

abbrev pub q1_name : Bytes → Bytes
q1_name base_name = queue_name base_name (codes "_1")

abbrev pub q2_name : Bytes → Bytes
q2_name base_name = queue_name base_name (codes "_2")

-- What the calls of `mq_open` answer: the two that create, `errno` of the first being EEXIST, and the two
-- that open.
pub record Opening : Type 0 where
  pub create_rx : Option ℕ
  pub eexist : Bool
  pub create_tx : Option ℕ
  pub open_tx : Option ℕ
  pub open_rx : Option ℕ

-- The descriptors of the session; none is -1.
pub record Session : Type 0 where
  pub rx_q : Option ℕ
  pub tx_q : Option ℕ
  pub is_creator : Bool

-- The session, or none for the result -1; and the effects.
abbrev pub create : Opening → Bytes → ℕ → Option Session × List Effect
create o base_name rx =
    let made = takes (named (q1_name base_name)) ∷ takes (descriptor rx) ∷ [] in
    elim o.create_tx [
      | none ↦ (none, made ++ frees (descriptor rx) ∷ frees (named (q1_name base_name)) ∷ [])
      | some tx ↦ (
        some (record { rx_q = some rx; tx_q = some tx; is_creator = true }),
        made ++ takes (named (q2_name base_name)) ∷ takes (descriptor tx) ∷ [],
      )
    ]

abbrev pub join : Opening → Option Session × List Effect
join o = elim o.open_tx [
  | none ↦ (none, [])
  | some tx ↦ elim o.open_rx [
    | none ↦ (none, takes (descriptor tx) ∷ frees (descriptor tx) ∷ [])
    | some rx ↦ (
      some (record { rx_q = some rx; tx_q = some tx; is_creator = false }),
      takes (descriptor tx) ∷ takes (descriptor rx) ∷ [],
    )
  ]
]

unfoldable pub init_chat_queues : Opening → Bytes → Option Session × List Effect
init_chat_queues o base_name = elim o.create_rx [
  | some rx ↦ create o base_name rx
  | none ↦ if o.eexist then join o else (none, [])
]

abbrev pub close_queue : Option ℕ → List Effect
close_queue none = []
close_queue (some q) = frees (descriptor q) ∷ []

unfoldable pub cleanup_chat_queues : Session → Bytes → List Effect
cleanup_chat_queues s base_name =
    close_queue s.rx_q
    ++ (close_queue s.tx_q
        ++ (if s.is_creator
            then frees (named (q1_name base_name)) ∷ frees (named (q2_name base_name)) ∷ []
            else []))
