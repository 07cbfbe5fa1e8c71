-- ===== src/RawUdp/Room.antt =====
-- Which clients are in the table of module3/task09/server_logic.c, and the room for those that are not.
use eltex_practice.Base.{
  ℕ, zero, suc, ◌+◌, ◌≤◌, ◌<◌, ◌≡◌, refl, ap, sym, Bool, true, false, ◌&&◌, ◌||◌, List, [], ◌∷◌,
  ◌++◌, none, arith, length, length-append, ◌==◌, if◌then◌else◌, Bool-cases, Option-cases, inl, inr,
}
use eltex_practice.RawUdp.Clients.{
  ClientRecord, max_clients, is_client, find_client, increment, reset_client, count_message,
  find_or_create_client-found, count_message-some, count_message-new, next_count,
}
use eltex_practice.RawUdp.Loop.{length-increment, length-reset_client}

-- Addresses and ports.
abbrev pub Clients : Type 0
Clients = List (ℕ × ℕ)

abbrev pub is_listed : ℕ → ℕ → Clients → Bool
is_listed ip port [] = false
is_listed ip port ((p, q) ∷ cs) = ((ip == p) && (port == q)) || is_listed ip port cs

abbrev pub known : ℕ → ℕ → List ClientRecord → Bool
known p q [] = false
known p q (c ∷ db) = is_client p q c || known p q db

-- How many of the clients are not in the table.
abbrev pub absent : Clients → List ClientRecord → ℕ
absent [] db = 0
absent ((p, q) ∷ cs) db = if known p q db then absent cs db else suc (absent cs db)

-- There is an entry for every client.
abbrev pub HasRoom : Clients → List ClientRecord → Type 0
HasRoom cs db = length db + absent cs db ≤ max_clients

known-increment : (i p q : ℕ) (db : List ClientRecord) → known p q (increment i db).1 ≡ known p q db
unfolding increment
known-increment zero p q [] = refl
known-increment (suc i) p q [] = refl
known-increment zero p q (c ∷ db) = refl
known-increment (suc i) p q (c ∷ db) = ap (λ b. is_client p q c || b) (known-increment i p q db)

known-reset_client :
    (ip port p q : ℕ) (db : List ClientRecord) → known p q (reset_client ip port db) ≡ known p q db
unfolding reset_client
known-reset_client ip port p q [] = refl
known-reset_client ip port p q (c ∷ db) = elim (Bool-cases (is_client ip port c)) [
  | inl t ↦ rw (t) refl
  | inr t ↦ rw (t) (ap (λ b. is_client p q c || b) (known-reset_client ip port p q db))
]

known-append :
    (p q ip port n : ℕ) (db : List ClientRecord)
    → known p q (db ++ record { ip = ip; port = port; message_count = n } ∷ [])
      ≡ (known p q db || ((ip == p) && (port == q)))
known-append p q ip port n [] = ground arith
known-append p q ip port n (c ∷ db) = ground (arith, known-append p q ip port n db)

known_of-absent :
    (ip port : ℕ) (db : List ClientRecord)
    → find_client ip port db ≡ none
    → known ip port db ≡ false
unfolding find_client
known_of-absent ip port [] e = refl
known_of-absent ip port (c ∷ db) e = ground (arith, known_of-absent ip port db)

-- The same clients are absent where the same clients are known.
absent-same :
    (cs : Clients) (db db' : List ClientRecord)
    → ((p q : ℕ) → known p q db' ≡ known p q db)
    → absent cs db' ≡ absent cs db
absent-same [] db db' h = refl
absent-same ((p, q) ∷ cs) db db' h = rw (h p q, absent-same cs db db' h) refl

module _ (ip port n : ℕ) (db : List ClientRecord) where
  abbrev grown : List ClientRecord
  grown = db ++ record { ip = ip; port = port; message_count = n } ∷ []

  absent-grown : (cs : Clients) → absent cs grown ≤ absent cs db
  absent-grown [] = omega arith
  absent-grown ((p, q) ∷ cs) = ground (arith, known-append p q ip port n db, absent-grown cs)

  -- A client that is added is no longer absent.
  absent-added :
      (cs : Clients)
      → known ip port db ≡ false
      → is_listed ip port cs ≡ true
      → absent cs grown + 1 ≤ absent cs db
  absent-added [] new l = ground arith
  absent-added ((p, q) ∷ cs) new l = elim (Bool-cases ((ip == p) && (port == q))) [
    | inl t ↦
        (let ep : ip ≡ p = ground arith in
          let eq : port ≡ q = ground arith in
          let here : known p q grown ≡ true = ground (arith, known-append p q ip port n db) in
          let away : known p q db ≡ false = rw (sym ep, sym eq) new in
          rw (here, away) (omega (arith, absent-grown cs)))
    | inr t ↦
        (let rest : absent cs grown + 1 ≤ absent cs db = absent-added cs new (ground arith) in
          let kept : known p q grown ≡ known p q db =
            ground (arith, known-append p q ip port n db) in
          ground arith)
  ]

-- Counting a message of a listed client keeps the room, and finds it.
pub count_message-HasRoom :
    (cs : Clients) (ip port : ℕ) (db : List ClientRecord)
    → is_listed ip port cs ≡ true
    → HasRoom cs db
    → (find_client ip port db ≡ none → length db < max_clients)
      × HasRoom cs (count_message ip port db).1
count_message-HasRoom cs ip port db l h = (
  room,
  elim (Option-cases (find_client ip port db)) [
    | inr (i, e) ↦
        rw (count_message-some ip port i db db (find_or_create_client-found ip port i db e)) (
          omega (
            arith,
            h,
            length-increment i db,
            absent-same cs db (increment i db).1 (λ p q. known-increment i p q db),
          ))
    | inl e ↦
        (let added : List ClientRecord =
            record { ip = ip; port = port; message_count = next_count 0 } ∷ [] in
          rw (count_message-new ip port db e (room e)) (
            omega (
              arith,
              h,
              length-append db added,
              absent-added ip port (next_count 0) db cs (known_of-absent ip port db e) l,
            )))
  ],
)
  where
    room : find_client ip port db ≡ none → length db < max_clients
    room e = omega (arith, h, absent-added ip port 0 db cs (known_of-absent ip port db e) l)

pub reset_client-HasRoom :
    (cs : Clients) (ip port : ℕ) (db : List ClientRecord)
    → HasRoom cs db
    → HasRoom cs (reset_client ip port db)
reset_client-HasRoom cs ip port db h = omega (
  arith,
  h,
  length-reset_client ip port db,
  absent-same cs db (reset_client ip port db) (λ p q. known-reset_client ip port p q db),
)
