-- ===== src/RawUdp/Clients.antt =====
-- The table of clients: module3/task09/server_logic.c. `db` is the first `client_count` entries of
-- `client_db`. A counter is an `int`, kept as its 32 bits.
use eltex_practice.Base.{
  ℕ, zero, suc, ◌+◌, ◌<◌, ◌≡◌, refl, ap, ◌%◌, ◌^◌, ◌∙◌, Bool, true, false, ◌&&◌, List, [], ◌∷◌,
  ◌++◌, Option, none, some, arith, length, ltb, ◌==◌, if◌then◌else◌, Bool-cases, Option-cases, inl,
  inr,
}

pub record ClientRecord : Type 0 where
  pub ip : ℕ
  pub port : ℕ
  pub message_count : ℕ

abbrev pub max_clients : ℕ
max_clients = 128

abbrev pub is_client : ℕ → ℕ → ClientRecord → Bool
is_client ip port c = (c.ip == ip) && (c.port == port)

-- The index of the client in the table.
unfoldable pub find_client : ℕ → ℕ → List ClientRecord → Option ℕ
find_client ip port [] = none
find_client ip port (c ∷ cs) =
    if is_client ip port c
    then some 0
    else elim (find_client ip port cs) [ none ↦ none | some i ↦ some (suc i) ]

-- The index, or none for -1, and the table.
unfoldable pub find_or_create_client : ℕ → ℕ → List ClientRecord → Option ℕ × List ClientRecord
find_or_create_client ip port db = elim (find_client ip port db) [
  | some i ↦ (some i, db)
  | none ↦
      (if ltb (length db) max_clients
        then (some (length db), db ++ record { ip = ip; port = port; message_count = 0 } ∷ [])
        else (none, db))
]

-- `message_count++` on the 32 bits of the counter.
unfoldable pub next_count : ℕ → ℕ
next_count n = (n + 1) % 2 ^ 32

pub next_count-small : (n : ℕ) → n + 1 < 2 ^ 31 → next_count n ≡ n + 1
unfolding next_count
next_count-small n h = omega arith

-- `client_db[i].message_count++`, with the new count.
unfoldable pub increment : ℕ → List ClientRecord → ℕ × List ClientRecord
increment i [] = (0, [])
increment zero (c ∷ cs) =
    (next_count c.message_count, record c { message_count = next_count c.message_count } ∷ cs)
increment (suc i) (c ∷ cs) = let (n, ds) = increment i cs in (n, c ∷ ds)

unfoldable pub reset_client : ℕ → ℕ → List ClientRecord → List ClientRecord
reset_client ip port [] = []
reset_client ip port (c ∷ cs) =
    if is_client ip port c then record c { message_count = 0 } ∷ cs else c ∷ reset_client ip port cs

-- A message of the client is counted; the count that the reply carries is 0 for a full table.
unfoldable pub count_message : ℕ → ℕ → List ClientRecord → ℕ × List ClientRecord
count_message ip port db =
    let (index, db') = find_or_create_client ip port db in
    elim index [ none ↦ (0, db') | some i ↦ increment i db' ]

-- What the table holds for a client: 0 where it is not there.
abbrev pub count_of : ℕ → ℕ → List ClientRecord → ℕ
count_of ip port [] = 0
count_of ip port (c ∷ cs) = if is_client ip port c then c.message_count else count_of ip port cs

abbrev pub same : ℕ → ℕ → ℕ → ℕ → Bool
same p q ip port = (p == ip) && (q == port)

-- The search, entry by entry.
find_client-hit :
    (ip port : ℕ) (c : ClientRecord) (cs : List ClientRecord)
    → is_client ip port c ≡ true
    → find_client ip port (c ∷ cs) ≡ some 0
unfolding find_client
find_client-hit ip port c cs t = rw (t) refl

find_client-miss :
    (ip port : ℕ) (c : ClientRecord) (cs : List ClientRecord) (o : Option ℕ)
    → is_client ip port c ≡ false
    → find_client ip port cs ≡ o
    → find_client ip port (c ∷ cs) ≡ elim o [ none ↦ none | some i ↦ some (suc i) ]
unfolding find_client
find_client-miss ip port c cs o f e = rw (f, e) refl

-- What an increment of the entry that was found does to each client's count.
increment-found :
    (ip port i : ℕ) (db : List ClientRecord)
    → find_client ip port db ≡ some i
    → ((increment i db).0 ≡ next_count (count_of ip port db))
      × ((p q : ℕ)
          → count_of p q (increment i db).1
            ≡ (if same p q ip port then next_count (count_of ip port db) else count_of p q db))
unfolding find_client increment
increment-found ip port i [] e = ground arith
increment-found ip port zero (c ∷ cs) e = elim (Bool-cases (is_client ip port c)) [
  | inl t ↦ rw (t) (refl, λ p q. ground arith)
  | inr f ↦ elim (Option-cases (find_client ip port cs)) [
    | inl n ↦ absurd (ground (arith, find_client-miss ip port c cs none f n))
    | inr (j, s) ↦ absurd (ground (arith, find_client-miss ip port c cs (some j) f s))
  ]
]
increment-found ip port (suc i) (c ∷ cs) e = elim (Bool-cases (is_client ip port c)) [
  | inl t ↦ absurd (ground (arith, find_client-hit ip port c cs t))
  | inr f ↦ elim (Option-cases (find_client ip port cs)) [
    | inl n ↦ absurd (ground (arith, find_client-miss ip port c cs none f n))
    | inr (j, s) ↦
        (let r =
            increment-found ip port i cs
              (ground (arith, find_client-miss ip port c cs (some j) f s)) in
          rw (f) (r.0, λ p q. ground (arith, r.1 p q)))
  ]
]

increment-last :
    (c : ClientRecord) (db : List ClientRecord)
    → increment (length db) (db ++ c ∷ []) ≡ (
      next_count c.message_count,
      db ++ record c { message_count = next_count c.message_count } ∷ [],
    )
unfolding increment
increment-last c [] = refl
increment-last c (d ∷ db) = rw (increment-last c db)

count_of-absent :
    (ip port : ℕ) (db : List ClientRecord) → find_client ip port db ≡ none → count_of ip port db ≡ 0
unfolding find_client
count_of-absent ip port [] e = refl
count_of-absent ip port (c ∷ cs) e = ground (arith, count_of-absent ip port cs)

count_of-append :
    (ip port n p q : ℕ) (db : List ClientRecord)
    → find_client ip port db ≡ none
    → count_of p q (db ++ record { ip = ip; port = port; message_count = n } ∷ [])
      ≡ (if same p q ip port then n else count_of p q db)
unfolding find_client
count_of-append ip port n p q [] e = ground arith
count_of-append ip port n p q (c ∷ cs) e = ground (arith, count_of-append ip port n p q cs)

-- The entry that is found, or the entry that is made.
pub find_or_create_client-found :
    (ip port i : ℕ) (db : List ClientRecord)
    → find_client ip port db ≡ some i
    → find_or_create_client ip port db ≡ (some i, db)
unfolding find_or_create_client
find_or_create_client-found ip port i db e = rw (e, find_or_create_client) refl

find_or_create_client-new :
    (ip port : ℕ) (db : List ClientRecord)
    → find_client ip port db ≡ none
    → length db < max_clients
    → find_or_create_client ip port db
      ≡ (some (length db), db ++ record { ip = ip; port = port; message_count = 0 } ∷ [])
unfolding find_or_create_client
find_or_create_client-new ip port db e room =
    let t : ltb (length db) max_clients ≡ true = ground arith in
    rw (e, find_or_create_client) (rw (t) refl)

pub count_message-some :
    (ip port i : ℕ) (db db' : List ClientRecord)
    → find_or_create_client ip port db ≡ (some i, db')
    → count_message ip port db ≡ increment i db'
unfolding count_message
count_message-some ip port i db db' e =
    ap (λ (o, d). elim o as (λ x. ℕ × List ClientRecord) [ none ↦ (0, d) | some j ↦ increment j d ])
      e

pub count_message-new :
    (ip port : ℕ) (db : List ClientRecord)
    → find_client ip port db ≡ none
    → length db < max_clients
    → count_message ip port db
      ≡ (next_count 0, db ++ record { ip = ip; port = port; message_count = next_count 0 } ∷ [])
count_message-new ip port db e room =
    let created =
      count_message-some ip port (length db) db
        (db ++ record { ip = ip; port = port; message_count = 0 } ∷ [])
        (find_or_create_client-new ip port db e room) in
    created ∙ increment-last (record { ip = ip; port = port; message_count = 0 }) db

-- A message adds one to the count of its client and to no other; the reply carries the new count.
-- The table has a free entry for a new client.
pub count_message_lem :
    (ip port : ℕ) (db : List ClientRecord)
    → (find_client ip port db ≡ none → length db < max_clients)
    → ((count_message ip port db).0 ≡ next_count (count_of ip port db))
      × ((p q : ℕ)
          → count_of p q (count_message ip port db).1
            ≡ (if same p q ip port then next_count (count_of ip port db) else count_of p q db))
count_message_lem ip port db room = elim (Option-cases (find_client ip port db)) [
  | inr (i, e) ↦
      rw (count_message-some ip port i db db (find_or_create_client-found ip port i db e))
        (increment-found ip port i db e)
  | inl e ↦
      rw (count_message-new ip port db e (room e), count_of-absent ip port db e)
        (refl, λ p q. count_of-append ip port (next_count 0) p q db e)
]

-- A shutdown notice sets the count of its client to zero and leaves the others.
pub count_of-reset_client :
    (p q ip port : ℕ) (db : List ClientRecord)
    → count_of p q (reset_client ip port db) ≡ (if same p q ip port then 0 else count_of p q db)
unfolding reset_client
count_of-reset_client p q ip port [] = ground arith
count_of-reset_client p q ip port (c ∷ cs) = ground (arith, count_of-reset_client p q ip port cs)
