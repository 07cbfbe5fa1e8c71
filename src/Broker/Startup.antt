-- ===== src/Broker/Startup.antt =====
-- The queue under its key, and the three programs from `main` on: module3/task02/common.c, main.c, and the
-- beginnings and ends of `run_broker`, `run_publisher` and `run_subscriber`.
use eltex_practice.Base.{
  ℕ, ◌≡◌, refl, ap, ◌∙◌, Bool, true, false, ◌||◌, List, [], ◌∷◌, Option, none, some, ◌>>=◌, Bytes,
  if◌then◌else◌, any, any-append, arith, Bool-cases, Option-cases, inl, inr,
}
use eltex_practice.Broker.{
  Subscriber, Broker, Effect, send, interrupt, remove_queue, Event, received, sigint, sigalrm,
  failed, run_broker, route_loop, route_message, handle_send, parse_send, register_publisher,
  process_incoming_message, shutdown_broker, notify_clients,
}
use eltex_practice.Broker.Protocol.{empty_broker}
use eltex_practice.Broker.Clients.{Typed, run_publisher}
use eltex_practice.Broker.Programs.{
  Received, Run, run_subscriber, select_mode, broker, publisher, subscriber, usage,
}

-- What the system knows: the key that `ftok` makes of the file, the queue that has it, and what a new queue would
-- be, none where `msgget` cannot make one.
pub record Kernel : Type 0 where
  pub key : Option ℕ
  pub queue : Option ℕ
  pub fresh : Option ℕ

-- None where the program exits with failure.
unfoldable pub connect_to_queue : Kernel → Option ℕ
connect_to_queue k = do key ← k.key; k.queue

-- With IPC_EXCL an existing queue is an error.
unfoldable pub create_exclusive_queue : Kernel → Option ℕ × Kernel
create_exclusive_queue k = elim k.key [
  | none ↦ (none, k)
  | some key ↦ elim k.queue [
    | some other ↦ (none, k)
    | none ↦ (k.fresh, record k { queue = k.fresh })
  ]
]

-- What an effect of the broker does to the queue.
abbrev pub removes : Effect → Bool
removes (send pid text) = false
removes (interrupt pid) = false
removes remove_queue = true

abbrev pub after_effects : List Effect → Kernel → Kernel
after_effects es k = if any removes es then record k { queue = none } else k

-- The broker with its queue: what it does, or none where it exits at once, and the system afterwards.
abbrev pub behind_queue : List Event → Option ℕ × Kernel → Option (List Effect) × Kernel
behind_queue events (none, k) = (none, k)
behind_queue events (some msqid, k) =
    let (last, effects) = run_broker events empty_broker in (some effects, after_effects effects k)

unfoldable pub broker_program : Kernel → List Event → Option (List Effect) × Kernel
broker_program k events = behind_queue events (create_exclusive_queue k)

unfoldable pub publisher_program : Kernel → ℕ → Bytes → List Typed → Option (List Bytes)
publisher_program k pid topic lines = do
  msqid ← connect_to_queue k
  some (run_publisher pid topic lines)

unfoldable pub subscriber_program :
    Kernel → ℕ → List Bytes → List Bool → List Received → List Bool → Option Run
subscriber_program k pid topics oks answers still = do
  msqid ← connect_to_queue k
  some (run_subscriber pid topics oks answers still)

-- What the terminal, the queue and the signals give to whichever program runs.
pub record Inputs : Type 0 where
  pub pid : ℕ
  pub events : List Event
  pub lines : List Typed
  pub oks : List Bool
  pub answers : List Received
  pub still : List Bool

-- What `main` comes to: the exit with failure, or what the program does.
pub data Started : Type 0 where
  gives_up : Started
  brokers : List Effect → Kernel → Started
  publishes : List Bytes → Started
  subscribes : Run → Started

abbrev pub started_broker : Option (List Effect) × Kernel → Started
started_broker (none, k) = gives_up
started_broker (some effects, k) = brokers effects k

unfoldable pub main : Kernel → Inputs → List ℕ → List Bytes → Started
main k i opts args = elim (select_mode opts args) [
  | usage ↦ gives_up
  | broker ↦ started_broker (broker_program k i.events)
  | publisher topic ↦ elim (publisher_program k i.pid topic i.lines) [
    | none ↦ gives_up
    | some texts ↦ publishes texts
  ]
  | subscriber topics ↦ elim (subscriber_program k i.pid topics i.oks i.answers i.still) [
    | none ↦ gives_up
    | some run ↦ subscribes run
  ]
]

-- Whether the loop of the broker ends.
abbrev pub ends : List Event → Bool
ends [] = false
ends (received text ∷ es) = ends es
ends (sigint ∷ es) = true
ends (sigalrm ∷ es) = true
ends (failed ∷ es) = true

removes-route_loop :
    (topic text : Bytes) (ss : List Subscriber) → any removes (route_loop topic text ss) ≡ false
unfolding route_loop
removes-route_loop topic text [] = refl
removes-route_loop topic text (s ∷ ss) = ground (arith, removes-route_loop topic text ss)

removes-handle_send : (text : Bytes) (b : Broker) → any removes (handle_send text b).1 ≡ false
unfolding handle_send route_message
removes-handle_send text b = elim (Option-cases (parse_send text)) [
  | inl e ↦ rw (e, handle_send) refl
  | inr ((pid, topic, payload), e) ↦
      rw (e, handle_send) (removes-route_loop topic _ (register_publisher pid b).subscribers)
]

removes-process :
    (text : Bytes) (b : Broker) → any removes (process_incoming_message text b).1 ≡ false
unfolding process_incoming_message
removes-process text b = ground (arith, removes-handle_send text b)

removes-shutdown_broker : (b : Broker) → any removes (shutdown_broker b) ≡ true
unfolding shutdown_broker
removes-shutdown_broker b =
    ground (arith, any-append removes (notify_clients b) (remove_queue ∷ []))

removes-run_broker : (es : List Event) (b : Broker) → any removes (run_broker es b).1 ≡ ends es
unfolding run_broker
removes-run_broker [] b = refl
removes-run_broker (received text ∷ es) b =
    any-append removes (process_incoming_message text b).1 _
    ∙ ap (λ c. c || any removes (run_broker es (process_incoming_message text b).0).1)
        (removes-process text b)
    ∙ removes-run_broker es (process_incoming_message text b).0
removes-run_broker (sigint ∷ es) b = removes-shutdown_broker b
removes-run_broker (sigalrm ∷ es) b = removes-shutdown_broker b
removes-run_broker (failed ∷ es) b = removes-shutdown_broker b

-- A broker that starts where no queue has the key: while its loop goes on its clients reach its queue, and a second
-- broker exits at once and leaves the queue; after a signal or an error the queue is gone, no client
-- can connect, and a new broker can start.
pub broker_program-queue :
    (k : Kernel) (key q : ℕ) (es : List Event)
    → k.key ≡ some key
    → k.queue ≡ none
    → k.fresh ≡ some q
    → let after = (broker_program k es).1 in
      (connect_to_queue after ≡ (if ends es then none else some q))
      × (create_exclusive_queue after
          ≡ (if ends es then some q else none, record k { queue = some q }))
unfolding broker_program create_exclusive_queue connect_to_queue
broker_program-queue k key q es e f g =
    rw (e, f, g, removes-run_broker es empty_broker)
      (elim (Bool-cases (ends es)) [ inl h ↦ rw h (refl, refl) | inr h ↦ rw h (refl, refl) ])
