-- ===== src/Broker/Programs.antt =====
-- The subscriber's run and the choice of the program: module3/task02/subscriber.c and main.c.
use eltex_practice.Base.{
  ℕ, ◌≡◌, refl, ap, Bool, true, false, List, [], ◌∷◌, ◌++◌, map, Option, none, some, Bytes,
  until_nul, ◌==◌, if◌then◌else◌, replicate, length,
}
use eltex_practice.Broker.Clients.{subscribe_text, unsubscribe_text, subscribe_all, unsubscribe_all}

-- One return of `msgrcv`: a message, an error, or the signal, also before the call.
pub data Received : Type 0 where
  message : Bytes → Received
  failed interrupted : Received

-- Whether the loop has ended, whether by the signal, and the messages that it printed.
unfoldable pub receive_loop : List Received → Bool × Bool × List Bytes
receive_loop [] = (false, false, [])
receive_loop (failed ∷ answers) = (true, false, [])
receive_loop (interrupted ∷ answers) = (true, true, [])
receive_loop (message mtext ∷ answers) =
    let (ended, shutdown_flag, shown) = receive_loop answers in
    (ended, shutdown_flag, until_nul mtext ∷ shown)

-- Whether the program has ended, what it sent, and what it printed. `oks` and `still` are the successes of
-- `msgsnd` before and behind the loop.
pub record Run : Type 0 where
  pub ended : Bool
  pub sent : List Bytes
  pub shown : List Bytes

unfoldable pub run_subscriber : ℕ → List Bytes → List Bool → List Received → List Bool → Run
run_subscriber pid topics oks answers still =
    let (subscribed, alive) = subscribe_all pid topics oks in
    let (ended, shutdown_flag, shown) = receive_loop answers in
    if alive
    then record {
      ended = ended;
      sent = subscribed ++ (if shutdown_flag then unsubscribe_all pid topics still else []);
      shown = shown;
    }
    else record { ended = true; sent = subscribed; shown = [] }

-- What `main` starts, or the failure.
pub data Mode : Type 0 where
  broker : Mode
  publisher : Bytes → Mode
  subscriber : List Bytes → Mode
  usage : Mode

-- The flags that `getopt` sets: none for an option that is not known.
unfoldable pub modes : List ℕ → Bool × Bool × Bool → Option (Bool × Bool × Bool)
modes [] flags = some flags
modes (opt ∷ opts) (mode_b, mode_p, mode_s) =
    if opt == 98
    then modes opts (true, mode_p, mode_s)
    else if opt == 112
    then modes opts (mode_b, true, mode_s)
    else if opt == 115
    then modes opts (mode_b, mode_p, true)
    else none

-- `opts` is what `getopt` gives one behind the other, `args` are the arguments from `optind` on.
abbrev pub start : Bool × Bool × Bool → List Bytes → Mode
start (true, false, false) args = broker
start (false, true, false) [] = usage
start (false, true, false) (topic ∷ args) = publisher topic
start (false, false, true) [] = usage
start (false, false, true) (topic ∷ args) = subscriber (topic ∷ args)
start flags args = usage

unfoldable pub select_mode : List ℕ → List Bytes → Mode
select_mode opts args = elim (modes opts (false, false, false)) [
  | none ↦ usage
  | some flags ↦ start flags args
]

subscribe_all-true :
    (pid : ℕ) (topics : List Bytes)
    → subscribe_all pid topics (replicate (length topics) true)
      ≡ (map (subscribe_text pid) topics, true)
unfolding subscribe_all
subscribe_all-true pid [] = refl
subscribe_all-true pid (t ∷ topics) =
    ap (λ r. (subscribe_text pid t ∷ r.0, r.1)) (subscribe_all-true pid topics)

unsubscribe_all-true :
    (pid : ℕ) (topics : List Bytes)
    → unsubscribe_all pid topics (replicate (length topics) true)
      ≡ map (unsubscribe_text pid) topics
unfolding unsubscribe_all
unsubscribe_all-true pid [] = refl
unsubscribe_all-true pid (t ∷ topics) =
    ap (λ r. unsubscribe_text pid t ∷ r) (unsubscribe_all-true pid topics)

receive_loop-interrupted :
    (texts : List Bytes) (more : List Received)
    → receive_loop (map message texts ++ interrupted ∷ more) ≡ (true, true, map until_nul texts)
unfolding receive_loop
receive_loop-interrupted [] more = refl
receive_loop-interrupted (t ∷ texts) more =
    ap (λ r. (r.0, r.1, until_nul t ∷ r.2)) (receive_loop-interrupted texts more)

-- A subscriber whose messages the queue takes, and that the signal ends: it ends, has printed what came, and
-- has cancelled exactly what it had subscribed to, in the same order.
pub run_subscriber-interrupted :
    (pid : ℕ) (topics texts : List Bytes) (more : List Received)
    → let oks = replicate (length topics) true in
      run_subscriber pid topics oks (map message texts ++ interrupted ∷ more) oks ≡ record {
        ended = true;
        sent = map (subscribe_text pid) topics ++ map (unsubscribe_text pid) topics;
        shown = map until_nul texts;
      }
unfolding run_subscriber
run_subscriber-interrupted pid topics texts more =
    rw
      (
        subscribe_all-true pid topics,
        receive_loop-interrupted texts more,
        unsubscribe_all-true pid topics,
      )
      refl
