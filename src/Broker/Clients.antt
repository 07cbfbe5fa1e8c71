-- ===== src/Broker/Clients.antt =====
-- The two kinds of client: module3/task02/publisher.c and module3/task02/subscriber.c.
-- What the terminal and the queue answer is given as a list, one element for each call.
use eltex_practice.Base.{
  ℕ, Bool, true, false, List, [], ◌∷◌, ◌++◌, Bytes, codes, show, take, ◌==◌, if◌then◌else◌,
}

-- `snprintf` into `mtext[512]` keeps 511 bytes.
unfoldable pub subscribe_text : ℕ → Bytes → Bytes
subscribe_text pid topic = take 511 (codes "subscribe," ++ (show pid ++ (codes "," ++ topic)))

unfoldable pub unsubscribe_text : ℕ → Bytes → Bytes
unsubscribe_text pid topic = take 511 (codes "unsubscribe," ++ (show pid ++ (codes "," ++ topic)))

unfoldable pub publish_text : ℕ → Bytes → Bytes → Bytes
publish_text pid topic line =
    take 511 (codes "send," ++ (show pid ++ (codes "," ++ (topic ++ (codes "," ++ line)))))

-- One call of `fgets` by the publisher, with the outcome of the `msgsnd` that follows a line.
-- `stop` is every null result that ends the loop, `again` the interruption that does not.
pub data Typed : Type 0 where
  typed : Bytes → Bool → Typed
  again stop : Typed

-- `line[strcspn(line, "\n")] = 0`
unfoldable pub cut_newline : Bytes → Bytes
cut_newline [] = []
cut_newline (c ∷ s) = if c == 10 then [] else c ∷ cut_newline s

-- The texts that the publisher hands to `msgsnd`; a failed call is the last.
unfoldable pub run_publisher : ℕ → Bytes → List Typed → List Bytes
run_publisher pid topic [] = []
run_publisher pid topic (again ∷ ts) = run_publisher pid topic ts
run_publisher pid topic (stop ∷ ts) = []
run_publisher pid topic (typed line ok ∷ ts) =
    let rest = run_publisher pid topic ts in
    elim (cut_newline line) [
      | [] ↦ rest
      | c ∷ s ↦ publish_text pid topic (c ∷ s) ∷ (if ok then rest else [])
    ]

-- The subscriptions in the order of the arguments; a failed `msgsnd` ends the process.
unfoldable pub subscribe_all : ℕ → List Bytes → List Bool → List Bytes × Bool
subscribe_all pid [] oks = ([], true)
subscribe_all pid (t ∷ ts) [] = ([], true)
subscribe_all pid (t ∷ ts) (false ∷ oks) = (subscribe_text pid t ∷ [], false)
subscribe_all pid (t ∷ ts) (true ∷ oks) =
    let (sent, alive) = subscribe_all pid ts oks in (subscribe_text pid t ∷ sent, alive)

-- The cancellations on the way out. They stop only where the queue is gone (`false`).
unfoldable pub unsubscribe_all : ℕ → List Bytes → List Bool → List Bytes
unsubscribe_all pid [] oks = []
unsubscribe_all pid (t ∷ ts) [] = []
unsubscribe_all pid (t ∷ ts) (false ∷ oks) = unsubscribe_text pid t ∷ []
unsubscribe_all pid (t ∷ ts) (true ∷ oks) = unsubscribe_text pid t ∷ unsubscribe_all pid ts oks
