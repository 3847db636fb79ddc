-- ===== src/Zephyr/MsgQueue.antt =====
-- A message queue, `struct k_msgq`, that K_MSGQ_DEFINE made for `max_msgs` messages. A message is
-- copied in and out.
use echo_bot.Prelude.{ℕ, ◌≡◌, Option, none, some, List, [], ◌∷◌, ◌++◌, length, ltb, if◌then◌else◌}

pub record MsgQueue (A : Type 0) (max_msgs : ℕ) : Type 1 where
  pub Queue : Type 0
  -- `k_msgq_put(…, K_NO_WAIT)`; the callers do not look at what it returns.
  pub put : Queue → A → Queue
  -- `k_msgq_get(…, K_FOREVER)`; at `none` the thread waits.
  pub get : Queue → Option (A × Queue)
  -- the messages in the queue, oldest first
  pub messages : Queue → List A
  -- A message is queued if there is room, and else it is not.
  pub messages-put :
      (q : Queue) (a : A)
      → messages (put q a)
        ≡ (if ltb (length (messages q)) max_msgs then messages q ++ a ∷ [] else messages q)
  pub get_empty : (q : Queue) → messages q ≡ [] → get q ≡ none
  pub get_oldest :
      (q : Queue) (a : A) (rest : List A)
      → messages q ≡ a ∷ rest
      → (q' : Queue) × (get q ≡ some (a, q')) × (messages q' ≡ rest)
