-- ===== src/MessageApp/Delivery.antt =====
-- Messages in, reports out.
use echo_bot.Prelude.{
  copy_in-replicate, padding, ℕ, ◌-◌, ◌≤◌, ◌<◌, ◌≡◌, refl, sym, ap, ◌∙◌, ◌⊎◌, inl, inr, Bool-cases,
  false, some, List, [], ◌∷◌, ◌++◌, map, map-append, append-nil, take-length, length, length-map,
  length-take, All, All-append, arith, ltb, lt→ltb, if◌then◌else◌, replicate, ok, fault,
  out_of_bounds, ◌>>=◌, read_ok, until_nul, c_string, c_string-append, c_string_fault, IsText, take,
}
use echo_bot.Zephyr.MsgQueue.{MsgQueue}
use echo_bot.MessageApp.{
  msg_body_size, max_msgs, DataItem, Report, recv_app, Event, send, turn, send_app, take_message,
  thread_turn, run,
}

-- The item that holds a message's bytes, and NULs behind them.
abbrev pub packed : List ℕ → ℕ → ℕ → DataItem
packed src size kind = record {
  size = size;
  kind = kind;
  bytes = take size src ++ replicate (msg_body_size - size) 0;
}

abbrev pub report_of : List ℕ → ℕ → ℕ → Report
report_of src size kind = record { size = size; kind = kind; text = until_nul (take size src) }

not_longer : (size : ℕ) → size ≤ 64 → ltb 64 size ≡ false
not_longer size h = ground arith

module _ (mq : MsgQueue DataItem max_msgs) where
  open mq use {Queue, put, get, messages, messages-put, get_empty, get_oldest}

  send_app_ok :
      (q : Queue) (src : List ℕ) (size kind : ℕ)
      → size ≤ length src
      → size ≤ msg_body_size
      → send_app mq q src size kind ≡ ok (put q (packed src size kind))
  unfolding send_app
  send_app_ok q src size kind h k =
      rw (not_longer size k, read_ok src size h)
        (ap (λ r. r >>= λ bytes. ok (put q (record { size = size; kind = kind; bytes = bytes })))
          (copy_in-replicate (take size src) size 64 (omega (arith, length-take size src)) k))

  send_app_dropped :
      (q : Queue) (src : List ℕ) (size kind : ℕ)
      → msg_body_size < size
      → send_app mq q src size kind ≡ ok q
  unfolding send_app
  send_app_dropped q src size kind h = rw (lt→ltb msg_body_size size h) refl

  recv_app_ok :
      (src : List ℕ) (size kind : ℕ)
      → size ≤ length src
      → size < msg_body_size
      → recv_app (packed src size kind).bytes size kind ≡ ok (report_of src size kind)
  unfolding recv_app
  recv_app_ok src size kind h k =
      ap
        (λ t. c_string (take size src ++ t) >>= λ text.
          ok (record { size = size; kind = kind; text = text }))
        (padding (64 - size) (omega arith))
      ∙ rw (c_string-append (take size src) (replicate (64 - size - 1) 0)) refl

-- What the callers and the thread do, without bytes in an array: each message waits whole.
pub record Message : Type 0 where
  pub src : List ℕ
  pub size : ℕ
  pub kind : ℕ

abbrev pub waits : List Message → Message → List Message
waits ps p =
    if ltb msg_body_size p.size then ps else if ltb (length ps) max_msgs then ps ++ p ∷ [] else ps

-- The reports of a course of events: a message of more than 64 bytes is dropped, and so is one that
-- finds ten messages waiting; each turn reports the oldest message that waits, up to its first NUL.
abbrev pub reports : List Message → List Event → List Report
reports ps [] = []
reports ps (send src size kind ∷ es) =
    reports (waits ps (record { src = src; size = size; kind = kind })) es
reports [] (turn ∷ es) = reports [] es
reports (p ∷ ps) (turn ∷ es) = report_of p.src p.size p.kind ∷ reports ps es

-- Calls of `send_app` on that many bytes, and not on exactly 64.
abbrev pub IsFine : Event → Type 0
IsFine (send src size kind) = (size ≤ length src) × (size < msg_body_size) ⊎ (msg_body_size < size)
IsFine turn = Unit {0}

abbrev item : Message → DataItem
item p = packed p.src p.size p.kind

abbrev Short : Message → Type 0
Short p = (p.size ≤ length p.src) × (p.size < msg_body_size)

module _ (mq : MsgQueue DataItem max_msgs) where
  open mq use {Queue, put, get, messages, messages-put, get_empty, get_oldest}

  record Holds (q : Queue) (ps : List Message) : Type 0 where
    same : messages q ≡ map item ps
    short : All Short ps

  Holds-put :
      (q : Queue) (ps : List Message) (p : Message)
      → Holds q ps
      → Short p
      → Holds (put q (item p)) (waits ps p)
  Holds-put q ps p h s = elim (Bool-cases (ltb (length ps) max_msgs)) [
    | inl room ↦
        rw (not_longer p.size (omega (arith, s.1)), room)
          (record {
            same =
                messages-put q (item p)
                ∙ rw (h.same, length-map ps item, room) (sym (map-append item ps (p ∷ [])));
            short = All-append Short ps (p ∷ []) h.short (s, tt);
          })
    | inr full ↦
        rw (not_longer p.size (omega (arith, s.1)), full)
          (record {
            same = messages-put q (item p) ∙ rw (h.same, length-map ps item, full) refl;
            short = h.short;
          })
  ]

  thread_turn_empty : (q : Queue) → messages q ≡ [] → thread_turn mq q ≡ ok (q, [])
  unfolding thread_turn
  thread_turn_empty q h = ap (take_message mq q) (get_empty q h)

  thread_turn_message :
      (q q' : Queue) (p : Message)
      → get q ≡ some (item p, q')
      → Short p
      → thread_turn mq q ≡ ok (q', report_of p.src p.size p.kind ∷ [])
  unfolding thread_turn
  thread_turn_message q q' p got s =
      ap (take_message mq q) got ∙ rw (recv_app_ok mq p.src p.size p.kind s.0 s.1) refl

  run-Holds :
      (es : List Event) (ps : List Message) (q : Queue)
      → Holds q ps
      → All IsFine es
      → (q' : Queue) × (run mq q es ≡ ok (q', reports ps es))
  unfolding run
  run-Holds [] ps q h fine = (q, refl)
  run-Holds (send src size kind ∷ es) ps q h fine = elim (fine.0) [
    | inl (there, small) ↦
        let (q', e) =
          run-Holds es _ _
            (Holds-put q ps (record { src = src; size = size; kind = kind }) h (there, small))
            fine.1 in
        (q', rw (send_app_ok mq q src size kind there (omega arith)) e)
    | inr long ↦
        let (q', e) = run-Holds es ps q h fine.1 in
        (q', rw (send_app_dropped mq q src size kind long, lt→ltb msg_body_size size long) e)
  ]
  run-Holds (turn ∷ es) [] q h fine =
      let (q', e) = run-Holds es [] q h fine.1 in (q', rw (thread_turn_empty q h.same, e) refl)
  run-Holds (turn ∷ es) (p ∷ ps) q h fine =
      let (q1, got, left) = get_oldest q (item p) (map item ps) h.same in
      let (q', e) = run-Holds es ps q1 (record { same = left; short = h.short.1 }) fine.1 in
      (q', rw (thread_turn_message q q1 p got h.short.0, e) refl)

  -- From an empty queue, over calls of `send_app` and turns of the thread in any order, none of them
  -- with exactly 64 bytes: nothing faults, and the thread reports the messages of up to 63 bytes that
  -- found room, in order, each with its size, its type and its bytes up to the first NUL.
  pub run_delivers :
      (es : List Event) (q : Queue)
      → messages q ≡ []
      → All IsFine es
      → (q' : Queue) × (run mq q es ≡ ok (q', reports [] es))
  run_delivers es q empty fine = run-Holds es [] q (record { same = empty; short = tt }) fine

  -- A message of 64 bytes without a NUL fills the array: it is sent, and when it is printed, `%s`
  -- leaves the array.
  pub send_app-recv_app_full :
      (q : Queue) (src : List ℕ) (kind : ℕ)
      → length src ≡ msg_body_size
      → IsText src
      → (bytes : List ℕ) × (send_app mq q src msg_body_size kind
          ≡ ok (put q (record { size = msg_body_size; kind = kind; bytes = bytes })))
        × (recv_app bytes msg_body_size kind ≡ fault out_of_bounds)
  unfolding recv_app
  send_app-recv_app_full q src kind full text = (
    (packed src 64 kind).bytes,
    send_app_ok mq q src 64 kind (omega arith) (omega arith),
    ap (λ t. recv_app t msg_body_size kind) whole ∙ rw (c_string_fault src text) refl,
  )
    where
      whole : take 64 src ++ [] ≡ src
      whole = append-nil (take 64 src) ∙ take-length 64 src (sym full)
