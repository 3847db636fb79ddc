-- ===== src/EchoBot/Lines.antt =====
-- `serial_cb` against the lines that were typed: no buffer, and no bound on a line.
use echo_bot.Prelude.{
  ℕ, ◌+◌, ◌≤◌, ◌<◌, min, ◌≡◌, refl, ap, ◌∙◌, sym, inl, inr, ◌&&◌, List, [], ◌∷◌, ◌++◌, map, arith,
  ltb, if◌then◌else◌, Bool-cases, ltb→lt, ok, length, set, take, length-set, length-append,
  length-map, map-append, store_ok, until_nul, c_string, take-set, c_string-set, take-append_short,
  take-append_long, take_all,
}
use echo_bot.Zephyr.MsgQueue.{MsgQueue}
use echo_bot.EchoBot.{
  Serial, msg_size, max_msgs, is_line_end, end_line, keep_byte, serial_byte, serial_bytes,
}

-- The unfinished line, and the texts that wait for the thread.
pub record Console : Type 0 where
  pub line : List ℕ
  pub queued : List (List ℕ)

-- What of a line reaches the thread: 31 bytes at most, up to a NUL.
abbrev pub sent : List ℕ → List ℕ
sent line = until_nul (take 31 line)

-- Ten texts at most wait; the next is dropped.
abbrev pub offer : List (List ℕ) → List ℕ → List (List ℕ)
offer queued t = if ltb (length queued) max_msgs then queued ++ t ∷ [] else queued

-- A line is not empty: its first byte is taken for text even if it is a line end.
unfoldable pub type_byte : Console → ℕ → Console
type_byte k c =
    if is_line_end c && ltb 0 (length k.line)
    then record { line = []; queued = offer k.queued (sent k.line) }
    else record k { line = k.line ++ c ∷ [] }

unfoldable pub type_bytes : Console → List ℕ → Console
type_bytes k [] = k
type_bytes k (c ∷ cs) = type_bytes (type_byte k c) cs

module _ (mq : MsgQueue (List ℕ) max_msgs) where
  open mq use {Queue, put, messages, messages-put}

  -- The static variables hold the console's state.
  pub record Tracks (s : Serial Queue) (k : Console) : Type 0 where
    pub size : length s.rx_buf ≡ msg_size
    pub pos : s.rx_buf_pos ≡ min (length k.line) 31
    pub held : take s.rx_buf_pos s.rx_buf ≡ take 31 k.line
    pub queue : map c_string (messages s.uart_msgq) ≡ map ok k.queued

  length-queued :
      (q : Queue) (queued : List (List ℕ))
      → map c_string (messages q) ≡ map ok queued
      → length (messages q) ≡ length queued
  length-queued q queued h =
      sym (length-map (messages q) c_string) ∙ ap length h ∙ length-map queued ok

  put-offer :
      (q : Queue) (queued : List (List ℕ)) (m t : List ℕ)
      → map c_string (messages q) ≡ map ok queued
      → c_string m ≡ ok t
      → map c_string (messages (put q m)) ≡ map ok (offer queued t)
  put-offer q queued m t h e =
      rw (messages-put q m, length-queued q queued h)
        (elim (Bool-cases (ltb (length queued) max_msgs)) [
          | inl room ↦ rw (room, map-append c_string (messages q), map-append ok queued, h, e)
          | inr full ↦ rw full h
        ])

  -- A line end behind a line that is not empty.
  end_line-Tracks :
      {s : Serial Queue} {k : Console}
      → Tracks s k
      → 0 < length k.line
      → (s' : Serial Queue) × (end_line mq s ≡ ok s')
        × Tracks s' (record { line = []; queued = offer k.queued (sent k.line) })
  unfolding end_line
  end_line-Tracks {s} {k} v h = (
    record {
      rx_buf = set s.rx_buf s.rx_buf_pos 0;
      rx_buf_pos = 0;
      uart_msgq = put s.uart_msgq (set s.rx_buf s.rx_buf_pos 0);
    },
    rw (store_ok s.rx_buf s.rx_buf_pos 0 (omega arith)),
    record {
      size = length-set s.rx_buf s.rx_buf_pos 0 ∙ v.size;
      pos = omega arith;
      held = refl;
      queue =
          put-offer s.uart_msgq k.queued (set s.rx_buf s.rx_buf_pos 0) (sent k.line) v.queue
            (c_string-set s.rx_buf s.rx_buf_pos (omega arith) ∙ ap (λ l. ok (until_nul l)) v.held);
    },
  )

  keep_byte-Tracks :
      {s : Serial Queue} {k : Console} (c : ℕ)
      → Tracks s k
      → s.rx_buf_pos < 31
      → (s' : Serial Queue) × (keep_byte mq s c ≡ ok s')
        × Tracks s' (record k { line = k.line ++ c ∷ [] })
  unfolding keep_byte
  keep_byte-Tracks {s} {k} c v h = (
    record s { rx_buf = set s.rx_buf s.rx_buf_pos c; rx_buf_pos = s.rx_buf_pos + 1 },
    rw (store_ok s.rx_buf s.rx_buf_pos c (omega arith)),
    record {
      size = length-set s.rx_buf s.rx_buf_pos c ∙ v.size;
      pos = omega (arith, length-append k.line (c ∷ []), v.pos);
      held =
          take-set s.rx_buf s.rx_buf_pos c (omega arith)
          ∙ ap (λ l. l ++ c ∷ []) (v.held ∙ take_all 31 k.line (omega arith))
          ∙ sym (take-append_short 31 k.line (c ∷ []) (omega arith));
      queue = v.queue;
    },
  )

  -- A byte beyond the 31st is dropped.
  drop_byte-Tracks :
      {s : Serial Queue} {k : Console} (c : ℕ)
      → Tracks s k
      → 31 ≤ s.rx_buf_pos
      → Tracks s (record k { line = k.line ++ c ∷ [] })
  drop_byte-Tracks {s} {k} c v h = record {
    size = v.size;
    pos = omega (arith, length-append k.line (c ∷ []), v.pos);
    held = v.held ∙ sym (take-append_long 31 k.line (c ∷ []) (omega arith));
    queue = v.queue;
  }

  pub serial_byte-Tracks :
      {s : Serial Queue} {k : Console} (c : ℕ)
      → Tracks s k
      → (s' : Serial Queue) × (serial_byte mq s c ≡ ok s') × Tracks s' (type_byte k c)
  unfolding serial_byte type_byte
  serial_byte-Tracks {s} {k} c v =
      rw started (elim (Bool-cases (is_line_end c && ltb 0 (length k.line))) [
        | inl t ↦ rw t (end_line-Tracks v (ground arith))
        | inr f ↦ rw f (elim (Bool-cases (ltb s.rx_buf_pos 31)) [
          | inl room ↦ rw room (keep_byte-Tracks c v (ltb→lt s.rx_buf_pos 31 room))
          | inr full ↦ rw full (s, refl, drop_byte-Tracks c v (ground arith))
        ])
      ])
    where
      started : ltb 0 s.rx_buf_pos ≡ ltb 0 (length k.line)
      started = ground arith

  -- No byte makes `serial_cb` leave its buffer, and the variables go on holding the console's state.
  pub serial_bytes-Tracks :
      (cs : List ℕ) {s : Serial Queue} {k : Console}
      → Tracks s k
      → (s' : Serial Queue) × (serial_bytes mq s cs ≡ ok s') × Tracks s' (type_bytes k cs)
  unfolding serial_bytes type_bytes
  serial_bytes-Tracks [] {s} v = (s, refl, v)
  serial_bytes-Tracks (c ∷ cs) v =
      let (s', e, v') = serial_byte-Tracks c v in rw e (serial_bytes-Tracks cs v')
