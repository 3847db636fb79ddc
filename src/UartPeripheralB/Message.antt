-- ===== src/UartPeripheralB/Message.antt =====
-- One message: how `user_send_data` packs it into an item, and how `uart_int_handler` unpacks it.
use native.Mathlib.Decide.{dec_lt}
use echo_bot.Prelude.{
  ℕ, ◌+◌, ◌-◌, ◌*◌, ◌/◌, ◌≤◌, ◌<◌, ◌≡◌, refl, ap, ◌∙◌, true, false, Option, none, some, List, [],
  ◌∷◌, ◌++◌, arith, ok, length, take, drop, length-append, length-take, length-drop, take-append,
  take-append_long, take-take, read_ok, copy_in_ok, u8, add_size, sub_size, lt→ltb, sym, ltb,
}
use echo_bot.Prelude.Text.{codes}
use echo_bot.Zephyr.ItemRing.{ItemRing, Item}
use echo_bot.UartPeripheralB.{
  Config, UartData, uart_irq_tx_enable, uart_fifo_fill, k_timer_start, build_user_send_data,
  user_send_data, transmit,
}

not_less : (a b : ℕ) → b ≤ a → ltb a b ≡ false
not_less a b h = ground arith

-- The bytes of the item that are sent.
abbrev pub payload : Item → List ℕ
payload it = take (sub_size (it.size32 * 4) it.value) it.bytes

-- What a message of `len` bytes at `src` becomes on the wire.
abbrev pub message : List ℕ → ℕ → List ℕ
message src len = codes "SEND:" ++ take len src

pub record GoodItem (cfg : Config) (it : Item) : Type 0 where
  pub fits : it.size32 ≤ cfg.tx_buf_words
  pub whole : length it.bytes ≡ it.size32 * 4
  pub spare : it.value ≤ it.size32 * 4
  -- No more words than the message needs, and its spare byte.
  pub tight : it.size32 ≡ length (payload it) / 4 + 1

-- The local arrays hold `tx_buf_words` words, which a byte can count.
pub record IsStack (cfg : Config) (stack : List ℕ) : Type 0 where
  pub size : length stack ≡ cfg.tx_buf_words * 4
  pub countable : cfg.tx_buf_words < 256

module _ (cfg : Config) (stack src : List ℕ) (len : ℕ) (st : IsStack cfg stack)
    (there : len ≤ length src) where
  abbrev pub text : List ℕ
  text = take len src

  abbrev pub headed : List ℕ
  headed = codes "SEND:" ++ drop 5 stack

  abbrev pub built : List ℕ
  built = codes "SEND:" ++ (text ++ drop (5 + length text) headed)

  pub length-text : length text ≡ len
  length-text = omega (arith, length-take len src)

  pub length-headed : 5 ≤ cfg.tx_buf_words * 4 → length headed ≡ cfg.tx_buf_words * 4
  length-headed h = omega (arith, length-drop 5 stack, st.size)

  pub length-built : len + 5 ≤ cfg.tx_buf_words * 4 → length built ≡ cfg.tx_buf_words * 4
  length-built h = omega (
    arith,
    length-headed (omega arith),
    length-text,
    length-append text (drop (5 + length text) headed),
    length-drop (5 + length text) headed,
  )

  pub build_ok :
      len + 5 ≤ cfg.tx_buf_words * 4
      → build_user_send_data stack src len ≡ ok (built, add_size len 5)
  unfolding build_user_send_data
  build_ok h = rw (
    copy_in_ok stack 0 (codes "SEND:") (omega (arith, st.size)),
    read_ok src len there,
    copy_in_ok headed 5 text (omega (arith, length-text, length-headed (omega arith))),
  )

  take-built : take (len + 5) built ≡ message src len
  take-built =
      ap (λ n. take n built) {y = length (message src len)}
        (omega (arith, length-text, length-append (codes "SEND:") text))
      ∙ take-append (message src len) (drop (5 + length text) headed)

  -- The words of the item: one more than fill up, so that at least one byte is spare.
  abbrev words : ℕ
  words = (len + 5) / 4 + 1

  abbrev pub packed : Item
  packed = record {
    kind = 0;
    value = words * 4 - (len + 5);
    size32 = words;
    bytes = take (words * 4) built;
  }

  module _ (room : len + 5 < cfg.tx_buf_words * 4) where
    -- If the message is there, and with its header leaves a byte of the array spare, what is unpacked
    -- from the item is what was packed into it: "SEND:" and the message.
    pub payload-packed : payload packed ≡ message src len
    payload-packed =
        ap (λ n. take n (take (words * 4) built)) (omega (arith, st.countable))
        ∙ take-take (len + 5) (words * 4) built (omega arith)
        ∙ take-built

    pub packed-GoodItem : GoodItem cfg packed
    packed-GoodItem = record {
      fits = omega arith;
      whole = omega (arith, length-take (words * 4) built, length-built (omega arith));
      spare = omega arith;
      tight =
          omega (arith, ap length payload-packed, length-text, length-append (codes "SEND:") text);
    }

    size_eq : add_size len 5 ≡ len + 5
    size_eq = omega (arith, st.countable)

    words_eq : u8 ((len + 5) / 4 + 1) ≡ words
    words_eq = omega (arith, st.countable)

    value_eq : u8 (sub_size (words * 4) (len + 5)) ≡ words * 4 - (len + 5)
    value_eq = omega (arith, st.countable)

    module _ (ring : ItemRing) (d : UartData ring.Rb) where
      -- `user_send_data` offers the packed item to the ring.
      pub offered :
          (answer : Option ring.Rb)
          → ring.item_put d.tx_rb packed ≡ answer
          → user_send_data ring cfg stack d src len ≡ elim answer [
            | none ↦ ok (d, [])
            | some rb ↦ ok (record d { tx_rb = rb }, uart_irq_tx_enable ∷ [])
          ]
      unfolding user_send_data
      offered answer e = elim (dec_lt words (ring.space d.tx_rb)) [
        | yes fits ↦ rw (
          build_ok (omega arith),
          size_eq,
          words_eq,
          value_eq,
          lt→ltb words (ring.space d.tx_rb) fits,
          read_ok built (words * 4) (omega (arith, length-built (omega arith))),
          e,
        )
        | no full ↦
            rw
              (
                build_ok (omega arith),
                size_eq,
                words_eq,
                not_less words (ring.space d.tx_rb) (omega arith),
              )
              (ap
                (λ answer. elim answer [
                  | none ↦ ok (d, [])
                  | some rb ↦ ok (record d { tx_rb = rb }, uart_irq_tx_enable ∷ [])
                ])
                (sym (ring.put_full d.tx_rb packed (omega arith)) ∙ e))
      ]

-- If the message is there, and with its header leaves a byte of the array spare, sending it faults on
-- nothing: it offers the ring one well-formed item, from which "SEND:" and the message are unpacked.
-- The transmit interrupt is enabled if the ring takes the item, and nothing changes if it does not.
pub user_send_data_lem :
    (ring : ItemRing) (cfg : Config) (stack src : List ℕ) (len : ℕ) (d : UartData ring.Rb)
    → IsStack cfg stack
    → len ≤ length src
    → len + 5 < cfg.tx_buf_words * 4
    → (it : Item) × (user_send_data ring cfg stack d src len ≡ elim (ring.item_put d.tx_rb it) [
      | none ↦ ok (d, [])
      | some rb ↦ ok (record d { tx_rb = rb }, uart_irq_tx_enable ∷ [])
    ])
      × GoodItem cfg it
      × (payload it ≡ message src len)
user_send_data_lem ring cfg stack src len d st there room = (
  packed cfg stack src len st there,
  offered cfg stack src len st there room ring d
      (ring.item_put d.tx_rb (packed cfg stack src len st there)) refl,
  packed-GoodItem cfg stack src len st there room,
  payload-packed cfg stack src len st there room,
)

-- With the guard down and a well-formed item at the head of the queue: the item goes out whole and
-- leaves the queue, the guard goes up, and the timer starts with 5000 ms.
pub transmit_lem :
    (ring : ItemRing) (cfg : Config) (stack : List ℕ) (d : UartData ring.Rb) (it : Item)
    (rest : List Item)
    → IsStack cfg stack
    → d.sending_guard ≡ false
    → ring.items d.tx_rb ≡ it ∷ rest
    → GoodItem cfg it
    → (rb : ring.Rb) × (transmit ring cfg stack d
        ≡ ok (
          record d { tx_rb = rb; sending_guard = true },
          uart_fifo_fill (payload it) ∷ k_timer_start 5000 ∷ [],
        ))
      × (ring.items rb ≡ rest)
unfolding transmit
transmit_lem ring cfg stack d it rest st down oldest good =
    let (rb, e, left) =
      ring.get_fits d.tx_rb (u8 cfg.tx_buf_words) it rest oldest
        (omega (arith, st.countable, good.fits)) in
    let n = sub_size (it.size32 * 4) it.value in
    let behind = drop (0 + length it.bytes) stack in
    let inside : length it.bytes ≤ length stack = omega (arith, st.size, good.whole, good.fits) in
    let short : n ≤ length it.bytes =
      omega (arith, st.countable, good.whole, good.fits, good.spare) in
    (
      rb,
      rw (
        down,
        e,
        copy_in_ok stack 0 it.bytes (omega arith),
        read_ok (it.bytes ++ behind) n (omega (arith, length-append it.bytes behind)),
        take-append_long n it.bytes behind short,
      ),
      left,
    )
