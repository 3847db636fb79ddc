-- ===== src/UartPeripheralB/Stream/Stretch.antt =====
-- What bytes received and expiries of the timer do to driver and application.
use native.Mathlib.Decide.{dec_lt}
use echo_bot.Prelude.Kept.{Kept}
use echo_bot.UartPeripheralB.Cost.{cost}
use echo_bot.Prelude.{
  inl, inr, ◌⊎◌, ◌<◌, ◌≤◌, List, length, ℕ, ◌+◌, ◌≡◌, refl, sym, ap, ◌∙◌, subst, [], ◌++◌, map,
  map-append, arith, All, All-split,
}
use echo_bot.Zephyr.ItemRing.{ItemRing}
use echo_bot.UartPeripheralB.{Config, UartData, Out}
use echo_bot.UartPeripheralB.Lines.{
  lines, unfinished, answers, answers-append, lines-append, unfinished-append,
}
use echo_bot.UartPeripheralB.Moves.{
  fills, queue, busy, IsSized, Moves, Moves-none, Moves-append, Fits,
}
use echo_bot.UartPeripheralB.Receive.{reply, held, IsValid, Heard}

module _ (ring : ItemRing) (cfg : Config) (stack : List ℕ) (sized : IsSized cfg stack) where
  open ring use {Rb}

  abbrev size : ℕ
  size = cfg.rx_buf_size

  abbrev here : UartData Rb → List ℕ
  here d = held ring cfg stack sized d

  abbrev Valid : UartData Rb → Type 0
  Valid d = IsValid ring cfg stack sized d

  -- The lines of these bytes fit a message.
  abbrev pub Asks : UartData Rb → List ℕ → Type 0
  Asks d bs = All (Fits cfg) (lines cfg.rx_buf_size (held ring cfg stack sized d) bs)

  Asks-parts :
      (d : UartData Rb) (bs cs : List ℕ)
      → Asks d (bs ++ cs)
      → Asks d bs × All (Fits cfg) (lines size (unfinished size (here d) bs) cs)
  Asks-parts d bs cs asked =
      All-split (Fits cfg) (lines size (here d) bs) (lines size (unfinished size (here d) bs) cs)
        (subst (All (Fits cfg)) (lines-append size (here d) bs cs) asked)

  pub Asks-first : (d : UartData Rb) (bs cs : List ℕ) → Asks d (bs ++ cs) → Asks d bs
  Asks-first d bs cs asked = (Asks-parts d bs cs asked).0

  pub Asks-later :
      (d d' : UartData Rb) (bs cs : List ℕ)
      → held ring cfg stack sized d' ≡ unfinished cfg.rx_buf_size (held ring cfg stack sized d) bs
      → Asks d (bs ++ cs)
      → Asks d' cs
  Asks-later d d' bs cs rest asked =
      subst (λ l. All (Fits cfg) (lines size l cs)) (sym rest) (Asks-parts d bs cs asked).1

  -- The bytes `bs` and `k` expiries of the timer took the driver from `d` to `d'`. The replies to
  -- the lines of `bs` were offered to the queue; each answer and each expiry is a release.
  pub record Served (d d' : UartData Rb) (outs : List Out) (bs : List ℕ) (k : ℕ) : Type 0 where
    pub valid : IsValid ring cfg stack sized d'
    pub rest :
        held ring cfg stack sized d' ≡ unfinished cfg.rx_buf_size (held ring cfg stack sized d) bs
    pub moves :
        Moves ring cfg d d' outs
          (map reply (lines cfg.rx_buf_size (held ring cfg stack sized d) bs))
          (answers (lines cfg.rx_buf_size (held ring cfg stack sized d) bs) + k)

  -- What `Served` says in the terms of the queue: the messages handed to the UART and then those
  -- still queued are those queued before and then `accepted` ones, which are replies in order, and
  -- all of them if all had room in the ring from the start.
  pub record Delivers (d d' : UartData Rb) (outs : List Out) (bs : List ℕ) (k : ℕ) : Type 0 where
    pub valid : IsValid ring cfg stack sized d'
    pub rest :
        held ring cfg stack sized d' ≡ unfinished cfg.rx_buf_size (held ring cfg stack sized d) bs
    pub accepted : List (List ℕ)
    pub sent : fills outs ++ queue ring cfg d' ≡ queue ring cfg d ++ accepted
    pub from : Kept accepted (map reply (lines cfg.rx_buf_size (held ring cfg stack sized d) bs))
    pub lossless :
        (ring.capacity
          < cost (queue ring cfg d)
            + cost (map reply (lines cfg.rx_buf_size (held ring cfg stack sized d) bs)))
        ⊎ (accepted ≡ map reply (lines cfg.rx_buf_size (held ring cfg stack sized d) bs))
    pub flow :
        length (fills outs) + busy d.sending_guard
        ≤ answers (lines cfg.rx_buf_size (held ring cfg stack sized d) bs)
          + k
          + busy d'.sending_guard

  pub Delivers-of_Served :
      {d d' : UartData Rb} {outs : List Out} {bs : List ℕ} {k : ℕ}
      → Served d d' outs bs k
      → Delivers d d' outs bs k
  Delivers-of_Served {d} {d'} {outs} {bs} s =
      let asked = map reply (lines size (here d) bs) in
      record {
        valid = s.valid;
        rest = s.rest;
        accepted = s.moves.accepted;
        sent = s.moves.sent;
        from = s.moves.from;
        lossless = elim (dec_lt ring.capacity (cost (queue ring cfg d) + cost asked)) [
          | yes h ↦ inl h
          | no h ↦ inr (s.moves.lossless (omega arith))
        ];
        flow = s.moves.flow;
      }

  pub Served-none : {d : UartData Rb} → Valid d → Served d d [] [] 0
  Served-none {d} v = record { valid = v; rest = refl; moves = Moves-none ring cfg v.goods }

  pub of_Heard :
      {d d' : UartData Rb} {outs : List Out} {bs : List ℕ}
      → Heard ring cfg stack sized d d' outs bs
      → Served d d' outs bs 0
  of_Heard {d} {d'} {outs} {bs} h = record {
    valid = h.valid;
    rest = h.rest;
    moves =
        subst (λ n. Moves ring cfg d d' outs (map reply (lines size (here d) bs)) n) (omega arith)
          h.moves;
  }

  pub Served-append :
      {d d' d'' : UartData Rb} {os ps : List Out} {bs cs : List ℕ} {k l : ℕ}
      → Served d d' os bs k
      → Served d' d'' ps cs l
      → Served d d'' (os ++ ps) (bs ++ cs) (k + l)
  Served-append {d} {d'} {d''} {os} {ps} {bs} {cs} {k} {l} h j =
      let cut : lines size (here d) (bs ++ cs) ≡ lines size (here d) bs ++ lines size (here d') cs =
        lines-append size (here d) bs cs
        ∙ ap (λ x. lines size (here d) bs ++ lines size x cs) (sym h.rest) in
      record {
        valid = j.valid;
        rest =
            j.rest
            ∙ ap (λ x. unfinished size x cs) h.rest
            ∙ sym (unfinished-append size (here d) bs cs);
        moves =
            subst
              (λ asked.
                Moves ring cfg d d'' (os ++ ps) asked
                  (answers (lines size (here d) (bs ++ cs)) + (k + l)))
              (sym (
                ap (map reply) cut
                ∙ map-append reply (lines size (here d) bs) (lines size (here d') cs)))
              (subst
                (λ n.
                  Moves ring cfg d d'' (os ++ ps)
                    (map reply (lines size (here d) bs) ++ map reply (lines size (here d') cs)) n)
                (omega (
                  arith,
                  ap answers cut,
                  answers-append (lines size (here d) bs) (lines size (here d') cs),
                ))
                (Moves-append ring cfg h.moves j.moves));
      }
