-- ===== src/UartPeripheralB/Receive/Stored.antt =====
-- One byte stored in the receive buffer, before the line is looked at.
use echo_bot.Prelude.{
  ==_iff, ◌^◌, ℕ, ◌+◌, ◌<◌, ◌≡◌, refl, sym, ap, ◌∙◌, subst, Bool, true, false, List, [], ◌∷◌, ◌++◌,
  map, append-nil, arith, ◌==◌, length, set, take, length-set, length-replicate, length-take,
  length-append, take-set, add_size, sub_size,
}
use echo_bot.Zephyr.ItemRing.{ItemRing}
use echo_bot.UartPeripheralB.{Config, UartData, Out, cleared}
use echo_bot.UartPeripheralB.Lines.{lines, answers}
use echo_bot.Prelude.Kept.{Kept}
use echo_bot.UartPeripheralB.Moves.{IsSized, queue, Goods, Moves}
use echo_bot.UartPeripheralB.Receive.{reply, held, IsValid}

module _ (ring : ItemRing) (cfg : Config) (stack : List ℕ) (sized : IsSized cfg stack) where
  open ring use {Rb}

  module _ {d : UartData Rb} (v : IsValid ring cfg stack sized d) (c : ℕ) where
    abbrev pub filled : UartData Rb
    filled = record d {
      rx_buf = set d.rx_buf d.rx_data_len c;
      rx_data_len = add_size d.rx_data_len 1;
    }

    pub held-filled : held ring cfg stack sized filled ≡ held ring cfg stack sized d ++ c ∷ []
    held-filled =
        ap (λ n. take n filled.rx_buf) {y = d.rx_data_len + 1}
          (omega (arith, sized.size_fits, v.within))
        ∙ take-set d.rx_buf d.rx_data_len c (omega (arith, v.size, v.within))

    pub size-filled : length filled.rx_buf ≡ cfg.rx_buf_size
    size-filled = length-set d.rx_buf d.rx_data_len c ∙ v.size

    pub count : length (held ring cfg stack sized d ++ c ∷ []) ≡ d.rx_data_len + 1
    count = omega (
      arith,
      length-append (held ring cfg stack sized d) (c ∷ []),
      length-take d.rx_data_len d.rx_buf,
      v.within,
      v.size,
    )

    pub bounds : d.rx_data_len + 1 < 2 ^ 32
    bounds = omega (arith, sized.size_fits, v.within)

    pub spare_eq :
        (sub_size cfg.rx_buf_size (add_size d.rx_data_len 1) == 0) ≡ true
        → d.rx_data_len + 1 ≡ cfg.rx_buf_size
    spare_eq full = omega (
      arith,
      (==_iff (sub_size cfg.rx_buf_size (add_size d.rx_data_len 1)) 0).0 full,
      v.within,
      sized.size_fits,
    )

    pub spare_lt :
        (sub_size cfg.rx_buf_size (add_size d.rx_data_len 1) == 0) ≡ false
        → d.rx_data_len + 1 < cfg.rx_buf_size
    spare_lt more = ground (arith, bounds, v.within, sized.size_fits)

    -- The queue and the guard are those of `d` when the byte has been stored.
    pub of_filled :
        (d' : UartData Rb) (outs : List Out) (ls : List (List ℕ))
        → lines cfg.rx_buf_size (held ring cfg stack sized d) (c ∷ []) ≡ ls
        → Moves ring cfg filled d' outs (map reply ls) (answers ls)
        → Moves ring cfg d d' outs
            (map reply (lines cfg.rx_buf_size (held ring cfg stack sized d) (c ∷ [])))
            (answers (lines cfg.rx_buf_size (held ring cfg stack sized d) (c ∷ [])))
    of_filled d' outs ls e m =
        subst (λ ls. Moves ring cfg d d' outs (map reply ls) (answers ls)) (sym e)
          (record {
            goods = m.goods;
            same_callback = m.same_callback;
            flow = m.flow;
            lowers = m.lowers;
            accepted = m.accepted;
            from = m.from;
            sent = m.sent;
            lossless = m.lossless;
            wakes =
                λ on timed a. m.wakes on timed (record { stirs = a.stirs; guarded = a.guarded });
          })

    -- Only the receive buffer differs.
    pub unmoved :
        (buf : List ℕ) (len : ℕ)
        → Moves ring cfg filled (record d { rx_buf = buf; rx_data_len = len }) [] [] 0
    unmoved buf len = record {
      goods = v.goods;
      same_callback = refl;
      flow = omega arith;
      lowers = omega arith;
      accepted = [];
      from = Kept.nothing;
      sent = sym (append-nil (queue ring cfg d));
      lossless = λ enough. refl;
      wakes = λ on timed a. record { stirs = a.stirs; guarded = a.guarded };
    }

    pub length-cleared : length (cleared filled.rx_buf) ≡ cfg.rx_buf_size
    length-cleared = length-replicate (length filled.rx_buf) 0 ∙ size-filled

    pub emptied-IsValid :
        {rb : Rb} {guard : Bool}
        → Goods ring cfg (record d { tx_rb = rb })
        → IsValid ring cfg stack sized (record d {
          rx_buf = cleared filled.rx_buf;
          rx_data_len = 0;
          tx_rb = rb;
          sending_guard = guard;
        })
    emptied-IsValid g = record {
      size = length-cleared;
      within = omega (arith, v.within);
      registered = v.registered;
      goods = g;
    }
