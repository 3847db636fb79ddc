-- ===== src/UartPeripheral/Receive/Byte.antt =====
-- One byte received, on each branch.
use echo_bot.Prelude.{
  false, ℕ, ◌<◌, ◌≡◌, ◌≢◌, refl, sym, ap, ◌∙◌, inl, inr, Bool, true, some, List, [], ◌∷◌, ◌++◌,
  append-nil, arith, ◌==◌, Bool-cases, ok, length, set, take, length-set, length-take,
  length-append, length-replicate, store_ok, take-set, IsText, IsText-append, add_size, sub_size,
  subst,
}
use echo_bot.UartPeripheral.{Config, UartData, Call, cleared, call_if, rx_byte}
use echo_bot.UartPeripheral.Receive.Pieces.{held, IsValid, Shape, Handled}
use echo_bot.UartPeripheral.Receive.Split.{split, rest, split_string, split_full, split_more}

module _ {cfg : Config} (f : ℕ) {d : UartData} (v : IsValid cfg d) (c : ℕ) where
  abbrev filled : List ℕ
  filled = set d.rx_buf d.rx_data_len c

  abbrev grown : ℕ
  grown = add_size d.rx_data_len 1

  abbrev emptied : UartData
  emptied = record d { rx_buf = cleared filled; rx_data_len = 0 }

  held-filled : take grown filled ≡ held d ++ c ∷ []
  held-filled =
      ap (λ n. take n filled) (omega arith) ∙ take-set d.rx_buf d.rx_data_len c (omega arith)

  emptied-IsValid : IsValid cfg emptied
  emptied-IsValid = record {
    size = length-replicate (length filled) 0 ∙ length-set d.rx_buf d.rx_data_len c ∙ v.size;
    within = omega arith;
    fits = v.fits;
    text = tt;
  }

  -- The buffer is handed over, as a string or as a fragment.
  flushed :
      (is_string : Bool)
      → Shape cfg is_string (held d ++ c ∷ [])
      → (split cfg.rx_buf_size (held d) (c ∷ []) ≡ (is_string, held d ++ c ∷ []) ∷ [])
        × (rest cfg.rx_buf_size (held d) (c ∷ []) ≡ [])
      → Handled cfg f d emptied (call_if (some f) filled grown is_string d.user_data) (c ∷ [])
  flushed is_string shape cut = record {
    valid = emptied-IsValid;
    same_str = refl;
    same_callback = refl;
    same_data = refl;
    frames = (
      record {
        to = refl;
        with_data = refl;
        inside = omega (arith, length-set d.rx_buf d.rx_data_len c);
        shape = subst (Shape cfg is_string) (sym held-filled) shape;
      },
      tt,
    );
    stream = append-nil (take grown filled ++ []) ∙ append-nil (take grown filled) ∙ held-filled;
    pieces = ap (λ p. (is_string, p) ∷ []) held-filled ∙ sym cut.0;
    left = sym cut.1;
  }

  length-grown : length (held d ++ c ∷ []) ≡ grown
  length-grown = omega (arith, length-append (held d) (c ∷ []), length-take d.rx_data_len d.rx_buf)

  kept :
      (c == 0) ≡ false
      → grown < cfg.rx_buf_size
      → Handled cfg f d (record d { rx_buf = filled; rx_data_len = grown }) [] (c ∷ [])
  kept nz more =
      let cut = split_more cfg.rx_buf_size (held d) c nz (omega (arith, length-grown)) in
      record {
        valid = record {
          size = length-set d.rx_buf d.rx_data_len c ∙ v.size;
          within = more;
          fits = v.fits;
          text =
              subst IsText (sym held-filled)
                (IsText-append (held d) (c ∷ []) v.text (ground arith));
        };
        same_str = refl;
        same_callback = refl;
        same_data = refl;
        frames = tt;
        stream = held-filled;
        pieces = sym cut.0;
        left = held-filled ∙ sym cut.1;
      }

  last_of_full : c ≢ 0 → grown ≡ cfg.rx_buf_size → Shape cfg false (held d ++ c ∷ [])
  last_of_full nz full = (
    IsText-append (held d) (c ∷ []) v.text (omega arith),
    omega (arith, length-append (held d) (c ∷ []), length-take d.rx_data_len d.rx_buf, full),
  )

  pub rx_byte-Handled :
      (d' : UartData) × (calls : List Call) × (rx_byte cfg (some f) d c ≡ ok (d', calls))
      × Handled cfg f d d' calls (c ∷ [])
  unfolding rx_byte
  rx_byte-Handled =
      rw (store_ok d.rx_buf d.rx_data_len c (omega arith)) (elim (Bool-cases (c == 0)) [
        | inl z ↦ rw z (
          emptied,
          _,
          refl,
          flushed true (held d, v.text, ap (λ x. held d ++ x ∷ []) (ground arith))
              (split_string cfg.rx_buf_size (held d) c z),
        )
        | inr nz ↦ rw nz (elim (Bool-cases (sub_size cfg.rx_buf_size grown == 0)) [
          | inl full ↦
              let whole : grown ≡ cfg.rx_buf_size = ground arith in
              rw full (
                emptied,
                _,
                refl,
                flushed false (last_of_full (ground arith) whole)
                    (split_full cfg.rx_buf_size (held d) c nz (length-grown ∙ whole)),
              )
          | inr more ↦ rw more (_, _, refl, kept nz (ground arith))
        ])
      ])
