-- ===== src/Zephyr/ByteRing/Flow.antt =====
-- What passes through a byte ring between two moments.
use echo_bot.Prelude.{
  ℕ, ◌+◌, ◌-◌, ◌≤◌, min, ◌≡◌, refl, sym, ap, ◌∙◌, List, [], ◌++◌, append_assoc, append-nil, arith,
  length, length-append, length-take, take, drop, take-append-drop,
}
use echo_bot.Prelude.Kept.{Kept, nothing, Kept-append, Kept-take, eq_of_Kept}

-- The bytes `offered` came to a ring of `size` bytes that held `before`, the bytes `sent` left it, and
-- `after` stay. Those accepted are bytes offered, in order, at least as many as there was room for at
-- first; the bytes sent and then those that stay are the bytes before and then those accepted.
pub record Flow (size : ℕ) (before after sent offered : List ℕ) : Type 0 where
  pub accepted : List ℕ
  pub from : Kept accepted offered
  pub enough : min (length offered) (size - length before) ≤ length accepted
  pub order : sent ++ after ≡ before ++ accepted

module _ {size : ℕ} where
  pub Flow-none : (before : List ℕ) → Flow size before before [] []
  Flow-none before = record {
    accepted = [];
    from = nothing;
    enough = omega arith;
    order = sym (append-nil before);
  }

  pub Flow-append :
      {a b c sent more offered extra : List ℕ}
      → Flow size a b sent offered
      → Flow size b c more extra
      → Flow size a c (sent ++ more) (offered ++ extra)
  Flow-append {a} {b} {c} {sent} {more} {offered} {extra} h k = record {
    accepted = h.accepted ++ k.accepted;
    from = Kept-append h.from k.from;
    enough = omega (
      arith,
      h.enough,
      k.enough,
      length-append offered extra,
      length-append h.accepted k.accepted,
      ap length h.order,
      length-append sent b,
      length-append a h.accepted,
    );
    order =
        append_assoc sent more c
        ∙ ap (λ t. sent ++ t) k.order
        ∙ sym (append_assoc sent b k.accepted)
        ∙ ap (λ t. t ++ k.accepted) h.order
        ∙ append_assoc a h.accepted k.accepted;
  }

  pub Flow-put :
      (before src : List ℕ) → Flow size before (before ++ take (size - length before) src) [] src
  Flow-put before src = record {
    accepted = take (size - length before) src;
    from = Kept-take (size - length before) src;
    enough = omega (arith, length-take (size - length before) src);
    order = refl;
  }

  pub Flow-get : (before : List ℕ) (n : ℕ) → Flow size before (drop n before) (take n before) []
  Flow-get before n = record {
    accepted = [];
    from = nothing;
    enough = omega arith;
    order = take-append-drop n before ∙ sym (append-nil before);
  }

  -- What fits is not lost.
  pub lossless :
      {before after sent offered : List ℕ}
      → Flow size before after sent offered
      → length before + length offered ≤ size
      → sent ++ after ≡ before ++ offered
  lossless {before} {after} {sent} {offered} f room =
      f.order ∙ ap (λ t. before ++ t) (eq_of_Kept f.from (omega (arith, f.enough)))
