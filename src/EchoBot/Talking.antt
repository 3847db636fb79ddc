-- ===== src/EchoBot/Talking.antt =====
-- What the thread prints of the lines typed, over a whole schedule.
use echo_bot.Prelude.Kept.{Kept, nothing, Kept-append}
use echo_bot.Prelude.{
  ℕ, ◌+◌, ◌≤◌, ◌≡◌, refl, ap, ◌∙◌, subst, sym, true, false, List, [], ◌∷◌, ◌++◌, map, arith, length,
  length-append, length-map, append-nil, append_assoc, map-append, ap₂,
}
use echo_bot.EchoBot.{Event, irq, turn, max_msgs}
use echo_bot.EchoBot.Lines.{sent, type_bytes}
use echo_bot.EchoBot.Echo.{Talk, echo_text, echo_texts, hear, talk_step, talk}
use echo_bot.EchoBot.Lossless.{lines, input, type_bytes-Typed}

-- What a stretch of the schedule has printed and left in the queue.
pub record Heard (t t' : Talk) (es : List Event) : Type 0 where
  pub printed : List (List ℕ)
  pub said : t'.said ≡ t.said ++ echo_texts printed
  pub accepted : List (List ℕ)
  pub from : Kept accepted (map sent (lines t.line (input es)))
  pub order : printed ++ t'.queued ≡ t.queued ++ accepted
  pub lossless :
      length t.queued + length (lines t.line (input es)) ≤ max_msgs
      → accepted ≡ map sent (lines t.line (input es))
  pub bounded : length t.queued ≤ max_msgs → length t'.queued ≤ max_msgs

irq-Heard :
    (bytes : List ℕ) (es : List Event) (t : Talk) {t'' : Talk}
    → Heard (record t { console = type_bytes t.console bytes }) t'' es
    → Heard t t'' (irq true bytes ∷ es)
irq-Heard bytes es t {t''} p =
    let r = type_bytes-Typed bytes (input es) t.console in
    let later = lines (type_bytes t.console bytes).line (input es) in
    let all : map sent (lines t.line (bytes ++ input es)) ≡ map sent r.completed ++ map sent later =
      ap (map sent) r.cut ∙ map-append sent r.completed later in
    let total = ap length r.cut ∙ length-append r.completed later in
    record {
      printed = p.printed;
      said = p.said;
      accepted = r.accepted ++ p.accepted;
      from = subst (Kept (r.accepted ++ p.accepted)) (sym all) (Kept-append r.from p.from);
      order =
          p.order ∙ ap (λ q. q ++ p.accepted) r.order ∙ append_assoc t.queued r.accepted p.accepted;
      lossless = λ enough.
          let first = r.lossless (omega (arith, total)) in
          let waits = ap length (r.order ∙ ap (λ l. t.queued ++ l) first) in
          ap₂ (λ a b. a ++ b) first
            (p.lossless (
              omega (
                arith,
                total,
                waits,
                length-append t.queued (map sent r.completed),
                length-map r.completed sent,
              )))
          ∙ sym all;
      bounded = λ h. p.bounded (r.bounded h);
    }

turn-Heard :
    (es : List Event) (t : Talk) {t'' : Talk} (q : List (List ℕ))
    → t.queued ≡ q
    → Heard (hear q t) t'' es
    → Heard t t'' (turn ∷ es)
unfolding hear
turn-Heard es t [] e p = record {
  printed = p.printed;
  said = p.said;
  accepted = p.accepted;
  from = p.from;
  order = p.order;
  lossless = p.lossless;
  bounded = p.bounded;
}
turn-Heard es t (x ∷ xs) e p = record {
  printed = x ∷ p.printed;
  said = p.said ∙ append_assoc t.said (echo_text x) (echo_texts p.printed);
  accepted = p.accepted;
  from = p.from;
  order = ap (λ l. x ∷ l) p.order ∙ ap (λ q. q ++ p.accepted) (sym e);
  lossless = λ enough. p.lossless (omega (arith, ap length e));
  bounded = λ h. p.bounded (omega (arith, ap length e));
}

pub talk-Heard : (es : List Event) (t : Talk) → Heard t (talk t es) es
unfolding talk talk_step lines
talk-Heard [] t = record {
  printed = [];
  said = sym (append-nil t.said);
  accepted = [];
  from = nothing;
  order = sym (append-nil t.queued);
  lossless = λ enough. refl;
  bounded = λ h. h;
}
talk-Heard (irq true bytes ∷ es) t =
    irq-Heard bytes es t (talk-Heard es (record t { console = type_bytes t.console bytes }))
talk-Heard (irq false bytes ∷ es) t =
    let p = talk-Heard es t in
    record {
      printed = p.printed;
      said = p.said;
      accepted = p.accepted;
      from = p.from;
      order = p.order;
      lossless = p.lossless;
      bounded = p.bounded;
    }
talk-Heard (turn ∷ es) t = turn-Heard es t t.queued refl (talk-Heard es (hear t.queued t))
