-- ===== src/EchoBot/Lossless.antt =====
-- The lines that bytes spell, and what typing them does to the queue.
use native.Mathlib.Decide.{dec_lt}
use echo_bot.Prelude.Kept.{Kept, nothing, keep, skip}
use echo_bot.Prelude.{
  ℕ, ◌+◌, ◌≤◌, ◌<◌, ◌≡◌, refl, ap, ◌∙◌, sym, inl, inr, true, false, Bool, ◌&&◌, List, [], ◌∷◌, ◌++◌,
  map, arith, ltb, Bool-cases, lt→ltb, length, length-append, append-nil, append_assoc,
}
use echo_bot.EchoBot.{Event, irq, turn, max_msgs, is_line_end}
use echo_bot.EchoBot.Lines.{Console, sent, type_byte, type_bytes}

-- The lines that `cs` completes, behind the unfinished `line`. A line end that stands at the start
-- of a line is its first byte.
unfoldable pub lines : List ℕ → List ℕ → List (List ℕ)
lines line [] = []
lines line (c ∷ cs) = elim (is_line_end c && ltb 0 (length line)) [
  | true ↦ line ∷ lines [] cs
  | false ↦ lines (line ++ c ∷ []) cs
]

-- The bytes that reach `serial_cb` in a schedule.
abbrev pub input : List Event → List ℕ
input [] = []
input (irq true bytes ∷ es) = bytes ++ input es
input (irq false bytes ∷ es) = input es
input (turn ∷ es) = input es

abbrev ends : ℕ → List ℕ → Bool
ends c line = is_line_end c && ltb 0 (length line)

lines_end :
    (line : List ℕ) (c : ℕ) (cs : List ℕ)
    → ends c line ≡ true
    → lines line (c ∷ cs) ≡ line ∷ lines [] cs
unfolding lines
lines_end line c cs t = rw (t, lines)

lines_text :
    (line : List ℕ) (c : ℕ) (cs : List ℕ)
    → ends c line ≡ false
    → lines line (c ∷ cs) ≡ lines (line ++ c ∷ []) cs
unfolding lines
lines_text line c cs t = rw (t, lines)

type_byte_end :
    (k : Console) (c : ℕ)
    → ends c k.line ≡ true
    → length k.queued < max_msgs
    → type_byte k c ≡ record { line = []; queued = k.queued ++ sent k.line ∷ [] }
unfolding type_byte
type_byte_end k c t h = rw (t, lt→ltb (length k.queued) max_msgs h)

type_byte_text :
    (k : Console) (c : ℕ)
    → ends c k.line ≡ false
    → type_byte k c ≡ record k { line = k.line ++ c ∷ [] }
unfolding type_byte
type_byte_text k c t = rw t

not_below : (a b : ℕ) → b ≤ a → ltb a b ≡ false
not_below a b h = ground arith

type_byte_full :
    (k : Console) (c : ℕ)
    → ends c k.line ≡ true
    → max_msgs ≤ length k.queued
    → type_byte k c ≡ record k { line = [] }
unfolding type_byte
type_byte_full k c t h = rw t (rw (not_below (length k.queued) max_msgs h) refl)

-- What typing does: lines are completed, and of their texts some are accepted by the queue, in order;
-- all, if there is room for all.
pub record Typed (k k' : Console) (bs cs : List ℕ) : Type 0 where
  pub completed : List (List ℕ)
  pub cut : lines k.line (bs ++ cs) ≡ completed ++ lines k'.line cs
  pub accepted : List (List ℕ)
  pub from : Kept accepted (map sent completed)
  pub order : k'.queued ≡ k.queued ++ accepted
  pub lossless : length k.queued + length completed ≤ max_msgs → accepted ≡ map sent completed
  pub bounded : length k.queued ≤ max_msgs → length k'.queued ≤ max_msgs

pub type_bytes-Typed : (bs cs : List ℕ) (k : Console) → Typed k (type_bytes k bs) bs cs
unfolding type_bytes
type_bytes-Typed [] cs k = record {
  completed = [];
  cut = refl;
  accepted = [];
  from = nothing;
  order = sym (append-nil k.queued);
  lossless = λ room. refl;
  bounded = λ h. h;
}
type_bytes-Typed (b ∷ bs) cs k = elim (Bool-cases (ends b k.line)) [
  | inr f ↦
      let r = type_bytes-Typed bs cs (record k { line = k.line ++ b ∷ [] }) in
      rw (type_bytes, type_byte_text k b f)
        (record {
          completed = r.completed;
          cut = lines_text k.line b (bs ++ cs) f ∙ r.cut;
          accepted = r.accepted;
          from = r.from;
          order = r.order;
          lossless = r.lossless;
          bounded = r.bounded;
        })
  | inl t ↦ elim (dec_lt (length k.queued) max_msgs) [
    | yes room ↦
        let next : Console = record { line = []; queued = k.queued ++ sent k.line ∷ [] } in
        let r = type_bytes-Typed bs cs next in
        let one_more = length-append k.queued (sent k.line ∷ []) in
        rw (type_bytes, type_byte_end k b t room)
          (record {
            completed = k.line ∷ r.completed;
            cut = lines_end k.line b (bs ++ cs) t ∙ ap (λ l. k.line ∷ l) r.cut;
            accepted = sent k.line ∷ r.accepted;
            from = keep (sent k.line) r.from;
            order = r.order ∙ append_assoc k.queued (sent k.line ∷ []) r.accepted;
            lossless = λ enough. ap (λ l. sent k.line ∷ l) (r.lossless (omega (arith, one_more)));
            bounded = λ h. r.bounded (omega (arith, one_more));
          })
    | no full ↦
        let r = type_bytes-Typed bs cs (record k { line = [] }) in
        rw (type_bytes, type_byte_full k b t (omega arith))
          (record {
            completed = k.line ∷ r.completed;
            cut = lines_end k.line b (bs ++ cs) t ∙ ap (λ l. k.line ∷ l) r.cut;
            accepted = r.accepted;
            from = skip (sent k.line) r.from;
            order = r.order;
            lossless = λ enough. absurd (omega arith);
            bounded = r.bounded;
          })
  ]
]
