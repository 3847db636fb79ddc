-- ===== src/DumbHttp/Waiting.antt =====
-- When the server waits for a client in `recv`.
use echo_bot.Prelude.{
  ◌≡◌, sym, ap, ◌∙◌, inl, inr, Bool, Bool-cases, Option, Option-cases, none, some, true, false,
  ◌&&◌, not, List, [], ◌∷◌, ℕ, refl, arith, subst, ◌⊎◌, ◌≢◌,
}
use echo_bot.DumbHttp.{
  RecvAnswer, byte, end_of_stream, retry, recv_failed, request_end, next_state, discard, waiting,
  Discarded,
}
use echo_bot.DumbHttp.Requests.{received}
use echo_bot.DumbHttp.Search.{has_blank_line, has_double_cr, discard-has_blank_line}

-- The stream of the request has neither ended nor failed.
abbrev pub still_open : List RecvAnswer → Bool
still_open [] = true
still_open (byte c ∷ rs) = still_open rs
still_open (retry ∷ rs) = still_open rs
still_open (end_of_stream ∷ rs) = false
still_open (recv_failed ∷ rs) = false

-- A request is whole if it contains a blank line, and no CR right behind a CR.
abbrev pub is_whole : List ℕ → Bool
is_whole bs = not (has_double_cr bs) && has_blank_line bs

discard_byte :
    (st c : ℕ) (rs : List RecvAnswer) (o : Option ℕ)
    → next_state st c ≡ o
    → discard st (byte c ∷ rs) ≡ elim o [ none ↦ request_end | some st' ↦ discard st' rs ]
unfolding discard
discard_byte st c rs o e = ap (λ o. elim o [ none ↦ request_end | some st' ↦ discard st' rs ]) e

abbrev pub is_waiting : Discarded → Bool
is_waiting waiting = true
is_waiting _ = false

-- Unless the request is over, the thread waits exactly while the stream is open.
pub still_open-discard :
    (rs : List RecvAnswer) (st : ℕ)
    → (discard st rs ≡ request_end) ⊎ (still_open rs ≡ is_waiting (discard st rs))
unfolding discard
still_open-discard [] st = inr refl
still_open-discard (byte c ∷ rs) st = elim (Option-cases (next_state st c)) [
  | inl e ↦ inl (discard_byte st c rs none e)
  | inr (st', e) ↦
      subst (λ d. (d ≡ request_end) ⊎ (still_open rs ≡ is_waiting d))
        (sym (discard_byte st c rs (some st') e)) (still_open-discard rs st')
]
still_open-discard (retry ∷ rs) st = still_open-discard rs st
still_open-discard (end_of_stream ∷ rs) st = inr refl
still_open-discard (recv_failed ∷ rs) st = inr refl

pub is_whole-request_end :
    (rs : List RecvAnswer) → is_whole (received rs) ≡ true → discard 0 rs ≡ request_end
is_whole-request_end rs h = (discard-has_blank_line rs (ground arith)).1 (ground arith)

-- Where the request is not over.
pub not_over :
    (rs : List RecvAnswer) (d : Discarded)
    → discard 0 rs ≡ d
    → d ≢ request_end
    → (still_open rs ≡ is_waiting d) × (is_whole (received rs) ≡ false)
not_over rs d e n = (
  elim (still_open-discard rs 0) [
    | inl over ↦ absurd (n (sym e ∙ over))
    | inr same ↦ same ∙ ap is_waiting e
  ],
  elim (Bool-cases (is_whole (received rs))) [
    | inl whole ↦ absurd (n (sym e ∙ is_whole-request_end rs whole))
    | inr part ↦ part
  ],
)
