-- ===== src/DumbHttp/Requests.antt =====
-- Which requests the server answers.
use echo_bot.Prelude.{
  ℕ, zero, suc, ◌<◌, ◌≡◌, ◌≢◌, refl, sym, ap, ◌∙◌, inl, inr, Bool, Option-cases, true, false,
  Option, none, some, List, [], ◌∷◌, ◌++◌, append_assoc, All, arith, take,
}
use native.Mathlib.Decide.{ℕ_discrete}
use echo_bot.DumbHttp.{
  RecvAnswer, byte, end_of_stream, retry, recv_failed, Discarded, request_end, next_state, discard,
}

abbrev pub crlf : List ℕ
crlf = b'\r' ∷ b'\n' ∷ []

abbrev pub blank_line : List ℕ
blank_line = crlf ++ crlf

-- The bytes received before the stream ends or fails.
abbrev pub received : List RecvAnswer → List ℕ
received [] = []
received (byte c ∷ rs) = c ∷ received rs
received (retry ∷ rs) = received rs
received (end_of_stream ∷ rs) = []
received (recv_failed ∷ rs) = []

-- `discard` on bytes alone: whether the request ends among them.
unfoldable pub ends : ℕ → List ℕ → Bool
ends st [] = false
ends st (c ∷ cs) = elim (next_state st c) [ none ↦ true | some st' ↦ ends st' cs ]

abbrev pub is_end : Discarded → Bool
is_end request_end = true
is_end _ = false

pub ends_next :
    (st c : ℕ) (cs : List ℕ) (o : Option ℕ)
    → next_state st c ≡ o
    → ends st (c ∷ cs) ≡ elim o [ none ↦ true | some st' ↦ ends st' cs ]
unfolding ends
ends_next st c cs o e = ap (λ o. elim o [ none ↦ true | some st' ↦ ends st' cs ]) e

discard_next :
    (st c : ℕ) (rs : List RecvAnswer) (o : Option ℕ)
    → next_state st c ≡ o
    → is_end (discard st (byte c ∷ rs))
      ≡ elim o [ none ↦ true | some st' ↦ is_end (discard st' rs) ]
unfolding discard
discard_next st c rs none e =
    ap (λ o. is_end (elim o [ none ↦ request_end | some st' ↦ discard st' rs ])) e
discard_next st c rs (some st') e =
    ap (λ o. is_end (elim o [ none ↦ request_end | some st' ↦ discard st' rs ])) e

pub is_end-discard :
    (rs : List RecvAnswer) (st : ℕ) → is_end (discard st rs) ≡ ends st (received rs)
unfolding discard ends
is_end-discard [] st = refl
is_end-discard (byte c ∷ rs) st = elim (Option-cases (next_state st c)) [
  | inl e ↦ discard_next st c rs none e ∙ sym (ends_next st c (received rs) none e)
  | inr (st', e) ↦
      discard_next st c rs (some st') e
      ∙ is_end-discard rs st'
      ∙ sym (ends_next st c (received rs) (some st') e)
]
is_end-discard (retry ∷ rs) st = is_end-discard rs st
is_end-discard (end_of_stream ∷ rs) st = refl
is_end-discard (recv_failed ∷ rs) st = refl

pub is_end_only : (d : Discarded) → is_end d ≡ true → d ≡ request_end
is_end_only d h = ground arith

-- The loop's states: the start, and after CR, CR LF and CR LF CR.
pub state_0 : (c : ℕ) → c ≢ b'\r' → next_state 0 c ≡ some 0
unfolding next_state
state_0 c h = ground arith

pub state_1 : (c : ℕ) → c ≢ b'\n' → next_state 1 c ≡ some 0
unfolding next_state
state_1 c h = ground arith

pub state_2 : (c : ℕ) → c ≢ b'\r' → next_state 2 c ≡ some 0
unfolding next_state
state_2 c h = ground arith

pub state_3 : (c : ℕ) → c ≢ b'\n' → next_state 3 c ≡ some 0
unfolding next_state
state_3 c h = ground arith

ends_line :
    (line rest : List ℕ) → All (λ c. c ≢ b'\r') line → ends 0 (line ++ (crlf ++ rest)) ≡ ends 2 rest
unfolding ends next_state
ends_line [] rest h = refl
ends_line (c ∷ line) rest h =
    ends_next 0 c (line ++ (crlf ++ rest)) (some 0) (state_0 c h.0) ∙ ends_line line rest h.1

-- A line of a header: not empty, without CR.
abbrev pub IsLine : List ℕ → Type 0
IsLine [] = ⊥
IsLine (c ∷ line) = (c ≢ b'\r') × All (λ c. c ≢ b'\r') line

-- A request: lines, each with its CR LF, and a blank line.
abbrev pub request : List (List ℕ) → List ℕ
request [] = crlf
request (line ∷ ls) = line ++ (crlf ++ request ls)

ends_lines :
    (ls : List (List ℕ)) (more : List ℕ) → All IsLine ls → ends 2 (request ls ++ more) ≡ true
unfolding ends next_state
ends_lines [] more h = refl
ends_lines ([] ∷ ls) more h = absurd h.0
ends_lines ((c ∷ line) ∷ ls) more h =
    ap (λ bs. ends 2 (c ∷ bs)) (append_assoc line (crlf ++ request ls) more)
    ∙ ends_next 2 c (line ++ (crlf ++ (request ls ++ more))) (some 0) (state_2 c h.0.0)
    ∙ ends_line line (request ls ++ more) h.0.1
    ∙ ends_lines ls more h.1

-- Bytes that contain a blank line.
pub record HasBlankLine (bs : List ℕ) : Type 0 where
  pub before : List ℕ
  pub after : List ℕ
  pub whole : bs ≡ before ++ (blank_line ++ after)

restart : (st c : ℕ) (bs : List ℕ) → HasBlankLine bs → HasBlankLine (take st blank_line ++ c ∷ bs)
restart st c bs found = record {
  before = take st blank_line ++ c ∷ found.before;
  after = found.after;
  whole =
      ap (λ t. take st blank_line ++ c ∷ t) found.whole
      ∙ sym (append_assoc (take st blank_line) (c ∷ found.before) (blank_line ++ found.after));
}

module _ (c : ℕ) (bs : List ℕ) where
  on :
      (st : ℕ) (o : Option ℕ)
      → next_state st c ≡ o
      → ends st (c ∷ bs) ≡ true
      → (elim o [ none ↦ true | some st' ↦ ends st' bs ]) ≡ true
  on st o e h = sym (ends_next st c bs o e) ∙ h

HasBlankLine-ends :
    (bs : List ℕ) (st : ℕ) → st < 4 → ends st bs ≡ true → HasBlankLine (take st blank_line ++ bs)
unfolding next_state ends
HasBlankLine-ends [] st small h = ground arith
HasBlankLine-ends (c ∷ bs) zero small h = elim (ℕ_discrete c b'\r') [
  | yes e ↦ rw e (HasBlankLine-ends bs 1 (omega arith) (on c bs 0 (some 1) (rw e refl) h))
  | no n ↦
      restart 0 c bs (HasBlankLine-ends bs 0 (omega arith) (on c bs 0 (some 0) (state_0 c n) h))
]
HasBlankLine-ends (c ∷ bs) (suc zero) small h = elim (ℕ_discrete c b'\n') [
  | yes e ↦ rw e (HasBlankLine-ends bs 2 (omega arith) (on c bs 1 (some 2) (rw e refl) h))
  | no n ↦
      restart 1 c bs (HasBlankLine-ends bs 0 (omega arith) (on c bs 1 (some 0) (state_1 c n) h))
]
HasBlankLine-ends (c ∷ bs) (suc (suc zero)) small h = elim (ℕ_discrete c b'\r') [
  | yes e ↦ rw e (HasBlankLine-ends bs 3 (omega arith) (on c bs 2 (some 3) (rw e refl) h))
  | no n ↦
      restart 2 c bs (HasBlankLine-ends bs 0 (omega arith) (on c bs 2 (some 0) (state_2 c n) h))
]
HasBlankLine-ends (c ∷ bs) (suc (suc (suc zero))) small h = elim (ℕ_discrete c b'\n') [
  | yes e ↦ rw e (record { before = []; after = bs; whole = refl })
  | no n ↦
      restart 3 c bs (HasBlankLine-ends bs 0 (omega arith) (on c bs 3 (some 0) (state_3 c n) h))
]
HasBlankLine-ends (c ∷ bs) (suc (suc (suc (suc st)))) small h = absurd (omega arith)

-- The server takes a request to be over only if the bytes received contain a blank line, CR LF CR LF.
pub discard-HasBlankLine :
    (rs : List RecvAnswer) → discard 0 rs ≡ request_end → HasBlankLine (received rs)
discard-HasBlankLine rs h =
    HasBlankLine-ends (received rs) 0 (omega arith) (sym (is_end-discard rs 0) ∙ ap is_end h)

-- A request of one or more lines, not empty and without CR, each ended by CR LF, and then a blank
-- line, is taken to be over, whatever comes behind it and however often `recv` must be called again.
pub discard-request :
    (rs : List RecvAnswer) (line : List ℕ) (ls : List (List ℕ)) (more : List ℕ)
    → IsLine line
    → All IsLine ls
    → received rs ≡ request (line ∷ ls) ++ more
    → discard 0 rs ≡ request_end
discard-request rs [] ls more h hs e = absurd h
discard-request rs (c ∷ line) ls more h hs e = is_end_only (discard 0 rs) (
    is_end-discard rs 0
    ∙ ap (ends 0) (e ∙ append_assoc (c ∷ line) (crlf ++ request ls) more)
    ∙ ends_line (c ∷ line) (request ls ++ more) h
    ∙ ends_lines ls more hs)
