-- ===== src/UartPeripheralB/Lines.antt =====
-- The lines in a stream of bytes, and what they ask of the driver. No buffer, and no driver.
use echo_bot.Prelude.{
  ==_iff, lt→ne, ℕ, zero, suc, ◌+◌, ◌≤◌, ◌<◌, ◌≡◌, refl, ap, sym, ◌∙◌, Bool, true, false, ◌&&◌,
  ◌||◌, List, [], ◌∷◌, ◌++◌, append_assoc, arith, ◌==◌, if◌then◌else◌, ok, length, take,
}
use echo_bot.UartPeripheralB.{is_line_end, check_sending_guard, Round}
use echo_bot.UartPeripheralB.App.{Event, interrupt, timer_expired}

-- The byte `c` behind the unfinished line `line`: the line that it completes, if any, and what is
-- then unfinished. A line of `n` bytes that is not complete is thrown away.
abbrev pub completed : List ℕ → ℕ → List (List ℕ)
completed line c = if is_line_end c then (line ++ c ∷ []) ∷ [] else []

abbrev pub next : ℕ → List ℕ → ℕ → List ℕ
next n line c = if is_line_end c || length (line ++ c ∷ []) == n then [] else line ++ c ∷ []

abbrev pub lines : ℕ → List ℕ → List ℕ → List (List ℕ)
lines n line [] = []
lines n line (c ∷ cs) = completed line c ++ lines n (next n line c) cs

abbrev pub unfinished : ℕ → List ℕ → List ℕ → List ℕ
unfinished n line [] = line
unfinished n line (c ∷ cs) = unfinished n (next n line c) cs

-- An answer of the peer.
abbrev pub starts_ok : List ℕ → Bool
starts_ok (x ∷ y ∷ _) = x == b'O' && y == b'K'
starts_ok _ = false

-- How many of the lines are answers.
abbrev pub answers : List (List ℕ) → ℕ
answers [] = 0
answers (l ∷ ls) = let rest = answers ls in if starts_ok l then suc rest else rest

pub answers-append : (ls ms : List (List ℕ)) → answers (ls ++ ms) ≡ answers ls + answers ms
answers-append [] ms = omega arith
answers-append (l ∷ ls) ms = ground (arith, answers-append ls ms)

-- The bytes of the rounds of an interrupt, and of a course of events.
abbrev pub round_bytes : List Round → List ℕ
round_bytes [] = []
round_bytes (r ∷ rs) = r.bytes ++ round_bytes rs

abbrev pub event_bytes : List Event → List ℕ
event_bytes [] = []
event_bytes (interrupt rs ∷ es) = round_bytes rs ++ event_bytes es
event_bytes (timer_expired ∷ es) = event_bytes es

abbrev pub expiries : List Event → ℕ
expiries [] = 0
expiries (interrupt rs ∷ es) = expiries es
expiries (timer_expired ∷ es) = suc (expiries es)

pub lines-append :
    (n : ℕ) (line cs ds : List ℕ)
    → lines n line (cs ++ ds) ≡ lines n line cs ++ lines n (unfinished n line cs) ds
lines-append n line [] ds = refl
lines-append n line (c ∷ cs) ds =
    ap (λ l. completed line c ++ l) (lines-append n (next n line c) cs ds)
    ∙ sym (
        append_assoc (completed line c) (lines n (next n line c) cs)
          (lines n (unfinished n (next n line c) cs) ds))

pub unfinished-append :
    (n : ℕ) (line cs ds : List ℕ)
    → unfinished n line (cs ++ ds) ≡ unfinished n (unfinished n line cs) ds
unfinished-append n line [] ds = refl
unfinished-append n line (c ∷ cs) ds = unfinished-append n (next n line c) cs ds

-- `check_sending_guard` reads only what was received, and tells the answers.
pub check_sending_guard_lem :
    (a : List ℕ) (n : ℕ) → n ≤ length a → check_sending_guard a n ≡ ok (starts_ok (take n a))
unfolding check_sending_guard
check_sending_guard_lem a zero h = refl
check_sending_guard_lem [] (suc n) h = absurd (omega arith)
check_sending_guard_lem (x ∷ a) (suc zero) h = refl
check_sending_guard_lem (x ∷ []) (suc (suc n)) h = absurd (omega arith)
check_sending_guard_lem (x ∷ y ∷ a) (suc (suc n)) h = ground arith

-- The cases of one byte.
pub lines_end :
    (n : ℕ) (line : List ℕ) (c : ℕ)
    → is_line_end c ≡ true
    → (lines n line (c ∷ []) ≡ (line ++ c ∷ []) ∷ []) × (unfinished n line (c ∷ []) ≡ [])
lines_end n line c e = (rw e, rw e)

pub lines_full :
    (n : ℕ) (line : List ℕ) (c : ℕ)
    → is_line_end c ≡ false
    → length (line ++ c ∷ []) ≡ n
    → (lines n line (c ∷ []) ≡ []) × (unfinished n line (c ∷ []) ≡ [])
lines_full n line c e full = (rw e, rw (e, (==_iff (length (line ++ c ∷ [])) n).1 full))

pub lines_more :
    (n : ℕ) (line : List ℕ) (c : ℕ)
    → is_line_end c ≡ false
    → length (line ++ c ∷ []) < n
    → (lines n line (c ∷ []) ≡ []) × (unfinished n line (c ∷ []) ≡ line ++ c ∷ [])
lines_more n line c e more = (rw e, rw (e, lt→ne (length (line ++ c ∷ [])) n more))
