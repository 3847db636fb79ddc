-- ===== src/DumbHttp/Search.antt =====
-- The recogniser of a request beside a plain search for its blank line.
use echo_bot.Prelude.{
  ℕ, zero, suc, ◌<◌, ◌≡◌, ◌≢◌, ◌↔◌, subst, refl, sym, ap, ◌∙◌, Bool, true, false, ◌&&◌, ◌||◌, none,
  some, List, [], ◌∷◌, ◌++◌, ◌==◌, arith, take,
}
use echo_bot.DumbHttp.{RecvAnswer, request_end, next_state, discard}
use echo_bot.DumbHttp.Requests.{
  received, ends, is_end, is_end-discard, blank_line, crlf, ends_next, is_end_only, state_0,
  state_1, state_2, state_3,
}
use native.Mathlib.Decide.{ℕ_discrete}

-- CR LF CR LF at the start.
abbrev pub starts_blank : List ℕ → Bool
starts_blank (a ∷ b ∷ c ∷ d ∷ _) = (a == b'\r' && b == b'\n') && (c == b'\r' && d == b'\n')
starts_blank _ = false

-- CR LF CR LF anywhere.
abbrev pub has_blank_line : List ℕ → Bool
has_blank_line [] = false
has_blank_line (c ∷ cs) = starts_blank (c ∷ cs) || has_blank_line cs

-- A CR right behind a CR.
abbrev pub has_double_cr : List ℕ → Bool
has_double_cr (c ∷ d ∷ cs) = (c == b'\r' && d == b'\r') || has_double_cr (d ∷ cs)
has_double_cr _ = false

-- Where no blank line can begin.
skips : (c : ℕ) (bs : List ℕ) → c ≢ b'\r' → has_blank_line (c ∷ bs) ≡ has_blank_line bs
skips c [] h = refl
skips c (x ∷ []) h = refl
skips c (x ∷ y ∷ []) h = refl
skips c (x ∷ y ∷ z ∷ bs) h = ground arith

skips_cr :
    (c : ℕ) (bs : List ℕ) → c ≢ b'\n' → has_blank_line (b'\r' ∷ c ∷ bs) ≡ has_blank_line (c ∷ bs)
skips_cr c [] h = refl
skips_cr c (x ∷ []) h = refl
skips_cr c (x ∷ y ∷ bs) h = ground arith

skips_crlf :
    (c : ℕ) (bs : List ℕ) → c ≢ b'\r' → has_blank_line (crlf ++ c ∷ bs) ≡ has_blank_line (c ∷ bs)
skips_crlf c [] h = refl
skips_crlf c (x ∷ bs) h = ground arith ∙ skips b'\n' (c ∷ x ∷ bs) (omega arith)

skips_crlfcr :
    (c : ℕ) (bs : List ℕ)
    → c ≢ b'\n'
    → has_blank_line (crlf ++ b'\r' ∷ c ∷ bs) ≡ has_blank_line (b'\r' ∷ c ∷ bs)
skips_crlfcr c bs h = ground arith ∙ skips b'\n' (b'\r' ∷ c ∷ bs) (omega arith)

tail : (c : ℕ) (bs : List ℕ) → has_double_cr (c ∷ bs) ≡ false → has_double_cr bs ≡ false
tail c [] h = refl
tail c (d ∷ bs) h = ground arith

not_cr : (c : ℕ) (bs : List ℕ) → has_double_cr (b'\r' ∷ c ∷ bs) ≡ false → c ≢ b'\r'
not_cr c bs h = ground arith

-- No CR follows a CR, also behind the bytes that the state stands for.
abbrev Plain : ℕ → List ℕ → Type 0
Plain st bs = has_double_cr (take st blank_line ++ bs) ≡ false

-- A byte that leads back to the start.
restarts :
    (st c : ℕ) (bs : List ℕ)
    → next_state st c ≡ some 0
    → has_blank_line (take st blank_line ++ c ∷ bs) ≡ has_blank_line (c ∷ bs)
    → c ≢ b'\r'
    → ends 0 bs ≡ has_blank_line bs
    → ends st (c ∷ bs) ≡ has_blank_line (take st blank_line ++ c ∷ bs)
restarts st c bs e skip other ih =
    ends_next st c bs (some 0) e ∙ ih ∙ sym (skips c bs other) ∙ sym skip

ends-has_blank_line :
    (bs : List ℕ) (st : ℕ)
    → st < 4
    → Plain st bs
    → ends st bs ≡ has_blank_line (take st blank_line ++ bs)
unfolding ends next_state
ends-has_blank_line [] zero small h = refl
ends-has_blank_line [] (suc zero) small h = refl
ends-has_blank_line [] (suc (suc zero)) small h = refl
ends-has_blank_line [] (suc (suc (suc zero))) small h = refl
ends-has_blank_line (c ∷ bs) zero small h = elim (ℕ_discrete c b'\r') [
  | yes e ↦
      ends_next 0 c bs (some 1) (rw e refl)
      ∙ ends-has_blank_line bs 1 (omega arith) (subst (λ x. Plain 0 (x ∷ bs)) e h)
      ∙ ap (λ x. has_blank_line (x ∷ bs)) (sym e)
  | no n ↦
      restarts 0 c bs (state_0 c n) refl n (ends-has_blank_line bs 0 (omega arith) (tail c bs h))
]
ends-has_blank_line (c ∷ bs) (suc zero) small h = elim (ℕ_discrete c b'\n') [
  | yes e ↦
      ends_next 1 c bs (some 2) (rw e refl)
      ∙ ends-has_blank_line bs 2 (omega arith) (subst (λ x. Plain 1 (x ∷ bs)) e h)
      ∙ ap (λ x. has_blank_line (b'\r' ∷ x ∷ bs)) (sym e)
  | no n ↦
      restarts 1 c bs (state_1 c n) (skips_cr c bs n) (not_cr c bs h)
        (ends-has_blank_line bs 0 (omega arith) (tail c bs (tail b'\r' (c ∷ bs) h)))
]
ends-has_blank_line (c ∷ bs) (suc (suc zero)) small h = elim (ℕ_discrete c b'\r') [
  | yes e ↦
      ends_next 2 c bs (some 3) (rw e refl)
      ∙ ends-has_blank_line bs 3 (omega arith) (subst (λ x. Plain 2 (x ∷ bs)) e h)
      ∙ ap (λ x. has_blank_line (crlf ++ x ∷ bs)) (sym e)
  | no n ↦ restarts 2 c bs (state_2 c n) (skips_crlf c bs n) n (
      ends-has_blank_line bs 0 (omega arith)
        (tail c bs (tail b'\n' (c ∷ bs) (tail b'\r' (b'\n' ∷ c ∷ bs) h))))
]
ends-has_blank_line (c ∷ bs) (suc (suc (suc zero))) small h =
    let behind = tail b'\n' (b'\r' ∷ c ∷ bs) (tail b'\r' (b'\n' ∷ b'\r' ∷ c ∷ bs) h) in
    elim (ℕ_discrete c b'\n') [
      | yes e ↦
          ends_next 3 c bs none (rw e refl)
          ∙ ap (λ x. has_blank_line (crlf ++ b'\r' ∷ x ∷ bs)) (sym e)
      | no n ↦
          restarts 3 c bs (state_3 c n) (skips_crlfcr c bs n ∙ skips_cr c bs n) (not_cr c bs behind)
            (ends-has_blank_line bs 0 (omega arith) (tail c bs (tail b'\r' (c ∷ bs) behind)))
    ]
ends-has_blank_line bs (suc (suc (suc (suc st)))) small h = absurd (omega arith)

-- Where no CR stands right behind a CR among the bytes received, the server takes the request to be over
-- exactly when they contain a blank line, CR LF CR LF, however often `recv` must be called again.
pub discard-has_blank_line :
    (rs : List RecvAnswer)
    → has_double_cr (received rs) ≡ false
    → (discard 0 rs ≡ request_end) ↔ (has_blank_line (received rs) ≡ true)
discard-has_blank_line rs plain =
    let exact = is_end-discard rs 0 ∙ ends-has_blank_line (received rs) 0 (omega arith) plain in
    (λ over. sym exact ∙ ap is_end over, λ found. is_end_only (discard 0 rs) (exact ∙ found))
