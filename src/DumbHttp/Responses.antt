-- ===== src/DumbHttp/Responses.antt =====
-- What the server sends.
use echo_bot.Prelude.{
  ℕ, ◌≤◌, ◌≡◌, ◌≢◌, refl, sym, ap, ◌∙◌, ◌⊎◌, inl, inr, true, false, List, [], ◌∷◌, ◌++◌,
  append_assoc, length, length-drop, arith, ◌==◌, ok, take, drop, take-append-drop, read_ok, Bool,
}
use native.Mathlib.Decide.{ℕ_discrete}
use echo_bot.DumbHttp.{SendAnswer, sent, send_failed, send_loop, Sending, complete, failed, blocked}

-- Answers that `send` may give to a page: it takes a byte at least, and no more than are left.
abbrev pub Allowed : List SendAnswer → List ℕ → Type 0
Allowed [] page = Unit {0}
Allowed (send_failed ∷ rs) page = Unit {0}
Allowed (sent n ∷ rs) page =
    (length page ≢ 0 → (1 ≤ n) × (n ≤ length page)) × Allowed rs (drop n page)

-- No `send` has failed.
abbrev pub still_taking : List SendAnswer → Bool
still_taking [] = true
still_taking (sent n ∷ rs) = still_taking rs
still_taking (send_failed ∷ rs) = false

-- How the loop ends, by whether no `send` has failed.
abbrev pub Stops : Sending → (taking : Bool) → Type 0
Stops complete taking = Unit {0}
Stops failed taking = taking ≡ false
Stops blocked taking = taking ≡ true

empty : (page : List ℕ) → length page ≡ 0 → page ≡ []
empty [] h = refl
empty (x ∷ page) h = ground arith

-- Of the page, `out` is sent and `left` is not; the loop is complete when nothing is left.
pub record Sent (page out left : List ℕ) (end : Sending) : Type 0 where
  pub parts : out ++ left ≡ page
  pub whole : (end ≡ complete) × (left ≡ []) ⊎ (end ≢ complete) × (left ≢ [])

more_left : (n : ℕ) → n ≢ 0 → (n == 0) ≡ false
more_left n h = ground arith

left_over :
    (page : List ℕ) (end : Sending) → length page ≢ 0 → end ≢ complete → Sent page [] page end
left_over page end h k = record { parts = refl; whole = inr (k, λ e. h (ap length e)) }

nothing_left : (page : List ℕ) → (length page == 0) ≡ true → Sent page [] [] complete
nothing_left page h = record { parts = sym (empty page (ground arith)); whole = inl (refl, refl) }

Sent-take :
    (page out left : List ℕ) (n : ℕ) (end : Sending)
    → Sent (drop n page) out left end
    → Sent page (take n page ++ out) left end
Sent-take page out left n end s = record {
  parts =
      append_assoc (take n page) out left
      ∙ ap (λ t. take n page ++ t) s.parts
      ∙ take-append-drop n page;
  whole = s.whole;
}

pub send_loop-Sent :
    (rs : List SendAnswer) (page : List ℕ)
    → Allowed rs page
    → (out left : List ℕ) × (end : Sending) × (send_loop page rs ≡ ok (out, end))
      × Sent page out left end
      × Stops end (still_taking rs)
unfolding send_loop
send_loop-Sent [] page h = elim (ℕ_discrete (length page) 0) [
  | yes e ↦ ([], [], complete, rw e refl, nothing_left page (rw e refl), tt)
  | no k ↦ (
    [],
    page,
    blocked,
    rw (more_left (length page) k) refl,
    left_over page blocked k (λ e. ground arith),
    refl,
  )
]
send_loop-Sent (send_failed ∷ rs) page h = elim (ℕ_discrete (length page) 0) [
  | yes e ↦ ([], [], complete, rw e refl, nothing_left page (rw e refl), tt)
  | no k ↦ (
    [],
    page,
    failed,
    rw (more_left (length page) k) refl,
    left_over page failed k (λ e. ground arith),
    refl,
  )
]
send_loop-Sent (sent n ∷ rs) page h = elim (ℕ_discrete (length page) 0) [
  | yes e ↦ ([], [], complete, rw e refl, nothing_left page (rw e refl), tt)
  | no k ↦
      let (out, left, end, run, s, stop) = send_loop-Sent rs (drop n page) h.1 in
      (
        take n page ++ out,
        left,
        end,
        rw (more_left (length page) k, read_ok page n (h.0 k).1, run) refl,
        Sent-take page out left n end s,
        stop,
      )
]

-- Answers that each take a byte at least, as long as some are left.
abbrev pub Takes : List SendAnswer → List ℕ → Type 0
Takes [] page = Unit {0}
Takes (send_failed ∷ rs) page = ⊥
Takes (sent n ∷ rs) page = (length page ≢ 0 → (1 ≤ n) × (n ≤ length page)) × Takes rs (drop n page)

-- However `send` cuts the page, the loop ends with the whole page sent, after at most one call for
-- each byte.
pub send_loop_lem :
    (rs : List SendAnswer) (page : List ℕ)
    → Takes rs page
    → length page ≤ length rs
    → send_loop page rs ≡ ok (page, complete)
unfolding send_loop
send_loop_lem [] page h enough = rw (empty page (omega arith)) refl
send_loop_lem (send_failed ∷ rs) page h enough = absurd h
send_loop_lem (sent n ∷ rs) page h enough = elim (ℕ_discrete (length page) 0) [
  | yes e ↦ rw (empty page e) refl
  | no k ↦
      rw
        (
          more_left (length page) k,
          read_ok page n (h.0 k).1,
          send_loop_lem rs (drop n page) h.1
              (omega (arith, length-drop n page, (h.0 k).0, (h.0 k).1)),
        )
        (ap (λ t. ok (t, complete)) (take-append-drop n page))
]
