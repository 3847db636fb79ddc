-- ===== src/Mcp9808/App/Time.antt =====
-- The time of day as text.
use echo_bot.Prelude.{
  ℕ, zero, suc, ◌+◌, ◌*◌, ◌/◌, ◌%◌, ◌^◌, ◌≤◌, ◌<◌, ◌≡◌, refl, ap, lt→ltb, false, ok, c_string,
  IsText, IsText-append, c_string-append, until_nul_of_IsText, take-append_short, ◌∙◌, inl, inr,
  Bool-cases, List, [], ◌∷◌, ◌++◌, length, length-append, take, drop, ltb, arith,
}
use native.Mathlib.Decide.{dec_lt}
use echo_bot.Mcp9808.App.{digit, decimal_upto, decimal, padded, now_str}

abbrev pub two : ℕ → List ℕ
two n = digit (n / 10) ∷ digit (n % 10) ∷ []

abbrev pub three : ℕ → List ℕ
three n = digit (n / 100) ∷ digit (n / 10 % 10) ∷ digit (n % 10) ∷ []

not_ltb : (m n : ℕ) → n ≤ m → ltb m n ≡ false
not_ltb m n h = ground arith

decimal_one : (n : ℕ) → n < 10 → decimal n ≡ digit n ∷ []
unfolding decimal
decimal_one n h = rw (lt→ltb n 10 h) refl

decimal_two : (n : ℕ) → 10 ≤ n → n < 100 → decimal n ≡ digit (n / 10) ∷ digit (n % 10) ∷ []
unfolding decimal
decimal_two n l h = rw (not_ltb n 10 l, lt→ltb (n / 10) 10 (omega arith)) refl

decimal_three :
    (n : ℕ)
    → 100 ≤ n
    → n < 1000
    → decimal n ≡ digit (n / 10 / 10) ∷ digit (n / 10 % 10) ∷ digit (n % 10) ∷ []
unfolding decimal
decimal_three n l h =
    rw
      (
        not_ltb n 10 (omega arith),
        not_ltb (n / 10) 10 (omega arith),
        lt→ltb (n / 10 / 10) 10 (omega arith),
      )
      refl

length-decimal_upto : (k digits n : ℕ) → n < 10 ^ suc k → length (decimal_upto digits n) ≤ suc k
length-decimal_upto k zero n h = omega arith
length-decimal_upto zero (suc digits) n h = rw (lt→ltb n 10 (omega arith)) (omega arith)
length-decimal_upto (suc k) (suc digits) n h = elim (dec_lt n 10) [
  | yes l ↦ rw (lt→ltb n 10 l) (omega arith)
  | no l ↦
      rw
        (
          not_ltb n 10 (omega arith),
          length-append (decimal_upto digits (n / 10)) (digit (n % 10) ∷ []),
        )
        (omega (arith, length-decimal_upto k digits (n / 10) (omega arith)))
]

length-decimal : (n : ℕ) → n < 10000 → length (decimal n) ≤ 4
unfolding decimal
length-decimal n h = length-decimal_upto 3 10 n h

decimal_upto-IsText : (digits n : ℕ) → IsText (decimal_upto digits n)
decimal_upto-IsText zero n = tt
decimal_upto-IsText (suc digits) n = elim (Bool-cases (ltb n 10)) [
  | inl e ↦ rw e (omega arith, tt)
  | inr e ↦ rw e (
      IsText-append (decimal_upto digits (n / 10)) (digit (n % 10) ∷ [])
        (decimal_upto-IsText digits (n / 10)) (omega arith, tt))
]

decimal-IsText : (n : ℕ) → IsText (decimal n)
unfolding decimal
decimal-IsText n = decimal_upto-IsText 10 n

digits_eq :
    (a b c a' b' c' : ℕ)
    → a ≡ a'
    → b ≡ b'
    → c ≡ c'
    → digit a ∷ digit b ∷ digit c ∷ [] ≡ digit a' ∷ digit b' ∷ digit c' ∷ []
digits_eq a b c a' b' c' p q r = rw (p, q, r) refl

padded-two : (n : ℕ) → n < 100 → padded 2 n ≡ two n
unfolding padded
padded-two n h = elim (dec_lt n 10) [
  | yes l ↦ rw (decimal_one n l) (
      ap (λ ds. take 2 (drop 1 ds))
        (digits_eq 0 0 n 0 (n / 10) (n % 10) refl (omega arith) (omega arith)))
  | no l ↦ rw (decimal_two n (omega arith) h) refl
]

padded-three : (n : ℕ) → n < 1000 → padded 3 n ≡ three n
unfolding padded
padded-three n h = elim (dec_lt n 10) [
  | yes l ↦
      rw (decimal_one n l)
        (digits_eq 0 0 n (n / 100) (n / 10 % 10) (n % 10) (omega arith) (omega arith) (omega arith))
  | no l ↦ elim (dec_lt n 100) [
    | yes m ↦ rw (decimal_two n (omega arith) m) (
        digits_eq 0 (n / 10) (n % 10) (n / 100) (n / 10 % 10) (n % 10) (omega arith) (omega arith)
          refl)
    | no m ↦ rw (decimal_three n (omega arith) h) (
        digits_eq (n / 10 / 10) (n / 10 % 10) (n % 10) (n / 100) (n / 10 % 10) (n % 10)
          (omega arith) refl refl)
  ]
]

-- Hours, minutes, seconds and milliseconds.
abbrev pub clock : ℕ → ℕ → ℕ → ℕ → List ℕ
clock h min s ms = decimal h ++ b':' ∷ (two min ++ b':' ∷ (two s ++ b'.' ∷ three ms))

clock-IsText : (h min s ms : ℕ) → IsText (clock h min s ms)
clock-IsText h min s ms =
    IsText-append (decimal h) (b':' ∷ (two min ++ b':' ∷ (two s ++ b'.' ∷ three ms)))
      (decimal-IsText h)
      (
        omega arith,
        (
          omega arith,
          (
            omega arith,
            (
              omega arith,
              (
                omega arith,
                (omega arith, (omega arith, (omega arith, (omega arith, (omega arith, tt))))),
              ),
            ),
          ),
        ),
      )

-- The text of an uptime that fits 32 bits.
abbrev pub time_text : ℕ → List ℕ
time_text now = clock (now / 1000 / 60 / 60) (now / 1000 / 60 % 60) (now / 1000 % 60) (now % 1000)

pub c_string-now_str : (now : ℕ) → now < 2 ^ 32 → c_string (now_str now) ≡ ok (time_text now)
unfolding now_str
c_string-now_str now small =
    rw
      (
        padded-two (now / 1000 / 60 % 60) (omega arith),
        padded-two (now / 1000 % 60) (omega arith),
        padded-three (now % 1000) (omega arith),
      )
      (ap (λ text. c_string (text ++ 0 ∷ []))
          (take-append_short 15 (decimal (now / 1000 / 60 / 60))
            (b':'
              ∷ (two (now / 1000 / 60 % 60)
                  ++ b':' ∷ (two (now / 1000 % 60) ++ b'.' ∷ three (now % 1000))))
            (omega (arith, length-decimal (now / 1000 / 60 / 60) (omega arith))))
        ∙ c_string-append (time_text now) []
        ∙ ap ok (
            until_nul_of_IsText (time_text now) (
              clock-IsText (now / 1000 / 60 / 60) (now / 1000 / 60 % 60) (now / 1000 % 60)
                (now % 1000))))

-- `now_str` at an uptime of h hours, min minutes, s seconds and ms milliseconds, below 2 ^ 32
-- milliseconds: its buffer of 16 bytes holds the whole text "h:min:s.ms", with two digits for min and
-- s and three for ms, and its NUL.
pub now_str_lem :
    (h min s ms : ℕ)
    → min < 60
    → s < 60
    → ms < 1000
    → ((h * 60 + min) * 60 + s) * 1000 + ms < 2 ^ 32
    → c_string (now_str (((h * 60 + min) * 60 + s) * 1000 + ms)) ≡ ok (clock h min s ms)
now_str_lem h min s ms p q r small =
    c_string-now_str (((h * 60 + min) * 60 + s) * 1000 + ms) small
    ∙ fields (((h * 60 + min) * 60 + s) * 1000 + ms) (omega arith) (omega arith) (omega arith)
        (omega arith)
  where
    fields :
        (now : ℕ)
        → now / 1000 / 60 / 60 ≡ h
        → now / 1000 / 60 % 60 ≡ min
        → now / 1000 % 60 ≡ s
        → now % 1000 ≡ ms
        → ok (time_text now) ≡ ok (clock h min s ms)
    fields now e1 e2 e3 e4 = rw (e1, e2, e3, e4) refl
