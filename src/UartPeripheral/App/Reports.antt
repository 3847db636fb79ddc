-- ===== src/UartPeripheral/App/Reports.antt =====
-- The reports that pieces of the stream ask for.
use echo_bot.Prelude.{
  ℕ, ◌+◌, ◌≡◌, refl, sym, ap, ◌∙◌, Bool, true, false, List, [], ◌∷◌, ◌++◌, append_assoc, until_nul,
}
use echo_bot.UartPeripheral.App.{Counter, Report}

-- The bytes that a report stands for: a string's NUL is not printed.
abbrev pub spoken : Report → List ℕ
spoken r = r.text ++ elim r.is_string [ true ↦ 0 ∷ [] | false ↦ [] ]

abbrev pub spoken_all : List Report → List ℕ
spoken_all [] = []
spoken_all (r ∷ rs) = spoken r ++ spoken_all rs

pub spoken_all-append :
    (rs ss : List Report) → spoken_all (rs ++ ss) ≡ spoken_all rs ++ spoken_all ss
spoken_all-append [] ss = refl
spoken_all-append (r ∷ rs) ss =
    ap (λ l. spoken r ++ l) (spoken_all-append rs ss)
    ∙ sym (append_assoc (spoken r) (spoken_all rs) (spoken_all ss))

-- The counts behind a piece, and behind pieces.
abbrev pub counted : Bool → Counter → Counter
counted true c = record c { strings = c.strings + 1 }
counted false c = record c { overflows = c.overflows + 1 }

abbrev pub tally : List (Bool × List ℕ) → Counter → Counter
tally [] c = c
tally (p ∷ ps) c = tally ps (counted p.0 c)

-- A piece is reported without its NUL, with the counts behind it.
abbrev pub report_of : Bool × List ℕ → Counter → Report
report_of p c = record { is_string = p.0; text = until_nul p.1; counts = counted p.0 c }

abbrev pub reports_of : List (Bool × List ℕ) → Counter → List Report
reports_of [] c = []
reports_of (p ∷ ps) c = report_of p c ∷ reports_of ps (counted p.0 c)

pub tally-append :
    (ps qs : List (Bool × List ℕ)) (c : Counter) → tally (ps ++ qs) c ≡ tally qs (tally ps c)
tally-append [] qs c = refl
tally-append (p ∷ ps) qs c = tally-append ps qs (counted p.0 c)

pub reports_of-append :
    (ps qs : List (Bool × List ℕ)) (c : Counter)
    → reports_of (ps ++ qs) c ≡ reports_of ps c ++ reports_of qs (tally ps c)
reports_of-append [] qs c = refl
reports_of-append (p ∷ ps) qs c =
    ap (λ l. report_of p c ∷ l) (reports_of-append ps qs (counted p.0 c))
