-- ===== src/UartPeripheral/Receive/Split.antt =====
-- The pieces of a stream of bytes: texts that end with a NUL, and runs of a full buffer without one.
-- No buffer, and no driver.
use echo_bot.Prelude.{
  ℕ, ◌<◌, ◌≡◌, refl, sym, ap, ◌∙◌, Bool, true, false, ◌||◌, List, [], ◌∷◌, ◌++◌, append_assoc, ◌==◌,
  if◌then◌else◌, length, ==_iff, lt→ne,
}

-- The byte `c` behind the bytes `line`: the piece that it completes, if any, with whether it is a
-- string, and what is then held. A buffer takes `n` bytes.
abbrev pub completed : ℕ → List ℕ → ℕ → List (Bool × List ℕ)
completed n line c =
    if c == 0
    then (true, line ++ c ∷ []) ∷ []
    else if length (line ++ c ∷ []) == n
    then (false, line ++ c ∷ []) ∷ []
    else []

abbrev pub next : ℕ → List ℕ → ℕ → List ℕ
next n line c = if c == 0 || length (line ++ c ∷ []) == n then [] else line ++ c ∷ []

abbrev pub split : ℕ → List ℕ → List ℕ → List (Bool × List ℕ)
split n line [] = []
split n line (c ∷ cs) = completed n line c ++ split n (next n line c) cs

abbrev pub rest : ℕ → List ℕ → List ℕ → List ℕ
rest n line [] = line
rest n line (c ∷ cs) = rest n (next n line c) cs

pub split-append :
    (n : ℕ) (line cs ds : List ℕ)
    → split n line (cs ++ ds) ≡ split n line cs ++ split n (rest n line cs) ds
split-append n line [] ds = refl
split-append n line (c ∷ cs) ds =
    ap (λ l. completed n line c ++ l) (split-append n (next n line c) cs ds)
    ∙ sym (
        append_assoc (completed n line c) (split n (next n line c) cs)
          (split n (rest n (next n line c) cs) ds))

pub rest-append :
    (n : ℕ) (line cs ds : List ℕ) → rest n line (cs ++ ds) ≡ rest n (rest n line cs) ds
rest-append n line [] ds = refl
rest-append n line (c ∷ cs) ds = rest-append n (next n line c) cs ds

-- The cases of one byte.
pub split_string :
    (n : ℕ) (line : List ℕ) (c : ℕ)
    → (c == 0) ≡ true
    → (split n line (c ∷ []) ≡ (true, line ++ c ∷ []) ∷ []) × (rest n line (c ∷ []) ≡ [])
split_string n line c z = (rw z, rw z)

pub split_full :
    (n : ℕ) (line : List ℕ) (c : ℕ)
    → (c == 0) ≡ false
    → length (line ++ c ∷ []) ≡ n
    → (split n line (c ∷ []) ≡ (false, line ++ c ∷ []) ∷ []) × (rest n line (c ∷ []) ≡ [])
split_full n line c nz full =
    let e = (==_iff (length (line ++ c ∷ [])) n).1 full in (rw (nz, e), rw (nz, e))

pub split_more :
    (n : ℕ) (line : List ℕ) (c : ℕ)
    → (c == 0) ≡ false
    → length (line ++ c ∷ []) < n
    → (split n line (c ∷ []) ≡ []) × (rest n line (c ∷ []) ≡ line ++ c ∷ [])
split_more n line c nz more =
    let e = lt→ne (length (line ++ c ∷ [])) n more in (rw (nz, e), rw (nz, e))
