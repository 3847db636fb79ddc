-- ===== src/Zephyr/ByteRing/Awake.antt =====
-- A ring whose bytes go out by an interrupt that is switched on when bytes are put, and off when there
-- are none to get.
use echo_bot.Prelude.{
  ℕ, zero, suc, ◌⊎◌, ◌≡◌, ◌≢◌, refl, ap, inl, inr, Bool, true, false, List, [], ◌∷◌, ◌++◌,
  append-nil, arith, ◌==◌, if◌then◌else◌, length, take, drop, min, suc_ne,
}
use native.Mathlib.Decide.{ℕ_discrete}

-- No byte waits with the interrupt off.
abbrev pub IsAwake : Bool → List ℕ → Type 0
IsAwake on waiting = (on ≡ true) ⊎ (waiting ≡ [])

pub ne_zero : (n : ℕ) → n ≢ 0 → (n == 0) ≡ false
ne_zero n h = ground arith

suc_ne_zero : {n : ℕ} → suc n ≢ 0
suc_ne_zero h = omega arith

take_none : (n : ℕ) (src : List ℕ) → min (length src) n ≡ 0 → take n src ≡ []
take_none zero src h = refl
take_none (suc n) [] h = refl
take_none (suc n) (c ∷ src) h = absurd (omega arith)

-- The interrupt after a put that wrote so many bytes, and after a get that got so many.
abbrev pub after_put : Bool → ℕ → Bool
after_put on wrote = if wrote == 0 then on else true

abbrev pub after_get : Bool → ℕ → Bool
after_get on got = if got == 0 then false else on

pub put-IsAwake :
    (on : Bool) (before src : List ℕ) (room : ℕ)
    → IsAwake on before
    → IsAwake (after_put on (min (length src) room)) (before ++ take room src)
put-IsAwake on before src room h = elim (ℕ_discrete (min (length src) room) 0) [
  | yes e ↦ rw (e, take_none room src e, append-nil before) h
  | no k ↦ inl (rw (ne_zero (min (length src) room) k) refl)
]

pub get-IsAwake :
    (on : Bool) (before : List ℕ) (n : ℕ)
    → IsAwake on before
    → IsAwake (after_get on (length (take (suc n) before))) (drop (suc n) before)
get-IsAwake on [] n h = inr refl
get-IsAwake on (c ∷ before) n h = elim h [
  | inl e ↦ inl (rw (suc_ne (length (take n before))) e)
  | inr e ↦ absurd (suc_ne_zero (ap length e))
]
