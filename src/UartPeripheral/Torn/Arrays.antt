-- ===== src/UartPeripheral/Torn/Arrays.antt =====
-- An array of characters that ends with a NUL, while and after a string is copied into it.
use echo_bot.Prelude.{
  ℕ, zero, suc, ◌+◌, ◌≤◌, ◌<◌, ◌≡◌, refl, ap, inl, inr, Bool, Bool-cases, List, [], ◌∷◌, ◌++◌,
  arith, length, set, take, drop, replicate, until_nul, ◌==◌, if◌then◌else◌, subst, ◌≢◌,
}

-- `memcpy(a, src, length of src)` at a moment in which the marked bytes have been written.
abbrev pub partly : List Bool → List ℕ → List ℕ → List ℕ
partly [] src a = a
partly (b ∷ bs) [] a = a
partly (b ∷ bs) (c ∷ src) [] = []
partly (b ∷ bs) (c ∷ src) (x ∷ a) = (if b then c else x) ∷ partly bs src a

-- The byte that stands where `x` stood: the first of `new` if it is there and marked.
abbrev pub chosen : List Bool → List ℕ → ℕ → ℕ
chosen (mark ∷ marks) (n ∷ new) x = if mark then n else x
chosen _ _ x = x

-- `text` is what is read up to the first NUL, or to the end of `old`, where the marked bytes of `new`
-- stand in place of those of `old`.
pub data Mixes : (marks : List Bool) (new old text : List ℕ) → Type 0 where
  at_end : {marks : List Bool} {new : List ℕ} → Mixes marks new [] []
  at_nul :
      {marks : List Bool} {new old : List ℕ} {x : ℕ}
      → chosen marks new x ≡ 0
      → Mixes marks new (x ∷ old) []
  next :
      {marks : List Bool} {new old text : List ℕ} {x c : ℕ}
      → chosen marks new x ≡ c
      → c ≢ 0
      → Mixes (drop 1 marks) (drop 1 new) old text
      → Mixes marks new (x ∷ old) (c ∷ text)

-- The array behind the whole call, without its last byte.
abbrev pub stored : List ℕ → List ℕ → List ℕ
stored src [] = []
stored [] (x ∷ a) = 0 ∷ a
stored (c ∷ src) (x ∷ a) = c ∷ stored src a

pub partly-last :
    (bs : List Bool) (src a : List ℕ)
    → length src ≤ length a
    → partly bs src (a ++ 0 ∷ []) ≡ partly bs src a ++ 0 ∷ []
partly-last [] src a h = refl
partly-last (b ∷ bs) [] a h = refl
partly-last (b ∷ bs) (c ∷ src) [] h = absurd (omega arith)
partly-last (b ∷ bs) (c ∷ src) (x ∷ a) h =
    ap (λ l. (if b then c else x) ∷ l) (partly-last bs src a (omega arith))

reads :
    (marks : List Bool) (new old : List ℕ) (x : ℕ) (rest : List ℕ)
    → Mixes (drop 1 marks) (drop 1 new) old (until_nul rest)
    → Mixes marks new (x ∷ old) (until_nul (chosen marks new x ∷ rest))
reads marks new old x rest h = elim (Bool-cases (chosen marks new x == 0)) [
  | inl e ↦ rw e (at_nul (ground arith))
  | inr e ↦ rw e (next refl (λ nul. ground arith) h)
]

partly-nothing : (bs : List Bool) (a : List ℕ) → partly bs [] a ≡ a
partly-nothing [] a = refl
partly-nothing (b ∷ bs) a = refl

-- What is sent at a moment of the copying.
pub Mixes-until_nul-partly :
    (bs : List Bool) (src a : List ℕ) → Mixes bs src a (until_nul (partly bs src a))
Mixes-until_nul-partly [] src [] = at_end
Mixes-until_nul-partly (b ∷ bs) [] [] = at_end
Mixes-until_nul-partly (b ∷ bs) (c ∷ src) [] = at_end
Mixes-until_nul-partly [] src (x ∷ a) =
    reads [] src a x a (Mixes-until_nul-partly [] (drop 1 src) a)
Mixes-until_nul-partly (b ∷ bs) [] (x ∷ a) = reads (b ∷ bs) [] a x a (
    subst (λ l. Mixes bs [] a (until_nul l)) (partly-nothing bs a) (Mixes-until_nul-partly bs [] a))
Mixes-until_nul-partly (b ∷ bs) (c ∷ src) (x ∷ a) =
    reads (b ∷ bs) (c ∷ src) a x (partly bs src a) (Mixes-until_nul-partly bs src a)

pub set-stored :
    (src a : List ℕ)
    → length src ≤ length a
    → set (src ++ drop (length src) (a ++ 0 ∷ [])) (length src) 0 ≡ stored src a ++ 0 ∷ []
set-stored [] [] h = refl
set-stored [] (x ∷ a) h = refl
set-stored (c ∷ src) [] h = absurd (omega arith)
set-stored (c ∷ src) (x ∷ a) h = ap (λ l. c ∷ l) (set-stored src a (omega arith))

pub until_nul-stored :
    (src a : List ℕ) → length src ≤ length a → until_nul (stored src a) ≡ until_nul src
until_nul-stored [] [] h = refl
until_nul-stored [] (x ∷ a) h = refl
until_nul-stored (c ∷ src) [] h = absurd (omega arith)
until_nul-stored (c ∷ src) (x ∷ a) h = ground (arith, until_nul-stored src a)

pub length-stored : (src a : List ℕ) → length (stored src a) ≡ length a
length-stored src [] = refl
length-stored [] (x ∷ a) = refl
length-stored (c ∷ src) (x ∷ a) = ap suc (length-stored src a)

-- The initial array: a string, and NULs.
pub take-nuls :
    (n k : ℕ) (a : List ℕ)
    → length a ≤ n
    → n < length a + k
    → take (suc n) (a ++ replicate k 0) ≡ take n (a ++ replicate k 0) ++ 0 ∷ []
take-nuls n zero [] h l = absurd (omega arith)
take-nuls zero (suc k) [] h l = refl
take-nuls (suc n) (suc k) [] h l = ap (λ l. 0 ∷ l) (take-nuls n k [] (omega arith) (omega arith))
take-nuls zero k (x ∷ a) h l = absurd (omega arith)
take-nuls (suc n) k (x ∷ a) h l = ap (λ l. x ∷ l) (take-nuls n k a (omega arith) (omega arith))

pub until_nul-nuls :
    (n k : ℕ) (a : List ℕ) → length a ≤ n → until_nul (take n (a ++ replicate k 0)) ≡ until_nul a
until_nul-nuls zero k [] h = refl
until_nul-nuls (suc n) zero [] h = refl
until_nul-nuls (suc n) (suc k) [] h = refl
until_nul-nuls zero k (x ∷ a) h = absurd (omega arith)
until_nul-nuls (suc n) k (x ∷ a) h = ground (arith, until_nul-nuls n k a)
