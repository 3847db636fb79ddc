-- ===== src/Prelude/Memory.antt =====
-- C arrays of bytes as lists, and the string.h functions that the code calls on them. Every access
-- is checked: one outside the object is a fault.
use Prim.Native.Nat.{ℕ, zero, suc, ◌+◌, ◌-◌, ◌≤◌, ◌<◌}
use mathlib.Core.Path.{◌≡◌, refl, ap, ◌∙◌}
use mathlib.Core.List.{List, [], ◌∷◌, ◌++◌}
use native.Mathlib.Numerals.{add-one}
use native.Mathlib.Omega.{arith}
use echo_bot.Prelude.Tests.{ltb, leb, ◌==◌, if◌then◌else◌}
use echo_bot.Prelude.Lists.{length, length-replicate, replicate, set, take, drop}
use echo_bot.Prelude.Faults.{Result, ok, fault, out_of_bounds, ◌>>=◌}

-- `a[i] = v`
abbrev pub store : List ℕ → ℕ → ℕ → Result (List ℕ)
store a i v = if ltb i (length a) then ok (set a i v) else fault out_of_bounds

-- `memcpy(a + off, src, length of src)`
abbrev pub copy_in : List ℕ → ℕ → List ℕ → Result (List ℕ)
copy_in a off src =
    if leb (off + length src) (length a)
    then ok (take off a ++ (src ++ drop (off + length src) a))
    else fault out_of_bounds

-- the first `n` bytes that stand at `a`
abbrev pub read : List ℕ → ℕ → Result (List ℕ)
read a n = if leb n (length a) then ok (take n a) else fault out_of_bounds

-- the bytes before the first NUL, or all
abbrev pub until_nul : List ℕ → List ℕ
until_nul [] = []
until_nul (c ∷ cs) = if c == 0 then [] else c ∷ until_nul cs

-- The string at `a`, as `strlen` and `%s` walk it: with no NUL in the object they leave it.
abbrev pub c_string : List ℕ → Result (List ℕ)
c_string [] = fault out_of_bounds
c_string (c ∷ cs) = let rest = c_string cs in if c == 0 then ok [] else rest >>= λ s. ok (c ∷ s)

pub store_ok : (a : List ℕ) (i v : ℕ) → i < length a → store a i v ≡ ok (set a i v)
store_ok a i v h = ground arith

pub store_fault : (a : List ℕ) (i v : ℕ) → length a ≤ i → store a i v ≡ fault out_of_bounds
store_fault a i v h = ground arith

pub copy_in_ok :
    (a : List ℕ) (off : ℕ) (src : List ℕ)
    → off + length src ≤ length a
    → copy_in a off src ≡ ok (take off a ++ (src ++ drop (off + length src) a))
copy_in_ok a off src h = ground arith

pub copy_in_fault :
    (a : List ℕ) (off : ℕ) (src : List ℕ)
    → length a < off + length src
    → copy_in a off src ≡ fault out_of_bounds
copy_in_fault a off src h = ground arith

take-suc-set : (a : List ℕ) (i v : ℕ) → i < length a → take (suc i) (set a i v) ≡ take i a ++ v ∷ []
take-suc-set [] i v h = absurd (omega arith)
take-suc-set (x ∷ a) zero v h = refl
take-suc-set (x ∷ a) (suc i) v h = ap (λ l. x ∷ l) (take-suc-set a i v (omega arith))

-- A byte stored behind the first `i` extends them.
pub take-set : (a : List ℕ) (i v : ℕ) → i < length a → take (i + 1) (set a i v) ≡ take i a ++ v ∷ []
take-set a i v h = rw add-one (take-suc-set a i v h)

pub take-length : (n : ℕ) (a : List ℕ) → n ≡ length a → take n a ≡ a
take-length zero [] e = refl
take-length zero (x ∷ a) e = absurd (omega arith)
take-length (suc n) [] e = refl
take-length (suc n) (x ∷ a) e = ap (λ l. x ∷ l) (take-length n a (omega arith))

pub take-append : (a b : List ℕ) → take (length a) (a ++ b) ≡ a
take-append [] b = refl
take-append (x ∷ a) b = ap (λ l. x ∷ l) (take-append a b)

-- A NUL stored behind the first `i` bytes ends the string there, or at an earlier NUL.
pub c_string-set :
    (a : List ℕ) (i : ℕ) → i < length a → c_string (set a i 0) ≡ ok (until_nul (take i a))
c_string-set [] i h = absurd (omega arith)
c_string-set (x ∷ a) zero h = refl
c_string-set (x ∷ a) (suc i) h = ground (arith, c_string-set a i)

pub c_string-append : (a b : List ℕ) → c_string (a ++ 0 ∷ b) ≡ ok (until_nul a)
c_string-append [] b = refl
c_string-append (x ∷ a) b = ground (arith, c_string-append a b)

-- No byte is a NUL.
abbrev pub IsText : List ℕ → Type 0
IsText [] = Unit {0}
IsText (c ∷ cs) = (0 < c) × IsText cs

pub until_nul_IsText : (a : List ℕ) → IsText (until_nul a)
until_nul_IsText [] = tt
until_nul_IsText (x ∷ a) = ground (arith, until_nul_IsText a)

pub until_nul_of_IsText : (a : List ℕ) → IsText a → until_nul a ≡ a
until_nul_of_IsText [] h = refl
until_nul_of_IsText (x ∷ a) h = ground (arith, until_nul_of_IsText a)

-- Without a NUL the walk leaves the object.
pub c_string_fault : (a : List ℕ) → IsText a → c_string a ≡ fault out_of_bounds
c_string_fault [] h = refl
c_string_fault (x ∷ a) h = ground (arith, c_string_fault a)

pub take-append_short : (n : ℕ) (a b : List ℕ) → length a + length b ≤ n → take n (a ++ b) ≡ a ++ b
take-append_short zero [] [] h = refl
take-append_short zero [] (y ∷ b) h = absurd (omega arith)
take-append_short zero (x ∷ a) b h = absurd (omega arith)
take-append_short (suc n) [] [] h = refl
take-append_short (suc n) [] (y ∷ b) h = ap (λ l. y ∷ l) (take-append_short n [] b (omega arith))
take-append_short (suc n) (x ∷ a) b h = ap (λ l. x ∷ l) (take-append_short n a b (omega arith))

pub take-append_long : (n : ℕ) (a b : List ℕ) → n ≤ length a → take n (a ++ b) ≡ take n a
take-append_long zero a b h = refl
take-append_long (suc n) [] b h = absurd (omega arith)
take-append_long (suc n) (x ∷ a) b h = ap (λ l. x ∷ l) (take-append_long n a b (omega arith))

pub take_all : (n : ℕ) (a : List ℕ) → length a ≤ n → take n a ≡ a
take_all zero [] h = refl
take_all zero (x ∷ a) h = absurd (omega arith)
take_all (suc n) [] h = refl
take_all (suc n) (x ∷ a) h = ap (λ l. x ∷ l) (take_all n a (omega arith))

pub IsText-append : (a b : List ℕ) → IsText a → IsText b → IsText (a ++ b)
IsText-append [] b ha hb = hb
IsText-append (x ∷ a) b ha hb = (ha.0, IsText-append a b ha.1 hb)

pub read_ok : (a : List ℕ) (n : ℕ) → n ≤ length a → read a n ≡ ok (take n a)
read_ok a n h = ground arith

pub read_fault : (a : List ℕ) (n : ℕ) → length a < n → read a n ≡ fault out_of_bounds
read_fault a n h = ground arith

-- `%.*s` with precision `n`: the walk stops at a NUL or behind `n` bytes.
abbrev pub c_string_upto : ℕ → List ℕ → Result (List ℕ)
c_string_upto zero a = ok []
c_string_upto (suc n) [] = fault out_of_bounds
c_string_upto (suc n) (c ∷ cs) =
    let rest = c_string_upto n cs in if c == 0 then ok [] else rest >>= λ s. ok (c ∷ s)

pub c_string_upto_text :
    (n : ℕ) (a : List ℕ) → n ≤ length a → IsText (take n a) → c_string_upto n a ≡ ok (take n a)
c_string_upto_text zero a h t = refl
c_string_upto_text (suc n) [] h t = absurd (omega arith)
c_string_upto_text (suc n) (x ∷ a) h t = ground (arith, c_string_upto_text n a)

-- How many bytes are NUL.
abbrev pub nuls : List ℕ → ℕ
nuls [] = 0
nuls (c ∷ cs) = let rest = nuls cs in if c == 0 then suc rest else rest

pub nuls-append : (a b : List ℕ) → nuls (a ++ b) ≡ nuls a + nuls b
nuls-append [] b = omega arith
nuls-append (x ∷ a) b = ground (arith, nuls-append a b)

pub nuls_of_IsText : (a : List ℕ) → IsText a → nuls a ≡ 0
nuls_of_IsText [] h = refl
nuls_of_IsText (x ∷ a) h = ground (arith, nuls_of_IsText a)

pub take-take : (n m : ℕ) (a : List ℕ) → n ≤ m → take n (take m a) ≡ take n a
take-take zero m a h = refl
take-take (suc n) zero a h = absurd (omega arith)
take-take (suc n) (suc m) [] h = refl
take-take (suc n) (suc m) (x ∷ a) h = ap (λ l. x ∷ l) (take-take n m a (omega arith))

drop-replicate : (n m : ℕ) → drop n (replicate m 0) ≡ replicate {A = ℕ} (m - n) 0
drop-replicate zero m = ap (λ k. replicate {A = ℕ} k 0) {y = m - 0} (omega arith)
drop-replicate (suc n) zero = ap (λ k. replicate {A = ℕ} k 0) {x = 0} {y = 0 - suc n} (omega arith)
drop-replicate (suc n) (suc m) =
    drop-replicate n m
    ∙ ap (λ k. replicate {A = ℕ} k 0) {x = m - n} {y = suc m - suc n} (omega arith)

-- Bytes copied to the front of an array of NULs.
pub copy_in-replicate :
    (text : List ℕ) (size m : ℕ)
    → length text ≡ size
    → size ≤ m
    → copy_in (replicate m 0) 0 text ≡ ok (text ++ replicate (m - size) 0)
copy_in-replicate text size m e h =
    copy_in_ok (replicate m 0) 0 text (omega (arith, length-replicate {A = ℕ} m 0))
    ∙ ap (λ t. ok (text ++ t))
        (drop-replicate (0 + length text) m
          ∙ ap (λ n. replicate {A = ℕ} n 0) {y = m - size} (omega (arith)))

pub padding : (m : ℕ) → 0 < m → replicate m 0 ≡ 0 ∷ replicate {A = ℕ} (m - 1) 0
padding zero h = absurd (omega arith)
padding (suc m) h = ap (λ k. 0 ∷ replicate {A = ℕ} k 0) {x = m} {y = suc m - 1} (omega arith)

-- A NUL behind a string that lies in front of the cut.
c_string-take :
    (n : ℕ) (a b : List ℕ) → length a < n → c_string (take n (a ++ 0 ∷ b)) ≡ ok (until_nul a)
c_string-take zero a b h = absurd (omega arith)
c_string-take (suc n) [] b h = refl
c_string-take (suc n) (x ∷ a) b h = ground (arith, c_string-take n a b)

-- An array with an initial string, filled up with NULs.
pub c_string-initial :
    (m : ℕ) (a : List ℕ)
    → length a ≤ m
    → c_string (take (m + 1) (a ++ replicate (m + 1) 0)) ≡ ok (until_nul a)
c_string-initial m a h =
    ap (λ p. c_string (take (m + 1) (a ++ p))) (padding (m + 1) (omega arith))
    ∙ c_string-take (m + 1) a (replicate {A = ℕ} (m + 1 - 1) 0) (omega arith)

pub until_nul-append : (a b : List ℕ) → IsText a → until_nul (a ++ 0 ∷ b) ≡ a
until_nul-append [] b h = refl
until_nul-append (x ∷ a) b h = ground (arith, until_nul-append a b)
