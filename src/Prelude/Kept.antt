-- ===== src/Prelude/Kept.antt =====
-- What is left of a list when some of its elements are dropped.
use echo_bot.Prelude.{ℕ, zero, suc, ◌≤◌, ◌≡◌, refl, ap, List, [], ◌∷◌, ◌++◌, arith, length, take}

-- The first list is the second with some elements left out.
pub data Kept {ℓ} {A : Type ℓ} : List A → List A → Type ℓ where
  nothing : Kept [] []
  keep : {xs ys : List A} (x : A) → Kept xs ys → Kept (x ∷ xs) (x ∷ ys)
  skip : {xs ys : List A} (x : A) → Kept xs ys → Kept xs (x ∷ ys)

module _ {ℓ} {A : Type ℓ} where
  pub Kept-append :
      {xs ys xs' ys' : List A} → Kept xs ys → Kept xs' ys' → Kept (xs ++ xs') (ys ++ ys')
  Kept-append nothing k = k
  Kept-append (keep x h) k = keep x (Kept-append h k)
  Kept-append (skip x h) k = skip x (Kept-append h k)

  pub Kept-nil : (ys : List A) → Kept [] ys
  Kept-nil [] = nothing
  Kept-nil (y ∷ ys) = skip y (Kept-nil ys)

  pub Kept-take : (n : ℕ) (ys : List A) → Kept (take n ys) ys
  Kept-take zero ys = Kept-nil ys
  Kept-take (suc n) [] = nothing
  Kept-take (suc n) (y ∷ ys) = keep y (Kept-take n ys)

  pub length-Kept : {xs ys : List A} → Kept xs ys → length xs ≤ length ys
  length-Kept nothing = omega arith
  length-Kept (keep x h) = omega (arith, length-Kept h)
  length-Kept (skip x h) = omega (arith, length-Kept h)

  -- With as many elements left as there were, none is left out.
  pub eq_of_Kept : {xs ys : List A} → Kept xs ys → length ys ≤ length xs → xs ≡ ys
  eq_of_Kept nothing h = refl
  eq_of_Kept (keep x k) h = ap (λ zs. x ∷ zs) (eq_of_Kept k (omega arith))
  eq_of_Kept (skip x k) h = absurd (omega (arith, length-Kept k))
