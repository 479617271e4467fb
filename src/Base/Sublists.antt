-- ===== src/Base/Sublists.antt =====
-- The lists that arise from a list when elements are left out.
use mathlib.Core.Path.{◌≡◌, refl, ◌∙◌}
use mathlib.Core.Logic.{◌⊎◌, inl, inr}
use mathlib.Core.List.{List, [], ◌∷◌, ◌++◌, append_assoc}

module _ {ℓ} {A : Type ℓ} where
  abbrev pub IsSublist : List A → List A → Type ℓ
  IsSublist [] ys = Unit
  IsSublist (x ∷ xs) [] = x ∷ xs ≡ []
  IsSublist (x ∷ xs) (y ∷ ys) = ((x ≡ y) × IsSublist xs ys) ⊎ IsSublist (x ∷ xs) ys

  pub IsSublist-skip : (xs : List A) (y : A) (ys : List A) → IsSublist xs ys → IsSublist xs (y ∷ ys)
  IsSublist-skip [] y ys p = tt
  IsSublist-skip (x ∷ xs) y ys p = inr p

  pub IsSublist-refl : (xs : List A) → IsSublist xs xs
  IsSublist-refl [] = tt
  IsSublist-refl (x ∷ xs) = inl (refl, IsSublist-refl xs)

  pub IsSublist-trans : (xs ys zs : List A) → IsSublist xs ys → IsSublist ys zs → IsSublist xs zs
  IsSublist-trans [] ys zs p q = tt
  IsSublist-trans (x ∷ xs) [] zs p q = cc
  IsSublist-trans (x ∷ xs) (y ∷ ys) [] p q = cc
  IsSublist-trans (x ∷ xs) (y ∷ ys) (z ∷ zs) p (inr q) =
      inr (IsSublist-trans (x ∷ xs) (y ∷ ys) zs p q)
  IsSublist-trans (x ∷ xs) (y ∷ ys) (z ∷ zs) (inl (e, p)) (inl (f, q)) =
      inl (e ∙ f, IsSublist-trans xs ys zs p q)
  IsSublist-trans (x ∷ xs) (y ∷ ys) (z ∷ zs) (inr p) (inl (f, q)) =
      inr (IsSublist-trans (x ∷ xs) ys zs p q)

  pub IsSublist-append_left :
      (zs xs ys : List A) → IsSublist xs ys → IsSublist (zs ++ xs) (zs ++ ys)
  IsSublist-append_left [] xs ys p = p
  IsSublist-append_left (z ∷ zs) xs ys p = inl (refl, IsSublist-append_left zs xs ys p)

  IsSublist-suffix : (ys zs : List A) → IsSublist zs (ys ++ zs)
  IsSublist-suffix [] zs = IsSublist-refl zs
  IsSublist-suffix (y ∷ ys) zs = IsSublist-skip zs y (ys ++ zs) (IsSublist-suffix ys zs)

  pub IsSublist-append_right :
      (xs ys zs : List A) → IsSublist xs ys → IsSublist (xs ++ zs) (ys ++ zs)
  IsSublist-append_right [] ys zs p = IsSublist-suffix ys zs
  IsSublist-append_right (x ∷ xs) [] zs p = cc
  IsSublist-append_right (x ∷ xs) (y ∷ ys) zs (inl (e, p)) =
      inl (e, IsSublist-append_right xs ys zs p)
  IsSublist-append_right (x ∷ xs) (y ∷ ys) zs (inr p) =
      inr (IsSublist-append_right (x ∷ xs) ys zs p)

  -- Two steps in a row: what the second leaves of what the first left.
  pub IsSublist-then :
      (s s' e q a a' k : List A)
      → IsSublist (s ++ k) (q ++ a)
      → IsSublist (s' ++ e) (k ++ a')
      → IsSublist ((s ++ s') ++ e) (q ++ (a ++ a'))
  IsSublist-then s s' e q a a' k first second =
      rw (append_assoc s s' e, ← append_assoc q a a')
        (IsSublist-trans (s ++ (s' ++ e)) ((s ++ k) ++ a') ((q ++ a) ++ a')
          (rw (append_assoc s k a') (IsSublist-append_left s (s' ++ e) (k ++ a') second))
          (IsSublist-append_right (s ++ k) (q ++ a) a' first))
