-- ===== src/Base/Sums.antt =====
-- Sums over lists, which a permutation keeps.
use Prim.Native.Nat.{ℕ, ◌+◌}
use mathlib.Core.Path.{◌≡◌, refl, sym, ◌∙◌, ap, ap₂}
use mathlib.Core.List.{List, [], ◌∷◌, ◌++◌, Perm, Permᴰ}
use mathlib.Core.Logic.{∥∥₁_elim}
use mathlib.Core.Bool.{Bool, true}
use native.Mathlib.Omega.{arith}
use native.Mathlib.Nat.{ℕ_set}
use schedule_test.Base.Lists.{All}
use schedule_test.Base.Tests.{if◌then◌else◌}

module _ {ℓ} {A : Type ℓ} (f : A → ℕ) where
  unfoldable pub sum_of : List A → ℕ
  sum_of [] = 0
  sum_of (x ∷ xs) = f x + sum_of xs

  pub sum_of-append : (xs ys : List A) → sum_of (xs ++ ys) ≡ sum_of xs + sum_of ys
  unfolding sum_of
  sum_of-append [] ys = omega arith
  sum_of-append (x ∷ xs) ys = omega (arith, sum_of-append xs ys)

  sum_of-Permᴰ : {xs ys : List A} → Permᴰ xs ys → sum_of xs ≡ sum_of ys
  unfolding sum_of
  sum_of-Permᴰ Permᴰ.nil = refl
  sum_of-Permᴰ (Permᴰ.cons e d) = ap₂ ◌+◌ (ap f e) (sum_of-Permᴰ d)
  sum_of-Permᴰ (Permᴰ.swap {a} {b} {a'} {b'} {l} e₁ e₂) =
      let p : f a ≡ f b' = ap f e₁ in let q : f b ≡ f a' = ap f e₂ in omega arith
  sum_of-Permᴰ (Permᴰ.trans d₁ d₂) = sum_of-Permᴰ d₁ ∙ sum_of-Permᴰ d₂

  pub sum_of-perm : {xs ys : List A} → Perm xs ys → sum_of xs ≡ sum_of ys
  sum_of-perm {xs} {ys} p = ∥∥₁_elim p (ℕ_set (sum_of xs) (sum_of ys)) sum_of-Permᴰ

-- What holds of every entry, as far as it can be tested, holds after a permutation.
module _ {ℓ} {A : Type ℓ} (p : A → Bool) where
  abbrev misfit : A → ℕ
  misfit x = if p x then 0 else 1

  misfits_of_All : (xs : List A) → All (λ x. p x ≡ true) xs → sum_of misfit xs ≡ 0
  unfolding sum_of
  misfits_of_All [] h = refl
  misfits_of_All (x ∷ xs) h = ground (arith, h.0, misfits_of_All xs h.1)

  All-of_misfits : (xs : List A) → sum_of misfit xs ≡ 0 → All (λ x. p x ≡ true) xs
  unfolding sum_of
  All-of_misfits [] h = tt
  All-of_misfits (x ∷ xs) h = (ground arith, All-of_misfits xs (omega arith))

  pub All-perm : {xs ys : List A} → Perm xs ys → All (λ x. p x ≡ true) xs → All (λ x. p x ≡ true) ys
  All-perm {xs} {ys} q h = All-of_misfits ys (sym (sum_of-perm misfit q) ∙ misfits_of_All xs h)
