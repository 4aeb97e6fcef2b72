-- ===== src/Common/Perms.antt =====
-- Permutations and native lengths.
use Prim.Native.Nat.{ℕ, suc}
use mathlib.Core.Path.{◌≡◌, refl, ◌∙◌, ap}
use mathlib.Core.Logic.{∥∥₁_elim}
use mathlib.Core.List.{List, Perm, Permᴰ, map}
use native.Mathlib.Nat.{ℕ_set}
use native.Mathlib.Omega.{arith}
use unitra_service_api.Common.Lists.{length, sum}

Permᴰ-length {ℓ} : {A : Type ℓ} {l r : List A} → Permᴰ l r → length l ≡ length r
Permᴰ-length Permᴰ.nil = refl
Permᴰ-length (Permᴰ.cons _ p) = ap suc (Permᴰ-length p)
Permᴰ-length (Permᴰ.swap _ _) = refl
Permᴰ-length (Permᴰ.trans p q) = Permᴰ-length p ∙ Permᴰ-length q

pub Perm-length {ℓ} : {A : Type ℓ} {l r : List A} → Perm l r → length l ≡ length r
Perm-length p = ∥∥₁_elim p (ℕ_set _ _) Permᴰ-length

Permᴰ-sum {ℓ} : {A : Type ℓ} (f : A → ℕ) {l r : List A} → Permᴰ l r → sum (map f l) ≡ sum (map f r)
Permᴰ-sum f Permᴰ.nil = refl
Permᴰ-sum f (Permᴰ.cons e p) = rw (e, Permᴰ-sum f p) refl
Permᴰ-sum f (Permᴰ.swap d e) = rw (d, e) (omega arith)
Permᴰ-sum f (Permᴰ.trans p q) = Permᴰ-sum f p ∙ Permᴰ-sum f q

-- A sum over a list does not depend on its order.
pub Perm-sum {ℓ} :
    {A : Type ℓ} (f : A → ℕ) {l r : List A} → Perm l r → sum (map f l) ≡ sum (map f r)
Perm-sum f p = ∥∥₁_elim p (ℕ_set _ _) (Permᴰ-sum f)
