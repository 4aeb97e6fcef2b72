-- ===== src/Batch/Heapq/Sorted.antt =====
-- The simplest heap that keeps the promises of `heapq`: a sorted list. It runs in the tests.
use mathlib.Core.List.{Mem, Perm, mem-cons, not-mem-nil}
use mathlib.Core.List.Perm
use mathlib.Core.Logic.Or
use native.Mathlib.Bridge.{le_prop}
use unitra_service_api.Common.{
  ◌≡◌, refl, Option, none, some, List, [], ◌∷◌, if◌then◌else◌, arith, Bool-cases, inl, inr,
}
use unitra_service_api.Common.Int.{ℤ, ◌≤ℤ◌, leb_ℤ}
use unitra_service_api.Batch.Heapq.{Heapq}

module _ {A : Type 0} (key : A → ℤ) where
  abbrev pub insert_sorted : List A → A → List A
  insert_sorted [] x = x ∷ []
  insert_sorted (y ∷ h) x = if leb_ℤ (key x) (key y) then x ∷ y ∷ h else y ∷ insert_sorted h x

  abbrev pub pop_first : List A → Option (A × List A)
  pop_first [] = none
  pop_first (x ∷ h) = some (x, h)

  abbrev pub IsBelow : A → List A → Type 0
  IsBelow x h = (y : A) → Mem y h → key x ≤ℤ key y

  abbrev pub IsSorted : List A → Type 0
  IsSorted [] = Unit
  IsSorted (x ∷ h) = IsBelow x h × IsSorted h

  pub insert_sorted-perm : (h : List A) (x : A) → Perm (insert_sorted h x) (x ∷ h)
  insert_sorted-perm [] x = Perm.refl _
  insert_sorted-perm (y ∷ h) x = elim (Bool-cases (leb_ℤ (key x) (key y))) [
    | inl e ↦ rw e (Perm.refl _)
    | inr e ↦ rw e (Perm.trans (Perm.cons y (insert_sorted-perm h x)) (Perm.swap x y h))
  ]

  pub insert_sorted-IsSorted : (h : List A) (x : A) → IsSorted h → IsSorted (insert_sorted h x)
  insert_sorted-IsSorted [] x s = (λ y m. absurd (not-mem-nil m), tt)
  insert_sorted-IsSorted (y ∷ h) x s = elim (Bool-cases (leb_ℤ (key x) (key y))) [
    | inl e ↦ rw e (
        (
          λ z m.
              Or.elim le_prop (mem-cons.0 m) (λ f. rw f (ground (arith, e)))
                λ f. ground (arith, e, s.0 z f),
          s,
        ))
    | inr e ↦ rw e (
        (
          λ z m.
              Or.elim le_prop (mem-cons.0 ((Perm.mem_iff (insert_sorted-perm h x)).0 m))
                (λ f. rw f (ground (arith, e))) (s.0 z),
          insert_sorted-IsSorted h x s.1,
        ))
  ]

  pub pop_first-perm :
      (h : List A) {y : A} {h' : List A} → pop_first h ≡ some (y, h') → Perm (y ∷ h') h
  pop_first-perm [] e = cc
  pop_first-perm (x ∷ h) {y} {h'} e =
      let p : x ≡ y = cc in let r : h ≡ h' = cc in rw (← p, ← r) (Perm.refl _)

  pub pop_first-IsSorted :
      (h : List A) {y : A} {h' : List A} → IsSorted h → pop_first h ≡ some (y, h') → IsSorted h'
  pop_first-IsSorted [] s e = cc
  pop_first-IsSorted (x ∷ h) {y} {h'} s e = let r : h ≡ h' = cc in rw (← r) s.1

  pub pop_first-least :
      (h : List A) {y : A} {h' : List A} → IsSorted h → pop_first h ≡ some (y, h') → IsBelow y h'
  pop_first-least [] s e = cc
  pop_first-least (x ∷ h) {y} {h'} s e =
      let p : x ≡ y = cc in let r : h ≡ h' = cc in rw (← p, ← r) s.0

  abbrev pub sorted_heapq : Heapq A key
  sorted_heapq = record {
    heappush = insert_sorted;
    heappop = pop_first;
    IsHeap = IsSorted;
    nil-IsHeap = tt;
    heappush-IsHeap = insert_sorted-IsSorted;
    heappush-perm = insert_sorted-perm;
    heappop-nil = refl;
    heappop-cons = λ x h. (x, h, refl);
    heappop-perm = pop_first-perm;
    heappop-IsHeap = pop_first-IsSorted;
    head-least = λ s. s.0;
    heappop-least = pop_first-least;
  }
