-- ===== src/Batch/Heapq.antt =====
-- Python's `heapq` as the queue uses it: `heappush` and `heappop` on a list kept as a heap by a
-- key. The interface holds what its documentation promises; the queue takes it as an argument.
pub mod Sorted
use mathlib.Core.List.{Mem, Perm}
use unitra_service_api.Common.{◌≡◌, Option, none, some, List, [], ◌∷◌}
use unitra_service_api.Common.Int.{ℤ, ◌≤ℤ◌}

pub record Heapq (A : Type 0) (key : A → ℤ) : Type 1 where
  pub heappush : List A → A → List A
  pub heappop : List A → Option (A × List A)
  -- `h[k] <= h[2*k+1]` and `h[k] <= h[2*k+2]`
  pub IsHeap : List A → Type 0
  pub nil-IsHeap : IsHeap []
  pub heappush-IsHeap : (h : List A) (x : A) → IsHeap h → IsHeap (heappush h x)
  pub heappush-perm : (h : List A) (x : A) → Perm (heappush h x) (x ∷ h)
  pub heappop-nil : heappop [] ≡ none
  pub heappop-cons :
      (x : A) (h : List A) → (y : A) × (h' : List A) × (heappop (x ∷ h) ≡ some (y, h'))
  pub heappop-perm : (h : List A) {y : A} {h' : List A} → heappop h ≡ some (y, h') → Perm (y ∷ h') h
  pub heappop-IsHeap :
      (h : List A) {y : A} {h' : List A} → IsHeap h → heappop h ≡ some (y, h') → IsHeap h'
  -- the smallest stands at index 0
  pub head-least : {x : A} {h : List A} → IsHeap (x ∷ h) → (y : A) → Mem y h → key x ≤ℤ key y
  -- what is popped is the smallest
  pub heappop-least :
      (h : List A) {y : A} {h' : List A}
      → IsHeap h
      → heappop h ≡ some (y, h')
      → (x : A) → Mem x h'
      → key y ≤ℤ key x
