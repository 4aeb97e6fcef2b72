-- ===== src/Batch/Queue/Bag.antt =====
-- The queue as its clients may see it: a bag of requests, without order, priorities and heap.
use mathlib.Core.List.{Perm}
use mathlib.Core.List.Perm
use mathlib.Core.Quot
use mathlib.Core.Quot.{Quot, Quot-set}
use native.Mathlib.Nat.{ℕ_set}
use unitra_service_api.Common.{
  ℕ, ◌≡◌, refl, Option, none, some, List, [], ◌∷◌, map, ap, ◌∙◌, sym, length, length-map,
}
use unitra_service_api.Common.Perms.{Perm-length}
use unitra_service_api.Batch.Request.{TranslationRequest, PrioritizedRequest}
use unitra_service_api.Batch.Queue.{TranslationQueue, Heap, put, popped, get_locked, waiting, qsize}
use unitra_service_api.Batch.Queue.Content.{Got, put-perm, get_locked-Got, taken-perm}
use unitra_service_api.Batch.Queue.Invariant.{IsValid}

-- Lists of requests up to their order.
abbrev pub Bag : Type 0
Bag = Quot (λ (rs ss : List TranslationRequest). Perm rs ss)

abbrev pub bag : List TranslationRequest → Bag
bag rs = Quot.mk rs

pub add : TranslationRequest → Bag → Bag
add r = Quot.lift Quot-set (λ rs. bag (r ∷ rs)) (λ rs ss h. Quot.sound (Perm.cons r h))

pub count : Bag → ℕ
count = Quot.lift ℕ_set length (λ rs ss h. Perm-length h)

-- What a queue holds.
abbrev pub view : TranslationQueue → Bag
view q = bag (waiting q)

-- What `get` may do to a bag: nothing to an empty one, and else it takes one of its requests.
abbrev pub Takes : Bag → Option TranslationRequest → Bag → Type 0
Takes before none after = (before ≡ bag []) × (after ≡ before)
Takes before (some r) after = before ≡ add r after

module _ ⦃H : Heap⦄ where
  view-put :
      (now : ℕ) (r : TranslationRequest) (q : TranslationQueue)
      → view (put now r q) ≡ add r (view q)
  unfolding add
  view-put now r q = Quot.sound (put-perm now r q)

  Takes-of_Got :
      (now : ℕ) (q : TranslationQueue)
      → Got now q
      → Takes (view q) (get_locked now q).0 (view (get_locked now q).1)
  unfolding add popped
  Takes-of_Got now q (Got.nothing e step) =
      rw step (ap (λ ps. bag (map (λ p. p.request) ps)) e, refl)
  Takes-of_Got now q (Got.taken item rest pop step) =
      rw step (sym (Quot.sound (taken-perm now q item rest pop)))

  -- To its clients, a queue in a valid state is a bag: `put` adds the request, whatever its tier and
  -- the time. A `get` that finds the bag empty changes nothing, and any other takes one request of
  -- the bag. `qsize` is the number of requests in it.
  pub queue_bag :
      (now : ℕ) (r : TranslationRequest) (q : TranslationQueue)
      → IsValid q
      → (view (put now r q) ≡ add r (view q))
        × Takes (view q) (get_locked now q).0 (view (get_locked now q).1)
        × (qsize q ≡ count (view q))
  unfolding qsize count
  queue_bag now r q v = (
    view-put now r q,
    Takes-of_Got now q (get_locked-Got now q),
    v.sized ∙ sym (length-map (λ (p : PrioritizedRequest). p.request) q.heap),
  )
