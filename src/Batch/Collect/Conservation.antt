-- ===== src/Batch/Collect/Conservation.antt =====
-- No request is lost or doubled by a collection, the one that is put back included.
use mathlib.Core.List.{Perm}
use mathlib.Core.List.Perm
use unitra_service_api.Common.{
  ℕ, ◌≡◌, refl, ◌||◌, Option, none, some, List, [], ◌∷◌, ◌++◌, append_assoc, leb, ◌==◌, length,
  Bool-cases, inl, inr,
}
use unitra_service_api.Batch.Config.{tier_configs}
use unitra_service_api.Batch.Request.{TranslationRequest}
use unitra_service_api.Batch.Queue.{TranslationQueue, Heap, get, get_locked, waiting}
use unitra_service_api.Batch.Queue.Content.{Got, get_locked-Got, put-perm}
use unitra_service_api.Batch.Queue.Fairness.{get_locked_parts}
use unitra_service_api.Batch.Collect.{Tick, same_pair, expired, after_get}
use unitra_service_api.Batch.Collect.Loop.{Keeps}

-- No other task touches the queue during a round.
pub record IsQuiet (t : Tick) : Type 0 where
  pub no_wake : t.wakes ≡ []
  pub still : (q : TranslationQueue) → t.others q ≡ q

-- What a `get` hands out and leaves is `all`.
abbrev pub Splits : List TranslationRequest → Option TranslationRequest × TranslationQueue → Type 0
Splits all (none, q) = Perm (waiting q) all
Splits all (some r, q) = Perm (r ∷ waiting q) all

module _ ⦃H : Heap⦄ where
  pub split_of_eq :
      (now : ℕ) (q : TranslationQueue) (g : Option TranslationRequest × TranslationQueue)
      → get_locked now q ≡ g
      → Splits (waiting q) g
  split_of_eq now q (some r, q') e = (get_locked_parts now q q' r e).0
  split_of_eq now q (none, q') e = elim (get_locked-Got now q) [
    | Got.nothing _ f ↦ let same : q ≡ q' = cc in rw same (Perm.refl _)
    | Got.taken _ _ _ f ↦ cc
  ]

  pub get-Splits : (now : ℕ) (q : TranslationQueue) → Splits (waiting q) (get [] now q)
  unfolding get
  get-Splits now q = elim (Bool-cases (q.size == 0)) [
    | inl e ↦ rw e (Perm.refl _)
    | inr e ↦ rw e (split_of_eq now q (get_locked now q) refl)
  ]

module _ ⦃H : Heap⦄ (first : TranslationRequest) (start most : ℕ)
    (all : List TranslationRequest) where
  -- The batch and the queue together hold `all`.
  abbrev pub Holds : List TranslationRequest → TranslationQueue → Type 0
  Holds batch q = Perm (batch ++ waiting q) all

  pub after_get-Holds :
      (t : Tick) (batch : List TranslationRequest) (q : TranslationQueue)
      (g : Option TranslationRequest × TranslationQueue)
      → IsQuiet t
      → Holds batch q
      → Splits (waiting q) g
      → Keeps Holds (after_get first start most t batch g)
  unfolding after_get
  after_get-Holds t batch q (none, q') quiet h s =
      let h' = Perm.trans (Perm.append_left batch s) h in
      elim (Bool-cases (
        leb (tier_configs first.tier).min_batch_size (length batch)
        || expired first start most t)) [ inl e ↦ rw e h' | inr e ↦ rw (e, quiet.still q') h' ]
  after_get-Holds t batch q (some r, q') quiet h s =
      let h' : Perm (batch ++ (r ∷ waiting q')) all = Perm.trans (Perm.append_left batch s) h in
      elim (Bool-cases (same_pair first r)) [
        | inl e ↦ rw (e, append_assoc) h'
        | inr e ↦ rw e (Perm.trans (Perm.append_left batch (put-perm t.put_at r q')) h')
      ]
