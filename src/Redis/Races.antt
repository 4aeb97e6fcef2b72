-- ===== src/Redis/Races.antt =====
-- `check_rate_limit` of requests that come at the same time: each reads the counter and, if it is
-- allowed, writes it in a step of its own, with the steps of the others in between.
pub mod Bounds
use unitra_service_api.Common.{
  ℕ, zero, suc, ◌+◌, ◌≡◌, refl, max, Bool, true, false, Option, none, some, List, [], ◌∷◌, length,
  inl, inr, Bool-cases, if◌then◌else◌,
}
use unitra_service_api.Common.Text.{Text}
use unitra_service_api.Redis.{rate_limit_key, alone, rate_decision, note_request, check_rate_limit}
use unitra_service_api.Redis.Server.{RedisServer}

-- A request reads the counter, one of those that are allowed goes on to its write, or seconds pass.
pub data Event : Type 0 where
  arrives : Event
  proceeds : ℕ → Event
  passes : ℕ → Event

abbrev Picked : Type 0
Picked = Option (Option ℕ × List (Option ℕ))

abbrev with_other : Option ℕ → Picked → Picked
with_other x none = none
with_other x (some (y, ys)) = some (y, x ∷ ys)

-- The `n`-th of a list, and the others.
pick : ℕ → List (Option ℕ) → Picked
pick n [] = none
pick zero (x ∷ xs) = some (x, xs)
pick (suc n) (x ∷ xs) = with_other x (pick n xs)

-- The seconds that pass.
abbrev pub duration : List Event → ℕ
duration [] = 0
duration (passes d ∷ es) = d + duration es
duration (arrives ∷ es) = duration es
duration (proceeds i ∷ es) = duration es

module _ (R : RedisServer) (user endpoint : Text) (limit window : ℕ) where
  open R use {Store, get, after}

  abbrev counter_key : Text
  counter_key = rate_limit_key user endpoint

  -- The store, what the requests between their two commands have read, the requests that were
  -- admitted and refused so far, and the most that were ever between their commands at once.
  pub record Checks : Type 0 where
    pub store : Store
    pub pending : List (Option ℕ)
    pub admitted : ℕ
    pub refused : ℕ
    pub peak : ℕ

  unfoldable pub begin : Store → Checks
  begin s = record { store = s; pending = []; admitted = 0; refused = 0; peak = 0 }

  -- A request has read `found`, which decides.
  abbrev arrived : Bool → Option ℕ → Checks → Checks
  arrived false found k = record k { refused = k.refused + 1 }
  arrived true found k = record k {
    pending = found ∷ k.pending;
    peak = max k.peak (length k.pending + 1);
  }

  abbrev proceeded : Picked → Checks → Checks
  proceeded none k = k
  proceeded (some (found, others)) k = record k {
    store = note_request R counter_key window found k.store;
    pending = others;
    admitted = k.admitted + 1;
  }

  unfoldable pub check_step : Event → Checks → Checks
  unfolding pick note_request rate_decision
  check_step arrives k =
      let found = get counter_key k.store in arrived (rate_decision R limit found).0 found k
  check_step (proceeds i) k = proceeded (pick i k.pending) k
  check_step (passes d) k = record k { store = after d k.store }

  unfoldable pub check_steps : List Event → Checks → Checks
  unfolding check_step
  check_steps [] k = k
  check_steps (e ∷ es) k = check_steps es (check_step e k)

  -- Without other requests in between, the two steps are one `check_rate_limit`.
  steps_alone :
      (s : Store)
      → let (allowed, _, s') = check_rate_limit R user endpoint limit window (alone R) s in
        let k = check_steps (arrives ∷ proceeds 0 ∷ []) (begin s) in
        (k.store ≡ s') × (k.admitted ≡ (if allowed then 1 else 0))
  unfolding check_steps check_step begin pick check_rate_limit
  steps_alone s =
      let found = get counter_key s in
      elim (Bool-cases (rate_decision R limit found).0) [
        | inl allowed ↦ rw allowed (refl, refl)
        | inr refused ↦ rw refused (refl, refl)
      ]
