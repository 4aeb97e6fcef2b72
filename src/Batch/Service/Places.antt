-- ===== src/Batch/Service/Places.antt =====
-- Where the request of a future is: how often it stands in the queue and in the batches of workers.
use mathlib.Core.List.{Perm}
use unitra_service_api.Common.{
  ℕ, ◌+◌, ◌≡◌, List, [], ◌∷◌, ◌++◌, ◌==◌, map, sum, if◌then◌else◌, arith,
}
use unitra_service_api.Common.Perms.{Perm-sum}
use unitra_service_api.Batch.Request.{TranslationRequest}
use unitra_service_api.Batch.Queue.{waiting}
use unitra_service_api.Batch.Service.{Task, System}
use unitra_service_api.Batch.Service.Steps.{queue_of}

-- `1` for a request with this future.
abbrev pub points : ℕ → TranslationRequest → ℕ
points a r = if r.future == a then 1 else 0

abbrev pub copies : ℕ → List TranslationRequest → ℕ
copies a rs = sum (map (points a) rs)

abbrev pub batch_of : Task → List TranslationRequest
batch_of (Task.collecting first start most batch) = batch
batch_of (Task.getting first start most batch t) = batch
batch_of (Task.processing batch) = batch
batch_of _ = []

abbrev pub held : ℕ → List Task → ℕ
held a ws = sum (map (λ w. copies a (batch_of w)) ws)

abbrev pub queued : ℕ → System → ℕ
queued a s = copies a (waiting (queue_of s))

-- How often the request stands in the queue or in a worker's batch.
abbrev pub places : ℕ → System → ℕ
places a s = queued a s + held a s.service.workers

pub sum-map_append {ℓ} :
    {A : Type ℓ} (f : A → ℕ) (xs ys : List A)
    → sum (map f (xs ++ ys)) ≡ sum (map f xs) + sum (map f ys)
sum-map_append f [] ys = omega arith
sum-map_append f (x ∷ xs) ys = omega (arith, sum-map_append f xs ys)

pub copies-perm : (a : ℕ) {xs ys : List TranslationRequest} → Perm xs ys → copies a xs ≡ copies a ys
copies-perm a p = Perm-sum (points a) p

pub held-middle :
    (a : ℕ) (before after : List Task) (w : Task)
    → held a (before ++ w ∷ after) ≡ held a before + copies a (batch_of w) + held a after
held-middle a before after w =
    omega (arith, sum-map_append (λ v. copies a (batch_of v)) before (w ∷ after))
