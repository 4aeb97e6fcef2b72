-- ===== src/Batch/Processor/Client.antt =====
-- The HTTP client of `BatchProcessor` in app/services/batch/processor.py, and `translate_single`.
-- The client is httpx's; here it is what it is made with, and whether it was closed.
use unitra_service_api.Common.{
  ℕ, ◌≡◌, refl, ap, ◌∙◌, inl, inr, Bool-cases, Bool, true, false, Option, none, some, List, [], ◌∷◌,
}
use unitra_service_api.Common.Text.{Text, codes}
use unitra_service_api.Batch.Processor.{BatchProcessor, Exchange, Result, translate_batch}

pub record PooledClient : Type 0 where
  pub timeout : ℕ
  pub max_connections : ℕ
  pub max_keepalive_connections : ℕ
  pub headers : List (Text × Text)
  pub is_closed : Bool

-- The attributes of a processor that concern its client.
pub record Connection : Type 0 where
  pub timeout : ℕ
  pub api_key : Text
  pub client : Option PooledClient

-- `if self.api_key:`
abbrev api_key_headers : Text → List (Text × Text)
api_key_headers [] = []
api_key_headers (c ∷ s) = (codes "X-API-Key", c ∷ s) ∷ []

abbrev made_client : Connection → PooledClient
made_client self = record {
  timeout = self.timeout;
  max_connections = 100;
  max_keepalive_connections = 20;
  headers = api_key_headers self.api_key;
  is_closed = false;
}

-- Of a new client and one that is there, by whether that is closed.
abbrev reuse : PooledClient → PooledClient → Bool → PooledClient
reuse new old true = new
reuse new old false = old

-- The client that is there and open, or a new one.
abbrev open_client : Connection → Option PooledClient → PooledClient
open_client self none = made_client self
open_client self (some client) = reuse (made_client self) client client.is_closed

-- `_get_client`
unfoldable pub get_client : Connection → PooledClient × Connection
get_client self =
    let client = open_client self self.client in (client, record self { client = some client })

-- `close`, and `__aexit__`, which calls it, where the close of the client returns.
unfoldable pub close : Connection → Connection
close self = record self { client = none }

abbrev first : List Text → Option Text
first [] = none
first (t ∷ ts) = some t

abbrev single : Result (List Text) → Result (Option Text)
single (Result.ok translations) = Result.ok (first translations)
single (Result.err e) = Result.err e

-- `translate_single`; a result of `none` is the IndexError of an empty list.
unfoldable pub translate_single :
    Exchange → Text → ℕ → BatchProcessor → Result (Option Text) × BatchProcessor
translate_single x text start p =
    let run = translate_batch x (text ∷ []) start p in (single run.result, run.processor)

open_client_is_open :
    (self : Connection) (o : Option PooledClient) → (open_client self o).is_closed ≡ false
open_client_is_open self none = refl
open_client_is_open self (some client) = elim (Bool-cases client.is_closed) [
  | inl closed ↦ rw closed refl
  | inr opened ↦ ap (λ b. (reuse (made_client self) client b).is_closed) opened ∙ opened
]

open_client_again :
    (self : Connection) (client : PooledClient)
    → client.is_closed ≡ false
    → open_client self (some client) ≡ client
open_client_again self client opened = ap (reuse (made_client self) client) opened

-- A post always gets an open client, and the next one the same.
get_client_open :
    (self : Connection)
    → ((get_client self).0.is_closed ≡ false) × (get_client (get_client self).1 ≡ get_client self)
unfolding get_client
get_client_open self =
    let client = open_client self self.client in
    let opened = open_client_is_open self self.client in
    (
      opened,
      ap (λ (c : PooledClient). (c, record self { client = some c }))
          (open_client_again (record self { client = some client }) client opened),
    )
