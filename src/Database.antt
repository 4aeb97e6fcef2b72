-- ===== src/Database.antt =====
-- app/db/session.py: the life of the engine and the transaction around a request. What the request
-- does to the database is a step on a working copy, which SQLAlchemy makes the database's state
-- at a commit and drops at a rollback; a body that commits by itself is not covered.
mod Tests
pub mod Schema
pub mod Models
pub mod Migrations
use unitra_service_api.Common.{
  ◌≡◌, refl, Bool, true, false, Option, none, some, inl, inr, Bool-cases, if◌then◌else◌,
}
use unitra_service_api.Common.Text.{Text, codes}
use unitra_service_api.Errors.Handlers.{Raised}
use unitra_service_api.Api.Action.{Outcome, returned, raised, Action}

-- Whether `_engine` and `_async_session_factory` are set.
pub record Globals : Type 0 where
  pub engine : Bool
  pub session_factory : Bool

unfoldable pub init_db : Globals → Globals
init_db g = record { engine = true; session_factory = true }

abbrev disposed : Outcome Unit → Action Globals Unit
disposed (returned _) g = (returned tt, record g { engine = false })
disposed (raised e) g = (raised e, g)

-- `close_db`, with what `_engine.dispose()` comes to, if there is an engine: one that raises leaves
-- `_engine` as it is. The session factory stays.
unfoldable pub close_db : Outcome Unit → Action Globals Unit
close_db dispose g = if g.engine then disposed dispose g else (returned tt, g)

module _ {D A : Type 0} where
  -- The end of a session whose body has returned: `commit_error` is the error of the commit. The
  -- database before and the working copy are given.
  unfoldable pub end_session : Option Text → D → Outcome A × D → Outcome A × D
  end_session commit_error before (raised e, working) = (raised e, before)
  end_session none before (returned a, working) = (returned a, working)
  end_session (some e) before (returned a, working) = (raised (Raised.unexpected e), before)

  -- `get_db_session` around the body of a request.
  unfoldable pub with_session : Globals → Option Text → Action D A → Action D A
  unfolding end_session
  with_session g commit_error body d = elim g.session_factory [
    | false ↦
        (raised (Raised.unexpected (codes "Database not initialized. Call init_db() first.")), d)
    | true ↦ end_session commit_error d (body d)
  ]

  -- A session that ends with an error has left the database as it was.
  end_session_atomic :
      (commit_error : Option Text) (before : D) (run : Outcome A × D) (e : Raised)
      → (end_session commit_error before run).0 ≡ raised e
      → (end_session commit_error before run).1 ≡ before
  unfolding end_session
  end_session_atomic commit_error before (raised f, working) e h = refl
  end_session_atomic none before (returned a, working) e h = cc
  end_session_atomic (some f) before (returned a, working) e h = refl

  -- If a request with a session, which makes no commit of its own, raises, from its own code or from
  -- the commit, the database is as it was before.
  pub with_session_atomic :
      (g : Globals) (commit_error : Option Text) (body : Action D A) (d : D) (e : Raised)
      → (with_session g commit_error body d).0 ≡ raised e
      → (with_session g commit_error body d).1 ≡ d
  unfolding with_session
  with_session_atomic g commit_error body d e h = elim (Bool-cases g.session_factory) [
    | inr closed ↦ rw (with_session, closed) refl
    | inl opened ↦
        rw (with_session, opened)
          (end_session_atomic commit_error d (body d) e (rw (with_session, opened) at h))
  ]
