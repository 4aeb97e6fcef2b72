-- ===== src/Application/Logging.antt =====
-- app/core/logging.py: what `setup_logging` configures. A record is emitted by the rule of Python's
-- `logging`: at the level of its logger or above, which is the root's where nothing else is set.
use unitra_service_api.Common.{ℕ, Bool, List, [], ◌∷◌, ◌++◌, leb, if◌then◌else◌}
use unitra_service_api.Common.Text.{Text, codes, text_eq}
use unitra_service_api.Application.{Settings}

pub data Level : Type 0 where
  debug info warning : Level

-- `logging.DEBUG`, `logging.INFO` and `logging.WARNING`
abbrev pub severity : Level → ℕ
severity Level.debug = 10
severity Level.info = 20
severity Level.warning = 30

pub data Processor : Type 0 where
  merge_contextvars add_log_level add_logger_name positional_arguments time_stamper : Processor
  stack_info_renderer unicode_decoder console_renderer format_exc_info json_renderer : Processor

pub record Logging : Type 0 where
  pub processors : List Processor
  pub root : Level
  -- the loggers with a level of their own
  pub levels : List (Text × Level)

abbrev pub shared_processors : List Processor
shared_processors =
    Processor.merge_contextvars ∷ Processor.add_log_level ∷ Processor.add_logger_name
    ∷ Processor.positional_arguments ∷ Processor.time_stamper ∷ Processor.stack_info_renderer
    ∷ Processor.unicode_decoder ∷ []

unfoldable pub renderers : Text → List Processor
renderers environment =
    if text_eq environment (codes "development")
    then Processor.console_renderer ∷ []
    else Processor.format_exc_info ∷ Processor.json_renderer ∷ []

unfoldable pub setup_logging : Settings → Logging
unfolding renderers
setup_logging settings = record {
  processors = shared_processors ++ renderers settings.environment;
  root = if settings.debug then Level.debug else Level.info;
  levels =
      (codes "uvicorn.access", Level.warning)
      ∷ (codes "httpx", Level.warning)
      ∷ (codes "httpcore", Level.warning)
      ∷ (codes "sqlalchemy.engine", if settings.debug then Level.info else Level.warning)
      ∷ [];
}

-- The level of a logger, which is not below one of the loggers named.
unfoldable pub level_of : Text → List (Text × Level) → Level → Level
level_of name [] root = root
level_of name ((n, l) ∷ levels) root =
    let rest = level_of name levels root in if text_eq n name then l else rest

-- Whether a record of a logger is emitted.
unfoldable pub is_emitted : Logging → Text → Level → Bool
is_emitted logging name level =
    leb (severity (level_of name logging.levels logging.root)) (severity level)
