-- ===== src/Egl/Logging.antt =====
-- libEGL/logging.c: the level, the format and the tracing that the environment asks for.
pub mod Levels
use Prim.Native.String.{String}
use text.Mathlib.Text.{◌==◌ as str_eq}
use fake_libc.Common.{ℕ, leb, if◌then◌else◌, Bool, true, false, Option, none, some}

-- `enum hybris_log_level` and its numbers.
pub data LogLevel : Type 0 where
  debug info warn error disabled : LogLevel

unfoldable pub rank : LogLevel → ℕ
rank debug = 0
rank info = 1
rank warn = 2
rank error = 3
rank disabled = 4

pub data LogFormat : Type 0 where
  normal systrace : LogFormat

-- HYBRIS_LOGGING_LEVEL, HYBRIS_LOGGING_FORMAT and HYBRIS_TRACE; the stream that `fopen` answers for
-- HYBRIS_LOGGING_TARGET, if this is set, and `stderr`.
pub record Environment : Type 0 where
  pub level : Option String
  pub format : Option String
  pub trace : Option String
  pub opened_target : Option ℕ
  pub stderr : ℕ

-- The static variables.
pub record Logging : Type 0 where
  pub minimum_log_level : LogLevel
  pub logging_format : LogFormat
  pub should_trace : Bool
  pub logging_target : ℕ
  pub initialized : Bool

-- Their initial values.
unfoldable pub initial : Logging
initial = record {
  minimum_log_level = warn;
  logging_format = normal;
  should_trace = false;
  logging_target = 0;
  initialized = false;
}

-- The level that a name sets; another name leaves it.
unfoldable pub level_of : Option String → LogLevel → LogLevel
level_of none level = level
level_of (some env) level =
    if str_eq env "debug"
    then debug
    else (if str_eq env "info"
        then info
        else (if str_eq env "warn"
            then warn
            else (if str_eq env "error"
                then error
                else (if str_eq env "disabled" then disabled else level))))

unfoldable pub target_of : Option ℕ → ℕ → ℕ → ℕ
target_of none stderr target = if leb 1 target then target else stderr
target_of (some stream) stderr target = if leb 1 stream then stream else stderr

unfoldable pub format_of : Option String → LogFormat → LogFormat
format_of none old = old
format_of (some env) old = if str_eq env "systrace" then systrace else normal

unfoldable pub trace_of : Option String → Bool → Bool
trace_of none trace = trace
trace_of (some env) trace = if str_eq env "1" then true else trace

-- `hybris_logging_initialize`, but for the mutex that it makes.
unfoldable pub hybris_logging_initialize : Environment → Logging → Logging
hybris_logging_initialize env s = record s {
  minimum_log_level = level_of env.level s.minimum_log_level;
  logging_target = target_of env.opened_target env.stderr s.logging_target;
  logging_format = format_of env.format s.logging_format;
  should_trace = trace_of env.trace s.should_trace;
}

unfoldable pub hybris_should_log : Environment → LogLevel → Logging → Bool × Logging
hybris_should_log env level s =
    let s' =
      if s.initialized
      then s
      else hybris_logging_initialize env (record s { initialized = true }) in
    (leb (rank s'.minimum_log_level) (rank level), s')

unfoldable pub hybris_set_log_level : LogLevel → Logging → Logging
hybris_set_log_level level s = record s { minimum_log_level = level }
