-- ===== src/Egl/Logging/Levels.antt =====
-- Which messages are logged.
use fake_libc.Common.{◌≡◌, refl, leb, false, arith}
use fake_libc.Egl.Logging.{
  LogLevel, rank, Environment, Logging, level_of, hybris_logging_initialize, hybris_should_log,
  hybris_set_log_level,
}

-- The first message asks the environment, and a level that was set before it is overwritten by a level
-- that the environment names.
set-should_log :
    (env : Environment) (set asked : LogLevel) (s : Logging)
    → s.initialized ≡ false
    → (hybris_should_log env asked (hybris_set_log_level set s)).0
      ≡ leb (rank (level_of env.level set)) (rank asked)
unfolding hybris_should_log hybris_set_log_level hybris_logging_initialize
set-should_log env set asked s e = rw e refl

-- Behind the first message the environment is not asked again, and a level that is set counts.
should_log-set :
    (env other : Environment) (first set asked : LogLevel) (s : Logging)
    → (hybris_should_log other asked (hybris_set_log_level set (hybris_should_log env first s).1)).0
      ≡ leb (rank set) (rank asked)
unfolding hybris_should_log hybris_set_log_level hybris_logging_initialize
should_log-set env other first set asked s = ground arith
