-- ===== src/Storage/Options.antt =====
-- storage/options.go, and which errors of the drivers are worth another attempt.
use mmmcp.Base.{
  ℕ, zero, suc, ◌*◌, ◌%◌, Bool, false, ◌||◌, if◌then◌else◌, ◌==◌, ltb, Option, none, some, Text,
  codes, text_eq, ℤ, pos, negsuc, is_nonpositive,
}

pub data Dialect : Type 0 where
  sqlite postgres mysql : Dialect

-- `Options`; `now` tells whether there is a clock other than the default.
pub record Options : Type 0 where
  pub data_directory : Text
  pub event_ttl : ℤ
  pub max_event_bytes : ℤ
  pub max_open_conns : ℤ
  pub max_idle_conns : ℤ
  pub conn_max_lifetime : ℤ
  pub now : Option ℕ

abbrev pub default_event_ttl : ℤ
default_event_ttl = pos (24 * 3600000000000)

abbrev pub default_max_event_bytes : ℤ
default_max_event_bytes = pos (10 * 1048576)

abbrev pub default_max_open_conns : ℤ
default_max_open_conns = pos 10

abbrev pub default_max_idle_conns : ℤ
default_max_idle_conns = pos 5

abbrev pub default_conn_max_lifetime : ℤ
default_conn_max_lifetime = pos (30 * 60000000000)

abbrev pub or_default : ℤ → ℤ → ℤ
or_default value default = if is_nonpositive value then default else value

abbrev pub idle_conns : ℤ → ℤ
idle_conns (pos zero) = default_max_idle_conns
idle_conns (pos (suc n)) = pos (suc n)
idle_conns (negsuc n) = pos 0

-- `if a > b { a = b }`
abbrev pub at_most : ℤ → ℤ → ℤ
at_most (pos b) (pos a) = if ltb b a then pos b else pos a
at_most (pos b) (negsuc a) = negsuc a
at_most (negsuc b) (pos a) = negsuc b
at_most (negsuc b) (negsuc a) = if ltb a b then negsuc b else negsuc a

-- `normalized`, where the default clock is `time.Now`.
unfoldable pub normalized : ℕ → Options → Options
normalized time_now o =
    let conns : ℤ = or_default o.max_open_conns default_max_open_conns in
    record o {
      event_ttl = or_default o.event_ttl default_event_ttl;
      max_event_bytes = or_default o.max_event_bytes default_max_event_bytes;
      max_open_conns = conns;
      max_idle_conns = at_most conns (idle_conns o.max_idle_conns);
      conn_max_lifetime = or_default o.conn_max_lifetime default_conn_max_lifetime;
      now = elim o.now [ none ↦ some time_now | some clock ↦ some clock ];
    }

-- An error, with what `errors.As` finds of each driver in its chain.
pub record Failure : Type 0 where
  pub error : ℕ
  pub sqlite_code : Option ℕ
  pub postgres_code : Option Text
  pub mysql_number : Option ℕ

-- `isSQLiteRetryable`
unfoldable pub is_sqlite_retryable : Failure → Bool
is_sqlite_retryable f = elim f.sqlite_code [
  | none ↦ false
  | some code ↦ code % 256 == 5 || code % 256 == 6
]

-- `isPostgresRetryable`
unfoldable pub is_postgres_retryable : Failure → Bool
is_postgres_retryable f = elim f.postgres_code [
  | none ↦ false
  | some code ↦ text_eq code (codes "40001") || text_eq code (codes "40P01")
]

-- `isMySQLRetryable`
unfoldable pub is_mysql_retryable : Failure → Bool
is_mysql_retryable f = elim f.mysql_number [
  | none ↦ false
  | some number ↦ number == 1205 || number == 1206 || number == 1213
]

-- `retryable`
unfoldable pub retryable : Dialect → Failure → Bool
unfolding is_sqlite_retryable is_postgres_retryable is_mysql_retryable
retryable postgres f = is_postgres_retryable f
retryable mysql f = is_mysql_retryable f
retryable sqlite f = is_sqlite_retryable f
