-- ===== src/Storage/Keys.antt =====
-- The keys of the stores that storage/dsn.go selects.
use mmmcp.Base.{◌≡◌, ◌⊎◌, true, false, [], ◌∷◌, ◌++◌, Text, codes, is_empty, some, Result, ok, err}
use mmmcp.Config.Load.{trim_space}
use mmmcp.Storage.Options.{Dialect, sqlite, postgres, mysql}
use mmmcp.Storage.Platform.{Platform, MysqlConfig}
use mmmcp.Storage.Dsn.{ClassifiedDsn, Error, dialect_name, null_separator, add_sqlite_pragmas}

abbrev pub driver_of : Dialect → Text
driver_of sqlite = codes "sqlite"
driver_of postgres = codes "pgx"
driver_of mysql = codes "mysql"

-- The normal form of a name, by dialect: SQLite has the settings, PostgreSQL parses and has no space
-- around it, MySQL is in the driver's own format and has a database.
abbrev pub Normalized : Platform → Text → Dialect → Text → Type 0
Normalized os input sqlite value = (located : Text) × (add_sqlite_pragmas os located ≡ some value)
Normalized os input postgres value = (value ≡ trim_space input) × (os.parse_postgres value ≡ true)
Normalized os input mysql value =
    (cfg : MysqlConfig) × (value ≡ os.format_mysql cfg) × (is_empty cfg.database ≡ false)

-- A store whose key stands for its dialect and its normalized name, and whose driver is the
-- dialect's. Only SQLite has a file.
pub record IsClassified (os : Platform) (input : Text) (c : ClassifiedDsn) : Type 0 where
  pub key : c.key ≡ os.digest (dialect_name c.dialect ++ null_separator ∷ c.value)
  pub normalized : Normalized os input c.dialect c.value
  pub driver : c.driver ≡ driver_of c.dialect
  pub path : (c.dialect ≡ sqlite) ⊎ (c.path ≡ [])

-- What a computation returns, if it does not fail.
data Selects {A : Type 0} (P : A → Type 0) : Result Error A → Type 0 where
  fails : (e : Error) → Selects P (err e)
  selects : (a : A) → P a → Selects P (ok a)
