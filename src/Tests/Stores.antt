-- ===== src/Tests/Stores.antt =====
-- Runs of the models of storage.
use mmmcp.Base.{
  ℕ, zero, suc, ◌+◌, ◌≡◌, ◌⊎◌, true, false, Option, none, some, [], ◌∷◌, ◌++◌, codes, text_keys,
  Result, ok, err,
}
use mmmcp.Storage.Options.{Failure, sqlite, postgres}
use mmmcp.Storage.Transactions.{Ended, run_transaction, run_transaction-Ended}
use mmmcp.Storage.Platform.{Platform}
use mmmcp.Storage.Dsn.{ClassifiedDsn}
use mmmcp.Storage.Adapter.{Adapter, begin_open}
use mmmcp.Storage.Stores.{Calls, Cause, open_classified}
use mmmcp.Storage.Stores
use mmmcp.Storage.Opening.{open_classified-cases, Placed, Unplaced, Prepared, Unprepared}

-- The database is busy at each first attempt.
abbrev busy : Failure
busy = record { error = 1; sqlite_code = some 5; postgres_code = none; mysql_number = none }

abbrev begins_late : ℕ → Option Failure
begins_late zero = some busy
begins_late (suc n) = none

abbrev add_one : ℕ → ℕ → Result Failure ℕ
add_one attempt s = ok (s + 1)

abbrev commits : ℕ → ℕ → Option Failure
commits attempt s = none

abbrev never : ℕ → Option Failure
never attempt = none

run_transaction-Ended_example :
    Ended begins_late add_one commits never sqlite 4 0 0 7
      (run_transaction begins_late add_one commits never sqlite 7)
run_transaction-Ended_example = run_transaction-Ended begins_late add_one commits never sqlite 7

-- Stand-ins for the packages.
abbrev platform : Platform
platform = record {
  lower = λ t. t;
  equal_fold = λ a b. true;
  digest = λ t. t;
  parse_url = λ t. none;
  url_text = λ u. [];
  query = λ t. [];
  encode_query = λ q. [];
  unescape = λ t. some t;
  file_url = λ p q. codes "file:" ++ p;
  memory_url = λ q. codes "file::memory:";
  absolute = λ p. some p;
  is_absolute = λ p. true;
  join_path = λ ps. [];
  parse_postgres = λ t. true;
  parse_mysql = λ t. none;
  format_mysql = λ c. [];
  uses_xdg = true;
  data_home = codes "/data";
  home = none;
  config_directory = none;
  temp_directory = codes "/tmp";
}

abbrev bound : Adapter
bound = record { has_registry = true; sessions = (codes "s", 3) ∷ [] }

-- Another session opens a stream in another store.
abbrev busier : Adapter
busier = (begin_open (codes "t") (ok 4) bound).0

-- The database cannot be reached.
abbrev calls : Calls
calls = record {
  make_directory = λ p. none;
  sql_open = λ driver value. ok 9;
  ping = λ db. some (record { cause = 1; is_context = false });
  migrate = λ db dialect. none;
  prune = λ db. none;
}

abbrev located : ClassifiedDsn
located = record {
  dialect = postgres;
  driver = codes "pgx";
  value = codes "postgres://db/events";
  path = [];
  key = [];
}

open_classified-cases_example :
    (Placed calls located
      × ((db : ℕ) × (calls.sql_open located.driver located.value ≡ ok db)
          × (((open_classified calls located ≡ (ok db, [])) × Prepared calls located.dialect db)
              ⊎ ((e : Stores.Error) × (open_classified calls located ≡ (err e, db ∷ []))
                  × Unprepared calls located.dialect db))))
    ⊎ ((e : Stores.Error) × (open_classified calls located ≡ (err e, []))
        × (Unplaced calls located
            ⊎ ((x : Cause) × (calls.sql_open located.driver located.value ≡ err x))))
open_classified-cases_example = open_classified-cases calls located
