-- ===== src/Storage/Dsn.antt =====
-- storage/dsn.go: the store that a data source name selects.
use mmmcp.Base.{
  ℕ, has_prefix, contains, Bool, true, false, not, ◌&&◌, ◌||◌, if◌then◌else◌, ◌==◌, Option, none,
  some, List, [], ◌∷◌, ◌++◌, map, Text, codes, text_eq, contains_text, is_empty, drop, String,
  Result, ok, err, ◌>>=◌,
}
use mmmcp.Config.Load.{trim_space}
use mmmcp.Storage.Platform.{Url, Platform}
use mmmcp.Storage.Options.{Dialect, sqlite, postgres, mysql}

-- `classifiedDSN`; of a `sqliteDSN` the dialect and the driver are known.
pub record ClassifiedDsn : Type 0 where
  pub dialect : Dialect
  pub driver : Text
  pub value : Text
  pub path : Text
  pub key : Text

abbrev pub is_none {ℓ} : {A : Type ℓ} → Option A → Bool
is_none none = true
is_none (some a) = false

-- Errors, by their messages: none of them holds a part of the name.
pub data Error : Type 0 where
  invalid_postgres invalid_mysql invalid_sqlite invalid_path unsupported : Error

abbrev pub dialect_name : Dialect → Text
dialect_name sqlite = codes "sqlite"
dialect_name postgres = codes "postgres"
dialect_name mysql = codes "mysql"

-- What is before the first equals sign, if there is one.
unfoldable pub before_equals : Text → Option Text
before_equals [] = none
before_equals (c ∷ s) =
    let rest = before_equals s in
    if c == 61 then some [] else elim rest [ none ↦ none | some t ↦ some (c ∷ t) ]

abbrev pub postgres_keys : List Text
postgres_keys = map codes (
    "host" ∷ "hostaddr" ∷ "port" ∷ "dbname" ∷ "database" ∷ "user" ∷ "password" ∷ "passfile"
    ∷ "service" ∷ "servicefile" ∷ "sslmode" ∷ "sslcert" ∷ "sslkey" ∷ "sslrootcert"
    ∷ "connect_timeout" ∷ "application_name" ∷ "options" ∷ "target_session_attrs" ∷ [])

-- `looksLikePostgresKeywordDSN`, where an equals sign at the start counts as none.
unfoldable pub looks_like_postgres : Platform → Text → Bool
unfolding before_equals contains_text
looks_like_postgres os value = elim (before_equals (trim_space value)) [
  | none ↦ false
  | some key ↦ not (is_empty key) && contains_text (os.lower (trim_space key)) postgres_keys
]

-- `looksLikeMySQLDriverDSN`
unfoldable pub looks_like_mysql : Platform → Text → Bool
unfolding has_prefix contains
looks_like_mysql os value =
    let lower = os.lower (trim_space value) in
    contains value (codes "@")
    || has_prefix lower (codes "tcp(")
    || has_prefix lower (codes "unix(")

abbrev pub null_separator : ℕ
null_separator = 0

-- `newClassifiedDSN`
unfoldable pub new_classified_dsn : Platform → Dialect → Text → Text → Text → ClassifiedDsn
new_classified_dsn os dialect driver value path = record {
  dialect = dialect;
  driver = driver;
  value = value;
  path = path;
  key = os.digest (dialect_name dialect ++ null_separator ∷ value);
}

abbrev pub or_error {ℓ} : {A : Type ℓ} → Option A → Error → Result Error A
or_error none e = err e
or_error (some a) e = ok a

abbrev pub check : Bool → Error → Result Error (Unit {0})
check true e = ok tt
check false e = err e

-- `url.Values.Add`
unfoldable pub add_value : Text → Text → List (Text × List Text) → List (Text × List Text)
add_value name value [] = (name, value ∷ []) ∷ []
add_value name value ((other, values) ∷ rest) =
    let added = add_value name value rest in
    if text_eq other name then (other, values ++ value ∷ []) ∷ rest else (other, values) ∷ added

abbrev pub pragma : String → List (Text × List Text) → List (Text × List Text)
pragma setting = add_value (codes "_pragma") (codes setting)

-- `addSQLitePragmas`
unfoldable pub add_sqlite_pragmas : Platform → Text → Option Text
unfolding add_value
add_sqlite_pragmas os value = elim (os.parse_url value) [
  | none ↦ none
  | some parsed ↦ some (
      os.url_text (record parsed {
        raw_query = os.encode_query (
            pragma "trusted_schema(OFF)" (
              pragma "synchronous(NORMAL)" (
                pragma "journal_mode(WAL)" (
                  pragma "foreign_keys(ON)"
                    (pragma "busy_timeout(5000)" (os.query parsed.raw_query))))));
      }))
]

-- `defaultDataDirectory`
unfoldable pub default_data_directory : Platform → Text → Text
default_data_directory os override =
    let fallback : Text = elim os.config_directory as (λ d. Text) [
      | some directory ↦ os.join_path (directory ∷ codes "mmmcp" ∷ [])
      | none ↦ os.join_path (os.temp_directory ∷ codes "mmmcp" ∷ [])
    ] in
    let at_home : Text = elim os.home as (λ d. Text) [
      | some home ↦ os.join_path (home ∷ codes ".local" ∷ codes "share" ∷ codes "mmmcp" ∷ [])
      | none ↦ fallback
    ] in
    if not (is_empty override)
    then override
    else if os.uses_xdg
    then if not (is_empty os.data_home)
      then os.join_path (os.data_home ∷ codes "mmmcp" ∷ [])
      else at_home
    else fallback

-- `strings.CutPrefix(value, "sqlite://file:")`, with the scheme put back.
unfoldable pub drop_file_scheme : Text → Text
unfolding has_prefix
drop_file_scheme value =
    if has_prefix value (codes "sqlite://file:") then codes "sqlite://" ++ drop 14 value else value

-- The path that a URL of SQLite names.
unfoldable pub sqlite_url_path : Platform → Url → Result Error Text
sqlite_url_path os parsed =
    if not (is_empty parsed.opaque_part)
    then ok parsed.opaque_part
    else if is_empty parsed.host || os.equal_fold parsed.host (codes "localhost")
    then ok parsed.path
    else if is_empty parsed.path
    then ok parsed.host
    else err invalid_sqlite

-- `normalizeSQLiteURL`: the URL of the file and its path.
unfoldable pub normalize_sqlite_url : Platform → Text → Result Error (Text × Text)
unfolding drop_file_scheme sqlite_url_path contains text_eq
normalize_sqlite_url os value =
    or_error (os.parse_url (drop_file_scheme value)) invalid_sqlite >>= λ parsed.
    check
      (os.equal_fold parsed.scheme (codes "sqlite")
        && is_none parsed.user
        && is_empty parsed.fragment)
      invalid_sqlite
    >>= λ _. sqlite_url_path os parsed >>= λ path.
        check (not (is_empty path)) invalid_sqlite >>= λ _.
        if text_eq path (codes ":memory:")
          || contains (os.lower parsed.raw_query) (codes "mode=memory")
        then ok (os.memory_url parsed.raw_query, [])
        else or_error (if os.is_absolute path then some path else os.absolute path) invalid_path
          >>= λ path. ok (os.file_url path parsed.raw_query, path)

-- `fileDSN`
abbrev pub file_dsn : Platform → Text → Text
file_dsn os path = os.file_url path []

-- The name of a SQLite database as a URL and the path of its file, before the settings.
unfoldable pub sqlite_location : Platform → Text → Text → Result Error (Text × Text)
unfolding default_data_directory normalize_sqlite_url contains has_prefix text_eq
sqlite_location os data_directory value =
    let lower = os.lower value in
    let default : Text =
      os.join_path (default_data_directory os data_directory ∷ codes "mmmcp.db" ∷ []) in
    let file_path : Url → Text =
      λ parsed. if not (is_empty parsed.opaque_part) then parsed.opaque_part else parsed.path in
    if is_empty value
    then ok (file_dsn os default, default)
    else if text_eq value (codes ":memory:")
    then ok (codes "file::memory:", [])
    else if has_prefix lower (codes "sqlite://")
    then normalize_sqlite_url os value
    else if has_prefix lower (codes "file:")
    then (or_error (os.parse_url value) invalid_sqlite >>= λ parsed. ok (
      value,
      if contains lower (codes "mode=memory") || has_prefix (file_path parsed) (codes ":memory:")
          then []
          else file_path parsed,
    ))
    else if contains value (codes "://")
    then err unsupported
    else or_error (os.absolute value) invalid_path >>= λ path. ok (file_dsn os path, path)

-- `classifySQLiteDSN`
unfoldable pub classify_sqlite_dsn : Platform → Text → Text → Result Error ClassifiedDsn
unfolding sqlite_location add_sqlite_pragmas new_classified_dsn
classify_sqlite_dsn os data_directory input =
    sqlite_location os data_directory (trim_space input) >>= λ located.
    or_error (add_sqlite_pragmas os located.0) invalid_sqlite >>= λ value.
    ok (new_classified_dsn os sqlite (codes "sqlite") value located.1)

-- The parameters of a MySQL URL, each with one value.
unfoldable pub mysql_params : List (Text × List Text) → Result Error (List (Text × Text))
mysql_params [] = ok []
mysql_params ((name, value ∷ []) ∷ rest) =
    mysql_params rest >>= λ params. ok ((name, value) ∷ params)
mysql_params ((name, []) ∷ rest) = err invalid_mysql
mysql_params ((name, value ∷ other ∷ values) ∷ rest) = err invalid_mysql

-- `strings.TrimPrefix(path, "/")`
abbrev pub trim_slash : Text → Text
trim_slash [] = []
trim_slash (c ∷ path) = if c == 47 then path else c ∷ path

-- `normalizeMySQLURL`
unfoldable pub normalize_mysql_url : Platform → Text → Result Error Text
unfolding mysql_params contains
normalize_mysql_url os value = or_error (os.parse_url value) invalid_mysql >>= λ parsed.
    check
      (os.equal_fold parsed.scheme (codes "mysql")
        && not (is_empty parsed.host)
        && is_empty parsed.fragment)
      invalid_mysql
    >>= λ _. or_error (os.unescape (trim_slash parsed.escaped_path)) invalid_mysql >>= λ database.
        check (not (is_empty database) && not (contains database (codes "/"))) invalid_mysql
        >>= λ _. mysql_params (os.query parsed.raw_query) >>= λ params.
            let credentials : Text × Text = elim parsed.user as (λ u. Text × Text) [
              | none ↦ ([], [])
              | some u ↦ u
            ] in
            let normalized = os.format_mysql (record {
              user = credentials.0;
              password = credentials.1;
              net = codes "tcp";
              address = parsed.host;
              database = database;
              params = params;
            }) in
            check (not (is_none (os.parse_mysql normalized))) invalid_mysql >>= λ _. ok normalized

-- The branch of a driver's own format.
unfoldable pub classify_mysql_dsn : Platform → Text → Result Error ClassifiedDsn
unfolding new_classified_dsn
classify_mysql_dsn os value = or_error (os.parse_mysql value) invalid_mysql >>= λ cfg.
    check (not (is_empty cfg.database)) invalid_mysql >>= λ _.
    ok (new_classified_dsn os mysql (codes "mysql") (os.format_mysql cfg) [])

-- `classifyDSN`
unfoldable pub classify_dsn : Platform → Text → Text → Result Error ClassifiedDsn
unfolding classify_sqlite_dsn classify_mysql_dsn normalize_mysql_url new_classified_dsn
    looks_like_postgres looks_like_mysql has_prefix contains text_eq
classify_dsn os data_directory input =
    let value = trim_space input in
    let lower = os.lower value in
    let as_sqlite = classify_sqlite_dsn os data_directory value in
    if is_empty value
      || has_prefix lower (codes "file:")
      || has_prefix lower (codes "sqlite://")
      || text_eq value (codes ":memory:")
    then as_sqlite
    else if has_prefix lower (codes "postgres://")
        || has_prefix lower (codes "postgresql://")
        || looks_like_postgres os value
    then (check (os.parse_postgres value) invalid_postgres >>= λ _.
        ok (new_classified_dsn os postgres (codes "pgx") value []))
    else if has_prefix lower (codes "mysql://")
    then (normalize_mysql_url os value >>= λ normalized.
        ok (new_classified_dsn os mysql (codes "mysql") normalized []))
    else if looks_like_mysql os value
    then classify_mysql_dsn os value
    else if contains value (codes "://")
    then err unsupported
    else as_sqlite
