-- ===== src/Storage/Platform.antt =====
-- The packages and the environment that storage/dsn.go uses.
use mmmcp.Base.{Bool, Option, List, Text}

-- `url.URL`, as far as it is read. Its user and password are `none` where it has no user part.
pub record Url : Type 0 where
  pub scheme : Text
  pub opaque_part : Text
  pub user : Option (Text × Text)
  pub host : Text
  pub path : Text
  pub escaped_path : Text
  pub raw_query : Text
  pub fragment : Text

-- `mysql.Config`, as far as it is set.
pub record MysqlConfig : Type 0 where
  pub user : Text
  pub password : Text
  pub net : Text
  pub address : Text
  pub database : Text
  pub params : List (Text × Text)

-- The packages for texts, URLs, files, digests and the drivers, and the environment.
-- `parse_postgres` tells whether the name parses, `parse_mysql` gives the configuration, and
-- `file_url` and `memory_url` write the URLs of a path and of `:memory:` with a query.
pub record Platform : Type 0 where
  pub lower : Text → Text
  pub equal_fold : Text → Text → Bool
  pub digest : Text → Text
  pub parse_url : Text → Option Url
  pub url_text : Url → Text
  pub query : Text → List (Text × List Text)
  pub encode_query : List (Text × List Text) → Text
  pub unescape : Text → Option Text
  pub file_url : Text → Text → Text
  pub memory_url : Text → Text
  pub absolute : Text → Option Text
  pub is_absolute : Text → Bool
  pub join_path : List Text → Text
  pub parse_postgres : Text → Bool
  pub parse_mysql : Text → Option MysqlConfig
  pub format_mysql : MysqlConfig → Text
  pub uses_xdg : Bool
  pub data_home : Text
  pub home : Option Text
  pub config_directory : Option Text
  pub temp_directory : Text
