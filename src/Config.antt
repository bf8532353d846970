-- ===== src/Config.antt =====
-- config/config.go: the configuration of a composite server, and the document it is loaded from.
pub mod Interpolate
pub mod Interpolation
pub mod Load
pub mod Loading
use mmmcp.Base.{ℕ, Bool, true, Option, none, some, List, Text, ℤ}

pub record ToolOverride : Type 0 where
  pub name : Text
  pub override_name : Text
  pub description : Text
  pub override_description : Text
  pub enabled : Bool

pub record PromptOverride : Type 0 where
  pub name : Text
  pub override_name : Text
  pub description : Text
  pub override_description : Text
  pub enabled : Bool

pub record ResourceOverride : Type 0 where
  pub uri : Text
  pub override_uri : Text
  pub name : Text
  pub override_name : Text
  pub description : Text
  pub override_description : Text
  pub enabled : Bool

pub record ResourceTemplateOverride : Type 0 where
  pub uri_template : Text
  pub override_uri_template : Text
  pub name : Text
  pub override_name : Text
  pub description : Text
  pub override_description : Text
  pub enabled : Bool

-- Maps are lists of their entries.
pub record Server : Type 0 where
  pub discovery_method : Text
  pub discovery_revision : Text
  pub name : Text
  pub prefix : Text
  pub url : Text
  pub headers : List (Text × Text)
  pub passthrough_headers : List Text
  pub command : Text
  pub args : List Text
  pub env : List (Text × Text)
  pub working_directory : Text
  pub timeout : ℤ
  pub tools : List ToolOverride
  pub disable_tools : Bool
  pub prompts : List PromptOverride
  pub resources : List ResourceOverride
  pub resource_templates : List ResourceTemplateOverride

pub record Config : Type 0 where
  pub request_scoped_discovery : Bool
  pub name : Text
  pub version : Text
  pub tool_search : Bool
  pub defer_authorization : Bool
  pub listen : Text
  pub idle_timeout : ℤ
  pub servers : List Server

-- The overrides as the document has them: `enabled` may be missing.
pub record ToolOverrideDto : Type 0 where
  pub name : Text
  pub override_name : Text
  pub description : Text
  pub override_description : Text
  pub enabled : Option Bool

pub record PromptOverrideDto : Type 0 where
  pub name : Text
  pub override_name : Text
  pub description : Text
  pub override_description : Text
  pub enabled : Option Bool

pub record ResourceOverrideDto : Type 0 where
  pub uri : Text
  pub override_uri : Text
  pub name : Text
  pub override_name : Text
  pub description : Text
  pub override_description : Text
  pub enabled : Option Bool

pub record ResourceTemplateOverrideDto : Type 0 where
  pub uri_template : Text
  pub override_uri_template : Text
  pub name : Text
  pub override_name : Text
  pub description : Text
  pub override_description : Text
  pub enabled : Option Bool

-- `serverDTO`. `DiscoveryMethod` is not read.
pub record ServerDto : Type 0 where
  pub discovery_revision : Text
  pub name : Text
  pub prefix : Text
  pub url : Text
  pub headers : List (Text × Text)
  pub passthrough_headers : List Text
  pub command : Text
  pub args : List Text
  pub env : List (Text × Text)
  pub working_directory : Text
  pub timeout : ℤ
  pub tools : List ToolOverrideDto
  pub disable_tools : Bool
  pub prompts : List PromptOverrideDto
  pub resources : List ResourceOverrideDto
  pub resource_templates : List ResourceTemplateOverrideDto

-- `configDTO`
pub record ConfigDto : Type 0 where
  pub name : Text
  pub version : Text
  pub tool_search : Bool
  pub listen : Text
  pub idle_timeout : ℤ
  pub servers : List ServerDto

-- `enabledOrDefault`
unfoldable pub enabled_or_default : Option Bool → Bool
enabled_or_default none = true
enabled_or_default (some enabled) = enabled
