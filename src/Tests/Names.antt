-- ===== src/Tests/Names.antt =====
-- Exposed names and URIs of the models of namespace/namespace.go and namespace/uri.go.
use mmmcp.Base.{
  Bool, ◌≡◌, refl, ◌↔◌, ◌≤◌, true, Option, none, some, [], ◌++◌, length, Text, codes, text_eq,
  if◌then◌else◌, ok,
}
use mmmcp.Namespace.{
  tool, prompt, validate_part, prefix, named_feature, join, no_valid_prefix_character,
}
use mmmcp.Namespace.Names.{
  IsUsable, Joins, named_feature-eq-ok_iff, named_feature-injective, named_feature_ambiguous,
}
use mmmcp.Namespace.Uri.{resource, has_url_scheme, has_template_scheme, exposed_uri}
use mmmcp.Namespace.Uris.{StartsWithScheme, resource-injective, has_template_scheme_iff}

named_feature-eq-ok_iff_example :
    (named_feature tool (codes "git") (codes "log") ≡ ok (codes "git__log")) ↔ (
      IsUsable (codes "git")
      × (validate_part (codes "log") ≡ ok tt)
      × Joins (codes "git") (codes "log") (codes "git__log")
      × (length (codes "git__log") ≤ 128))
named_feature-eq-ok_iff_example =
    named_feature-eq-ok_iff tool (codes "git") (codes "log") (codes "git__log")

git_log : named_feature tool (codes "git") (codes "log") ≡ ok (codes "git__log")
unfolding named_feature mmmcp.Namespace.check_prefix validate_part mmmcp.Namespace.validate_runes
    mmmcp.Namespace.valid_rune join mmmcp.Namespace.ends_with_underscore
git_log = refl

git_log_prompt : named_feature prompt (codes "git") (codes "log") ≡ ok (codes "git__log")
unfolding named_feature mmmcp.Namespace.check_prefix validate_part mmmcp.Namespace.validate_runes
    mmmcp.Namespace.valid_rune join mmmcp.Namespace.ends_with_underscore
git_log_prompt = refl

named_feature-injective_example : codes "log" ≡ codes "log"
named_feature-injective_example =
    named_feature-injective tool prompt (codes "git") (codes "log") (codes "log") (codes "git__log")
      git_log git_log_prompt

a_b_c :
    named_feature tool (codes "a") (codes "b" ++ (codes "__" ++ codes "c")) ≡ ok (codes "a__b__c")
unfolding named_feature mmmcp.Namespace.check_prefix validate_part mmmcp.Namespace.validate_runes
    mmmcp.Namespace.valid_rune join mmmcp.Namespace.ends_with_underscore
a_b_c = refl

named_feature_ambiguous_example :
    named_feature tool (codes "a" ++ (codes "__" ++ codes "b")) (codes "c") ≡ ok (codes "a__b__c")
unfolding mmmcp.Namespace.ends_with_underscore
named_feature_ambiguous_example =
    named_feature_ambiguous tool (codes "a") (codes "b") (codes "c") (codes "a__b__c") (λ h. cc)
      (λ h. cc) (λ h. cc) refl refl a_b_c

git_hub : prefix (codes "Git Hub!") [] ≡ ok (codes "git_hub")
unfolding prefix mmmcp.Namespace.trim mmmcp.Namespace.trim_right mmmcp.Namespace.trim_left
    mmmcp.Namespace.sanitize mmmcp.Namespace.valid_rune mmmcp.Namespace.to_lower
git_hub = refl

-- A stand-in for `url.Parse` that knows one scheme.
abbrev file_scheme : Text → Option Text
file_scheme s = if text_eq s (codes "file:x") then some (codes "file") else none

git_file : resource file_scheme (codes "git") (codes "file:x") ≡ ok (codes "mmmcp+git:file:x")
unfolding resource mmmcp.Namespace.check_prefix validate_part mmmcp.Namespace.validate_runes
    mmmcp.Namespace.valid_rune has_url_scheme text_eq exposed_uri
git_file = refl

resource-injective_example : (codes "git" ≡ codes "git") × (codes "file:x" ≡ codes "file:x")
resource-injective_example =
    resource-injective file_scheme (codes "git") (codes "git") (codes "file:x") (codes "file:x")
      (codes "mmmcp+git:file:x") (λ h. cc) (λ h. cc) git_file git_file

-- A stand-in for `uritemplate.New` that parses one template.
abbrev one_template : Text → Bool
one_template s = text_eq s (codes "file:{name}")

has_template_scheme_iff_example :
    (has_template_scheme (codes "file:{name}") ≡ true) ↔ StartsWithScheme (codes "file:{name}")
has_template_scheme_iff_example = has_template_scheme_iff (codes "file:{name}")
