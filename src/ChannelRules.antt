-- ===== src/ChannelRules.antt =====
-- ws/internal/shared/types/channel_rules.go: the channel patterns that a tenant's users may
-- subscribe and publish to. An error is its sentinel; its text is not modelled.
pub mod Validation
pub mod Allowed
pub mod Tests
use mathlib.Core.List.{reverse}
use sukko.Common.{
  ℕ, Bool, true, false, not, ◌&&◌, ◌||◌, Option, none, some, List, [], ◌∷◌, ◌++◌, Result, ok, err,
  ◌>>◌, length, all, if◌then◌else◌, ltb, leb, ◌==◌, nat_eq, list_eq, contains, dedup_from,
}
use sukko.Common.Map.{lookup}
use sukko.Common.Text.{Text}

pub record ChannelRules : Type 0 where
  pub public_patterns : List Text
  pub group_mappings : List (Text × List Text)
  pub default_patterns : List Text
  pub publish_public : List Text
  pub publish_group_mappings : List (Text × List Text)
  pub publish_default : List Text

-- NewChannelRules.
unfoldable pub new_channel_rules : ChannelRules
new_channel_rules = record {
  public_patterns = [];
  group_mappings = [];
  default_patterns = [];
  publish_public = [];
  publish_group_mappings = [];
  publish_default = [];
}

abbrev pub max_group_name_length : ℕ
max_group_name_length = 128

abbrev pub max_channel_pattern_length : ℕ
max_channel_pattern_length = 256

abbrev pub max_groups_per_mapping : ℕ
max_groups_per_mapping = 100

abbrev pub max_patterns_per_group : ℕ
max_patterns_per_group = 50

abbrev pub max_public_patterns : ℕ
max_public_patterns = 50

pub data RulesError : Type 0 where
  too_many_public_patterns invalid_channel_pattern too_many_groups empty_group_name : RulesError
  group_name_too_long too_many_patterns unknown_placeholder : RulesError

abbrev pub Checked : Type 0
Checked = Result RulesError (Unit {0})

-- The characters of channelPatternRegex, `^[-a-zA-Z0-9.*_{}]{1,256}$`.
unfoldable pub is_pattern_byte : ℕ → Bool
is_pattern_byte c =
    leb b'a' c && leb c b'z'
    || leb b'A' c && leb c b'Z'
    || leb b'0' c && leb c b'9'
    || c == b'-'
    || c == b'.'
    || c == b'*'
    || c == b'_'
    || c == b'{'
    || c == b'}'

unfoldable pub is_valid_channel_pattern : Text → Bool
unfolding is_pattern_byte
is_valid_channel_pattern pattern =
    if pattern == [] || ltb max_channel_pattern_length (length pattern)
    then false
    else all is_pattern_byte pattern

unfoldable pub check_patterns : List Text → Checked
check_patterns [] = ok tt
check_patterns (pattern ∷ patterns) =
    if not (is_valid_channel_pattern pattern)
    then err invalid_channel_pattern
    else check_patterns patterns

-- The loop over a group mapping.
unfoldable pub check_groups : List (Text × List Text) → Checked
unfolding check_patterns
check_groups [] = ok tt
check_groups ((group, patterns) ∷ mappings) =
    let rest = check_groups mappings in
    if group == []
    then err empty_group_name
    else if ltb max_group_name_length (length group)
    then err group_name_too_long
    else if ltb max_patterns_per_group (length patterns)
    then err too_many_patterns
    else (check_patterns patterns >> rest)

-- One half of Validate: the public patterns, the group mappings and the default patterns.
unfoldable pub validate_half : List Text → List (Text × List Text) → List Text → Checked
unfolding check_groups check_patterns
validate_half public_patterns mappings default_patterns =
    if ltb max_public_patterns (length public_patterns) then err too_many_public_patterns else do
      check_patterns public_patterns
      if ltb max_groups_per_mapping (length mappings) then err too_many_groups else do
        check_groups mappings
        if ltb max_patterns_per_group (length default_patterns)
            then err too_many_patterns
            else check_patterns default_patterns

-- ChannelRules.Validate.
unfoldable pub validate : ChannelRules → Checked
unfolding validate_half
validate r = do
  validate_half r.public_patterns r.group_mappings r.default_patterns
  validate_half r.publish_public r.publish_group_mappings r.publish_default

unfoldable pub deduplicate : List Text → List Text
deduplicate s = if leb (length s) 1 then s else dedup_from [] s

-- The loop over the user's groups: the patterns that it appends, and whether a group matched.
unfoldable pub collect_groups : List (Text × List Text) → List Text → List Text × Bool
unfolding lookup
collect_groups mappings [] = ([], false)
collect_groups mappings (group ∷ groups) =
    let (found, matched) = collect_groups mappings groups in
    elim (lookup group mappings) [
      | none ↦ (found, matched)
      | some patterns ↦ (patterns ++ found, true)
    ]

-- The body that ComputeAllowedPatterns and ComputeAllowedPublishPatterns share.
unfoldable pub compute_patterns :
    List Text → List (Text × List Text) → List Text → List Text → List Text
compute_patterns public_patterns mappings default_patterns groups =
    let (found, matched) = collect_groups mappings groups in
    deduplicate (
      public_patterns
      ++ (found
          ++ (if not matched && ltb 0 (length default_patterns) then default_patterns else [])))

unfoldable pub compute_allowed_patterns : ChannelRules → List Text → List Text
compute_allowed_patterns r groups =
    compute_patterns r.public_patterns r.group_mappings r.default_patterns groups

unfoldable pub compute_allowed_publish_patterns : ChannelRules → List Text → List Text
compute_allowed_publish_patterns r groups =
    compute_patterns r.publish_public r.publish_group_mappings r.publish_default groups

unfoldable pub has_publish_rules : ChannelRules → Bool
has_publish_rules r =
    ltb 0 (length r.publish_public)
    || ltb 0 (length r.publish_group_mappings)
    || ltb 0 (length r.publish_default)

-- The names that placeholderTokenRegex, `\{([^}]+)\}`, finds: `name` holds the bytes behind an
-- opening brace in reverse, once there is one.
unfoldable pub token_names : Option Text → Text → List Text
token_names name [] = []
token_names none (c ∷ s) = token_names (if c == b'{' then some [] else none) s
token_names (some name) (c ∷ s) =
    let found = reverse name ∷ token_names none s in
    let missed = token_names none s in
    let longer = token_names (some (c ∷ name)) s in
    if c == b'}' then (if name == [] then missed else found) else longer

unfoldable pub check_tokens : List Text → List Text → Checked
check_tokens valid_names [] = ok tt
check_tokens valid_names (name ∷ names) =
    if contains valid_names name then check_tokens valid_names names else err unknown_placeholder

unfoldable pub check_placeholders : List Text → List Text → Checked
unfolding token_names check_tokens
check_placeholders valid_names [] = ok tt
check_placeholders valid_names (pattern ∷ patterns) = do
  check_tokens valid_names (token_names none pattern)
  check_placeholders valid_names patterns

unfoldable pub mapped_patterns : List (Text × List Text) → List Text
mapped_patterns [] = []
mapped_patterns ((_, patterns) ∷ mappings) = patterns ++ mapped_patterns mappings

unfoldable pub validate_with_placeholders : ChannelRules → List Text → Checked
unfolding mapped_patterns check_placeholders
validate_with_placeholders r valid_names = check_placeholders valid_names (
    r.public_patterns
    ++ (r.default_patterns
        ++ (r.publish_public
            ++ (r.publish_default
                ++ (mapped_patterns r.group_mappings
                    ++ mapped_patterns r.publish_group_mappings)))))
