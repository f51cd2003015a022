-- ===== src/Permissions.antt =====
-- ws/internal/gateway/permissions_tenant.go, the sole authority on who may use a channel, and the
-- placeholders of ws/internal/shared/auth/placeholders.go. Metrics and logs are not modelled.
pub mod Decisions
pub mod FailClosed
mod Tests
use mathlib.Core.List.{reverse}
use sukko.Common.{
  ℕ, Bool, true, false, not, ◌&&◌, ◌||◌, Option, none, some, List, [], ◌∷◌, ◌++◌, Result, ok, err,
  if◌then◌else◌, leb, ◌==◌, nat_eq, list_eq,
}
use sukko.Common.Map.{lookup}
use sukko.Common.Text.{Text, codes}
use sukko.Channels.{match_any_wildcard}
use sukko.ChannelRules.{
  ChannelRules, new_channel_rules, compute_allowed_patterns, compute_allowed_publish_patterns,
}

-- What the placeholders and the rules read of the JWT claims.
pub record Claims : Type 0 where
  pub subject : Text
  pub tenant_id : Text
  pub attributes : List (Text × Text)
  pub groups : List Text

-- GetAttribute: a missing key reads as the empty text.
unfoldable pub get_attribute : Claims → Text → Text
get_attribute c name = elim (lookup name c.attributes) [ none ↦ [] | some value ↦ value ]

abbrev pub PlaceholderFunc : Type 0
PlaceholderFunc = Claims → Text

abbrev pub subject_of : PlaceholderFunc
subject_of c = c.subject

abbrev pub tenant_of : PlaceholderFunc
tenant_of c = c.tenant_id

unfoldable pub default_placeholders : List (Text × PlaceholderFunc)
default_placeholders =
    (codes "user_id", subject_of)
    ∷ (codes "tenant_id", tenant_of)
    ∷ (codes "tenant", tenant_of)
    ∷ (codes "sub", subject_of)
    ∷ (codes "app_id", subject_of)
    ∷ (codes "principal", subject_of)
    ∷ []

pub record PlaceholderResolver : Type 0 where
  pub builtins : List (Text × PlaceholderFunc)
  pub custom : List (Text × PlaceholderFunc)

-- NewPlaceholderResolver.
unfoldable pub new_placeholder_resolver : PlaceholderResolver
unfolding default_placeholders
new_placeholder_resolver = record { builtins = default_placeholders; custom = [] }

-- The characters of placeholderRegex, `\{([a-zA-Z_][a-zA-Z0-9_]*)\}`.
unfoldable pub is_name_start : ℕ → Bool
is_name_start c = leb b'a' c && leb c b'z' || leb b'A' c && leb c b'Z' || c == b'_'

unfoldable pub is_name_byte : ℕ → Bool
unfolding is_name_start
is_name_byte c = is_name_start c || leb b'0' c && leb c b'9'

-- Whether the byte can follow the name read so far, which is kept in reverse.
unfoldable pub extends : Text → ℕ → Bool
unfolding is_name_byte is_name_start
extends [] c = is_name_start c
extends (_ ∷ _) c = is_name_byte c

-- Whether a token occurs in the text, `name` being the bytes behind an opening brace, in reverse,
-- as long as they can be a name.
unfoldable pub has_token : Option Text → Text → Bool
unfolding extends
has_token name [] = false
has_token none (c ∷ s) = has_token (if c == b'{' then some [] else none) s
has_token (some name) (c ∷ s) =
    let closed = c == b'}' && not (name == []) in
    let later =
      has_token (if extends name c then some (c ∷ name) else (if c == b'{' then some [] else none))
        s in
    if closed then true else later

unfoldable pub has_placeholders : Text → Bool
unfolding has_token
has_placeholders pattern = has_token none pattern

-- What stands for a value that is empty or missing.
abbrev pub or_else : Option Text → Text → Text
or_else none fallback = fallback
or_else (some value) fallback = if value == [] then fallback else value

abbrev pub apply_to : Claims → Option PlaceholderFunc → Option Text
apply_to c none = none
apply_to c (some fn) = some (fn c)

-- The replacement of one token: custom, then built in, then the attribute, then the token itself.
unfoldable pub replace_token : PlaceholderResolver → Claims → Text → Text
unfolding get_attribute
replace_token r claims name = or_else (apply_to claims (lookup name r.custom)) (
    or_else (apply_to claims (lookup name r.builtins))
      (or_else (some (get_attribute claims name)) (b'{' ∷ (name ++ (b'}' ∷ [])))))

-- placeholderRegex.ReplaceAllStringFunc: bytes that turn out to be no token are copied.
unfoldable pub replace_tokens : (Text → Text) → Option Text → Text → Text
unfolding extends
replace_tokens f none [] = []
replace_tokens f (some name) [] = b'{' ∷ reverse name
replace_tokens f none (c ∷ s) =
    let opened = replace_tokens f (some []) s in
    let copied = c ∷ replace_tokens f none s in if c == b'{' then opened else copied
replace_tokens f (some name) (c ∷ s) =
    let closed = f (reverse name) ++ replace_tokens f none s in
    let longer = replace_tokens f (some (c ∷ name)) s in
    let reopened = (b'{' ∷ reverse name) ++ replace_tokens f (some []) s in
    let copied = (b'{' ∷ reverse name) ++ (c ∷ replace_tokens f none s) in
    if c == b'}' && not (name == [])
    then closed
    else if extends name c
    then longer
    else if c == b'{'
    then reopened
    else copied

-- Resolve with claims.
unfoldable pub resolve : PlaceholderResolver → Text → Claims → Text
unfolding replace_token replace_tokens
resolve r pattern claims = replace_tokens (replace_token r claims) none pattern

pub data ProviderError : Type 0 where
  channel_rules_not_found other_error : ProviderError

-- ChannelRulesProvider, as far as the decisions read it.
pub record ChannelRulesProvider : Type 0 where
  pub get_channel_rules : Text → Result ProviderError ChannelRules

pub record TenantPermissionChecker : Type 0 where
  pub provider : ChannelRulesProvider
  pub resolver : PlaceholderResolver

-- getRulesForTenant: no rules, or unknown rules, are the empty rules.
unfoldable pub get_rules_for_tenant : TenantPermissionChecker → Text → ChannelRules
unfolding new_channel_rules
get_rules_for_tenant pc tenant_id = elim (pc.provider.get_channel_rules tenant_id) [
  | ok rules ↦ rules
  | err e ↦ new_channel_rules
]

abbrev pub resolve_with : PlaceholderResolver → Option Claims → Text → Text
resolve_with r none p = p
resolve_with r (some claims) p = resolve r p claims

unfoldable pub substitute_placeholders :
    TenantPermissionChecker → List Text → Option Claims → List Text
substitute_placeholders pc [] claims = []
substitute_placeholders pc (p ∷ patterns) claims =
    let resolved = resolve_with pc.resolver claims p in
    let out = substitute_placeholders pc patterns claims in
    if has_placeholders resolved then out else resolved ∷ out

unfoldable pub subscribe_patterns :
    TenantPermissionChecker → ChannelRules → Option Claims → List Text
subscribe_patterns pc rules none = substitute_placeholders pc rules.public_patterns none
subscribe_patterns pc rules (some claims) =
    substitute_placeholders pc (compute_allowed_patterns rules claims.groups) (some claims)

unfoldable pub can_subscribe : TenantPermissionChecker → Text → Option Claims → Text → Bool
can_subscribe pc tenant_id claims channel =
    match_any_wildcard (subscribe_patterns pc (get_rules_for_tenant pc tenant_id) claims) channel

-- The loop of FilterChannels.
unfoldable pub keep_matching : List Text → List Text → List Text
keep_matching patterns [] = []
keep_matching patterns (ch ∷ channels) =
    let allowed = keep_matching patterns channels in
    if match_any_wildcard patterns ch then ch ∷ allowed else allowed

unfoldable pub filter_channels :
    TenantPermissionChecker → Text → Option Claims → List Text → List Text
unfolding keep_matching
filter_channels pc tenant_id claims channels =
    keep_matching (subscribe_patterns pc (get_rules_for_tenant pc tenant_id) claims) channels

unfoldable pub can_publish : TenantPermissionChecker → Text → Option Claims → Text → Bool
can_publish pc tenant_id none channel = false
can_publish pc tenant_id (some claims) channel =
    match_any_wildcard
      (substitute_placeholders pc
        (compute_allowed_publish_patterns (get_rules_for_tenant pc tenant_id) claims.groups)
        (some claims))
      channel
