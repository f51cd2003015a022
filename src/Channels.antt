-- ===== src/Channels.antt =====
-- ws/internal/shared/auth: wildcard patterns of channel rules (pattern.go), channel names
-- (channel.go) and the tenant boundary (channel_tenant.go).
pub mod Wildcards
pub mod Names
mod Tests
use mathlib.Core.Option
use sukko.Common.{
  ℕ, suc, ◌+◌, Bool, true, false, ◌&&◌, ◌||◌, Option, none, some, List, [], ◌∷◌, ◌++◌, Result, ok,
  err, ◌>>◌, if◌then◌else◌, ltb, ◌==◌, nat_eq, list_eq,
}
use sukko.Common.Text.{Text, split, cut, has_prefix, has_suffix}
use sukko.Routing.{star, dot}

-- strings.CutPrefix(pattern, "*").
unfoldable pub cut_star_front : Text → Option Text
cut_star_front [] = none
cut_star_front (c ∷ s) = if c == b'*' then some s else none

-- strings.CutSuffix(pattern, "*").
unfoldable pub cut_star_back : Text → Option Text
cut_star_back [] = none
cut_star_back (c ∷ []) = if c == b'*' then some [] else none
cut_star_back (c ∷ d ∷ s) = Option.map (◌∷◌ c) (cut_star_back (d ∷ s))

-- The last case of MatchWildcard: a `*` that is not the first byte.
unfoldable pub match_middle : Option (Text × Text) → Text → Bool
match_middle none value = false
match_middle (some (prefix, suffix)) value =
    if prefix == [] then false else has_prefix value prefix && has_suffix value suffix

unfoldable pub match_wildcard : Text → Text → Bool
unfolding cut_star_front cut_star_back match_middle
match_wildcard pattern value =
    if pattern == value
    then true
    else if pattern == star
    then true
    else elim (cut_star_front pattern) [
      | some after ↦ has_suffix value after
      | none ↦ elim (cut_star_back pattern) [
        | some before ↦ has_prefix value before
        | none ↦ match_middle (cut b'*' pattern) value
      ]
    ]

unfoldable pub match_any_wildcard : List Text → Text → Bool
match_any_wildcard [] value = false
match_any_wildcard (p ∷ patterns) value =
    if match_wildcard p value then true else match_any_wildcard patterns value

-- extractChannelTenant, for a separator of one byte.
unfoldable pub extract_channel_tenant : Text → ℕ → Text
extract_channel_tenant channel separator = elim (cut separator channel) [
  | none ↦ []
  | some (before, _) ↦ before
]

unfoldable pub is_shared_channel : Text → List Text → Bool
is_shared_channel channel shared_patterns = match_any_wildcard shared_patterns channel

pub data ChannelError : Type 0 where
  empty_channel empty_channel_segment insufficient_channel_parts : ChannelError

unfoldable pub check_parts : List Text → Result ChannelError (Unit {0})
check_parts [] = ok tt
check_parts (part ∷ parts) = if part == [] then err empty_channel_segment else check_parts parts

unfoldable pub validate_channel_segments : Text → Result ChannelError (Unit {0})
unfolding check_parts
validate_channel_segments channel =
    if channel == [] then err empty_channel else check_parts (split dot channel)

-- strings.Count(s, sep) for a separator of one byte.
unfoldable pub count_byte : ℕ → Text → ℕ
count_byte sep [] = 0
count_byte sep (c ∷ s) = let rest = count_byte sep s in if c == sep then suc rest else rest

-- protocol.MinInternalChannelParts.
abbrev pub min_internal_channel_parts : ℕ
min_internal_channel_parts = 2

unfoldable pub validate_internal_channel : Text → Result ChannelError (Unit {0})
unfolding validate_channel_segments count_byte
validate_internal_channel channel = do
  validate_channel_segments channel
  if ltb (count_byte dot channel + 1) min_internal_channel_parts
      then err insufficient_channel_parts
      else ok tt

unfoldable pub is_valid_internal_channel : Text → Bool
unfolding validate_internal_channel
is_valid_internal_channel channel = elim (validate_internal_channel channel) [
  | ok _ ↦ true
  | err _ ↦ false
]

unfoldable pub validate_channel_tenant : Text → Text → Bool
validate_channel_tenant channel tenant_id =
    if channel == [] || tenant_id == [] then false else has_prefix channel (tenant_id ++ (dot ∷ []))
