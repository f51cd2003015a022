-- ===== src/Routing.antt =====
-- ws/internal/shared/routing/constants.go: channel patterns of routing rules and webhooks.
pub mod Segments
pub mod Double
pub mod Matching
pub mod Normalize
mod Tests
use sukko.Common.{
  ℕ, suc, ◌+◌, ◌-◌, Bool, true, false, ◌&&◌, ◌||◌, List, [], ◌∷◌, Result, ok, err, length, take,
  drop, if◌then◌else◌, ltb, ◌==◌, nat_eq, list_eq,
}
use sukko.Common.Text.{Text, codes, split, join}

abbrev pub star : Text
star = codes "*"

abbrev pub double_star : Text
double_star = codes "**"

abbrev pub dot : ℕ
dot = b'.'

-- DeadLetterTopicSuffix and DefaultTopicSuffix.
abbrev pub dead_letter_topic_suffix : Text
dead_letter_topic_suffix = codes "dead-letter"

abbrev pub default_topic_suffix : Text
default_topic_suffix = codes "default"

-- The loop of NormalizePattern over the segments.
unfoldable pub normalize_segments : List Text → List Text
normalize_segments [] = []
normalize_segments (s ∷ segs) = (if s == star then double_star else s) ∷ normalize_segments segs

unfoldable pub normalize_pattern : Text → Text
normalize_pattern pattern =
    if pattern == [] then pattern else join dot (normalize_segments (split dot pattern))

pub data RoutingError : Type 0 where
  multiple_double_wildcard : RoutingError

-- The first loop of MatchRoutingPattern: the number of `**` tokens and the index of the last one.
-- The index is -1 in the source as long as none is found, and is not read then.
unfoldable pub scan_doubles : ℕ → List Text → ℕ → ℕ → ℕ × ℕ
scan_doubles i [] double_count double_idx = (double_count, double_idx)
scan_doubles i (s ∷ segs) double_count double_idx =
    scan_doubles (suc i) segs (if s == double_star then suc double_count else double_count)
      (if s == double_star then i else double_idx)

-- The loops that compare pattern segments to channel segments, from the same start. The channel
-- is never the shorter list there: the lengths are compared before.
unfoldable pub segments_match : List Text → List Text → Bool
segments_match [] cs = true
segments_match (p ∷ ps) [] = false
segments_match (p ∷ ps) (c ∷ cs) = (p == star || p == c) && segments_match ps cs

-- The case of exactly one `**`, at index `double_idx`.
unfoldable pub match_around : List Text → List Text → ℕ → Bool
unfolding segments_match
match_around p_segs c_segs double_idx =
    let prefix = take double_idx p_segs in
    let suffix = drop (double_idx + 1) p_segs in
    if ltb (length c_segs) (length prefix + 1 + length suffix)
    then false
    else segments_match prefix c_segs
      && segments_match suffix (drop (length c_segs - length suffix) c_segs)

unfoldable pub match_segments : List Text → List Text → Result RoutingError Bool
unfolding scan_doubles match_around
match_segments p_segs c_segs =
    let (double_count, double_idx) = scan_doubles 0 p_segs 0 0 in
    if ltb 1 double_count
    then err multiple_double_wildcard
    else if double_count == 0
    then ok (length p_segs == length c_segs && segments_match p_segs c_segs)
    else ok (match_around p_segs c_segs double_idx)

unfoldable pub match_routing_pattern : Text → Text → Result RoutingError Bool
unfolding match_segments
match_routing_pattern pattern channel =
    if channel == [] then ok false else match_segments (split dot pattern) (split dot channel)
