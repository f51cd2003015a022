-- ===== src/Routing/Matching.antt =====
-- MatchRoutingPattern decides the relation that its comment describes.
use sukko.Common.{
  ◌≤◌, ◌<◌, ◌≡◌, sym, ap₂, subst, ◌∙◌, ◌≢◌, ◌↔◌, true, List, [], ok, err, arith, length, nat_eq,
  list_eq, eq_iff,
}
use sukko.Common.Text.{Text, split}
use sukko.Routing.{
  dot, multiple_double_wildcard, scan_doubles, match_around, match_segments, match_routing_pattern,
}
use sukko.Routing.Segments.{Matches, doubles, plain_iff}
use sukko.Routing.Double.{
  scan-doubles, scan-OnlyDouble, around, match_around-around, around_sound, around_complete,
}

one_double :
    (ps cs : List Text)
    → doubles ps ≡ 1
    → (match_around ps cs (scan_doubles 0 ps 0 0).1 ≡ true) ↔ Matches ps cs
one_double ps cs h =
    let (at, e, o) = scan-OnlyDouble 0 ps 0 0 h in
    let idx : (scan_doubles 0 ps 0 0).1 ≡ length o.before = e ∙ omega (arith, o.place) in
    let same : match_around ps cs (scan_doubles 0 ps 0 0).1 ≡ around o.before o.after cs =
      ap₂ (λ p i. match_around p cs i) o.whole idx ∙ match_around-around o.before o.after cs in
    (
      λ t.
          subst (λ p. Matches p cs) (sym o.whole)
            (around_sound o.before o.after cs o.none_after o.none_before (sym same ∙ t)),
      λ m.
          same
          ∙ around_complete o.before o.after cs o.none_after o.none_before
              (subst (λ p. Matches p cs) o.whole m),
    )

match_segments-Matches :
    (ps cs : List Text) → (match_segments ps cs ≡ ok true) ↔ ((doubles ps ≤ 1) × Matches ps cs)
unfolding match_segments
match_segments-Matches ps cs =
    ground (arith, scan-doubles 0 ps 0 0, plain_iff ps cs, one_double ps cs)

-- A pattern matches a non-empty channel exactly when it has at most one `**` and the channel's
-- segments can be read off it, `*` standing for one segment and `**` for one or more.
pub match-Matches_iff :
    (pattern channel : Text)
    → (match_routing_pattern pattern channel ≡ ok true) ↔ (
        (channel ≢ [])
        × (doubles (split dot pattern) ≤ 1)
        × Matches (split dot pattern) (split dot channel))
unfolding match_routing_pattern
match-Matches_iff pattern channel =
    ground
      (arith, eq_iff channel [], match_segments-Matches (split dot pattern) (split dot channel))

-- The error is returned exactly for a pattern with more than one `**`, unless the channel is empty.
pub match_error_iff :
    (pattern channel : Text)
    → (match_routing_pattern pattern channel ≡ err multiple_double_wildcard)
      ↔ ((channel ≢ []) × (1 < doubles (split dot pattern)))
unfolding match_routing_pattern match_segments
match_error_iff pattern channel =
    ground (arith, eq_iff channel [], scan-doubles 0 (split dot pattern) 0 0)
