-- ===== src/Routing/Normalize.antt =====
-- NormalizePattern: what it does to the segments, and what the stored pattern then matches.
use sukko.Common.{
  ◌≤◌, ◌≡◌, refl, sym, ap, subst, ◌∙◌, ◌≢◌, inl, inr, true, List, [], ◌∷◌, ok, arith, All,
  if◌then◌else◌, ◌==◌, nat_eq, list_eq, eq_iff, Bool-cases,
}
use sukko.Common.Text.{Text, split, join, Lacks, split-ne-nil, split-Lacks, split-join, join-split}
use sukko.Routing.{
  star, double_star, dot, normalize_segments, normalize_pattern, match_routing_pattern,
}
use sukko.Routing.Segments.{Matches, finished, one, many, doubles}
use sukko.Routing.Matching.{match-Matches_iff}

normalize_segments-Lacks :
    (ps : List Text) → All (Lacks dot) ps → All (Lacks dot) (normalize_segments ps)
unfolding normalize_segments
normalize_segments-Lacks [] h = tt
normalize_segments-Lacks (p ∷ ps) h = elim (Bool-cases (p == star)) [
  | inl hit ↦ rw hit ((λ e. ground arith, (λ e. ground arith, tt)), normalize_segments-Lacks ps h.1)
  | inr miss ↦ rw miss (h.0, normalize_segments-Lacks ps h.1)
]

split-join_normal :
    (ps : List Text)
    → ps ≢ []
    → All (Lacks dot) ps
    → split dot (join dot (normalize_segments ps)) ≡ normalize_segments ps
unfolding normalize_segments
split-join_normal [] some h = absurd (some refl)
split-join_normal (p ∷ ps) some h = split-join dot _ _ (normalize_segments-Lacks (p ∷ ps) h)

-- Normalising replaces each `*` segment by `**`, and leaves the others.
pub split-normalize :
    (pattern : Text)
    → split dot (normalize_pattern pattern) ≡ normalize_segments (split dot pattern)
unfolding normalize_pattern normalize_segments split
split-normalize [] = refl
split-normalize (c ∷ s) =
    split-join_normal (split dot (c ∷ s)) (split-ne-nil dot (c ∷ s)) (split-Lacks dot (c ∷ s))

normalize_segments_twice :
    (ps : List Text) → normalize_segments (normalize_segments ps) ≡ normalize_segments ps
unfolding normalize_segments
normalize_segments_twice [] = refl
normalize_segments_twice (p ∷ ps) = ground (arith, normalize_segments_twice ps, eq_iff p star)

-- Normalising a pattern a second time changes nothing.
pub normalize_idempotent :
    (pattern : Text) → normalize_pattern (normalize_pattern pattern) ≡ normalize_pattern pattern
normalize_idempotent pattern =
    sym (join-split dot (normalize_pattern (normalize_pattern pattern)))
    ∙ ap (join dot) (
        split-normalize (normalize_pattern pattern)
        ∙ ap normalize_segments (split-normalize pattern)
        ∙ normalize_segments_twice (split dot pattern)
        ∙ sym (split-normalize pattern))
    ∙ join-split dot (normalize_pattern pattern)

Matches-normalize : {ps cs : List Text} → Matches ps cs → Matches (normalize_segments ps) cs
unfolding normalize_segments
Matches-normalize finished = finished
Matches-normalize (one {p} {c} {ps} {cs} named s m) = elim (Bool-cases (p == star)) [
  | inl hit ↦ rw hit (many {mid = c ∷ []} {cs = cs} refl (λ e. cc) refl (Matches-normalize m))
  | inr miss ↦ rw miss (one named s (Matches-normalize m))
]
Matches-normalize (many {p} e n w m) =
    let keeps : (if p == star then double_star else p) ≡ double_star = ground arith in
    many keeps n w (Matches-normalize m)

-- A stored pattern, which is normalised, matches every channel that the pattern as written
-- matches, unless normalising gives it a second `**`.
pub normalize_widens :
    (pattern channel : Text)
    → match_routing_pattern pattern channel ≡ ok true
    → doubles (split dot (normalize_pattern pattern)) ≤ 1
    → match_routing_pattern (normalize_pattern pattern) channel ≡ ok true
normalize_widens pattern channel h few =
    let (some, _, m) = (match-Matches_iff pattern channel).0 h in
    (match-Matches_iff (normalize_pattern pattern) channel).1 (
      some,
      few,
      subst (λ ps. Matches ps (split dot channel)) (sym (split-normalize pattern))
          (Matches-normalize m),
    )

normalize_segments_free : (ps : List Text) → All (λ s. s ≢ star) (normalize_segments ps)
unfolding normalize_segments
normalize_segments_free [] = tt
normalize_segments_free (p ∷ ps) = (ground (arith, eq_iff p star), normalize_segments_free ps)

-- No segment of a normalised pattern is a bare `*`.
pub normalize_star_free :
    (pattern : Text) → All (λ s. s ≢ star) (split dot (normalize_pattern pattern))
normalize_star_free pattern =
    subst (All (λ s. s ≢ star)) (sym (split-normalize pattern))
      (normalize_segments_free (split dot pattern))
