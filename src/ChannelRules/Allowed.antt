-- ===== src/ChannelRules/Allowed.antt =====
-- ComputeAllowedPatterns: which patterns a user gets.
use sukko.Common.{
  ◌≡◌, refl, inl, inr, Bool, true, false, not, ◌&&◌, ◌||◌, Option, none, some, List, [], ◌∷◌, ◌++◌,
  arith, length, if◌then◌else◌, ltb, leb, nat_eq, list_eq, contains, contains-append, contains_nil,
  contains-dedup_from, dedup_from-Distinct, Distinct, Option-cases, any,
}
use sukko.Common.Map.{lookup}
use sukko.Common.Text.{Text}
use sukko.ChannelRules.{
  ChannelRules, deduplicate, collect_groups, compute_patterns, compute_allowed_patterns,
  compute_allowed_publish_patterns,
}

contains-deduplicate : (xs : List Text) (a : Text) → contains (deduplicate xs) a ≡ contains xs a
unfolding deduplicate
contains-deduplicate xs a = ground (arith, contains-dedup_from [] xs a, contains_nil a)

one-Distinct : (x : Text) → Distinct (x ∷ [])
unfolding contains
one-Distinct x = (refl, tt)

deduplicate-Distinct : (xs : List Text) → Distinct (deduplicate xs)
unfolding deduplicate
deduplicate-Distinct [] = tt
deduplicate-Distinct (x ∷ []) = one-Distinct x
deduplicate-Distinct (x ∷ y ∷ xs) =
    let long : leb (length (x ∷ y ∷ xs)) 1 ≡ false = ground arith in
    rw (long, deduplicate) (dedup_from-Distinct [] (x ∷ y ∷ xs))

-- Whether the pattern is mapped to the group, and whether the group is mapped at all.
abbrev pub holds : Option (List Text) → Text → Bool
holds none p = false
holds (some patterns) p = contains patterns p

abbrev pub mapped : Option (List Text) → Bool
mapped none = false
mapped (some patterns) = true

collect_groups-found :
    (mappings : List (Text × List Text)) (groups : List Text) (p : Text)
    → contains (collect_groups mappings groups).0 p ≡ any (λ g. holds (lookup g mappings) p) groups
unfolding collect_groups
collect_groups-found mappings [] p = contains_nil p
collect_groups-found mappings (g ∷ groups) p = elim (Option-cases (lookup g mappings)) [
  | inl missing ↦ ground (arith, missing, collect_groups-found mappings groups p)
  | inr (patterns, found) ↦ ground (
    arith,
    found,
    collect_groups-found mappings groups p,
    contains-append patterns (collect_groups mappings groups).0 p,
  )
]

collect_groups-matched :
    (mappings : List (Text × List Text)) (groups : List Text)
    → (collect_groups mappings groups).1 ≡ any (λ g. mapped (lookup g mappings)) groups
unfolding collect_groups
collect_groups-matched mappings [] = refl
collect_groups-matched mappings (g ∷ groups) =
    ground (arith, collect_groups-matched mappings groups)

contains_short : (xs : List Text) (p : Text) → ltb 0 (length xs) ≡ false → contains xs p ≡ false
contains_short [] p h = contains_nil p
contains_short (x ∷ xs) p h = absurd (ground arith)

-- The description: the pattern is public, or mapped to one of the user's groups, or a default one
-- where none of the groups is mapped.
abbrev pub is_allowed : List Text → List (Text × List Text) → List Text → List Text → Text → Bool
is_allowed public_patterns mappings default_patterns groups p =
    contains public_patterns p
    || any (λ g. holds (lookup g mappings) p) groups
    || not (any (λ g. mapped (lookup g mappings)) groups) && contains default_patterns p

compute_patterns_members :
    (public_patterns : List Text) (mappings : List (Text × List Text))
    (default_patterns groups : List Text) (p : Text)
    → (contains (compute_patterns public_patterns mappings default_patterns groups) p
        ≡ is_allowed public_patterns mappings default_patterns groups p)
      × Distinct (compute_patterns public_patterns mappings default_patterns groups)
unfolding compute_patterns
compute_patterns_members public_patterns mappings default_patterns groups p =
    let (found, matched) = collect_groups mappings groups in
    let fallback =
      if not matched && ltb 0 (length default_patterns) then default_patterns else [] in
    (
      ground (
        arith,
        contains-deduplicate (public_patterns ++ (found ++ fallback)) p,
        contains-append public_patterns (found ++ fallback) p,
        contains-append found fallback p,
        collect_groups-found mappings groups p,
        collect_groups-matched mappings groups,
        contains_nil p,
        contains_short default_patterns p,
      ),
      deduplicate-Distinct (public_patterns ++ (found ++ fallback)),
    )

-- A user may subscribe to a pattern exactly when it is public, or mapped to one of the user's
-- groups, or a default one where none of the groups is mapped; likewise for publishing, by the
-- publish rules. Neither list holds a pattern twice.
pub allowed_members :
    (r : ChannelRules) (groups : List Text) (p : Text)
    → (contains (compute_allowed_patterns r groups) p
        ≡ is_allowed r.public_patterns r.group_mappings r.default_patterns groups p)
      × (contains (compute_allowed_publish_patterns r groups) p
          ≡ is_allowed r.publish_public r.publish_group_mappings r.publish_default groups p)
      × Distinct (compute_allowed_patterns r groups)
      × Distinct (compute_allowed_publish_patterns r groups)
unfolding compute_allowed_patterns compute_allowed_publish_patterns
allowed_members r groups p =
    let (sub, one) =
      compute_patterns_members r.public_patterns r.group_mappings r.default_patterns groups p in
    let (pub_, two) =
      compute_patterns_members r.publish_public r.publish_group_mappings r.publish_default groups
        p in
    (sub, pub_, one, two)
