-- ===== src/Channels/Wildcards.antt =====
-- MatchWildcard: what a pattern with one `*` matches, by one description for its four branches.
use mathlib.Core.Option
use mathlib.Core.List.{append_assoc}
use sukko.Common.{
  ℕ, ◌≡◌, refl, sym, ap, ◌∙◌, true, ◌&&◌, none, some, [], ◌∷◌, ◌++◌, arith, ◌==◌, nat_eq, list_eq,
  eq_iff,
}
use sukko.Common.Text.{
  Text, Lacks, cut-append, cut_of_Lacks, has_prefix, has_suffix, has_prefix-append,
  has_suffix-append, has_suffix_nil, has_prefix_nil,
}
use sukko.Routing.{star}
use sukko.Channels.{cut_star_back, match_wildcard}

cut_star_back-none : (s : Text) → Lacks b'*' s → cut_star_back s ≡ none
unfolding cut_star_back
cut_star_back-none [] h = refl
cut_star_back-none (c ∷ []) h = ground arith
cut_star_back-none (c ∷ d ∷ s) h = ap (Option.map (◌∷◌ c)) (cut_star_back-none (d ∷ s) h.1)

cut_star_back-some : (p : Text) → cut_star_back (p ++ (b'*' ∷ [])) ≡ some p
unfolding cut_star_back
cut_star_back-some [] = refl
cut_star_back-some (c ∷ []) = refl
cut_star_back-some (c ∷ d ∷ p) = ap (Option.map (◌∷◌ c)) (cut_star_back-some (d ∷ p))

cut_star_back-append :
    (p : Text) (c : ℕ) (s : Text) → Lacks b'*' (c ∷ s) → cut_star_back (p ++ (c ∷ s)) ≡ none
unfolding cut_star_back
cut_star_back-append [] c s h = cut_star_back-none (c ∷ s) h
cut_star_back-append (d ∷ []) c s h = ap (Option.map (◌∷◌ d)) (cut_star_back-none (c ∷ s) h)
cut_star_back-append (d ∷ e ∷ p) c s h =
    ap (Option.map (◌∷◌ d)) (cut_star_back-append (e ∷ p) c s h)

-- The pattern `prefix*suffix`, either part possibly empty.
abbrev pub wildcard : Text → Text → Text
wildcard prefix suffix = prefix ++ (b'*' ∷ suffix)

front_star :
    (suffix value : Text) → match_wildcard (wildcard [] suffix) value ≡ has_suffix value suffix
unfolding match_wildcard
front_star suffix value = ground (
  arith,
  eq_iff (b'*' ∷ suffix) value,
  eq_iff (b'*' ∷ suffix) star,
  has_suffix-append (b'*' ∷ []) suffix,
  has_suffix_nil value,
)

back_star :
    (c : ℕ) (prefix value : Text)
    → Lacks b'*' (c ∷ prefix)
    → match_wildcard (wildcard (c ∷ prefix) []) value ≡ has_prefix value (c ∷ prefix)
unfolding match_wildcard
back_star c prefix value h = ground (
  arith,
  eq_iff (wildcard (c ∷ prefix) []) value,
  eq_iff (wildcard (c ∷ prefix) []) star,
  has_prefix-append (c ∷ prefix) (b'*' ∷ []),
  cut_star_back-some (c ∷ prefix),
)

middle_star :
    (c d : ℕ) (prefix suffix value : Text)
    → Lacks b'*' (c ∷ prefix)
    → Lacks b'*' (d ∷ suffix)
    → match_wildcard (wildcard (c ∷ prefix) (d ∷ suffix)) value
      ≡ (has_prefix value (c ∷ prefix) && has_suffix value (d ∷ suffix))
unfolding match_wildcard
middle_star c d prefix suffix value h k =
    let p = c ∷ prefix in
    let s = d ∷ suffix in
    let ends : has_suffix (wildcard p s) s ≡ true =
      ap (λ t. has_suffix t s) (sym (append_assoc p (b'*' ∷ []) s))
      ∙ has_suffix-append (p ++ (b'*' ∷ [])) s in
    ground (
      arith,
      ends,
      eq_iff (wildcard p s) value,
      eq_iff (wildcard p s) star,
      has_prefix-append p (b'*' ∷ s),
      cut_star_back-append (p ++ (b'*' ∷ [])) d suffix k,
      append_assoc p (b'*' ∷ []) s,
      ap cut_star_back (append_assoc p (b'*' ∷ []) s),
      cut-append b'*' p s h,
    )

-- A pattern with one `*` matches exactly the values that begin with what stands before it and end
-- with what stands behind it.
pub match_wildcard_one :
    (prefix suffix value : Text)
    → Lacks b'*' prefix
    → Lacks b'*' suffix
    → match_wildcard (wildcard prefix suffix) value
      ≡ (has_prefix value prefix && has_suffix value suffix)
match_wildcard_one [] suffix value h k =
    front_star suffix value ∙ ap (λ b. b && has_suffix value suffix) (sym (has_prefix_nil value))
match_wildcard_one (c ∷ prefix) [] value h k =
    back_star c prefix value h ∙ ground (arith, has_suffix_nil value)
match_wildcard_one (c ∷ prefix) (d ∷ suffix) value h k = middle_star c d prefix suffix value h k

-- A pattern without `*` matches itself only.
pub match_wildcard_literal :
    (pattern value : Text) → Lacks b'*' pattern → match_wildcard pattern value ≡ (pattern == value)
unfolding match_wildcard
match_wildcard_literal [] value h = ground (arith, cut_of_Lacks b'*' [] tt)
match_wildcard_literal (c ∷ pattern) value h = ground (
  arith,
  eq_iff (c ∷ pattern) star,
  cut_star_back-none (c ∷ pattern) h,
  cut_of_Lacks b'*' (c ∷ pattern) h,
)

-- The two ends may overlap in the value: `xy*yz` matches `xyz`, although no text stands for `*`.
pub match_wildcard_overlap :
    (x y z : Text)
    → Lacks b'*' (x ++ y)
    → Lacks b'*' (y ++ z)
    → match_wildcard (wildcard (x ++ y) (y ++ z)) (x ++ (y ++ z)) ≡ true
match_wildcard_overlap x y z h k =
    let value = x ++ (y ++ z) in
    let starts : has_prefix value (x ++ y) ≡ true =
      ap (λ t. has_prefix t (x ++ y)) (sym (append_assoc x y z)) ∙ has_prefix-append (x ++ y) z in
    match_wildcard_one (x ++ y) (y ++ z) value h k
    ∙ ground (arith, starts, has_suffix-append x (y ++ z))
