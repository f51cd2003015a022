-- ===== src/Routing/Double.antt =====
-- Patterns with one `**`: where it stands, and the comparison around it.
use sukko.Common.{
  ℕ, suc, ◌+◌, ◌-◌, ◌≤◌, ◌≡◌, refl, sym, ap, ap₂, subst, ◌∙◌, inl, inr, Bool, true, false, ◌&&◌,
  List, [], ◌∷◌, ◌++◌, arith, length, drop, if◌then◌else◌, ltb, ◌==◌, nat_eq, list_eq, eq_iff,
  Bool-cases, length-append, length-drop, take-append-drop, drop-drop, drop-append, take-append,
  length_pos, take-ne-nil,
}
use sukko.Common.Text.{Text}
use sukko.Routing.{double_star, scan_doubles, segments_match, match_around}
use sukko.Routing.Segments.{
  Matches, many, doubles, Matches-double, prefix_sound, prefix_complete, plain_sound,
  plain_complete,
}

pub scan-doubles :
    (i : ℕ) (ss : List Text) (n idx : ℕ) → (scan_doubles i ss n idx).0 ≡ n + doubles ss
unfolding scan_doubles
scan-doubles i [] n idx = omega arith
scan-doubles i (s ∷ ss) n idx =
    ground (arith, scan-doubles (suc i) ss (suc n) i, scan-doubles (suc i) ss n idx)

scan_idx : (i : ℕ) (ss : List Text) (n idx : ℕ) → doubles ss ≡ 0 → (scan_doubles i ss n idx).1 ≡ idx
unfolding scan_doubles
scan_idx i [] n idx h = refl
scan_idx i (s ∷ ss) n idx h =
    ground (arith, scan_idx (suc i) ss (suc n) i, scan_idx (suc i) ss n idx)

-- Where the only `**` stands.
pub record OnlyDouble (ss : List Text) (at : ℕ) : Type 0 where
  pub before : List Text
  pub after : List Text
  pub whole : ss ≡ before ++ (double_star ∷ after)
  pub none_before : doubles before ≡ 0
  pub none_after : doubles after ≡ 0
  pub place : at ≡ length before

pub scan-OnlyDouble :
    (i : ℕ) (ss : List Text) (n idx : ℕ)
    → doubles ss ≡ 1
    → (at : ℕ) × ((scan_doubles i ss n idx).1 ≡ i + at) × OnlyDouble ss at
unfolding scan_doubles
scan-OnlyDouble i [] n idx h = absurd (omega arith)
scan-OnlyDouble i (s ∷ ss) n idx h = elim (Bool-cases (s == double_star)) [
  | inl hit ↦
      let last : doubles ss ≡ 0 = ground arith in
      (
        0,
        rw (hit, scan_doubles) (scan_idx (suc i) ss (suc n) i last ∙ omega arith),
        record {
          before = [];
          after = ss;
          whole = ap (λ t. t ∷ ss) ((eq_iff s double_star).0 hit);
          none_before = refl;
          none_after = last;
          place = refl;
        },
      )
  | inr miss ↦
      let (at, e, o) = scan-OnlyDouble (suc i) ss n idx (ground arith) in
      (
        suc at,
        rw (miss, scan_doubles) (e ∙ omega arith),
        record {
          before = s ∷ o.before;
          after = o.after;
          whole = ap (◌∷◌ s) o.whole;
          none_before = ground (arith, o.none_before);
          none_after = o.none_after;
          place = ap suc o.place;
        },
      )
]

-- With one `**` between `before` and `after`: the test of the source, with the pattern split.
pub around : List Text → List Text → List Text → Bool
around before after cs =
    if ltb (length cs) (length before + 1 + length after)
    then false
    else segments_match before cs && segments_match after (drop (length cs - length after) cs)

drop_past :
    (before after : List Text) → drop (length before + 1) (before ++ (double_star ∷ after)) ≡ after
drop_past before after =
    sym (drop-drop 1 (length before) (before ++ (double_star ∷ after)))
    ∙ ap (drop 1) (drop-append before (double_star ∷ after))

pub match_around-around :
    (before after cs : List Text)
    → match_around (before ++ (double_star ∷ after)) cs (length before) ≡ around before after cs
unfolding match_around around
match_around-around before after cs =
    rw (take-append before (double_star ∷ after), drop_past before after)

module _ (before after cs : List Text) (plain_after : doubles after ≡ 0) where
  -- The channel's last segments are those behind the middle.
  last_segments :
      length before + length after ≤ length cs
      → drop (length cs - length before - length after) (drop (length before) cs)
        ≡ drop (length cs - length after) cs
  last_segments h =
      drop-drop (length cs - length before - length after) (length before) cs
      ∙ ap (λ k. drop k cs) (omega (arith, h))

  pub around_sound :
      doubles before ≡ 0
      → around before after cs ≡ true
      → Matches (before ++ (double_star ∷ after)) cs
  unfolding around
  around_sound plain_before h =
      let room : length before + 1 + length after ≤ length cs = ground arith in
      let agree : segments_match before cs ≡ true = ground arith in
      let agree' : segments_match after (drop (length cs - length after) cs) ≡ true =
        ground arith in
      let n = length cs - length before - length after in
      let rest = drop (length before) cs in
      let size = length-drop (length before) cs in
      let size' = length-drop (length cs - length after) cs in
      let tail_matches = plain_sound after _ plain_after (omega (arith, room, size')) agree' in
      prefix_sound before (double_star ∷ after) cs plain_before agree (
        many refl (take-ne-nil n rest (omega (arith, room)) (omega (arith, room, size)))
          (sym (take-append-drop n rest))
          (subst (Matches after) (sym (last_segments (omega (arith, room)))) tail_matches))

  pub around_complete :
      doubles before ≡ 0
      → Matches (before ++ (double_star ∷ after)) cs
      → around before after cs ≡ true
  unfolding around
  around_complete plain_before m =
      let (agree, le, m') = prefix_complete before (double_star ∷ after) cs plain_before m in
      let (mid, rest, some_mid, e, m'') = Matches-double after m' refl in
      let (same, agree') = plain_complete after rest plain_after m'' in
      let size = length-drop (length before) cs in
      let sizes = ap length e ∙ length-append mid rest in
      let pos = length_pos mid some_mid in
      let room : length before + 1 + length after ≤ length cs =
        omega (arith, le, same, size, sizes, pos) in
      let n : length cs - length before - length after ≡ length mid =
        omega (arith, le, same, size, sizes, pos) in
      let tail_is : drop (length cs - length after) cs ≡ rest =
        sym (last_segments (omega (arith, room))) ∙ ap₂ drop n e ∙ drop-append mid rest in
      ground (arith, room, agree, ap (segments_match after) tail_is, agree')
