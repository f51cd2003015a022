-- ===== src/Routing/Segments.antt =====
-- What the wildcards of MatchRoutingPattern stand for, and the comparison without `**`.
use mathlib.Core.List.{append-nil}
use sukko.Common.{
  ℕ, suc, ◌≤◌, ◌≡◌, refl, sym, ap, subst, ◌∙◌, ◌≢◌, ◌↔◌, ◌⊎◌, inl, inr, true, ◌&&◌, ◌||◌, List, [],
  ◌∷◌, ◌++◌, arith, length, drop, if◌then◌else◌, ◌==◌, nat_eq, list_eq, eq_iff, Bool-cases,
  and_split, or_split, length-drop, drop_all,
}
use sukko.Common.Text.{Text}
use sukko.Routing.{star, double_star, segments_match}

-- A pattern of segments against a channel of segments: `*` stands for one segment, `**` for one
-- or more, any other segment for itself.
pub data Matches : List Text → List Text → Type 0 where
  finished : Matches [] []
  one :
      {p c : Text} {ps cs : List Text}
      → p ≢ double_star
      → (p ≡ star) ⊎ (p ≡ c)
      → Matches ps cs
      → Matches (p ∷ ps) (c ∷ cs)
  many :
      {p : Text} {ps mid cs whole : List Text}
      → p ≡ double_star
      → mid ≢ []
      → whole ≡ mid ++ cs
      → Matches ps cs
      → Matches (p ∷ ps) whole

-- The number of `**` segments.
abbrev pub doubles : List Text → ℕ
doubles [] = 0
doubles (s ∷ ss) = let rest = doubles ss in if s == double_star then suc rest else rest

-- A segment that is not `**`, and the rest.
pub plain_head :
    (p : Text) (ps : List Text) → doubles (p ∷ ps) ≡ 0 → (p ≢ double_star) × (doubles ps ≡ 0)
plain_head p ps h = elim (Bool-cases (p == double_star)) [
  | inl hit ↦ absurd (ground arith)
  | inr miss ↦ (λ e. ground (arith, eq_iff p double_star), ground arith)
]

segment_sound : (p c : Text) → (p == star || p == c) ≡ true → (p ≡ star) ⊎ (p ≡ c)
segment_sound p c h = elim (or_split _ _ h) [
  | inl s ↦ inl ((eq_iff p star).0 s)
  | inr s ↦ inr ((eq_iff p c).0 s)
]

segment_complete : (p c : Text) → (p ≡ star) ⊎ (p ≡ c) → (p == star || p == c) ≡ true
segment_complete p c (inl e) = ground (arith, eq_iff p star)
segment_complete p c (inr e) = ground (arith, eq_iff p c)

-- Segments without `**` that agree with the channel's first ones.
pub prefix_sound :
    (pre rest cs : List Text)
    → doubles pre ≡ 0
    → segments_match pre cs ≡ true
    → Matches rest (drop (length pre) cs)
    → Matches (pre ++ rest) cs
unfolding segments_match
prefix_sound [] rest cs plain h m = m
prefix_sound (p ∷ pre) rest [] plain h m = cc
prefix_sound (p ∷ pre) rest (c ∷ cs) plain h m =
    let (named, later) = plain_head p pre plain in
    let (here, there) = and_split _ _ h in
    one named (segment_sound p c here) (prefix_sound pre rest cs later there m)

-- Inversion at a segment that is not `**`.
Matches-cons :
    {q : List Text} {cs : List Text} (p : Text) (ps : List Text)
    → Matches q cs
    → q ≡ p ∷ ps
    → p ≢ double_star
    → (c : Text) × (rest : List Text) × (cs ≡ c ∷ rest) × ((p ≡ star) ⊎ (p ≡ c)) × Matches ps rest
Matches-cons p ps finished e n = cc
Matches-cons p ps (one {p = p'} {c} {ps = ps'} {cs} d s m) e n =
    let same : p' ≡ p = cc in
    let rest : ps' ≡ ps = cc in
    (c, cs, refl, subst (λ x. (x ≡ star) ⊎ (x ≡ c)) same s, subst (λ x. Matches x cs) rest m)
Matches-cons p ps (many {p = p'} d _ _ _) e n = absurd (n (let same : p' ≡ p = cc in sym same ∙ d))

-- Inversion at `**`.
pub Matches-double :
    {q : List Text} {cs : List Text} (ps : List Text)
    → Matches q cs
    → q ≡ double_star ∷ ps
    → (mid rest : List Text) × (mid ≢ []) × (cs ≡ mid ++ rest) × Matches ps rest
Matches-double ps finished e = cc
Matches-double ps (one {p = p'} d s m) e = absurd (d (let same : p' ≡ double_star = cc in same))
Matches-double ps (many {ps = ps'} {mid} {cs} d n w m) e =
    let rest : ps' ≡ ps = cc in (mid, cs, n, w, subst (λ x. Matches x cs) rest m)

Matches-nil : {q : List Text} {cs : List Text} → Matches q cs → q ≡ [] → cs ≡ []
Matches-nil finished e = refl
Matches-nil (one d s m) e = cc
Matches-nil (many d n w m) e = cc

pub prefix_complete :
    (pre rest cs : List Text)
    → doubles pre ≡ 0
    → Matches (pre ++ rest) cs
    → (segments_match pre cs ≡ true)
      × (length pre ≤ length cs)
      × Matches rest (drop (length pre) cs)
unfolding segments_match
prefix_complete [] rest cs plain m = (refl, omega arith, m)
prefix_complete (p ∷ pre) rest [] plain m =
    let (named, later) = plain_head p pre plain in
    let (c, tl, e, s, m') = Matches-cons p (pre ++ rest) m refl named in
    absurd (let clash : [] ≡ c ∷ tl = e in cc)
prefix_complete (p ∷ pre) rest (d ∷ cs) plain m =
    let (named, later) = plain_head p pre plain in
    let (c, tl, e, s, m') = Matches-cons p (pre ++ rest) m refl named in
    let same : c ≡ d = cc in
    let tail : tl ≡ cs = cc in
    let (h, l, k) = prefix_complete pre rest cs later (subst (Matches (pre ++ rest)) tail m') in
    (
      ground (arith, h, segment_complete p d (subst (λ x. (p ≡ star) ⊎ (p ≡ x)) same s)),
      omega (arith, l),
      k,
    )

pub plain_sound :
    (ps cs : List Text)
    → doubles ps ≡ 0
    → length ps ≡ length cs
    → segments_match ps cs ≡ true
    → Matches ps cs
plain_sound ps cs plain same agree =
    subst (λ q. Matches q cs) (append-nil ps)
      (prefix_sound ps [] cs plain agree
        (subst (Matches []) (sym (drop_all (length ps) cs same)) finished))

pub plain_complete :
    (ps cs : List Text)
    → doubles ps ≡ 0
    → Matches ps cs
    → (length ps ≡ length cs) × (segments_match ps cs ≡ true)
plain_complete ps cs plain m =
    let (agree, le, rest) =
      prefix_complete ps [] cs plain (subst (λ q. Matches q cs) (sym (append-nil ps)) m) in
    let ends : length (drop (length ps) cs) ≡ 0 = ap length (Matches-nil rest refl) in
    (omega (arith, le, ends, length-drop (length ps) cs), agree)

-- Without `**` the segments match exactly when there are as many and each matches.
pub plain_iff :
    (ps cs : List Text)
    → doubles ps ≡ 0
    → ((length ps == length cs && segments_match ps cs) ≡ true) ↔ Matches ps cs
plain_iff ps cs plain = (
  λ h. plain_sound ps cs plain (ground arith) (and_split _ _ h).1,
  λ m. let (same, agree) = plain_complete ps cs plain m in ground (arith, same, agree),
)
