-- ===== src/Common/Text.antt =====
-- Go strings as lists of bytes, with what the program uses of package strings.
use Prim.Native.Nat.{ℕ, ◌-◌}
use Prim.Native.Char.{code}
use Prim.Native.String.{String}
use mathlib.Core.Path.{◌≡◌, refl, sym, ap, subst, ◌∙◌}
use mathlib.Core.Logic.{◌≢◌, inl, inr}
use mathlib.Core.Bool.{Bool, true, false, ◌&&◌}
use mathlib.Core.Option.{Option, none, some}
use mathlib.Core.List.{List, [], ◌∷◌, ◌++◌, append-nil}
use native.Mathlib.Omega.{arith}
use sukko.Common.Tests.{if◌then◌else◌, leb, Bool-cases, and_split}
use sukko.Common.Lists.{length, take, drop, All, length-append, take-append-drop, drop-append}
use sukko.Common.Keys.{◌==◌, eq_iff, eq_refl, nat_eq, list_eq}

abbrev pub Text : Type 0
Text = List ℕ

-- The bytes of an ASCII literal.
abbrev pub codes : String → Text
codes String.[] = []
codes (String.◌∷◌ c s) = code c ∷ codes s

-- A byte goes to the front of the first part.
unfoldable pub cons_head : ℕ → List Text → List Text
cons_head c [] = (c ∷ []) ∷ []
cons_head c (p ∷ ps) = (c ∷ p) ∷ ps

-- strings.Split(s, sep) for a separator of one byte: never empty.
unfoldable pub split : ℕ → Text → List Text
unfolding cons_head
split sep [] = [] ∷ []
split sep (c ∷ s) = let rest = split sep s in if c == sep then [] ∷ rest else cons_head c rest

-- strings.Join(parts, sep) for a separator of one byte.
unfoldable pub join : ℕ → List Text → Text
join sep [] = []
join sep (p ∷ []) = p
join sep (p ∷ q ∷ ps) = p ++ (sep ∷ join sep (q ∷ ps))

-- strings.HasPrefix(s, prefix).
unfoldable pub has_prefix : Text → Text → Bool
has_prefix s [] = true
has_prefix [] (p ∷ ps) = false
has_prefix (c ∷ s) (p ∷ ps) = c == p && has_prefix s ps

-- strings.HasSuffix(s, suffix): the last bytes of `s` are `suffix`.
unfoldable pub has_suffix : Text → Text → Bool
has_suffix s suffix = leb (length suffix) (length s) && drop (length s - length suffix) s == suffix

-- strings.Cut(s, sep) for a separator of one byte.
unfoldable pub cut : ℕ → Text → Option (Text × Text)
cut sep [] = none
cut sep (c ∷ s) =
    let rest = cut sep s in
    if c == sep
    then some ([], s)
    else elim rest [ none ↦ none | some (before, after) ↦ some (c ∷ before, after) ]

-- A text without the byte.
abbrev pub Lacks : ℕ → Text → Type 0
Lacks sep s = All (λ c. c ≢ sep) s

pub has_prefix-append : (prefix rest : Text) → has_prefix (prefix ++ rest) prefix ≡ true
unfolding has_prefix
has_prefix-append [] rest = refl
has_prefix-append (p ∷ ps) rest = ground (arith, has_prefix-append ps rest)

pub has_prefix_sound :
    (s prefix : Text) → has_prefix s prefix ≡ true → (rest : Text) × (s ≡ prefix ++ rest)
unfolding has_prefix
has_prefix_sound s [] h = (s, refl)
has_prefix_sound [] (p ∷ ps) h = absurd (ground arith)
has_prefix_sound (c ∷ s) (p ∷ ps) h =
    let (rest, e) = has_prefix_sound s ps (ground arith) in (rest, ground (arith, e))

pub has_suffix-append : (front suffix : Text) → has_suffix (front ++ suffix) suffix ≡ true
unfolding has_suffix
has_suffix-append front suffix =
    let n = length-append front suffix in
    let e : length (front ++ suffix) - length suffix ≡ length front = omega (arith, n) in
    rw (e, drop-append front suffix, eq_refl suffix) (ground (arith, n))

pub has_suffix_sound :
    (s suffix : Text) → has_suffix s suffix ≡ true → (front : Text) × (s ≡ front ++ suffix)
unfolding has_suffix
has_suffix_sound s suffix h =
    let n = length s - length suffix in
    let e : drop n s ≡ suffix = (eq_iff (drop n s) suffix).0 (and_split _ _ h).1 in
    (take n s, sym (ap (◌++◌ (take n s)) (sym e) ∙ take-append-drop n s))

-- Split and join are inverse to one another.
join-cons_head :
    (sep c : ℕ) (ps : List Text) → ps ≢ [] → join sep (cons_head c ps) ≡ c ∷ join sep ps
unfolding join cons_head
join-cons_head sep c [] h = absurd (h refl)
join-cons_head sep c (p ∷ []) h = refl
join-cons_head sep c (p ∷ q ∷ ps) h = refl

pub split_view : (sep : ℕ) (s : Text) → (p : Text) × (ps : List Text) × (split sep s ≡ p ∷ ps)
unfolding split
split_view sep [] = ([], [], refl)
split_view sep (c ∷ s) = elim (Bool-cases (c == sep)) [
  | inl hit ↦ ([], split sep s, rw hit)
  | inr miss ↦ let (p, ps, e) = split_view sep s in (c ∷ p, ps, rw (miss, e))
]

pub split-ne-nil : (sep : ℕ) (s : Text) → split sep s ≢ []
split-ne-nil sep s h = let (p, ps, e) = split_view sep s in cc

pub join-split : (sep : ℕ) (s : Text) → join sep (split sep s) ≡ s
unfolding split join
join-split sep [] = refl
join-split sep (c ∷ s) = elim (Bool-cases (c == sep)) [
  | inl hit ↦
      let (p, ps, e) = split_view sep s in
      let same : c ≡ sep = (eq_iff c sep).0 hit in
      rw (hit, e) (ground (arith, same, join-split sep s, e, ap (join sep) e))
  | inr miss ↦ rw (miss, join-cons_head sep c (split sep s) (split-ne-nil sep s), join-split sep s)
]

pub split-Lacks : (sep : ℕ) (s : Text) → All (Lacks sep) (split sep s)
unfolding split
split-Lacks sep [] = (tt, tt)
split-Lacks sep (c ∷ s) =
    let (p, ps, e) = split_view sep s in
    ground
      (arith, e, split-Lacks sep s, subst (All (Lacks sep)) e (split-Lacks sep s), eq_iff c sep)

split-append : (sep : ℕ) (p s : Text) → Lacks sep p → split sep (p ++ (sep ∷ s)) ≡ p ∷ split sep s
unfolding split
split-append sep [] s h = rw (eq_refl sep)
split-append sep (c ∷ p) s h = ground (arith, split-append sep p s h.1)

split_of_Lacks : (sep : ℕ) (p : Text) → Lacks sep p → split sep p ≡ p ∷ []
unfolding split
split_of_Lacks sep [] h = refl
split_of_Lacks sep (c ∷ p) h = ground (arith, split_of_Lacks sep p h.1)

pub split-join :
    (sep : ℕ) (p : Text) (ps : List Text)
    → All (Lacks sep) (p ∷ ps)
    → split sep (join sep (p ∷ ps)) ≡ p ∷ ps
unfolding join
split-join sep p [] h = split_of_Lacks sep p h.0
split-join sep p (q ∷ ps) h =
    split-append sep p (join sep (q ∷ ps)) h.0 ∙ ap (◌∷◌ p) (split-join sep q ps h.1)

pub cut-append :
    (sep : ℕ) (before after : Text)
    → Lacks sep before
    → cut sep (before ++ (sep ∷ after)) ≡ some (before, after)
unfolding cut
cut-append sep [] after h = ground (arith, eq_refl sep)
cut-append sep (c ∷ before) after h = ground (arith, cut-append sep before after h.1)

pub cut_sound :
    (sep : ℕ) (s before after : Text)
    → cut sep s ≡ some (before, after)
    → (s ≡ before ++ (sep ∷ after)) × Lacks sep before
unfolding cut
cut_sound sep [] before after h = absurd (ground arith)
cut_sound sep (c ∷ s) [] after h = ground (arith, eq_iff c sep)
cut_sound sep (c ∷ s) (d ∷ before) after h =
    ground (arith, eq_iff c sep, cut_sound sep s before after)

pub has_suffix_nil : (s : Text) → has_suffix s [] ≡ true
has_suffix_nil s = ap (λ t. has_suffix t []) (sym (append-nil s)) ∙ has_suffix-append s []

pub cut_of_Lacks : (sep : ℕ) (s : Text) → Lacks sep s → cut sep s ≡ none
unfolding cut
cut_of_Lacks sep [] h = refl
cut_of_Lacks sep (c ∷ s) h = ground (arith, cut_of_Lacks sep s h.1)

pub has_prefix_nil : (s : Text) → has_prefix s [] ≡ true
unfolding has_prefix
has_prefix_nil s = refl
