-- ===== src/Replay/Outcome.antt =====
-- What a client is told that it may have missed.
use sukko.Common.{
  ◌≡◌, refl, ap, ◌∙◌, inl, inr, Bool, false, not, ◌&&◌, ◌||◌, List, [], ◌∷◌, arith, if◌then◌else◌,
  ◌==◌, nat_eq, list_eq, eq_iff, eq_sym, contains, contains_nil, Distinct, Bool-cases,
}
use sukko.Common.Text.{Text}
use sukko.Replay.{insert_sorted, sort, gaps, recovery_outcome}

contains-insert_sorted :
    (x : Text) (ys : List Text) (a : Text)
    → contains (insert_sorted x ys) a ≡ (x == a || contains ys a)
unfolding insert_sorted contains
contains-insert_sorted x [] a = refl
contains-insert_sorted x (y ∷ ys) a = ground (arith, contains-insert_sorted x ys a)

contains-sort : (xs : List Text) (a : Text) → contains (sort xs) a ≡ contains xs a
unfolding sort contains
contains-sort [] a = refl
contains-sort (x ∷ xs) a = ground (arith, contains-insert_sorted x (sort xs) a, contains-sort xs a)

insert_sorted-Distinct :
    (x : Text) (ys : List Text)
    → contains ys x ≡ false
    → Distinct ys
    → Distinct (insert_sorted x ys)
unfolding insert_sorted contains
insert_sorted-Distinct x [] h d = (refl, tt)
insert_sorted-Distinct x (y ∷ ys) h d =
    ground (arith, insert_sorted-Distinct x ys, contains-insert_sorted x ys y, eq_sym x y, h, d)

sort-Distinct : (xs : List Text) → Distinct xs → Distinct (sort xs)
unfolding sort
sort-Distinct [] d = tt
sort-Distinct (x ∷ xs) (h, d) =
    insert_sorted-Distinct x (sort xs) (contains-sort xs x ∙ h) (sort-Distinct xs d)

contains-gaps :
    (recovered seen requested : List Text) (a : Text)
    → contains (gaps recovered seen requested) a
      ≡ (contains requested a && not (contains recovered a) && not (contains seen a))
unfolding gaps contains
contains-gaps recovered seen [] a = refl
contains-gaps recovered seen (ch ∷ requested) a = elim (Bool-cases (ch == a)) [
  | inl same ↦
      let e = (eq_iff ch a).0 same in
      ground (
        arith,
        same,
        ap (contains recovered) e,
        ap (contains seen) e,
        contains-gaps recovered seen requested a,
        contains-gaps recovered (ch ∷ seen) requested a,
      )
  | inr other ↦ ground (
    arith,
    other,
    contains-gaps recovered seen requested a,
    contains-gaps recovered (ch ∷ seen) requested a,
  )
]

gaps-Distinct : (recovered seen requested : List Text) → Distinct (gaps recovered seen requested)
unfolding gaps contains
gaps-Distinct recovered seen [] = tt
gaps-Distinct recovered seen (ch ∷ requested) = ground (
  arith,
  gaps-Distinct recovered seen requested,
  gaps-Distinct recovered (ch ∷ seen) requested,
  contains-gaps recovered (ch ∷ seen) requested ch,
  eq_iff ch ch,
)

-- The client is told exactly of the requested channels that were not recovered, each once: of all
-- of them when the replay failed or was truncated, and else of those that were not authorized. A
-- replay that failed is not reported as truncated.
pub recovery_outcome_lem :
    (requested authorized : List Text) (truncated failed : Bool) (a : Text)
    → let (possible_gap, is_truncated) = recovery_outcome requested authorized truncated failed in
      (contains possible_gap a
        ≡ (contains requested a && not (not failed && not truncated && contains authorized a)))
      × Distinct possible_gap
      × (is_truncated ≡ (truncated && not failed))
unfolding recovery_outcome
recovery_outcome_lem requested authorized truncated failed a =
    let truncated' = if failed then false else truncated in
    let recovered = if not failed && not truncated' then authorized else [] in
    (
      ground (
        arith,
        contains-sort (gaps recovered [] requested) a,
        contains-gaps recovered [] requested a,
        contains_nil a,
      ),
      sort-Distinct (gaps recovered [] requested) (gaps-Distinct recovered [] requested),
      ground arith,
    )
