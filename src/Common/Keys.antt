-- ===== src/Common/Keys.antt =====
-- Equality tests as an interface, and the membership test of a Go set (a map to empty structs),
-- which is modelled by the list of its keys.
use Prim.Native.Nat.{ℕ}
use mathlib.Core.Path.{◌≡◌, refl, sym, ap₂}
use mathlib.Core.Logic.{◌↔◌, inl, inr}
use mathlib.Core.Bool.{Bool, true, false, not, ◌&&◌, ◌||◌}
use mathlib.Core.List.{List, [], ◌∷◌, ◌++◌}
use native.Mathlib.Omega.{arith}
use sukko.Common.Tests.{nat_beq, Bool-cases, if◌then◌else◌}
use sukko.Common.Lists.{Elem}

pub record Equality {ℓ} (A : Type ℓ) : Type ℓ where
  pub same : A → A → Bool
  pub same_iff : (a b : A) → (same a b ≡ true) ↔ (a ≡ b)

infix 50 ◌==◌
abbrev pub ◌==◌ {ℓ} : {A : Type ℓ} ⦃e : Equality A⦄ → A → A → Bool
◌==◌ ⦃e⦄ = e.same

pub nat_beq_iff : (a b : ℕ) → (nat_beq a b ≡ true) ↔ (a ≡ b)
nat_beq_iff a b = ground arith

instance abbrev pub nat_eq : Equality ℕ
nat_eq = record { same = nat_beq; same_iff = nat_beq_iff }

module _ {ℓ} {A : Type ℓ} ⦃e : Equality A⦄ where
  abbrev pub list_beq : List A → List A → Bool
  list_beq [] [] = true
  list_beq (x ∷ xs) (y ∷ ys) = e.same x y && list_beq xs ys
  list_beq _ _ = false

  list_beq_sound : (xs ys : List A) → list_beq xs ys ≡ true → xs ≡ ys
  list_beq_sound [] [] h = refl
  list_beq_sound [] (y ∷ ys) h = cc
  list_beq_sound (x ∷ xs) [] h = cc
  list_beq_sound (x ∷ xs) (y ∷ ys) h =
      ap₂ ◌∷◌ ((e.same_iff x y).0 (ground arith)) (list_beq_sound xs ys (ground arith))

  list_beq_refl : (xs : List A) → list_beq xs xs ≡ true
  list_beq_refl [] = refl
  list_beq_refl (x ∷ xs) = rw ((e.same_iff x x).1 refl, list_beq_refl xs)

  pub list_beq_iff : (xs ys : List A) → (list_beq xs ys ≡ true) ↔ (xs ≡ ys)
  list_beq_iff xs ys = (list_beq_sound xs ys, λ p. rw p (list_beq_refl ys))

  -- Byte strings, and lists of them, are compared through this instance.
  instance abbrev pub list_eq : Equality (List A)
  list_eq = record { same = list_beq; same_iff = list_beq_iff }

  pub eq_refl : (a : A) → (a == a) ≡ true
  eq_refl a = (e.same_iff a a).1 refl

  pub eq_iff : (a b : A) → ((a == b) ≡ true) ↔ (a ≡ b)
  eq_iff a b = e.same_iff a b

  pub eq_sym : (a b : A) → (a == b) ≡ (b == a)
  eq_sym a b = ground (arith, e.same_iff a b, e.same_iff b a)

module _ {A : Type 0} ⦃e : Equality A⦄ where
  unfoldable pub contains : List A → A → Bool
  contains [] a = false
  contains (x ∷ xs) a = x == a || contains xs a

  pub contains_iff : (xs : List A) (a : A) → (contains xs a ≡ true) ↔ Elem a xs
  unfolding contains
  contains_iff [] a = (λ h. absurd (ground arith), λ h. absurd h)
  contains_iff (x ∷ xs) a = elim (Bool-cases (x == a)) [
    | inl equal ↦ (λ h. inl (sym ((e.same_iff x a).0 equal)), λ h. rw equal)
    | inr other ↦ (
      λ h. inr ((contains_iff xs a).0 (rw other at h)),
      elim [
        | inl p ↦ absurd (ground (arith, e.same_iff x a, sym p))
        | inr m ↦ rw (other, (contains_iff xs a).1 m)
      ],
    )
  ]

  -- A list without repetition.
  abbrev pub Distinct : List A → Type 0
  Distinct [] = Unit {0}
  Distinct (x ∷ xs) = (contains xs x ≡ false) × Distinct xs

  -- The first occurrences of the elements that are not in `seen`: what a loop with a `seen` map
  -- collects.
  unfoldable pub dedup_from : List A → List A → List A
  unfolding contains
  dedup_from seen [] = []
  dedup_from seen (x ∷ xs) =
      let skip = dedup_from seen xs in
      let add = x ∷ dedup_from (x ∷ seen) xs in if contains seen x then skip else add

  pub contains-dedup_from :
      (seen xs : List A) (a : A)
      → contains (dedup_from seen xs) a ≡ (contains xs a && not (contains seen a))
  unfolding dedup_from
  contains-dedup_from seen [] a = refl
  contains-dedup_from seen (x ∷ xs) a =
      ground (arith, eq_iff x a, contains-dedup_from seen xs a, contains-dedup_from (x ∷ seen) xs a)

  pub dedup_from-Distinct : (seen xs : List A) → Distinct (dedup_from seen xs)
  unfolding dedup_from
  dedup_from-Distinct seen [] = tt
  dedup_from-Distinct seen (x ∷ xs) = ground (
    arith,
    dedup_from-Distinct seen xs,
    dedup_from-Distinct (x ∷ seen) xs,
    contains-dedup_from (x ∷ seen) xs x,
    eq_refl x,
  )

  -- No element of the list is in `seen`.
  abbrev pub Fresh : List A → List A → Type 0
  Fresh seen [] = Unit {0}
  Fresh seen (x ∷ xs) = (contains seen x ≡ false) × Fresh seen xs

  pub Fresh-nil : (xs : List A) → Fresh [] xs
  unfolding contains
  Fresh-nil [] = tt
  Fresh-nil (x ∷ xs) = (refl, Fresh-nil xs)

  pub Fresh-cons :
      (a : A) (seen xs : List A) → Fresh (a ∷ seen) xs ↔ ((contains xs a ≡ false) × Fresh seen xs)
  unfolding contains
  Fresh-cons a seen [] = (λ h. (refl, tt), λ h. tt)
  Fresh-cons a seen (x ∷ xs) = ground (arith, Fresh-cons a seen xs, eq_sym a x)

  pub contains-append :
      (xs ys : List A) (a : A) → contains (xs ++ ys) a ≡ (contains xs a || contains ys a)
  unfolding contains
  contains-append [] ys a = refl
  contains-append (x ∷ xs) ys a = ground (arith, contains-append xs ys a)

  pub Fresh-iff :
      (seen xs : List A)
      → Fresh seen xs ↔ ((a : A) → contains xs a ≡ true → contains seen a ≡ false)
  unfolding contains
  Fresh-iff seen [] = (λ h a e. absurd (ground arith), λ h. tt)
  Fresh-iff seen (x ∷ xs) = (
    λ h a e. ground (arith, h, eq_iff x a, (Fresh-iff seen xs).0 h.1 a),
    λ h. (h x (ground (arith, eq_refl x)), (Fresh-iff seen xs).1 (λ a e. h a (ground (arith, e)))),
  )

  pub Distinct-append :
      (xs ys : List A) → Distinct xs → Distinct ys → Fresh ys xs → Distinct (xs ++ ys)
  Distinct-append [] ys h k f = k
  Distinct-append (x ∷ xs) ys h k f =
      (ground (arith, contains-append xs ys x, h.0, f.0), Distinct-append xs ys h.1 k f.1)

  pub seen_first : (a : A) (seen : List A) → contains (a ∷ seen) a ≡ true
  unfolding contains
  seen_first a seen = ground (arith, eq_refl a)

  pub contains_nil : (a : A) → contains [] a ≡ false
  unfolding contains
  contains_nil a = refl
