-- ===== src/Replay/Positions.antt =====
-- The positions that the replay starts from only ever go down.
use sukko.Common.{
  ◌≡◌, ap, ◌∙◌, inl, inr, false, Option, some, List, arith, ◌==◌, nat_eq, list_eq, eq_iff,
  Option-cases, Bool-cases,
}
use sukko.Common.Int.{ℤ, ltb_ℤ, ◌≤ℤ◌, int_eq}
use sukko.Common.Map.{lookup, lookup-insert, lookup-insert_self}
use sukko.Common.Text.{Text}
use sukko.Replay.{Positions, or_no_partitions, position_of, lower, put_position}

-- A position that is there and not above a bound.
abbrev pub AtMost : Option ℤ → ℤ → Type 0
AtMost o n = (v : ℤ) × (o ≡ some v) × (v ≤ℤ n)

≤ℤ_refl : (a : ℤ) → a ≤ℤ a
≤ℤ_refl a = omega arith

lower_self : (p n : ℤ) (m : List (ℤ × ℤ)) → AtMost (lookup p (lower p n m)) n
unfolding lower
lower_self p n m = elim (Option-cases (lookup p m)) [
  | inl missing ↦ (n, ground (arith, missing, lookup-insert_self p n m), ≤ℤ_refl n)
  | inr (e, found) ↦ elim (Bool-cases (ltb_ℤ n e)) [
    | inl less ↦ (n, ground (arith, found, less, lookup-insert_self p n m), ≤ℤ_refl n)
    | inr more ↦ (e, ground (arith, found, more), ground (arith, more))
  ]
]

lower-keeps :
    (p n : ℤ) (m : List (ℤ × ℤ)) (q k : ℤ)
    → AtMost (lookup q m) k
    → AtMost (lookup q (lower p n m)) k
unfolding lower
lower-keeps p n m q k (v, at, le) = elim (Bool-cases (p == q)) [
  | inr other ↦ (v, kept other, le)
  | inl same ↦
      let there : lookup p m ≡ some v = ap (λ x. lookup x m) ((eq_iff p q).0 same) ∙ at in
      elim (Bool-cases (ltb_ℤ n v)) [
        | inl less ↦
            (n, ground (arith, there, less, same, lookup-insert p q n m), ground (arith, less, le))
        | inr more ↦ (v, ground (arith, there, more, at), le)
      ]
]
  where
    kept : (p == q) ≡ false → lookup q (lower p n m) ≡ some v
    kept other = elim (Option-cases (lookup p m)) [
      | inl missing ↦ ground (arith, missing, other, at, lookup-insert p q n m)
      | inr (e, found) ↦ ground (arith, found, other, at, lookup-insert p q n m)
    ]

pub put_self :
    (t : Text) (p n : ℤ) (ps : Positions) → AtMost (position_of (put_position t p n ps) t p) n
unfolding position_of put_position
put_self t p n ps =
    let m = or_no_partitions (lookup t ps) in
    let (v, at, le) = lower_self p n m in
    (v, ground (arith, at, lookup-insert_self t (lower p n m) ps), le)

pub put-keeps :
    (t : Text) (p n : ℤ) (ps : Positions) (t' : Text) (q k : ℤ)
    → AtMost (position_of ps t' q) k
    → AtMost (position_of (put_position t p n ps) t' q) k
unfolding position_of put_position
put-keeps t p n ps t' q k (v, at, le) = elim (Bool-cases (t == t')) [
  | inr other ↦ (
    v,
    ground (arith, other, at, lookup-insert t t' (lower p n (or_no_partitions (lookup t ps))) ps),
    le,
  )
  | inl same ↦
      let m = or_no_partitions (lookup t ps) in
      let here : lookup q m ≡ some v =
        ap (λ x. lookup q (or_no_partitions (lookup x ps))) ((eq_iff t t').0 same) ∙ at in
      let (w, at', le') = lower-keeps p n m q k (v, here, le) in
      (w, ground (arith, same, at', lookup-insert t t' (lower p n m) ps), le')
]
