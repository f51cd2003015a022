-- ===== src/Tenants/Rows.antt =====
-- Statements that change the row of one identifier: what they do to the rows, the counts and the
-- constraints of the table.
use sukko.Common.{
  ℕ, ◌+◌, ◌≡◌, refl, sym, ap, subst, inl, inr, Bool, true, false, ◌&&◌, some, List, [], ◌∷◌, ok,
  arith, if◌then◌else◌, nat_eq, list_eq, eq_iff, eq_refl, contains, Distinct, Elem, Bool-cases, any,
  Option-cases,
}
use sukko.Common.Text.{Text}
use sukko.Tenants.{status_eq, Tenant}
use sukko.Tenants.Store.{update_where, find_row, is_id, get_by_slug, has_slug, count_where, is_none}

abbrev pub ids : List Tenant → List Text
ids [] = []
ids (t ∷ rows) = t.id ∷ ids rows

abbrev pub bit : Bool → ℕ
bit true = 1
bit false = 0

-- The statement's test of an update by identifier, and what it makes of a row.
abbrev pub on_id : Text → (Tenant → Bool) → Tenant → Bool
on_id id guard t = is_id id t && guard t

abbrev pub changed : (Tenant → Bool) → (Tenant → Tenant) → Tenant → Tenant
changed guard change t = if guard t then change t else t

pub ids-update_where :
    (test : Tenant → Bool) (change : Tenant → Tenant) (rows : List Tenant)
    → ((t : Tenant) → (change t).id ≡ t.id)
    → ids (update_where test change rows) ≡ ids rows
unfolding update_where
ids-update_where test change [] h = refl
ids-update_where test change (t ∷ rows) h = ground (arith, h t, ids-update_where test change rows h)

pub find_row-Elem :
    (test : Tenant → Bool) (rows : List Tenant) (t : Tenant)
    → find_row test rows ≡ some t
    → Elem t rows × (test t ≡ true)
unfolding find_row
find_row-Elem test [] t h = absurd (ground arith)
find_row-Elem test (r ∷ rows) t h = elim (Bool-cases (test r)) [
  | inl hit ↦ ground (arith, hit)
  | inr miss ↦ ground (arith, miss, find_row-Elem test rows t)
]

pub get_by_slug-Elem :
    (slug : Text) (rows : List Tenant) (t : Tenant)
    → get_by_slug slug rows ≡ ok t
    → Elem t rows × (t.slug ≡ slug) × (is_none t.deleted_at ≡ true)
unfolding get_by_slug
get_by_slug-Elem slug rows t h = elim (Option-cases (find_row (has_slug slug) rows)) [
  | inl missing ↦ absurd (ground (arith, missing))
  | inr (found, e) ↦
      let (member, hit) = find_row-Elem (has_slug slug) rows found e in
      let same : found ≡ t = ground (arith, e, h) in
      rw (← same) (member, ground (arith, hit, eq_iff found.slug slug), ground (arith, hit))
]

pub Elem-ids : (t : Tenant) (rows : List Tenant) → Elem t rows → contains (ids rows) t.id ≡ true
unfolding contains
Elem-ids t [] h = absurd h
Elem-ids t (r ∷ rows) (inl e) = ground (arith, ap (λ x. x.id) e, eq_refl r.id)
Elem-ids t (r ∷ rows) (inr m) = ground (arith, Elem-ids t rows m)

pub update_where_absent :
    (id : Text) (guard : Tenant → Bool) (change : Tenant → Tenant) (rows : List Tenant)
    → contains (ids rows) id ≡ false
    → update_where (on_id id guard) change rows ≡ rows
unfolding update_where contains
update_where_absent id guard change [] h = refl
update_where_absent id guard change (t ∷ rows) h =
    ground (arith, update_where_absent id guard change rows)

-- The identifier of a row elsewhere in the table is not that of the first.
pub Distinct-other :
    (t r : Tenant) (rows : List Tenant)
    → contains (ids rows) r.id ≡ false
    → Elem t rows
    → is_id t.id r ≡ false
Distinct-other t r rows h m = ground (arith, Elem-ids t rows m, eq_iff r.id t.id)

pub count-update_where :
    (p guard : Tenant → Bool) (change : Tenant → Tenant) (t : Tenant) (rows : List Tenant)
    → Distinct (ids rows)
    → Elem t rows
    → count_where p (update_where (on_id t.id guard) change rows) + bit (p t)
      ≡ count_where p rows + bit (p (changed guard change t))
unfolding count_where update_where
count-update_where p guard change t [] d h = absurd h
count-update_where p guard change t (r ∷ rows) d (inl e) =
    subst
      (λ x.
        count_where p (update_where (on_id x.id guard) change (r ∷ rows)) + bit (p x)
        ≡ count_where p (r ∷ rows) + bit (p (changed guard change x)))
      (sym e)
      (ground
        (arith, eq_refl r.id, ap (count_where p) (update_where_absent r.id guard change rows d.0)))
count-update_where p guard change t (r ∷ rows) d (inr m) =
    ground (arith, Distinct-other t r rows d.0 m, count-update_where p guard change t rows d.1 m)

any_absent :
    (id : Text) (guard : Tenant → Bool) (rows : List Tenant)
    → contains (ids rows) id ≡ false
    → any (on_id id guard) rows ≡ false
unfolding contains
any_absent id guard [] h = refl
any_absent id guard (t ∷ rows) h = ground (arith, any_absent id guard rows)

-- A statement that affects a row affects the one that was read.
pub any-on_id :
    (guard : Tenant → Bool) (t : Tenant) (rows : List Tenant)
    → Distinct (ids rows)
    → Elem t rows
    → any (on_id t.id guard) rows ≡ guard t
any-on_id guard t [] d h = absurd h
any-on_id guard t (r ∷ rows) d (inl e) =
    subst (λ x. any (on_id x.id guard) (r ∷ rows) ≡ guard x) (sym e)
      (ground (arith, eq_refl r.id, any_absent r.id guard rows d.0))
any-on_id guard t (r ∷ rows) d (inr m) =
    ground (arith, Distinct-other t r rows d.0 m, any-on_id guard t rows d.1 m)
