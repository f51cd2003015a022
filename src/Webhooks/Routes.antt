-- ===== src/Webhooks/Routes.antt =====
-- The index from slugs to tenants: where the broadcasts of a slug go after a refresh, also when the
-- tenant has been renamed.
use sukko.Common.{
  ◌≡◌, refl, ap, inl, inr, false, not, ◌&&◌, ◌||◌, Option, none, some, List, [], ◌∷◌, arith,
  if◌then◌else◌, ◌==◌, nat_eq, list_eq, eq_iff, eq_refl, contains, Distinct, Option-cases,
}
use sukko.Common.Map.{lookup, insert, lookup-insert}
use sukko.Common.Text.{Text}
use sukko.Webhooks.{
  WebhookRecord, WebhookCache, get_records, get_records_by_slug, drop_slugs, fetch_and_store,
}

abbrev pub slugs_of : List (Text × Text) → List Text
slugs_of [] = []
slugs_of ((slug, uuid) ∷ slugs) = slug ∷ slugs_of slugs

-- The tenant that a slug stands for, if it is another one.
abbrev pub other_tenant : Text → Option Text → Option Text
other_tenant tenant_id none = none
other_tenant tenant_id (some uuid) = if uuid == tenant_id then none else some uuid

abbrev pub records_of : WebhookCache → Option Text → List WebhookRecord
records_of c none = []
records_of c (some uuid) = get_records uuid c

lookup_absent :
    (slug : Text) (slugs : List (Text × Text))
    → contains (slugs_of slugs) slug ≡ false
    → lookup slug slugs ≡ none
unfolding lookup contains
lookup_absent slug [] h = refl
lookup_absent slug ((s, uuid) ∷ slugs) h = ground (arith, h, lookup_absent slug slugs)

lookup-drop_slugs :
    (tenant_id slug : Text) (slugs : List (Text × Text))
    → Distinct (slugs_of slugs)
    → lookup slug (drop_slugs tenant_id slugs) ≡ other_tenant tenant_id (lookup slug slugs)
unfolding lookup drop_slugs
lookup-drop_slugs tenant_id slug [] d = refl
lookup-drop_slugs tenant_id slug ((s, uuid) ∷ slugs) d = ground (
  arith,
  d.0,
  eq_iff s slug,
  lookup-drop_slugs tenant_id slug slugs d.1,
  lookup_absent s slugs d.0,
  ap (λ x. lookup x slugs),
)

drop_slugs-absent :
    (tenant_id slug : Text) (slugs : List (Text × Text))
    → contains (slugs_of slugs) slug ≡ false
    → contains (slugs_of (drop_slugs tenant_id slugs)) slug ≡ false
unfolding drop_slugs contains
drop_slugs-absent tenant_id slug [] h = refl
drop_slugs-absent tenant_id slug ((s, uuid) ∷ slugs) h =
    ground (arith, h, drop_slugs-absent tenant_id slug slugs)

drop_slugs-Distinct :
    (tenant_id : Text) (slugs : List (Text × Text))
    → Distinct (slugs_of slugs)
    → Distinct (slugs_of (drop_slugs tenant_id slugs))
unfolding drop_slugs
drop_slugs-Distinct tenant_id [] d = tt
drop_slugs-Distinct tenant_id ((s, uuid) ∷ slugs) d =
    ground
      (arith, d.0, drop_slugs-absent tenant_id s slugs, drop_slugs-Distinct tenant_id slugs d.1)

insert-contains :
    (slug tenant_id other : Text) (slugs : List (Text × Text))
    → contains (slugs_of (insert slug tenant_id slugs)) other
      ≡ (slug == other || contains (slugs_of slugs) other)
unfolding insert contains
insert-contains slug tenant_id other [] = refl
insert-contains slug tenant_id other ((s, uuid) ∷ slugs) =
    ground (arith, eq_iff s slug, insert-contains slug tenant_id other slugs)

insert-Distinct :
    (slug tenant_id : Text) (slugs : List (Text × Text))
    → Distinct (slugs_of slugs)
    → Distinct (slugs_of (insert slug tenant_id slugs))
unfolding insert contains
insert-Distinct slug tenant_id [] d = (refl, tt)
insert-Distinct slug tenant_id ((s, uuid) ∷ slugs) d = ground (
  arith,
  d.0,
  eq_iff s slug,
  eq_iff slug s,
  insert-contains slug tenant_id s slugs,
  insert-Distinct slug tenant_id slugs d.1,
)

-- After a refresh of a tenant, broadcasts under the slug that came with it reach the webhooks that
-- were fetched, those under an earlier slug of that tenant reach none, and those under a slug of
-- another tenant reach what they reached; and no slug stands twice in the index, if none did before.
pub fetch_and_store-routes :
    (tenant_id slug other : Text) (fetched : List WebhookRecord) (c : WebhookCache)
    → Distinct (slugs_of c.slug_to_uuid)
    → let c' = fetch_and_store tenant_id (some (fetched, slug)) c in
      Distinct (slugs_of c'.slug_to_uuid)
      × (get_records_by_slug other c' ≡ (
          if other == slug && not (slug == [])
          then fetched
          else records_of c (other_tenant tenant_id (lookup other c.slug_to_uuid))))
unfolding fetch_and_store get_records_by_slug get_records
fetch_and_store-routes tenant_id slug other fetched c d =
    let slugs = drop_slugs tenant_id c.slug_to_uuid in
    (
      ground (
        arith,
        drop_slugs-Distinct tenant_id c.slug_to_uuid d,
        insert-Distinct slug tenant_id slugs,
      ),
      elim (Option-cases (lookup other c.slug_to_uuid)) [
        | inl unknown ↦ ground (
          arith,
          unknown,
          lookup-drop_slugs tenant_id other c.slug_to_uuid d,
          lookup-insert slug other tenant_id slugs,
          lookup-insert tenant_id tenant_id fetched c.records,
          eq_refl tenant_id,
          eq_iff slug other,
          eq_iff other slug,
        )
        | inr (uuid, known) ↦ ground (
          arith,
          known,
          lookup-drop_slugs tenant_id other c.slug_to_uuid d,
          lookup-insert slug other tenant_id slugs,
          lookup-insert tenant_id tenant_id fetched c.records,
          lookup-insert tenant_id uuid fetched c.records,
          eq_refl tenant_id,
          eq_iff slug other,
          eq_iff other slug,
          eq_iff tenant_id uuid,
          eq_iff uuid tenant_id,
        )
      ],
    )
