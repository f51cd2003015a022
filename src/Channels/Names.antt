-- ===== src/Channels/Names.antt =====
-- Channel names: when they are valid, and the tenant that owns them.
use sukko.Common.{
  ℕ, ◌+◌, ◌≤◌, ◌≡◌, refl, ap, ◌∙◌, ◌≢◌, ◌↔◌, true, some, List, [], ◌∷◌, ◌++◌, ok, arith, length,
  nat_eq, list_eq, eq_iff, All,
}
use sukko.Common.Text.{
  Text, Lacks, split, cons_head, split-ne-nil, cut-append, has_prefix, has_prefix-append,
  has_prefix_sound,
}
use sukko.Routing.{dot}
use sukko.Channels.{check_parts, count_byte, validate_internal_channel, validate_channel_tenant}
use sukko.Kafka.{extract_tenant}
use sukko.Kafka.Names.{extract_tenant_sound}

length-cons_head : (c : ℕ) (ps : List Text) → ps ≢ [] → length (cons_head c ps) ≡ length ps
unfolding cons_head
length-cons_head c [] h = absurd (h refl)
length-cons_head c (p ∷ ps) h = refl

length-split : (sep : ℕ) (s : Text) → length (split sep s) ≡ count_byte sep s + 1
unfolding split count_byte
length-split sep [] = refl
length-split sep (c ∷ s) =
    ground (arith, length-split sep s, length-cons_head c (split sep s) (split-ne-nil sep s))

check_parts-ok : (parts : List Text) → (check_parts parts ≡ ok tt) ↔ All (λ p. p ≢ []) parts
unfolding check_parts
check_parts-ok [] = (λ h. tt, λ h. refl)
check_parts-ok (part ∷ parts) = ground (arith, eq_iff part [], check_parts-ok parts)

-- An internal channel is valid exactly when its dots separate two or more parts, none empty.
pub validate_internal_channel_iff :
    (channel : Text)
    → (validate_internal_channel channel ≡ ok tt)
      ↔ (All (λ p. p ≢ []) (split dot channel) × (2 ≤ length (split dot channel)))
unfolding validate_internal_channel split
validate_internal_channel_iff [] = ground arith
validate_internal_channel_iff (c ∷ s) =
    ground (arith, check_parts-ok (split dot (c ∷ s)), length-split dot (c ∷ s))

tenant_prefix : (tenant rest : Text) → (tenant ++ (dot ∷ [])) ++ rest ≡ tenant ++ (dot ∷ rest)
tenant_prefix [] rest = refl
tenant_prefix (c ∷ tenant) rest = ap (◌∷◌ c) (tenant_prefix tenant rest)

extract_tenant-prefix :
    (tenant rest : Text)
    → Lacks dot tenant
    → tenant ≢ []
    → extract_tenant (tenant ++ (dot ∷ rest)) ≡ some tenant
unfolding extract_tenant
extract_tenant-prefix tenant rest lacks named =
    ground (arith, cut-append dot tenant rest lacks, eq_iff tenant [])

owned_prefix :
    (channel tenant : Text)
    → validate_channel_tenant channel tenant ≡ true
    → (rest : Text) × (channel ≡ tenant ++ (dot ∷ rest)) × (tenant ≢ [])
unfolding validate_channel_tenant
owned_prefix channel tenant h =
    let (rest, e) = has_prefix_sound channel (tenant ++ (dot ∷ [])) (ground arith) in
    (rest, e ∙ tenant_prefix tenant rest, ground (arith, eq_iff tenant []))

prefix_owned :
    (tenant rest : Text)
    → tenant ≢ []
    → validate_channel_tenant (tenant ++ (dot ∷ rest)) tenant ≡ true
unfolding validate_channel_tenant
prefix_owned [] rest named = absurd (named refl)
prefix_owned (c ∷ tenant) rest named =
    let whole = tenant_prefix (c ∷ tenant) rest in
    ground (
      arith,
      ap (λ t. has_prefix t (c ∷ tenant ++ (dot ∷ []))) whole,
      has_prefix-append ((c ∷ tenant) ++ (dot ∷ [])) rest,
    )

-- The gateway's and the server's notion of ownership agree: a channel belongs to a tenant (whose
-- name has no dot) exactly when that tenant is the one that the producer extracts from it.
pub validate_channel_tenant_iff :
    (channel tenant : Text)
    → Lacks dot tenant
    → (validate_channel_tenant channel tenant ≡ true) ↔ (extract_tenant channel ≡ some tenant)
validate_channel_tenant_iff channel tenant lacks = (to, from)
  where
    to : validate_channel_tenant channel tenant ≡ true → extract_tenant channel ≡ some tenant
    to h =
        let (rest, whole, named) = owned_prefix channel tenant h in
        ap extract_tenant whole ∙ extract_tenant-prefix tenant rest lacks named

    from : extract_tenant channel ≡ some tenant → validate_channel_tenant channel tenant ≡ true
    from h =
        let (rest, whole, _, named) = extract_tenant_sound channel tenant h in
        ap (λ c. validate_channel_tenant c tenant) whole ∙ prefix_owned tenant rest named
