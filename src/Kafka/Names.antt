-- ===== src/Kafka/Names.antt =====
-- Topic names: a tenant and a suffix can be read off a name.
use sukko.Common.{
  ◌≡◌, sym, ap, ◌∙◌, ◌≢◌, inl, inr, some, [], ◌∷◌, ◌++◌, arith, nat_eq, list_eq, eq_iff,
  Option-cases,
}
use sukko.Common.Text.{Text, Lacks, cut, cut-append, cut_sound}
use sukko.Routing.{dot}
use sukko.Kafka.{build_topic_name, extract_tenant}

append_cancel : (xs : Text) {ys zs : Text} → xs ++ ys ≡ xs ++ zs → ys ≡ zs
append_cancel [] e = e
append_cancel (x ∷ xs) {ys} {zs} e = append_cancel xs (let t : xs ++ ys ≡ xs ++ zs = cc in t)

-- Within a namespace the name of a topic gives its tenant and its suffix, for tenants without a
-- dot.
pub build_topic_name_injective :
    (namespace t t' s s' : Text)
    → Lacks dot t
    → Lacks dot t'
    → build_topic_name namespace t s ≡ build_topic_name namespace t' s'
    → (t ≡ t') × (s ≡ s')
unfolding build_topic_name
build_topic_name_injective namespace t t' s s' h h' e =
    let named = append_cancel namespace e in
    let rest : t ++ (dot ∷ s) ≡ t' ++ (dot ∷ s') = cc in
    let parts = sym (cut-append dot t s h) ∙ ap (cut dot) rest ∙ cut-append dot t' s' h' in
    (ground (arith, parts), ground (arith, parts))

-- The tenant of a channel is what stands in front of its first dot: not empty, without a dot.
pub extract_tenant_sound :
    (channel tenant : Text)
    → extract_tenant channel ≡ some tenant
    → (rest : Text) × (channel ≡ tenant ++ (dot ∷ rest)) × Lacks dot tenant × (tenant ≢ [])
unfolding extract_tenant
extract_tenant_sound channel tenant h = elim (Option-cases (cut dot channel)) [
  | inl missing ↦ absurd (let clash = rw (missing, extract_tenant) at h in cc)
  | inr ((t, rest), e) ↦
      let found = rw (e, extract_tenant) at h in
      let same : t ≡ tenant = ground (arith, found) in
      let (whole, lacks) = cut_sound dot channel t rest e in
      rw (← same) (rest, whole, lacks, ground (arith, eq_iff t [], found))
]
