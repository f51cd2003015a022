-- ===== src/License/Reload.antt =====
-- What a reload keeps, and that a key cannot be replayed.
use sukko.Common.{
  ◌≡◌, refl, sym, ap, subst, ◌∙◌, ◌≢◌, ◌↔◌, ◌⊎◌, inl, inr, true, Option, none, some, List, [], ◌∷◌,
  ok, err, arith, nat_eq, list_eq, eq_iff, Option-cases, Result-cases,
}
use sukko.Common.Int.{ℤ, pos, ◌<ℤ◌, ◌≤ℤ◌, int_eq}
use sukko.Common.Text.{Text}
use sukko.License.Edition.{
  Edition, pro, enterprise, normalize, is_at_least, is_at_least_refl, is_at_least_trans,
}
use sukko.License.Limits.{
  Limits, default_limits, override, resolve_limits, dimension_covers, covers_at_least,
}
use sukko.License.Covers.{covers_refl, covers_trans}
use sukko.License.Manager.{
  LicenseClaims, LicenseError, license_unchanged, Manager, Parser, limits_equal, claims_equal,
  classify_replay, apply_locked, parse_and_check_replay, reload, reload_no_downgrade,
}

limits_equal_iff : (a b : Limits) → (limits_equal a b ≡ true) ↔ (a ≡ b)
limits_equal_iff a b = grind (
  arith,
  eq_iff a.edition b.edition,
  eq_iff a.max_tenants b.max_tenants,
  eq_iff a.max_total_connections b.max_total_connections,
  eq_iff a.max_shards b.max_shards,
  eq_iff a.max_topics_per_tenant b.max_topics_per_tenant,
  eq_iff a.max_routing_rules_per_tenant b.max_routing_rules_per_tenant,
)

claims_equal_iff : (a b : LicenseClaims) → (claims_equal a b ≡ true) ↔ (a ≡ b)
unfolding claims_equal
claims_equal_iff a b = grind (
  arith,
  eq_iff a.edition b.edition,
  eq_iff a.org b.org,
  eq_iff a.exp b.exp,
  eq_iff a.iat b.iat,
  eq_iff a.nodes b.nodes,
  limits_equal_iff a.limits b.limits,
)

-- A key that replaces the current one: there is none, or one without a date, or an older one.
abbrev pub IsNewer : Option LicenseClaims → LicenseClaims → Type 0
IsNewer none incoming = Unit {0}
IsNewer (some current) incoming = (current.iat ≡ pos 0) ⊎ (current.iat <ℤ incoming.iat)

-- A key is applied exactly when there is no current key, or one without a date, or an older one. It
-- is unchanged exactly when it is the current key itself, with a date.
pub classify_replay_iff :
    (current : Option LicenseClaims) (incoming : LicenseClaims)
    → ((classify_replay current incoming ≡ ok tt) ↔ IsNewer current incoming)
      × ((classify_replay current incoming ≡ err license_unchanged)
          ↔ ((current ≡ some incoming) × (incoming.iat ≢ pos 0)))
unfolding classify_replay
classify_replay_iff none incoming = (ground arith, ground arith)
classify_replay_iff (some current) incoming = (
  ground (arith, eq_iff current.iat (pos 0)),
  ground (
    arith,
    eq_iff current.iat (pos 0),
    eq_iff incoming.iat current.iat,
    claims_equal_iff current incoming,
  ),
)

check_found :
    (parse_and_verify : Parser) (m : Manager) (key : Text) (claims : LicenseClaims)
    → parse_and_check_replay parse_and_verify m key ≡ ok claims
    → (parse_and_verify key ≡ some claims) × IsNewer m.claims claims
unfolding parse_and_check_replay
check_found parse_and_verify m key claims h = elim (Option-cases (parse_and_verify key)) [
  | inl invalid ↦ absurd (ground (arith, invalid))
  | inr (parsed, found) ↦ elim (Result-cases (classify_replay m.claims parsed)) [
    | inl (e, refused) ↦ absurd (ground (arith, found, refused))
    | inr (u, accepted) ↦
        let same : parsed ≡ claims = ground (arith, found, accepted) in
        (
          found ∙ ap some same,
          subst (IsNewer m.claims) same ((classify_replay_iff m.claims parsed).0.0 accepted),
        )
  ]
]

reload-cases :
    (parse_and_verify : Parser) (key : Text) (m : Manager)
    → let (m', outcome) = reload parse_and_verify key m in
      ((e : LicenseError) × (outcome ≡ err e) × (m' ≡ m))
      ⊎ ((claims : LicenseClaims) × (outcome ≡ ok tt)
          × (parse_and_verify key ≡ some claims)
          × IsNewer m.claims claims
          × (m' ≡ apply_locked claims m))
unfolding reload
reload-cases parse_and_verify key m =
    elim (Result-cases (parse_and_check_replay parse_and_verify m key)) [
      | inl (e, failed) ↦ inl (e, ground (arith, failed), ground (arith, failed))
      | inr (claims, found) ↦
          let (verified, newer) = check_found parse_and_verify m key claims found in
          inr (claims, ground (arith, found), verified, newer, ground (arith, found))
    ]

-- The limit that a claimed one gives: itself where it is positive, else the edition's own.
abbrev pub Overrides : ℤ → ℤ → ℤ → Type 0
Overrides claimed default limit =
    ((pos 0 <ℤ claimed) × (limit ≡ claimed)) ⊎ ((claimed ≤ℤ pos 0) × (limit ≡ default))

-- The edition and the claims of a key, and limits that are those of the edition unless the key
-- claims others.
pub record Installed (claims : LicenseClaims) (m : Manager) : Type 0 where
  pub edition : m.edition ≡ normalize claims.edition
  pub stored : m.claims ≡ some claims
  pub tenants :
      Overrides claims.limits.max_tenants
        (default_limits (normalize claims.edition)).max_tenants
        m.limits.max_tenants
  pub connections :
      Overrides claims.limits.max_total_connections
        (default_limits (normalize claims.edition)).max_total_connections
        m.limits.max_total_connections
  pub shards :
      Overrides claims.limits.max_shards
        (default_limits (normalize claims.edition)).max_shards
        m.limits.max_shards
  pub topics :
      Overrides claims.limits.max_topics_per_tenant
        (default_limits (normalize claims.edition)).max_topics_per_tenant
        m.limits.max_topics_per_tenant
  pub rules :
      Overrides claims.limits.max_routing_rules_per_tenant
        (default_limits (normalize claims.edition)).max_routing_rules_per_tenant
        m.limits.max_routing_rules_per_tenant

override-Overrides : (claimed default : ℤ) → Overrides claimed default (override claimed default)
override-Overrides claimed default = ground arith

apply_locked-Installed :
    (claims : LicenseClaims) (m : Manager) → Installed claims (apply_locked claims m)
unfolding apply_locked resolve_limits
apply_locked-Installed claims m =
    let defaults = default_limits (normalize claims.edition) in
    record {
      edition = refl;
      stored = refl;
      tenants = override-Overrides claims.limits.max_tenants defaults.max_tenants;
      connections =
          override-Overrides claims.limits.max_total_connections defaults.max_total_connections;
      shards = override-Overrides claims.limits.max_shards defaults.max_shards;
      topics =
          override-Overrides claims.limits.max_topics_per_tenant defaults.max_topics_per_tenant;
      rules =
          override-Overrides claims.limits.max_routing_rules_per_tenant
            defaults.max_routing_rules_per_tenant;
    }

-- A reload that fails changes nothing. One that succeeds had a key that verifies and is newer than
-- the current one, and has installed its edition, its claims and its limits: each that it claims, and
-- those of the edition for the others.
pub reload_lem :
    (parse_and_verify : Parser) (key : Text) (m : Manager)
    → let (m', outcome) = reload parse_and_verify key m in
      ((e : LicenseError) × (outcome ≡ err e) × (m' ≡ m))
      ⊎ ((claims : LicenseClaims) × (outcome ≡ ok tt)
          × (parse_and_verify key ≡ some claims)
          × IsNewer m.claims claims
          × Installed claims m')
reload_lem parse_and_verify key m = elim (reload-cases parse_and_verify key m) [
  | inl failed ↦ inl failed
  | inr (claims, done, verified, newer, state) ↦ inr (
    claims,
    done,
    verified,
    newer,
    subst (Installed claims) (sym state) (apply_locked-Installed claims m),
  )
]

-- The tests of the code, between two states.
abbrev Passes : Manager → Manager → Type 0
Passes m m' =
    (is_at_least m'.edition m.edition ≡ true) × (covers_at_least m'.limits m.limits ≡ true)

no_downgrade-Passes :
    (parse_and_verify : Parser) (key : Text) (m : Manager)
    → Passes m (reload_no_downgrade parse_and_verify key m).0
unfolding reload_no_downgrade apply_locked
no_downgrade-Passes parse_and_verify key m =
    elim (Result-cases (parse_and_check_replay parse_and_verify m key)) [
      | inl (e, failed) ↦
          rw (failed, reload_no_downgrade) (is_at_least_refl m.edition, covers_refl m.limits)
      | inr (claims, found) ↦
          ground (arith, found, is_at_least_refl m.edition, covers_refl m.limits)
    ]

-- The state after a sequence of pushed keys, the first one in front.
abbrev pub push_all : Parser → List Text → Manager → Manager
push_all parse_and_verify [] m = m
push_all parse_and_verify (key ∷ keys) m =
    push_all parse_and_verify keys (reload_no_downgrade parse_and_verify key m).0

push_all-Passes :
    (parse_and_verify : Parser) (keys : List Text) (m : Manager)
    → Passes m (push_all parse_and_verify keys m)
push_all-Passes parse_and_verify [] m = (is_at_least_refl m.edition, covers_refl m.limits)
push_all-Passes parse_and_verify (key ∷ keys) m =
    let m' = (reload_no_downgrade parse_and_verify key m).0 in
    let m'' = push_all parse_and_verify keys m' in
    let (e, l) = no_downgrade-Passes parse_and_verify key m in
    let (e', l') = push_all-Passes parse_and_verify keys m' in
    (
      is_at_least_trans m''.edition m'.edition m.edition e' e,
      covers_trans m''.limits m'.limits m.limits l' l,
    )

-- A limit that is not lower than another: it does not bind, or the other binds and is not above it.
abbrev pub AtLeast : ℤ → ℤ → Type 0
AtLeast limit other = (limit ≡ pos 0) ⊎ ((other ≢ pos 0) × (other ≤ℤ limit))

-- The state does not go below another. Enterprise stays, and pro stays or becomes enterprise.
pub record Keeps (m m' : Manager) : Type 0 where
  pub enterprise_stays : m.edition ≡ enterprise → m'.edition ≡ enterprise
  pub pro_stays : m.edition ≡ pro → (m'.edition ≡ pro) ⊎ (m'.edition ≡ enterprise)
  pub tenants : AtLeast m'.limits.max_tenants m.limits.max_tenants
  pub connections : AtLeast m'.limits.max_total_connections m.limits.max_total_connections
  pub shards : AtLeast m'.limits.max_shards m.limits.max_shards
  pub topics : AtLeast m'.limits.max_topics_per_tenant m.limits.max_topics_per_tenant
  pub rules : AtLeast m'.limits.max_routing_rules_per_tenant m.limits.max_routing_rules_per_tenant

dimension-AtLeast : (have want : ℤ) → dimension_covers have want ≡ true → AtLeast have want
unfolding dimension_covers
dimension-AtLeast have want h = ground (arith, eq_iff have (pos 0), eq_iff want (pos 0))

is_at_least-enterprise :
    (e' e : Edition) → is_at_least e' e ≡ true → e ≡ enterprise → e' ≡ enterprise
unfolding is_at_least
is_at_least-enterprise e' e h top =
    let above = subst (λ x. is_at_least e' x ≡ true) top h in
    ground (arith, above, eq_iff e' enterprise, eq_iff e' pro, eq_iff e' [])

is_at_least-pro :
    (e' e : Edition) → is_at_least e' e ≡ true → e ≡ pro → (e' ≡ pro) ⊎ (e' ≡ enterprise)
unfolding is_at_least
is_at_least-pro e' e h middle =
    let above = subst (λ x. is_at_least e' x ≡ true) middle h in
    ground (arith, above, eq_iff e' enterprise, eq_iff e' pro, eq_iff e' [])

Passes-Keeps : (m m' : Manager) → Passes m m' → Keeps m m'
unfolding covers_at_least
Passes-Keeps m m' (edition, limits) = record {
  enterprise_stays = is_at_least-enterprise m'.edition m.edition edition;
  pro_stays = is_at_least-pro m'.edition m.edition edition;
  tenants = dimension-AtLeast m'.limits.max_tenants m.limits.max_tenants (ground arith);
  connections =
      dimension-AtLeast m'.limits.max_total_connections m.limits.max_total_connections
        (ground arith);
  shards = dimension-AtLeast m'.limits.max_shards m.limits.max_shards (ground arith);
  topics =
      dimension-AtLeast m'.limits.max_topics_per_tenant m.limits.max_topics_per_tenant
        (ground arith);
  rules =
      dimension-AtLeast m'.limits.max_routing_rules_per_tenant m.limits.max_routing_rules_per_tenant
        (ground arith);
}

-- Whatever keys ReloadNoDowngrade is called with, in whatever order, the edition stays enterprise
-- where it was that, and pro or enterprise where it was pro, and each of the five limits stays at
-- least what it was, where no limit is above any.
pub push_all-Keeps :
    (parse_and_verify : Parser) (keys : List Text) (m : Manager)
    → Keeps m (push_all parse_and_verify keys m)
push_all-Keeps parse_and_verify keys m =
    Passes-Keeps m (push_all parse_and_verify keys m) (push_all-Passes parse_and_verify keys m)

reload_current :
    (parse_and_verify : Parser) (key : Text) (m : Manager) (claims : LicenseClaims)
    → parse_and_verify key ≡ some claims
    → m.claims ≡ some claims
    → claims.iat ≢ pos 0
    → reload parse_and_verify key m ≡ (m, err license_unchanged)
unfolding reload parse_and_check_replay
reload_current parse_and_verify key m claims verified current dated =
    let unchanged : classify_replay m.claims claims ≡ err license_unchanged =
      (classify_replay_iff m.claims claims).1.1 (current, dated) in
    ground (arith, verified, unchanged)

-- A dated key that was reloaded is unchanged when it is reloaded at once a second time.
pub reload_twice :
    (parse_and_verify : Parser) (key : Text) (m : Manager) (claims : LicenseClaims)
    → parse_and_verify key ≡ some claims
    → claims.iat ≢ pos 0
    → (reload parse_and_verify key m).1 ≡ ok tt
    → let m' = (reload parse_and_verify key m).0 in
      reload parse_and_verify key m' ≡ (m', err license_unchanged)
unfolding apply_locked
reload_twice parse_and_verify key m claims verified dated done =
    elim (reload-cases parse_and_verify key m) [
      | inl (e, failed, kept) ↦ absurd (let clash = sym failed ∙ done in cc)
      | inr (installed, succeeded, found, newer, state) ↦
          let same : some installed ≡ some claims = sym found ∙ verified in
          let current : (reload parse_and_verify key m).0.claims ≡ some claims =
            ap (λ s. s.claims) state ∙ same in
          reload_current parse_and_verify key (reload parse_and_verify key m).0 claims verified
            current dated
    ]
