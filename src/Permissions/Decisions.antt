-- ===== src/Permissions/Decisions.antt =====
-- What the permission checker allows.
use sukko.Common.{
  ◌≡◌, refl, sym, ap, ◌∙◌, ◌↔◌, inl, inr, Bool, true, false, ◌&&◌, Option, none, some, List, [],
  ◌∷◌, arith, ◌==◌, nat_eq, list_eq, eq_iff, contains, Bool-cases,
}
use sukko.Common.Text.{Text}
use sukko.Channels.{match_wildcard, match_any_wildcard}
use sukko.ChannelRules.{compute_allowed_patterns, compute_allowed_publish_patterns}
use sukko.ChannelRules.Allowed.{allowed_members, is_allowed}
use sukko.Permissions.{
  Claims, has_placeholders, resolve_with, TenantPermissionChecker, get_rules_for_tenant,
  substitute_placeholders, subscribe_patterns, can_subscribe, keep_matching, filter_channels,
  can_publish,
}

-- A pattern that passes the test allows the channel: resolved, it holds no placeholder and matches.
abbrev pub Allows : TenantPermissionChecker → (Text → Bool) → Option Claims → Text → Type 0
Allows pc granted claims channel =
    (p : Text) × (granted p ≡ true)
    × (has_placeholders (resolve_with pc.resolver claims p) ≡ false)
    × (match_wildcard (resolve_with pc.resolver claims p) channel ≡ true)

substitute_sound :
    (pc : TenantPermissionChecker) (patterns : List Text) (claims : Option Claims) (channel : Text)
    → match_any_wildcard (substitute_placeholders pc patterns claims) channel ≡ true
    → Allows pc (contains patterns) claims channel
unfolding substitute_placeholders match_any_wildcard contains
substitute_sound pc [] claims channel h = absurd (ground arith)
substitute_sound pc (p ∷ patterns) claims channel h =
    elim (Bool-cases (has_placeholders resolved)) [
      | inl unresolved ↦ later (substitute_sound pc patterns claims channel (ground arith))
      | inr done ↦ elim (Bool-cases (match_wildcard resolved channel)) [
        | inl hit ↦ (p, ground (arith, eq_iff p p), done, hit)
        | inr miss ↦ later (substitute_sound pc patterns claims channel (ground arith))
      ]
    ]
  where
    resolved : Text
    resolved = resolve_with pc.resolver claims p

    later :
        Allows pc (contains patterns) claims channel
        → Allows pc (contains (p ∷ patterns)) claims channel
    later (q, m, d, w) = (q, ground (arith, m), d, w)

substitute_complete :
    (pc : TenantPermissionChecker) (patterns : List Text) (claims : Option Claims)
    (channel p : Text)
    → contains patterns p ≡ true
    → has_placeholders (resolve_with pc.resolver claims p) ≡ false
    → match_wildcard (resolve_with pc.resolver claims p) channel ≡ true
    → match_any_wildcard (substitute_placeholders pc patterns claims) channel ≡ true
unfolding substitute_placeholders match_any_wildcard contains
substitute_complete pc [] claims channel p m d w = absurd (ground arith)
substitute_complete pc (q ∷ patterns) claims channel p m d w = elim (Bool-cases (q == p)) [
  | inl same ↦ ground (arith, ap (resolve_with pc.resolver claims) ((eq_iff q p).0 same))
  | inr other ↦ ground (arith, substitute_complete pc patterns claims channel p (ground arith) d w)
]

substitute_iff :
    (pc : TenantPermissionChecker) (patterns : List Text) (claims : Option Claims) (channel : Text)
    → (match_any_wildcard (substitute_placeholders pc patterns claims) channel ≡ true)
      ↔ Allows pc (contains patterns) claims channel
substitute_iff pc patterns claims channel = (
  substitute_sound pc patterns claims channel,
  λ (p, m, d, w). substitute_complete pc patterns claims channel p m d w,
)

-- The same patterns under another test of them.
Allows-ext :
    (pc : TenantPermissionChecker) (f g : Text → Bool) (claims : Option Claims) (channel : Text)
    → ((p : Text) → f p ≡ g p)
    → Allows pc f claims channel
    → Allows pc g claims channel
Allows-ext pc f g claims channel e (p, m, d, w) = (p, sym (e p) ∙ m, d, w)

-- A user with claims may subscribe to a channel exactly when a pattern that is public, or mapped to
-- one of the user's groups, or a default one where none of the groups is mapped, is without a
-- placeholder once the claims are filled in, and then matches the channel. A caller without claims
-- may subscribe exactly when a public pattern without a placeholder matches.
pub can_subscribe_iff :
    (pc : TenantPermissionChecker) (tenant_id : Text) (claims : Claims) (channel : Text)
    → let rules = get_rules_for_tenant pc tenant_id in
      ((can_subscribe pc tenant_id (some claims) channel ≡ true)
        ↔ Allows pc
            (is_allowed rules.public_patterns rules.group_mappings rules.default_patterns
              claims.groups)
            (some claims)
            channel)
      × ((can_subscribe pc tenant_id none channel ≡ true)
          ↔ Allows pc (contains rules.public_patterns) none channel)
unfolding can_subscribe subscribe_patterns
can_subscribe_iff pc tenant_id claims channel =
    let rules = get_rules_for_tenant pc tenant_id in
    let patterns = compute_allowed_patterns rules claims.groups in
    let granted =
      is_allowed rules.public_patterns rules.group_mappings rules.default_patterns claims.groups in
    let same : (p : Text) → contains patterns p ≡ granted p =
      λ p. (allowed_members rules claims.groups p).0 in
    let (sound, complete) = substitute_iff pc patterns (some claims) channel in
    (
      (
        λ h. Allows-ext pc (contains patterns) granted (some claims) channel same (sound h),
        λ a.
            complete (
              Allows-ext pc granted (contains patterns) (some claims) channel (λ p. sym (same p))
                a),
      ),
      substitute_iff pc rules.public_patterns none channel,
    )

-- A user with claims may publish to a channel exactly when a publish pattern that is public, or
-- mapped to one of the user's groups, or a default one where none of the groups is mapped, is
-- without a placeholder once the claims are filled in, and then matches the channel. A caller
-- without claims may publish to none.
pub can_publish_iff :
    (pc : TenantPermissionChecker) (tenant_id : Text) (claims : Claims) (channel : Text)
    → let rules = get_rules_for_tenant pc tenant_id in
      ((can_publish pc tenant_id (some claims) channel ≡ true)
        ↔ Allows pc
            (is_allowed rules.publish_public rules.publish_group_mappings rules.publish_default
              claims.groups)
            (some claims)
            channel)
      × (can_publish pc tenant_id none channel ≡ false)
unfolding can_publish
can_publish_iff pc tenant_id claims channel =
    let rules = get_rules_for_tenant pc tenant_id in
    let patterns = compute_allowed_publish_patterns rules claims.groups in
    let granted =
      is_allowed rules.publish_public rules.publish_group_mappings rules.publish_default
        claims.groups in
    let same : (p : Text) → contains patterns p ≡ granted p =
      λ p. (allowed_members rules claims.groups p).1 in
    let (sound, complete) = substitute_iff pc patterns (some claims) channel in
    (
      (
        λ h. Allows-ext pc (contains patterns) granted (some claims) channel same (sound h),
        λ a.
            complete (
              Allows-ext pc granted (contains patterns) (some claims) channel (λ p. sym (same p))
                a),
      ),
      refl,
    )

contains-keep_matching :
    (patterns channels : List Text) (ch : Text)
    → contains (keep_matching patterns channels) ch
      ≡ (contains channels ch && match_any_wildcard patterns ch)
unfolding keep_matching contains
contains-keep_matching patterns [] ch = refl
contains-keep_matching patterns (c ∷ channels) ch =
    let tail = contains-keep_matching patterns channels ch in
    elim (Bool-cases (c == ch)) [
      | inl same ↦ ground (arith, tail, ap (match_any_wildcard patterns) ((eq_iff c ch).0 same))
      | inr other ↦ ground (arith, tail)
    ]

-- FilterChannels keeps exactly the requested channels that CanSubscribe allows.
pub filter-can_subscribe :
    (pc : TenantPermissionChecker) (tenant_id : Text) (claims : Option Claims)
    (channels : List Text) (ch : Text)
    → contains (filter_channels pc tenant_id claims channels) ch
      ≡ (contains channels ch && can_subscribe pc tenant_id claims ch)
unfolding filter_channels can_subscribe
filter-can_subscribe pc tenant_id claims channels ch =
    contains-keep_matching (subscribe_patterns pc (get_rules_for_tenant pc tenant_id) claims)
      channels ch
