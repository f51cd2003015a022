-- ===== src/Replay/Cover.antt =====
-- Which channels are authorized, and that the replay starts early enough for each.
use sukko.Common.{
  ℕ, ◌+◌, ◌≡◌, refl, sym, subst, ◌⊎◌, inl, inr, true, false, some, List, [], ◌∷◌, ◌++◌, arith,
  nat_eq, list_eq, eq_iff, contains, contains-append, contains_nil, Elem, Option-cases, Bool-cases,
}
use sukko.Common.Int.{ℤ, pos, leb_ℤ, ◌≤ℤ◌}
use sukko.Common.Text.{Text}
use sukko.Channels.{validate_channel_tenant}
use sukko.History.Position.{decode_pos}
use sukko.Subscriptions.Set as Set
use sukko.Replay.{
  next_offset, Positions, position_of, put_position, Authorization, admit, Context, authorize_new,
  authorize_entry, authorize_all, authorize_last_pos,
}
use sukko.Replay.Positions.{AtMost, put_self, put-keeps}

-- A channel of the tenant with a position that decodes and a topic, whose partition is replayed from
-- the message behind that position, or earlier.
abbrev pub Covered : Context → List (Text × Text) → Positions → Text → Type 0
Covered c last_pos positions ch =
    (pos_str topic : Text) × (partition offset : ℤ) × Elem (ch, pos_str) last_pos
    × (validate_channel_tenant ch c.tenant_id ≡ true)
    × (decode_pos pos_str ≡ some (partition, offset))
    × (c.channel_topic ch ≡ some topic)
    × AtMost (position_of positions topic partition) (next_offset offset)

abbrev pub AllCovered : Context → List (Text × Text) → Authorization → Type 0
AllCovered c last_pos acc =
    (ch : Text) → contains acc.authorized ch ≡ true → Covered c last_pos acc.positions ch

contains-last :
    (xs : List Text) (x a : Text)
    → contains (xs ++ x ∷ []) a ≡ true
    → (contains xs a ≡ true) ⊎ (x ≡ a)
unfolding contains
contains-last xs x a h = ground (arith, contains-append xs (x ∷ []) a, eq_iff x a)

admit-AllCovered :
    (c : Context) (last_pos : List (Text × Text)) (channel pos_str topic : Text)
    (partition offset : ℤ) (n : ℕ) (acc : Authorization)
    → Elem (channel, pos_str) last_pos
    → validate_channel_tenant channel c.tenant_id ≡ true
    → decode_pos pos_str ≡ some (partition, offset)
    → c.channel_topic channel ≡ some topic
    → AllCovered c last_pos acc
    → AllCovered c last_pos (admit channel topic partition offset n acc)
unfolding admit
admit-AllCovered c last_pos channel pos_str topic partition offset n acc m owned decoded mapped h ch
      found =
    elim (contains-last acc.authorized channel ch found) [
      | inl before ↦
          let (s, t, p, o, m', a, b, d, at) = h ch before in
          (
            s,
            t,
            p,
            o,
            m',
            a,
            b,
            d,
            put-keeps topic partition (next_offset offset) acc.positions t p (next_offset o) at,
          )
      | inr this ↦
          subst
            (λ x.
              Covered c last_pos (put_position topic partition (next_offset offset) acc.positions)
                x)
            this
            (
              pos_str,
              topic,
              partition,
              offset,
              m,
              owned,
              decoded,
              mapped,
              put_self topic partition (next_offset offset) acc.positions,
            )
    ]

-- An entry is skipped, or its channel is admitted: as one that is held, or within the limit.
abbrev pub Admitted : Context → Text → Text → Authorization → Type 0
Admitted c channel pos_str acc =
    (topic : Text) × (partition offset : ℤ) × (n : ℕ) × (validate_channel_tenant channel c.tenant_id
      ≡ true)
    × (decode_pos pos_str ≡ some (partition, offset))
    × (c.channel_topic channel ≡ some topic)
    × (((Set.has c.subscriptions channel ≡ true) × (n ≡ acc.new_channels))
        ⊎ ((Set.has c.subscriptions channel ≡ false)
            × (n ≡ acc.new_channels + 1)
            × (pos (Set.count c.subscriptions + n) ≤ℤ c.max_channels_per_client)))
    × (authorize_entry c channel pos_str acc ≡ admit channel topic partition offset n acc)

pub entry-cases :
    (c : Context) (channel pos_str : Text) (acc : Authorization)
    → (authorize_entry c channel pos_str acc ≡ acc) ⊎ Admitted c channel pos_str acc
unfolding authorize_entry authorize_new
entry-cases c channel pos_str acc =
    elim (Bool-cases (validate_channel_tenant channel c.tenant_id)) [
      | inr foreign ↦ inl (ground (arith, foreign))
      | inl owned ↦ elim (Option-cases (decode_pos pos_str)) [
        | inl bad ↦ inl (ground (arith, owned, bad))
        | inr ((partition, offset), decoded) ↦ elim (Option-cases (c.channel_topic channel)) [
          | inl unmapped ↦ inl (ground (arith, owned, decoded, unmapped))
          | inr (topic, mapped) ↦ elim (Bool-cases (Set.has c.subscriptions channel)) [
            | inl held ↦ inr (
              topic,
              partition,
              offset,
              acc.new_channels,
              owned,
              decoded,
              mapped,
              inl (held, refl),
              ground (arith, owned, decoded, mapped, held),
            )
            | inr fresh ↦
                elim (Bool-cases (
                  leb_ℤ c.max_channels_per_client
                    (pos (Set.count c.subscriptions + acc.new_channels)))) [
                      | inl full ↦ inl (ground (arith, owned, decoded, mapped, fresh, full))
                      | inr room ↦ inr (
                        topic,
                        partition,
                        offset,
                        acc.new_channels + 1,
                        owned,
                        decoded,
                        mapped,
                        inr (fresh, refl, ground (arith, room)),
                        ground (arith, owned, decoded, mapped, fresh, room),
                      )
                    ]
          ]
        ]
      ]
    ]

entry-AllCovered :
    (c : Context) (last_pos : List (Text × Text)) (channel pos_str : Text) (acc : Authorization)
    → Elem (channel, pos_str) last_pos
    → AllCovered c last_pos acc
    → AllCovered c last_pos (authorize_entry c channel pos_str acc)
entry-AllCovered c last_pos channel pos_str acc m h = elim (entry-cases c channel pos_str acc) [
  | inl skipped ↦ subst (AllCovered c last_pos) (sym skipped) h
  | inr (topic, partition, offset, n, owned, decoded, mapped, _, admitted) ↦
      subst (AllCovered c last_pos) (sym admitted) (
        admit-AllCovered c last_pos channel pos_str topic partition offset n acc m owned decoded
          mapped h)
]

all-AllCovered :
    (c : Context) (last_pos rest : List (Text × Text)) (acc : Authorization)
    → ((e : Text × Text) → Elem e rest → Elem e last_pos)
    → AllCovered c last_pos acc
    → AllCovered c last_pos (authorize_all c rest acc)
unfolding authorize_all
all-AllCovered c last_pos [] acc sub h = h
all-AllCovered c last_pos ((channel, pos_str) ∷ rest) acc sub h =
    all-AllCovered c last_pos rest (authorize_entry c channel pos_str acc) (λ e m. sub e (inr m))
      (entry-AllCovered c last_pos channel pos_str acc (sub (channel, pos_str) (inl refl)) h)

-- Every authorized channel is one of the requested ones, belongs to the client's tenant, has a topic
-- and a position that decodes, and the replay of its partition starts at the offset behind that
-- position, as an int64, or at a lower one.
pub authorized-Covered :
    (c : Context) (last_pos : List (Text × Text)) (ch : Text)
    → contains (authorize_last_pos c last_pos).authorized ch ≡ true
    → Covered c last_pos (authorize_last_pos c last_pos).positions ch
unfolding authorize_last_pos
authorized-Covered c last_pos ch h =
    all-AllCovered c last_pos last_pos
      (record { positions = []; authorized = []; new_channels = 0 }) (λ e m. m)
      (λ x e. absurd (ground (arith, contains_nil x))) ch h
