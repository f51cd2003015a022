-- ===== src/Replay.antt =====
-- ws/internal/server/replay_shared.go: which channels a reconnecting client may replay, from which
-- positions, and what it is told that it may have missed. The replay itself is the backend's.
pub mod Positions
pub mod Cover
pub mod Limit
pub mod Outcome
mod Tests
use sukko.Common.{
  ℕ, suc, ◌+◌, ◌-◌, ◌^◌, Bool, true, false, not, ◌&&◌, ◌||◌, Option, none, some, List, [], ◌∷◌,
  ◌++◌, if◌then◌else◌, ltb, leb, ◌==◌, nat_eq, list_eq, contains,
}
use sukko.Common.Int.{ℤ, pos, negsuc, ltb_ℤ, leb_ℤ, int_eq}
use sukko.Common.Map.{lookup, insert}
use sukko.Common.Text.{Text}
use sukko.Channels.{validate_channel_tenant}
use sukko.History.Position.{decode_pos}
use sukko.Subscriptions.Set as Set
use sukko.Subscriptions.Set.{SubscriptionSet}

-- `offset + 1` on an int64.
unfoldable pub next_offset : ℤ → ℤ
next_offset (pos n) = if ltb (n + 1) (2 ^ 63) then pos (n + 1) else negsuc (2 ^ 63 - 1)
next_offset (negsuc n) = if n == 0 then pos 0 else negsuc (n - 1)

-- topic → partition → offset.
abbrev pub Positions : Type 0
Positions = List (Text × List (ℤ × ℤ))

abbrev pub or_no_partitions : Option (List (ℤ × ℤ)) → List (ℤ × ℤ)
or_no_partitions none = []
or_no_partitions (some m) = m

unfoldable pub position_of : Positions → Text → ℤ → Option ℤ
unfolding lookup
position_of positions topic partition = lookup partition (or_no_partitions (lookup topic positions))

-- The lowest position of a partition is kept.
unfoldable pub lower : ℤ → ℤ → List (ℤ × ℤ) → List (ℤ × ℤ)
unfolding lookup insert
lower partition next m = elim (lookup partition m) [
  | none ↦ insert partition next m
  | some existing ↦ if ltb_ℤ next existing then insert partition next m else m
]

unfoldable pub put_position : Text → ℤ → ℤ → Positions → Positions
unfolding lower lookup insert
put_position topic partition next positions =
    insert topic (lower partition next (or_no_partitions (lookup topic positions))) positions

-- The state of the loop of authorizeLastPos.
pub record Authorization : Type 0 where
  pub positions : Positions
  pub authorized : List Text
  pub new_channels : ℕ

unfoldable pub admit : Text → Text → ℤ → ℤ → ℕ → Authorization → Authorization
unfolding put_position next_offset
admit channel topic partition offset new_channels acc = record {
  positions = put_position topic partition (next_offset offset) acc.positions;
  authorized = acc.authorized ++ channel ∷ [];
  new_channels = new_channels;
}

-- What the server and the client give to the loop; `channel_topic` is the backend's.
pub record Context : Type 0 where
  pub tenant_id : Text
  pub channel_topic : Text → Option Text
  pub subscriptions : SubscriptionSet
  pub max_channels_per_client : ℤ

-- The end of the body: the limit on the channels that are not held yet.
unfoldable pub authorize_new : Context → Text → Text → ℤ → ℤ → Authorization → Authorization
unfolding admit
authorize_new c channel topic partition offset acc =
    if Set.has c.subscriptions channel
    then admit channel topic partition offset acc.new_channels acc
    else if leb_ℤ c.max_channels_per_client (pos (Set.count c.subscriptions + acc.new_channels))
    then acc
    else admit channel topic partition offset (acc.new_channels + 1) acc

unfoldable pub authorize_entry : Context → Text → Text → Authorization → Authorization
unfolding authorize_new
authorize_entry c channel pos_str acc =
    if not (validate_channel_tenant channel c.tenant_id) then acc else elim (decode_pos pos_str) [
      | none ↦ acc
      | some (partition, offset) ↦ elim (c.channel_topic channel) [
        | none ↦ acc
        | some topic ↦ authorize_new c channel topic partition offset acc
      ]
    ]

unfoldable pub authorize_all : Context → List (Text × Text) → Authorization → Authorization
unfolding authorize_entry
authorize_all c [] acc = acc
authorize_all c ((channel, pos_str) ∷ last_pos) acc =
    authorize_all c last_pos (authorize_entry c channel pos_str acc)

unfoldable pub authorize_last_pos : Context → List (Text × Text) → Authorization
unfolding authorize_all
authorize_last_pos c last_pos =
    authorize_all c last_pos (record { positions = []; authorized = []; new_channels = 0 })

-- The order of Go strings, and slices.Sort on them.
unfoldable pub text_leb : Text → Text → Bool
text_leb [] t = true
text_leb (a ∷ s) [] = false
text_leb (a ∷ s) (b ∷ t) = let rest = text_leb s t in if a == b then rest else ltb a b

unfoldable pub insert_sorted : Text → List Text → List Text
unfolding text_leb
insert_sorted x [] = x ∷ []
insert_sorted x (y ∷ ys) = if text_leb x y then x ∷ (y ∷ ys) else y ∷ insert_sorted x ys

unfoldable pub sort : List Text → List Text
unfolding insert_sorted
sort [] = []
sort (x ∷ xs) = insert_sorted x (sort xs)

-- The loop of recoveryOutcome over the requested channels.
unfoldable pub gaps : List Text → List Text → List Text → List Text
unfolding contains
gaps recovered seen [] = []
gaps recovered seen (ch ∷ requested) =
    let skip = gaps recovered seen requested in
    let add = ch ∷ gaps recovered (ch ∷ seen) requested in
    if contains recovered ch then skip else if contains seen ch then skip else add

-- `failed` is whether the replay returned an error.
unfoldable pub recovery_outcome : List Text → List Text → Bool → Bool → List Text × Bool
unfolding gaps sort
recovery_outcome requested authorized truncated failed =
    let truncated' = if failed then false else truncated in
    let recovered = if not failed && not truncated' then authorized else [] in
    (sort (gaps recovered [] requested), truncated')
