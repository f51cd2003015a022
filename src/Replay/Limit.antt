-- ===== src/Replay/Limit.antt =====
-- The limit on the channels of a client holds for the replay too.
use sukko.Common.{
  ℕ, suc, ◌+◌, ◌≡◌, refl, sym, subst, inl, inr, List, [], ◌∷◌, ◌++◌, arith, if◌then◌else◌, nat_eq,
  list_eq,
}
use sukko.Common.Int.{pos, ◌≤ℤ◌}
use sukko.Common.Text.{Text}
use sukko.Subscriptions.Set as Set
use sukko.Replay.{Authorization, admit, Context, authorize_entry, authorize_all, authorize_last_pos}
use sukko.Replay.Cover.{entry-cases}

-- The authorized channels that the client does not hold yet.
abbrev pub not_held : Context → List Text → ℕ
not_held c [] = 0
not_held c (ch ∷ chs) =
    let rest = not_held c chs in if Set.has c.subscriptions ch then rest else suc rest

not_held-last :
    (c : Context) (xs : List Text) (x : Text)
    → not_held c (xs ++ x ∷ []) ≡ not_held c xs + not_held c (x ∷ [])
not_held-last c [] x = omega arith
not_held-last c (y ∷ xs) x = ground (arith, not_held-last c xs x)

abbrev pub IsCounted : Context → Authorization → Type 0
IsCounted c acc =
    (not_held c acc.authorized ≡ acc.new_channels)
    × (pos (Set.count c.subscriptions + acc.new_channels) ≤ℤ c.max_channels_per_client)

entry-IsCounted :
    (c : Context) (channel pos_str : Text) (acc : Authorization)
    → IsCounted c acc
    → IsCounted c (authorize_entry c channel pos_str acc)
unfolding admit
entry-IsCounted c channel pos_str acc (count, room) = elim (entry-cases c channel pos_str acc) [
  | inl skipped ↦ subst (IsCounted c) (sym skipped) (count, room)
  | inr (topic, partition, offset, n, owned, decoded, mapped, inl (held, same), admitted) ↦
      subst (IsCounted c) (sym admitted) (
        ground (arith, not_held-last c acc.authorized channel, count, held, same),
        ground (arith, room, same),
      )
  | inr (topic, partition, offset, n, owned, decoded, mapped, inr (fresh, more, below), admitted) ↦
      subst (IsCounted c) (sym admitted)
        (ground (arith, not_held-last c acc.authorized channel, count, fresh, more), below)
]

all-IsCounted :
    (c : Context) (rest : List (Text × Text)) (acc : Authorization)
    → IsCounted c acc
    → IsCounted c (authorize_all c rest acc)
unfolding authorize_all
all-IsCounted c [] acc h = h
all-IsCounted c ((channel, pos_str) ∷ rest) acc h =
    all-IsCounted c rest (authorize_entry c channel pos_str acc)
      (entry-IsCounted c channel pos_str acc h)

-- The channels that a client holds and the authorized ones that it does not hold yet are together
-- within the limit, if those that it holds are.
pub authorized_within :
    (c : Context) (last_pos : List (Text × Text))
    → pos (Set.count c.subscriptions) ≤ℤ c.max_channels_per_client
    → pos (Set.count c.subscriptions + not_held c (authorize_last_pos c last_pos).authorized)
      ≤ℤ c.max_channels_per_client
unfolding authorize_last_pos
authorized_within c last_pos h =
    let start : Authorization = record { positions = []; authorized = []; new_channels = 0 } in
    let (count, room) = all-IsCounted c last_pos start (refl, omega (arith, h)) in rw count room
