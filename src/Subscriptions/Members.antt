-- ===== src/Subscriptions/Members.antt =====
-- What each operation does to the members of a set and to the clients of a channel.
use sukko.Common.{
  ℕ, ◌≡◌, refl, ap, ◌≢◌, ◌⊎◌, inl, inr, false, not, ◌&&◌, ◌||◌, none, some, List, [], ◌∷◌, ◌++◌,
  arith, if◌then◌else◌, ◌==◌, nat_eq, list_eq, eq_iff, contains, contains-append, contains_nil,
  Distinct, Bool-cases, Option-cases,
}
use sukko.Common.Map.{lookup, has_key, lookup-insert, lookup-delete}
use sukko.Common.Text.{Text}
use sukko.Subscriptions.Set as Set
use sukko.Subscriptions.Set.{SubscriptionSet}
use sukko.Subscriptions.Index as Index
use sukko.Subscriptions.Index.{SubscriptionIndex, or_nil, remove_first}

has-add : (s : SubscriptionSet) (ch a : Text) → Set.has (Set.add s ch) a ≡ (ch == a || Set.has s a)
unfolding Set.has Set.add has_key
has-add s ch a = ground (arith, lookup-insert ch a tt s.channels)

has-remove :
    (s : SubscriptionSet) (ch a : Text)
    → Set.has (Set.remove s ch) a ≡ (not (ch == a) && Set.has s a)
unfolding Set.has Set.remove has_key
has-remove s ch a = ground (arith, lookup-delete ch a s.channels)

has-add_multiple :
    (s : SubscriptionSet) (chs : List Text) (a : Text)
    → Set.has (Set.add_multiple s chs) a ≡ (contains chs a || Set.has s a)
unfolding Set.add_multiple contains
has-add_multiple s [] a = refl
has-add_multiple s (ch ∷ chs) a =
    ground (arith, has-add_multiple (Set.add s ch) chs a, has-add s ch a)

has-remove_multiple :
    (s : SubscriptionSet) (chs : List Text) (a : Text)
    → Set.has (Set.remove_multiple s chs) a ≡ (not (contains chs a) && Set.has s a)
unfolding Set.remove_multiple contains
has-remove_multiple s [] a = refl
has-remove_multiple s (ch ∷ chs) a =
    ground (arith, has-remove_multiple (Set.remove s ch) chs a, has-remove s ch a)

-- After channels are added the set has these and those it had; after channels are removed, those
-- it had without these.
pub set_members :
    (s : SubscriptionSet) (chs : List Text) (a : Text)
    → (Set.has (Set.add_multiple s chs) a ≡ (contains chs a || Set.has s a))
      × (Set.has (Set.remove_multiple s chs) a ≡ (not (contains chs a) && Set.has s a))
set_members s chs a = (has-add_multiple s chs a, has-remove_multiple s chs a)

-- The removal of a client from a list without repetitions.
remove_first-missing :
    (client : ℕ) (xs : List ℕ) → remove_first client xs ≡ none → contains xs client ≡ false
unfolding remove_first contains
remove_first-missing client [] h = refl
remove_first-missing client (x ∷ xs) h = elim (Option-cases (remove_first client xs)) [
  | inl e ↦ ground (arith, e, remove_first-missing client xs e)
  | inr (kept, e) ↦ absurd (ground (arith, e))
]

pub remove_first-found :
    (client : ℕ) (xs ys : List ℕ) (a : ℕ)
    → Distinct xs
    → remove_first client xs ≡ some ys
    → contains ys a ≡ (contains xs a && not (client == a))
unfolding remove_first contains
remove_first-found client [] ys a d h = absurd (ground arith)
remove_first-found client (x ∷ xs) ys a d h = elim (Option-cases (remove_first client xs)) [
  | inl e ↦ ground (arith, e, eq_iff x client, eq_iff x a, eq_iff client a)
  | inr (kept, e) ↦ ground (
    arith,
    e,
    eq_iff x client,
    eq_iff x a,
    eq_iff client a,
    remove_first-found client xs kept a d.1 e,
  )
]

pub remove_first-Distinct :
    (client : ℕ) (xs ys : List ℕ) → Distinct xs → remove_first client xs ≡ some ys → Distinct ys
unfolding remove_first contains
remove_first-Distinct client [] ys d h = absurd (ground arith)
remove_first-Distinct client (x ∷ xs) ys d h = elim (Option-cases (remove_first client xs)) [
  | inl e ↦ ground (arith, e)
  | inr (kept, e) ↦ ground (
    arith,
    e,
    remove_first-Distinct client xs kept d.1 e,
    remove_first-found client xs kept x d.1 e,
  )
]

-- Each channel's clients are distinct, and none has an entry without clients.
abbrev pub IsIndex : SubscriptionIndex → Type 0
IsIndex idx = (ch : Text) → Distinct (Index.get idx ch) × (lookup ch idx.subscribers ≢ some [])

get-add :
    (channel : Text) (client : ℕ) (idx : SubscriptionIndex) (ch : Text)
    → Index.get (Index.add channel client idx) ch ≡ (
        if channel == ch && not (contains (Index.get idx channel) client)
        then Index.get idx channel ++ client ∷ []
        else Index.get idx ch)
unfolding Index.get Index.add
get-add channel client idx ch =
    let current = or_nil (lookup channel idx.subscribers) in
    ground (arith, lookup-insert channel ch (current ++ client ∷ []) idx.subscribers)

one_client : (client a : ℕ) → contains (client ∷ []) a ≡ (client == a)
unfolding contains
one_client client a = ground arith

pub contains-add :
    (channel : Text) (client : ℕ) (idx : SubscriptionIndex) (ch : Text) (a : ℕ)
    → contains (Index.get (Index.add channel client idx) ch) a
      ≡ (channel == ch && client == a || contains (Index.get idx ch) a)
contains-add channel client idx ch a = elim (Bool-cases (channel == ch)) [
  | inl same ↦ ground (
    arith,
    same,
    get-add channel client idx ch,
    ap (Index.get idx) ((eq_iff channel ch).0 same),
    eq_iff client a,
    contains-append (Index.get idx channel) (client ∷ []) a,
    one_client client a,
  )
  | inr other ↦ ground (arith, other, get-add channel client idx ch)
]

last-Distinct :
    (xs : List ℕ) (client : ℕ)
    → Distinct xs
    → contains xs client ≡ false
    → Distinct (xs ++ client ∷ [])
unfolding contains
last-Distinct [] client d h = (refl, tt)
last-Distinct (x ∷ xs) client d h = (
  ground (
    arith,
    contains-append xs (client ∷ []) x,
    one_client client x,
    eq_iff client x,
    eq_iff x client,
    d.0,
  ),
  last-Distinct xs client d.1 (ground arith),
)

not_empty : (xs : List ℕ) (client : ℕ) → xs ++ client ∷ [] ≢ []
not_empty [] client e = cc
not_empty (x ∷ xs) client e = cc

add-Distinct :
    (channel : Text) (client : ℕ) (idx : SubscriptionIndex) (ch : Text)
    → IsIndex idx
    → Distinct (Index.get (Index.add channel client idx) ch)
add-Distinct channel client idx ch h =
    elim (Bool-cases (channel == ch && not (contains (Index.get idx channel) client))) [
      | inl stored ↦
          rw (get-add channel client idx ch, stored)
            (last-Distinct (Index.get idx channel) client (h channel).0 (ground arith))
      | inr kept ↦ rw (get-add channel client idx ch, kept) (h ch).0
    ]

add-entry :
    (channel : Text) (client : ℕ) (idx : SubscriptionIndex) (ch : Text)
    → IsIndex idx
    → lookup ch (Index.add channel client idx).subscribers ≢ some []
unfolding Index.add
add-entry channel client idx ch h =
    let current = or_nil (lookup channel idx.subscribers) in
    ground (
      arith,
      lookup-insert channel ch (current ++ client ∷ []) idx.subscribers,
      (h ch).1,
      not_empty current client,
    )

pub add-IsIndex :
    (channel : Text) (client : ℕ) (idx : SubscriptionIndex)
    → IsIndex idx
    → IsIndex (Index.add channel client idx)
add-IsIndex channel client idx h =
    λ ch. (add-Distinct channel client idx ch h, add-entry channel client idx ch h)

pub get-store :
    (channel : Text) (clients : List ℕ) (idx : SubscriptionIndex) (ch : Text)
    → (Index.get (Index.store channel clients idx) ch
        ≡ (if channel == ch then clients else Index.get idx ch))
      × ((lookup ch idx.subscribers ≢ some [])
          → lookup ch (Index.store channel clients idx).subscribers ≢ some [])
unfolding Index.get Index.store
get-store channel [] idx ch =
    let e = lookup-delete channel ch idx.subscribers in
    (ground (arith, e), λ h. ground (arith, e, h))
get-store channel (c ∷ cs) idx ch =
    let e = lookup-insert channel ch (c ∷ cs) idx.subscribers in
    (ground (arith, e), λ h. ground (arith, e, h))

-- The three ways a removal can go: no entry, no such client in it, or the client taken out.
pub remove-cases :
    (channel : Text) (client : ℕ) (idx : SubscriptionIndex)
    → ((Index.remove channel client idx ≡ idx) × (contains (Index.get idx channel) client ≡ false))
      ⊎ ((clients : List ℕ) × (remove_first client (Index.get idx channel) ≡ some clients)
          × (Index.remove channel client idx ≡ Index.store channel clients idx))
unfolding Index.remove Index.get
remove-cases channel client idx = elim (Option-cases (lookup channel idx.subscribers)) [
  | inl missing ↦ inl (ground (arith, missing), rw missing (contains_nil client))
  | inr (current, found) ↦ elim (Option-cases (remove_first client current)) [
    | inl absent ↦
        inl (ground (arith, found, absent), rw found (remove_first-missing client current absent))
    | inr (clients, taken) ↦
        inr (clients, ground (arith, found, taken), ground (arith, found, taken))
  ]
]
