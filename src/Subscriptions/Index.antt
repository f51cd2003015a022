-- ===== src/Subscriptions/Index.antt =====
-- SubscriptionIndex of ws/internal/server/connection.go: the clients of every channel. A client is a
-- number, which stands for its pointer; a snapshot slice is a list.
use sukko.Common.{
  ℕ, Option, none, some, List, [], ◌∷◌, ◌++◌, length, if◌then◌else◌, ◌==◌, nat_eq, list_eq,
  contains,
}
use sukko.Common.Map.{lookup, insert, delete}
use sukko.Common.Text.{Text}

pub record SubscriptionIndex : Type 0 where
  pub subscribers : List (Text × List ℕ)

unfoldable pub new_subscription_index : SubscriptionIndex
new_subscription_index = record { subscribers = [] }

-- What a missing channel reads as.
abbrev pub or_nil : Option (List ℕ) → List ℕ
or_nil none = []
or_nil (some clients) = clients

-- The slice without the first occurrence of the client, as the loop of Remove copies it; nothing
-- where there is no occurrence.
unfoldable pub remove_first : ℕ → List ℕ → Option (List ℕ)
remove_first client [] = none
remove_first client (existing ∷ clients) =
    let rest = remove_first client clients in
    if existing == client
    then some clients
    else elim rest [ none ↦ none | some kept ↦ some (existing ∷ kept) ]

unfoldable pub add : Text → ℕ → SubscriptionIndex → SubscriptionIndex
unfolding contains lookup insert
add channel client idx =
    let current = or_nil (lookup channel idx.subscribers) in
    if contains current client
    then idx
    else record { subscribers = insert channel (current ++ client ∷ []) idx.subscribers }

-- The end of Remove: a channel without clients loses its entry.
unfoldable pub store : Text → List ℕ → SubscriptionIndex → SubscriptionIndex
unfolding insert delete
store channel clients idx =
    if length clients == 0
    then record { subscribers = delete channel idx.subscribers }
    else record { subscribers = insert channel clients idx.subscribers }

unfoldable pub remove : Text → ℕ → SubscriptionIndex → SubscriptionIndex
unfolding lookup remove_first store
remove channel client idx = elim (lookup channel idx.subscribers) [
  | none ↦ idx
  | some current ↦ elim (remove_first client current) [
    | none ↦ idx
    | some clients ↦ store channel clients idx
  ]
]

unfoldable pub add_multiple : List Text → ℕ → SubscriptionIndex → SubscriptionIndex
unfolding add
add_multiple [] client idx = idx
add_multiple (channel ∷ channels) client idx = add_multiple channels client (add channel client idx)

unfoldable pub remove_multiple : List Text → ℕ → SubscriptionIndex → SubscriptionIndex
unfolding remove
remove_multiple [] client idx = idx
remove_multiple (channel ∷ channels) client idx =
    remove_multiple channels client (remove channel client idx)

unfoldable pub get : SubscriptionIndex → Text → List ℕ
unfolding lookup
get idx channel = or_nil (lookup channel idx.subscribers)

unfoldable pub count : SubscriptionIndex → Text → ℕ
unfolding get
count idx channel = length (get idx channel)
