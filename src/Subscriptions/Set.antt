-- ===== src/Subscriptions/Set.antt =====
-- SubscriptionSet of ws/internal/server/connection.go: the channels of one client.
use sukko.Common.{ℕ, Bool, List, [], ◌∷◌, length, nat_eq, list_eq}
use sukko.Common.Map.{insert, delete, has_key}
use sukko.Common.Text.{Text}

-- A Go set: a map to empty structs.
pub record SubscriptionSet : Type 0 where
  pub channels : List (Text × Unit {0})

unfoldable pub new_subscription_set : SubscriptionSet
new_subscription_set = record { channels = [] }

unfoldable pub add : SubscriptionSet → Text → SubscriptionSet
unfolding insert
add s channel = record { channels = insert channel tt s.channels }

unfoldable pub add_multiple : SubscriptionSet → List Text → SubscriptionSet
unfolding add
add_multiple s [] = s
add_multiple s (channel ∷ channels) = add_multiple (add s channel) channels

unfoldable pub remove : SubscriptionSet → Text → SubscriptionSet
unfolding delete
remove s channel = record { channels = delete channel s.channels }

unfoldable pub remove_multiple : SubscriptionSet → List Text → SubscriptionSet
unfolding remove
remove_multiple s [] = s
remove_multiple s (channel ∷ channels) = remove_multiple (remove s channel) channels

unfoldable pub has : SubscriptionSet → Text → Bool
unfolding has_key
has s channel = has_key channel s.channels

unfoldable pub count : SubscriptionSet → ℕ
count s = length s.channels
