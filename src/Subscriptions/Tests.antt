-- ===== src/Subscriptions/Tests.antt =====
-- Concrete subscriptions.
use sukko.Common.{◌≡◌, refl, ◌≢◌, false, some, List, [], ◌∷◌, nat_eq, list_eq, contains, Distinct}
use sukko.Common.Map.{lookup}
use sukko.Common.Text.{Text, codes}
use sukko.Subscriptions.Set as Set
use sukko.Subscriptions.Set.{SubscriptionSet, new_subscription_set}
use sukko.Subscriptions.Index as Index
use sukko.Subscriptions.Index.{new_subscription_index}
use sukko.Subscriptions.Refinement.{
  Operation, add, remove, add_multiple, remove_multiple, run, subscribed, run-subscribed,
}

abbrev news : Text
news = codes "acme.news"

abbrev trade : Text
trade = codes "acme.trade"

abbrev session : List Operation
session =
    add news 1
    ∷ add_multiple (news ∷ trade ∷ []) 2
    ∷ add news 1
    ∷ remove trade 2
    ∷ remove_multiple (trade ∷ news ∷ []) 1
    ∷ []

news_clients : Index.get (run session new_subscription_index) news ≡ 2 ∷ []
unfolding Index.get Index.remove_multiple Index.add Index.add_multiple new_subscription_index
news_clients = refl

trade_entry : (run session new_subscription_index).subscribers ≡ (news, 2 ∷ []) ∷ []
unfolding Index.get Index.remove_multiple Index.add Index.add_multiple new_subscription_index
trade_entry = refl

run-subscribed_example :
    let idx = run session new_subscription_index in
    (contains (Index.get idx news) 2 ≡ subscribed session false news 2)
    × Distinct (Index.get idx news)
    × (lookup news idx.subscribers ≢ some [])
run-subscribed_example = run-subscribed session news 2

news_removed :
    Set.has (Set.remove_multiple (Set.add new_subscription_set news) (news ∷ [])) news ≡ false
unfolding Set.has Set.remove_multiple Set.add new_subscription_set
news_removed = refl
