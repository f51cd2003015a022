-- ===== src/Replay/Tests.antt =====
-- A client that reconnects with four positions.
use sukko.Common.{
  ℕ, ◌+◌, ◌≡◌, refl, Bool, true, false, not, ◌&&◌, some, none, Option, List, [], ◌∷◌, nat_eq,
  list_eq, contains, Distinct, arith,
}
use sukko.Common.Int.{pos, negsuc}
use sukko.Common.Text.{Text, codes}
use sukko.Subscriptions.Set as Set
use sukko.Subscriptions.Set.{new_subscription_set}
use sukko.Replay.{next_offset, position_of, Context, authorize_last_pos}
use sukko.Replay.Cover.{Covered, authorized-Covered}

abbrev news : Text
news = codes "acme.news"

abbrev trade : Text
trade = codes "acme.trade"

abbrev other : Text
other = codes "acme2.news"

abbrev client : Context
client = record {
  tenant_id = codes "acme";
  channel_topic = λ channel. some (codes "prod.acme.default");
  subscriptions = new_subscription_set;
  max_channels_per_client = pos 2;
}

abbrev last_pos : List (Text × Text)
last_pos =
    (news, codes "1-9")
    ∷ (other, codes "1-1")
    ∷ (codes "acme.bad", codes "x")
    ∷ (trade, codes "1-4")
    ∷ []

two_authorized : (authorize_last_pos client last_pos).authorized ≡ news ∷ trade ∷ []
unfolding authorize_last_pos sukko.Channels.validate_channel_tenant sukko.Common.Text.has_prefix
    sukko.History.Position.decode_pos Set.has new_subscription_set Set.count
two_authorized = refl

from_the_lower :
    position_of (authorize_last_pos client last_pos).positions (codes "prod.acme.default") (pos 0)
    ≡ some (pos 5)
unfolding authorize_last_pos position_of sukko.Channels.validate_channel_tenant
    sukko.Common.Text.has_prefix sukko.History.Position.decode_pos Set.has new_subscription_set
    Set.count
from_the_lower = refl

news_authorized : contains (authorize_last_pos client last_pos).authorized news ≡ true
unfolding authorize_last_pos contains sukko.Channels.validate_channel_tenant
    sukko.Common.Text.has_prefix sukko.History.Position.decode_pos Set.has new_subscription_set
    Set.count
news_authorized = refl

none_held : Set.count new_subscription_set ≡ 0
unfolding Set.count new_subscription_set
none_held = refl

authorized-Covered_example :
    Covered client last_pos (authorize_last_pos client last_pos).positions news
authorized-Covered_example = authorized-Covered client last_pos news news_authorized

-- The largest offset that decodes wraps around.
largest_offset : next_offset (pos 9_223_372_036_854_775_807) ≡ negsuc 9_223_372_036_854_775_807
unfolding next_offset
largest_offset = refl
