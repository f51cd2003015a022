-- ===== src/Broadcast/Fanout.antt =====
-- Whom a broadcast reaches.
use sukko.Common.{
  ℕ, ◌+◌, ◌≡◌, refl, sym, ap, subst, ◌∙◌, ◌⊎◌, inl, inr, false, not, ◌&&◌, List, [], ◌∷◌, arith,
  if◌then◌else◌, ◌==◌, nat_eq, list_eq, eq_iff, contains, Distinct, Bool-cases,
}
use sukko.Common.Text.{Text}
use sukko.Subscriptions.Index as Index
use sukko.Subscriptions.Index.{new_subscription_index}
use sukko.Subscriptions.Refinement.{Operation, run, subscribed, run-subscribed}
use sukko.Broadcast.{
  BroadcastEnvelope, ServerConfig, Server, extract_channel, disconnects, send_to, with_client,
  send_all, broadcast,
}

send_all-clients :
    (config : ServerConfig) (envelope : BroadcastEnvelope) (ids : List ℕ) (s : Server) (id : ℕ)
    → Distinct ids
    → (send_all config envelope ids s).clients id
      ≡ (if contains ids id then send_to config envelope (s.clients id) else s.clients id)
unfolding send_all contains
send_all-clients config envelope [] s id distinct = refl
send_all-clients config envelope (i ∷ ids) s id (absent, distinct) =
    let c = s.clients i in
    let s1 : Server = record s {
      clients = with_client i (send_to config envelope c) s.clients;
      slow_clients_disconnected =
          s.slow_clients_disconnected + (if disconnects config envelope c then 1 else 0);
    } in
    elim (Bool-cases (i == id)) [
      | inl same ↦ ground (
        arith,
        same,
        absent,
        ap s.clients ((eq_iff i id).0 same),
        ap (contains ids) ((eq_iff i id).0 same),
        send_all-clients config envelope ids s1 id distinct,
      )
      | inr other ↦ ground (arith, other, send_all-clients config envelope ids s1 id distinct)
    ]

extract_channel-cases :
    (subject : Text) → (extract_channel subject ≡ []) ⊎ (extract_channel subject ≡ subject)
unfolding extract_channel
extract_channel-cases subject = ground arith

abbrev pub envelope_of : Text → Text → Text → Text → BroadcastEnvelope
envelope_of subject message pos mid = record {
  channel = subject;
  payload = message;
  pos = pos;
  mid = mid;
}

broadcast-clients :
    (config : ServerConfig) (subject message pos mid : Text) (s : Server) (id : ℕ)
    → Distinct (Index.get s.subscription_index subject)
    → (broadcast config subject message pos mid s).clients id ≡ (
        if not (extract_channel subject == [])
          && contains (Index.get s.subscription_index subject) id
        then send_to config (envelope_of subject message pos mid) (s.clients id)
        else s.clients id)
unfolding broadcast
broadcast-clients config subject message pos mid s id distinct =
    elim (extract_channel-cases subject) [
      | inl none_ ↦ rw none_ refl
      | inr whole ↦ rw whole (
          ground (
            arith,
            send_all-clients config (envelope_of subject message pos mid)
                (Index.get s.subscription_index subject) s id distinct,
          ))
    ]

-- A broadcast under a subject, where the index comes from subscribing and unsubscribing: a client has
-- the message sent to it, once, exactly when the operations leave it subscribed to that subject; other
-- clients are as they were, and so are all when the subject is no channel.
pub broadcast-subscribed :
    (config : ServerConfig) (ops : List Operation) (subject message pos mid : Text) (s : Server)
    (id : ℕ)
    → s.subscription_index ≡ run ops new_subscription_index
    → (broadcast config subject message pos mid s).clients id ≡ (
        if not (extract_channel subject == []) && subscribed ops false subject id
        then send_to config (envelope_of subject message pos mid) (s.clients id)
        else s.clients id)
broadcast-subscribed config ops subject message pos mid s id index =
    let (members, distinct, stored) = run-subscribed ops subject id in
    broadcast-clients config subject message pos mid s id
      (subst (λ idx. Distinct (Index.get idx subject)) (sym index) distinct)
    ∙ ap
        (λ here.
          if not (extract_channel subject == []) && here
          then send_to config (envelope_of subject message pos mid) (s.clients id)
          else s.clients id)
        (ap (λ idx. contains (Index.get idx subject) id) index ∙ members)
