-- ===== src/Subscriptions/Refinement.antt =====
-- The index against its description: which client is subscribed to which channel.
use sukko.Common.{
  ℕ, ◌≡◌, refl, ap, ◌∙◌, ◌≢◌, inl, inr, Bool, true, false, not, ◌&&◌, ◌||◌, some, List, [], ◌∷◌,
  arith, if◌then◌else◌, ◌==◌, nat_eq, list_eq, eq_iff, contains, contains_nil, Distinct, Bool-cases,
}
use sukko.Common.Map.{lookup}
use sukko.Common.Text.{Text}
use sukko.Subscriptions.Index as Index
use sukko.Subscriptions.Index.{SubscriptionIndex, new_subscription_index, remove_first}
use sukko.Subscriptions.Members.{
  IsIndex, contains-add, add-IsIndex, get-store, remove-cases, remove_first-found,
  remove_first-Distinct,
}

contains-remove :
    (channel : Text) (client : ℕ) (idx : SubscriptionIndex) (ch : Text) (a : ℕ)
    → IsIndex idx
    → contains (Index.get (Index.remove channel client idx) ch) a
      ≡ (contains (Index.get idx ch) a && not (channel == ch && client == a))
contains-remove channel client idx ch a h = elim (Bool-cases (channel == ch)) [
  | inl same ↦
      let at = ap (Index.get idx) ((eq_iff channel ch).0 same) in
      elim (remove-cases channel client idx) [
        | inl (kept, absent) ↦ rw kept (elim (Bool-cases (client == a)) [
          | inl this ↦ ground (
            arith,
            same,
            this,
            at,
            absent,
            ap (contains (Index.get idx channel)) ((eq_iff client a).0 this),
          )
          | inr else_ ↦ ground (arith, same, else_)
        ])
        | inr (clients, taken, stored) ↦ rw stored (
            ground (
              arith,
              same,
              (get-store channel clients idx ch).0,
              remove_first-found client (Index.get idx channel) clients a (h channel).0 taken,
              at,
            ))
      ]
  | inr other ↦ elim (remove-cases channel client idx) [
    | inl (kept, absent) ↦ rw kept (ground (arith, other))
    | inr (clients, taken, stored) ↦
        rw stored (ground (arith, other, (get-store channel clients idx ch).0))
  ]
]

remove-IsIndex :
    (channel : Text) (client : ℕ) (idx : SubscriptionIndex)
    → IsIndex idx
    → IsIndex (Index.remove channel client idx)
remove-IsIndex channel client idx h = elim (remove-cases channel client idx) [
  | inl (kept, absent) ↦ rw kept h
  | inr (clients, taken, stored) ↦ rw stored (λ ch. (
    rw (get-store channel clients idx ch).0 (
        either (channel == ch) clients (Index.get idx ch)
          (remove_first-Distinct client (Index.get idx channel) clients (h channel).0 taken)
          (h ch).0),
    (get-store channel clients idx ch).1 (h ch).1,
  ))
]
  where
    either :
        (b : Bool) (xs ys : List ℕ) → Distinct xs → Distinct ys → Distinct (if b then xs else ys)
    either true xs ys p q = p
    either false xs ys p q = q

pub data Operation : Type 0 where
  add remove : Text → ℕ → Operation
  add_multiple remove_multiple : List Text → ℕ → Operation

abbrev pub apply : Operation → SubscriptionIndex → SubscriptionIndex
apply (add channel client) idx = Index.add channel client idx
apply (remove channel client) idx = Index.remove channel client idx
apply (add_multiple channels client) idx = Index.add_multiple channels client idx
apply (remove_multiple channels client) idx = Index.remove_multiple channels client idx

-- A sequence of operations on an index, the first one in front.
abbrev pub run : List Operation → SubscriptionIndex → SubscriptionIndex
run [] idx = idx
run (op ∷ ops) idx = run ops (apply op idx)

-- The description: whether a client is subscribed to a channel after one operation.
abbrev pub subscribed_after : Operation → Bool → Text → ℕ → Bool
subscribed_after (add channel client) before ch a = channel == ch && client == a || before
subscribed_after (remove channel client) before ch a = before && not (channel == ch && client == a)
subscribed_after (add_multiple channels client) before ch a =
    contains channels ch && client == a || before
subscribed_after (remove_multiple channels client) before ch a =
    before && not (contains channels ch && client == a)

abbrev pub subscribed : List Operation → Bool → Text → ℕ → Bool
subscribed [] before ch a = before
subscribed (op ∷ ops) before ch a = subscribed ops (subscribed_after op before ch a) ch a

add_multiple_lem :
    (channels : List Text) (client : ℕ) (idx : SubscriptionIndex)
    → IsIndex idx
    → IsIndex (Index.add_multiple channels client idx)
      × ((ch : Text) (a : ℕ)
          → contains (Index.get (Index.add_multiple channels client idx) ch) a
            ≡ (contains channels ch && client == a || contains (Index.get idx ch) a))
unfolding Index.add_multiple contains
add_multiple_lem [] client idx h = (h, λ ch a. refl)
add_multiple_lem (channel ∷ channels) client idx h =
    let (i, m) =
      add_multiple_lem channels client (Index.add channel client idx)
        (add-IsIndex channel client idx h) in
    (i, λ ch a. ground (arith, m ch a, contains-add channel client idx ch a))

remove_multiple_lem :
    (channels : List Text) (client : ℕ) (idx : SubscriptionIndex)
    → IsIndex idx
    → IsIndex (Index.remove_multiple channels client idx)
      × ((ch : Text) (a : ℕ)
          → contains (Index.get (Index.remove_multiple channels client idx) ch) a
            ≡ (contains (Index.get idx ch) a && not (contains channels ch && client == a)))
unfolding Index.remove_multiple contains
remove_multiple_lem [] client idx h = (h, λ ch a. ground arith)
remove_multiple_lem (channel ∷ channels) client idx h =
    let (i, m) =
      remove_multiple_lem channels client (Index.remove channel client idx)
        (remove-IsIndex channel client idx h) in
    (i, λ ch a. ground (arith, m ch a, contains-remove channel client idx ch a h))

apply_lem :
    (op : Operation) (idx : SubscriptionIndex)
    → IsIndex idx
    → IsIndex (apply op idx)
      × ((ch : Text) (a : ℕ)
          → contains (Index.get (apply op idx) ch) a
            ≡ subscribed_after op (contains (Index.get idx ch) a) ch a)
apply_lem (add channel client) idx h =
    (add-IsIndex channel client idx h, contains-add channel client idx)
apply_lem (remove channel client) idx h =
    (remove-IsIndex channel client idx h, λ ch a. contains-remove channel client idx ch a h)
apply_lem (add_multiple channels client) idx h = add_multiple_lem channels client idx h
apply_lem (remove_multiple channels client) idx h = remove_multiple_lem channels client idx h

run_lem :
    (ops : List Operation) (idx : SubscriptionIndex)
    → IsIndex idx
    → IsIndex (run ops idx)
      × ((ch : Text) (a : ℕ)
          → contains (Index.get (run ops idx) ch) a
            ≡ subscribed ops (contains (Index.get idx ch) a) ch a)
run_lem [] idx h = (h, λ ch a. refl)
run_lem (op ∷ ops) idx h =
    let (i, m) = apply_lem op idx h in
    let (i', m') = run_lem ops (apply op idx) i in
    (i', λ ch a. m' ch a ∙ ap (λ b. subscribed ops b ch a) (m ch a))

new-IsIndex : IsIndex new_subscription_index
unfolding new_subscription_index Index.get lookup
new-IsIndex = λ ch. (tt, λ e. cc)

-- After any sequence of operations on a new index, the clients of a channel are those that the
-- operations subscribe to it and do not unsubscribe later; each is there once, and a channel without
-- clients has no entry.
pub run-subscribed :
    (ops : List Operation) (ch : Text) (a : ℕ)
    → let idx = run ops new_subscription_index in
      (contains (Index.get idx ch) a ≡ subscribed ops false ch a)
      × Distinct (Index.get idx ch)
      × (lookup ch idx.subscribers ≢ some [])
unfolding new_subscription_index Index.get lookup
run-subscribed ops ch a =
    let (i, m) = run_lem ops new_subscription_index new-IsIndex in
    (m ch a ∙ ap (λ b. subscribed ops b ch a) (contains_nil a), (i ch).0, (i ch).1)
