-- ===== src/Common/Queue.antt =====
-- A buffered Go channel as the list of what it holds, the oldest entry first.
use Prim.Native.Nat.{ℕ}
use mathlib.Core.Path.{◌≡◌}
use mathlib.Core.Logic.{◌⊎◌}
use native.Mathlib.Omega.{arith}
use mathlib.Core.Option.{Option, none, some}
use mathlib.Core.List.{List, [], ◌∷◌, ◌++◌}
use sukko.Common.Tests.{if◌then◌else◌, ltb}
use sukko.Common.Lists.{length}

-- A send that does not block: nothing where the channel is full.
abbrev pub try_send {ℓ} : {A : Type ℓ} → ℕ → A → List A → Option (List A)
try_send capacity a queue = if ltb (length queue) capacity then some (queue ++ a ∷ []) else none

-- The channel after such a send.
abbrev pub or_full {ℓ} : {A : Type ℓ} → Option (List A) → List A → List A
or_full none queue = queue
or_full (some sent) queue = sent

pub try_send-cases :
    {A : Type 0} (capacity : ℕ) (a : A) (queue : List A)
    → (try_send capacity a queue ≡ none) ⊎ (try_send capacity a queue ≡ some (queue ++ a ∷ []))
try_send-cases capacity a queue = ground arith
