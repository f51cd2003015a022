-- ===== src/Revocation/Race.antt =====
-- A revocation that arrives while a connection is being registered. The gateway has both the registry
-- and the stream of revocations.
use sukko.Common.{
  ◌≡◌, Bool, true, false, List, [], ◌∷◌, ◌++◌, arith, if◌then◌else◌, All, nat_eq, list_eq, eq_refl,
  contains, contains-append,
}
use sukko.Common.Int.{ℤ}
use sukko.Common.Text.{Text}
use sukko.Revocation.Stream.{RevocationEntry, RevocationSnapshot, apply_delta}
use sukko.Revocation.Registry.{
  Connection, ConnectionRegistry, conn_eq, register, handle_revocation,
  recheck_revocation_after_register,
}
use sukko.Revocation.Closing.{IsFor, recheck_stored, closed_registered}

-- The two sides: the handler of a connection registers it and then checks it; the stream stores the
-- snapshot and then closes what it finds registered.
pub data Step : Type 0 where
  register_step recheck_step store_step fan_out_step : Step

pub record State : Type 0 where
  pub snapshot : RevocationSnapshot
  pub registry : ConnectionRegistry
  pub closed : List Connection

module _ (entry : RevocationEntry) (conn : Connection) (tenant_id : Text) (now : ℤ) where
  abbrev pub perform : Step → State → State
  perform register_step s = record s {
    registry = register conn tenant_id conn.sub conn.jti s.registry;
  }
  perform recheck_step s = record s {
    closed =
        if recheck_revocation_after_register s.snapshot conn tenant_id
        then conn ∷ s.closed
        else s.closed;
  }
  perform store_step s = record s { snapshot = apply_delta now (entry ∷ []) s.snapshot }
  perform fan_out_step s = record s { closed = handle_revocation entry s.registry ++ s.closed }

  abbrev pub perform_all : List Step → State → State
  perform_all [] s = s
  perform_all (step ∷ steps) s = perform_all steps (perform step s)

-- The orders in which the steps of two sides can run.
abbrev pub put_before {ℓ} : {A : Type ℓ} → A → List (List A) → List (List A)
put_before a [] = []
put_before a (xs ∷ xss) = (a ∷ xs) ∷ put_before a xss

abbrev pub interleavings {ℓ} : {A : Type ℓ} → List A → List A → List (List A)
interleavings [] ys = ys ∷ []
interleavings (x ∷ xs) [] = (x ∷ xs) ∷ []
interleavings (x ∷ xs) (y ∷ ys) =
    put_before x (interleavings xs (y ∷ ys)) ++ put_before y (interleavings (x ∷ xs) ys)

fan_out_closes :
    (entry : RevocationEntry) (conn : Connection) (tenant_id : Text) (now : ℤ)
    (r : ConnectionRegistry) (closed : List Connection)
    → IsFor entry conn tenant_id now
    → contains
        (handle_revocation entry (register conn tenant_id conn.sub conn.jti r) ++ closed)
        conn
      ≡ true
fan_out_closes entry conn tenant_id now r closed for =
    let hit = handle_revocation entry (register conn tenant_id conn.sub conn.jti r) in
    ground
      (arith, contains-append hit closed conn, closed_registered entry conn tenant_id now r for)

recheck_keeps :
    (b : Bool) (conn : Connection) (closed : List Connection)
    → contains closed conn ≡ true
    → contains (if b then conn ∷ closed else closed) conn ≡ true
unfolding contains
recheck_keeps true conn closed h = ground (arith, eq_refl conn)
recheck_keeps false conn closed h = h

recheck_closes :
    (b : Bool) (conn : Connection) (closed : List Connection)
    → b ≡ true
    → contains (if b then conn ∷ closed else closed) conn ≡ true
unfolding contains
recheck_closes true conn closed h = ground (arith, eq_refl conn)
recheck_closes false conn closed h = cc

-- However the registration of a connection and the arrival of a live revocation of its token, or of
-- its user later than its token, interleave, the connection is closed: by the fan-out, or by the
-- check behind the registration.
pub race_closed :
    (entry : RevocationEntry) (conn : Connection) (tenant_id : Text) (now : ℤ) (s : State)
    → IsFor entry conn tenant_id now
    → All
        (λ steps. contains (perform_all entry conn tenant_id now steps s).closed conn ≡ true)
        (interleavings (register_step ∷ recheck_step ∷ []) (store_step ∷ fan_out_step ∷ []))
race_closed entry conn tenant_id now s for =
    let fans : (closed : List Connection)
        → contains
            (handle_revocation entry (register conn tenant_id conn.sub conn.jti s.registry)
              ++ closed)
            conn
          ≡ true =
      λ closed. fan_out_closes entry conn tenant_id now s.registry closed for in
    let stored = apply_delta now (entry ∷ []) s.snapshot in
    let checks = recheck_revocation_after_register stored conn tenant_id in
    (
      fans _,
      (
        fans _,
        (
          recheck_keeps checks conn _ (fans s.closed),
          (
            fans _,
            (
              recheck_keeps checks conn _ (fans s.closed),
              (
                recheck_closes checks conn _
                    (recheck_stored entry conn tenant_id now s.snapshot for),
                tt,
              ),
            ),
          ),
        ),
      ),
    )
