-- ===== src/Proxy/Distinct.antt =====
-- The UIDs that one process draws, at whatever times.
use iot_drive.Shared.{
  ℕ, zero, suc, ◌+◌, ◌%◌, ◌^◌, ◌<◌, ◌≡◌, ◌≢◌, refl, false, Outcome, ok, bind, arith,
}
use iot_drive.Message.Identity.{Uid, uid_eq}
use iot_drive.Proxy.{Process, fresh_uid}
use iot_drive.Proxy.Delivery.{tick, next_uid, fresh_uid_timely}

-- The n-th UID from now on, if the i-th one is drawn at `now i`.
unfoldable pub uid_at : (ℕ → ℕ) → ℕ → Process → Outcome Uid
uid_at now zero p = bind (fresh_uid (record p { now = now 0 })) λ r. ok (r.0)
uid_at now (suc n) p =
    bind (fresh_uid (record p { now = now 0 })) λ r. uid_at (λ i. now (suc i)) n (r.1)

unique_counter-uid_at :
    (now : ℕ → ℕ) (n : ℕ) (p : Process)
    → ((i : ℕ) → now i % 2 ^ 32 < 2 ^ 31)
    → p.counter < 2 ^ 32
    → (u : Uid) × (uid_at now n p ≡ ok u) × (u.unique_counter ≡ (p.counter + n) % 2 ^ 32)
unfolding uid_at
unique_counter-uid_at now zero p timely fits = (
  next_uid (record p { now = now 0 }),
  rw (fresh_uid_timely (record p { now = now 0 }) (timely 0)) refl,
  omega arith,
)
unique_counter-uid_at now (suc n) p timely fits =
    let p' : Process = record p { now = now 0 } in
    let (u, drawn, counter) =
      unique_counter-uid_at (λ i. now (suc i)) n (tick p') (λ i. timely (suc i)) (omega arith) in
    (u, rw (fresh_uid_timely p' (timely 0)) drawn, omega (arith, counter))

-- Of two UIDs that a process draws fewer than 2^32 draws apart, at times whose lower half is not
-- negative, each is drawn without an exception and operator== tells them apart.
pub uid_at-distinct :
    (now : ℕ → ℕ) (i d : ℕ) (p : Process)
    → ((k : ℕ) → now k % 2 ^ 32 < 2 ^ 31)
    → p.counter < 2 ^ 32
    → 0 < d
    → d < 2 ^ 32
    → (u : Uid) × (v : Uid) × (uid_at now i p ≡ ok u)
      × (uid_at now (i + d) p ≡ ok v)
      × (uid_eq u v ≡ false)
unfolding uid_eq
uid_at-distinct now i d p timely fits some_draws few =
    let (u, drawn, cu) = unique_counter-uid_at now i p timely fits in
    let (v, drawn', cv) = unique_counter-uid_at now (i + d) p timely fits in
    let apart : u.unique_counter ≢ v.unique_counter = λ e. absurd (omega (arith, cu, cv, e)) in
    (u, v, drawn, drawn', ground (arith, apart))
