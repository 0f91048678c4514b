-- ===== src/Coordinator/Expiry/Laws.antt =====
-- What expireLocked does to each reservation, in whatever order the map yields them.
use sema.Base.{
  Text, Text-discrete, List, [], ◌∷◌, Option, none, some, true, false, ◌≡◌, refl, inl, inr, holds,
  has, ◌≤◌, ◌<◌, ◌≢◌, Bool-cases, if◌then◌else◌, arith,
}
use sema.Base.Map.{keys, has-keys, lookup, lookup-insert}
use sema.Domain.{Time, expired, active, confirmed, ReservationStatus}
use sema.Coordinator.{Coordinator, ReservationRecord}
use sema.Coordinator.Expiry.{
  is_active, is_due, with_status, set_status, release_holds, expire_record, expire_keys, expire,
}

-- A predicate that survives the end of each due reservation survives the loop.
module _ {ℓ} (P : Coordinator → Type ℓ) (now : Time)
    (step : (k : Text) (r : ReservationRecord) (c : Coordinator)
      → lookup k c.reservations ≡ some r
      → is_due now r.reservation ≡ true
      → P c
      → P (set_status k expired r (release_holds r.reservation c))) where
  expire_record_keeps :
      (k : Text) (o : Option ReservationRecord) (c : Coordinator)
      → lookup k c.reservations ≡ o
      → P c
      → P (expire_record now k o c)
  unfolding expire_record
  expire_record_keeps k none c e p = p
  expire_record_keeps k (some r) c e p = elim (Bool-cases (is_due now r.reservation)) [
    | inl due ↦ rw due (step k r c e due p)
    | inr not_due ↦ rw not_due p
  ]

  pub expire_keys_keeps : (ks : List Text) (c : Coordinator) → P c → P (expire_keys now ks c)
  unfolding expire_keys
  expire_keys_keeps [] c p = p
  expire_keys_keeps (k ∷ ks) c p =
      expire_keys_keeps ks (expire_record now k (lookup k c.reservations) c)
        (expire_record_keeps k (lookup k c.reservations) c refl p)

  pub expire_keeps : (c : Coordinator) → P c → P (expire now c)
  unfolding expire
  expire_keeps c p = expire_keys_keeps (keys c.reservations) c p

-- The record that expiry leaves in place of another.
unfoldable pub aged : Time → Option ReservationRecord → Option ReservationRecord
aged now none = none
aged now (some r) = if is_due now r.reservation then some (with_status expired r) else some r

lookup-expire_record :
    (now : Time) (k j : Text) (c : Coordinator) (o : Option ReservationRecord)
    → lookup k c.reservations ≡ o
    → lookup j (expire_record now k o c).reservations ≡ (
        if holds (Text-discrete k j)
        then aged now (lookup j c.reservations)
        else lookup j c.reservations)
unfolding expire_record set_status release_holds aged
lookup-expire_record now k j c none e = ground arith
lookup-expire_record now k j c (some r) e =
    ground (arith, lookup-insert k j (with_status expired r) c.reservations)

aged-aged : (now : Time) (o : Option ReservationRecord) → aged now (aged now o) ≡ aged now o
unfolding aged
aged-aged now o = ground arith

-- Each named reservation is aged, and no other is touched.
pub lookup-expire_keys :
    (now : Time) (ks : List Text) (j : Text) (c : Coordinator)
    → lookup j (expire_keys now ks c).reservations
      ≡ (if has j ks then aged now (lookup j c.reservations) else lookup j c.reservations)
unfolding expire_keys has
lookup-expire_keys now [] j c = refl
lookup-expire_keys now (k ∷ ks) j c = ground (
  arith,
  lookup-expire_keys now ks j (expire_record now k (lookup k c.reservations) c),
  lookup-expire_record now k j c (lookup k c.reservations) refl,
  aged-aged now (lookup j c.reservations),
)

pub lookup-expire :
    (now : Time) (j : Text) (c : Coordinator)
    → lookup j (expire now c).reservations ≡ aged now (lookup j c.reservations)
unfolding expire aged
lookup-expire now j c =
    ground (arith, lookup-expire_keys now (keys c.reservations) j c, has-keys j c.reservations)

abbrev pub NoneDue : Time → Coordinator → Type 0
NoneDue now c =
    (k : Text) (r : ReservationRecord)
    → lookup k c.reservations ≡ some r
    → is_due now r.reservation ≡ false

expire_record_idle :
    (now : Time) (k : Text) (o : Option ReservationRecord) (c : Coordinator)
    → NoneDue now c
    → lookup k c.reservations ≡ o
    → expire_record now k o c ≡ c
unfolding expire_record
expire_record_idle now k none c n e = refl
expire_record_idle now k (some r) c n e = rw (n k r e)

expire_keys_idle :
    (now : Time) (ks : List Text) (c : Coordinator) → NoneDue now c → expire_keys now ks c ≡ c
unfolding expire_keys
expire_keys_idle now [] c n = refl
expire_keys_idle now (k ∷ ks) c n =
    rw (expire_record_idle now k (lookup k c.reservations) c n refl) (expire_keys_idle now ks c n)

-- Where no reservation is due the state stays.
pub expire_idle : (now : Time) (c : Coordinator) → NoneDue now c → expire now c ≡ c
unfolding expire
expire_idle now c n = expire_keys_idle now (keys c.reservations) c n

pub expire-NoneDue : (now : Time) (c : Coordinator) → NoneDue now (expire now c)
unfolding aged
expire-NoneDue now c k r h = ground (arith, lookup-expire now k c)

is_active-false : (status : ReservationStatus) → status ≢ active → is_active status ≡ false
is_active-false active h = absurd (h refl)
is_active-false ReservationStatus.cancelled h = refl
is_active-false expired h = refl
is_active-false confirmed h = refl

-- After expireLocked a reservation that was active, with an expiry at or before that time, is expired
-- and otherwise as it was; every other reservation, whether it was not active or expires later, is
-- as it was; and no reservation appears.
pub lookup-expire_lem :
    (now : Time) (k : Text) (c : Coordinator)
    → ((r : ReservationRecord)
        → lookup k c.reservations ≡ some r
        → ((r.reservation.status ≡ active
              → r.reservation.expires_at ≤ now
              → lookup k (expire now c).reservations
                ≡ some (record r { reservation = record r.reservation { status = expired } }))
            × (r.reservation.status ≢ active → lookup k (expire now c).reservations ≡ some r)
            × (now < r.reservation.expires_at → lookup k (expire now c).reservations ≡ some r)))
      × (lookup k c.reservations ≡ none → lookup k (expire now c).reservations ≡ none)
unfolding aged
lookup-expire_lem now k c = (
  λ r found. (
    λ live due. ground (arith, lookup-expire now k c, found, live, due),
    λ ended.
        ground (arith, lookup-expire now k c, found, is_active-false r.reservation.status ended),
    λ later. ground (arith, lookup-expire now k c, found, later),
  ),
  λ missing. ground (arith, lookup-expire now k c, missing),
)
