-- ===== src/Outcome.antt =====
-- How a call of pkg/storage/memorystorage ends: a value, an error that is returned, or klog.Fatalf
-- (or a panic), which ends the process.
use cloudetcd.Base.{◌≡◌, refl}

pub data Error : Type 0 where
  lease_not_found : Error
  lease_exists : Error
  key_required : Error
  range_end_required : Error
  range_end_unsupported : Error
  count_only_unsupported : Error
  compacted : Error
  future_rev : Error
  log_failed : Error
  entry_not_found : Error
  unsupported_target : Error
  unsupported_result : Error
  unsupported_operation : Error
  conflicted : Error
  bad_watch_id : Error
  bad_record : Error
  bad_header : Error
  truncated : Error
  mismatched : Error
  not_in_batch : Error
  bad_name : Error
  recovery_needed : Error
  empty_batch : Error
  not_contiguous : Error
  io_failed : Error
  not_found : Error

pub data Outcome {ℓ} (A : Type ℓ) : Type ℓ where
  ok : A → Outcome A
  err : Error → Outcome A
  fatal : Outcome A

abbrev pub ◌>>=◌ {ℓ κ} : {A : Type ℓ} {B : Type κ} → Outcome A → (A → Outcome B) → Outcome B
fatal >>= next = fatal
err error >>= next = err error
ok value >>= next = next value

abbrev pub ◌>>◌ {ℓ κ} : {A : Type ℓ} {B : Type κ} → Outcome A → Outcome B → Outcome B
first >> next = first >>= λ value. next

infixl 5 ◌>>=◌ ◌>>◌
-- A bind that returned a value had one to go on from.
pub >>=-eq-ok {ℓ κ} :
    {A : Type ℓ} {B : Type κ} (o : Outcome A) (next : A → Outcome B) {b : B}
    → (o >>= next) ≡ ok b
    → (a : A) × (o ≡ ok a) × (next a ≡ ok b)
>>=-eq-ok fatal next e = cc
>>=-eq-ok (err error) next e = cc
>>=-eq-ok (ok value) next e = (value, refl, e)
