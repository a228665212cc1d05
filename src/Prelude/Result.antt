-- ===== src/Prelude/Result.antt =====
-- Python's exceptions: a pure function that may raise returns a `Result`; a method that changes
-- its object is an action, which gives the object back beside the error too.
use mathlib.Core.Path.{◌≡◌, refl}
use mathlib.Core.Bool.{Bool, true, false}
use mathlib.Core.Option.{Option, none, some}

-- The exceptions of src/leap/soledad/common/l2db/errors.py that the modelled code raises, those of
-- the blobs backend (src/leap/soledad/server/_blobs/errors.py; `invalid_path` for its plain
-- Exception), those that a transfer is tried again after, those of a blob that can not be decrypted,
-- and below them `out_of_fuel`, which no modelled code raises where a theorem says so, and Python's
-- own.
pub data Error : Type 0 where
  revision_conflict invalid_json invalid_content invalid_doc_id document_too_big : Error
  conflicted_doc invalid_replica_uid document_does_not_exist document_already_deleted : Error
  index_name_taken_error invalid_generation invalid_transaction_id index_does_not_exist : Error
  invalid_globbing invalid_value_for_index index_definition_parse_error : Error
  database_does_not_exist broken_sync_stream bad_request : Error
  connect_error connection_closed retriable_transfer_error : Error
  invalid_blob maximum_retries_error : Error
  blob_not_found blob_exists quota_exceeded invalid_flag invalid_path : Error
  out_of_fuel : Error
  conflicts_not_fetched value_error type_error key_error attribute_error index_error
        assertion_error :
      Error

pub data Result {ℓ} (A : Type ℓ) : Type ℓ where
  ok : A → Result A
  err : Error → Result A

abbrev pub raise_if : Bool → Error → Result (Unit {0})
raise_if true e = err e
raise_if false e = ok tt

-- `return` and the propagation of an exception.
infixl 10 ◌>>=◌ ◌>>◌
abbrev pub ◌>>=◌ {ℓ κ} : {A : Type ℓ} {B : Type κ} → Result A → (A → Result B) → Result B
ok value >>= rest = rest value
err raised >>= rest = err raised

abbrev pub ◌>>◌ {ℓ κ} : {A : Type ℓ} {B : Type κ} → Result A → Result B → Result B
m >> k = m >>= λ _. k

abbrev pub or_raise {ℓ} : {A : Type ℓ} → Option A → Error → Result A
or_raise none e = err e
or_raise (some a) e = ok a

-- The parts of a bind that succeeded.
pub ok_of_bind {ℓ κ} :
    {A : Type ℓ} {B : Type κ} (m : Result A) (rest : A → Result B) {result : B}
    → (m >>= rest) ≡ ok result
    → (value : A) × (m ≡ ok value) × (rest value ≡ ok result)
ok_of_bind (ok value) rest h = (value, refl, h)
ok_of_bind (err raised) rest h = cc

pub ok_injective {ℓ} : {A : Type ℓ} {a b : A} → ok a ≡ ok b → a ≡ b
ok_injective e = cc
