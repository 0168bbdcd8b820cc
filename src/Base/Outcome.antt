-- ===== src/Base/Outcome.antt =====
-- How a Go call ends: a value, a returned error, or a run-time panic.
use mathlib.Core.Path.{◌≡◌, refl}
use mathlib.Core.Logic.{◌⊎◌, inl, inr}

-- The error values that the modelled functions build with `fmt.Errorf`.
pub data Error : Type 0 where
  slot_not_after slot_mismatch slot_not_newer not_proposer parent_mismatch bad_state_root : Error
  parent_state_missing signature_count bad_body_signature bad_proposer_signature : Error
  head_state_missing head_block_missing target_missing hash_failed sign_failed : Error
  bad_validator bad_signature nothing_to_aggregate signature_length : Error
  out_of_range assigned_twice bad_snappy : Error
  message_short data_too_long bits_missing bits_too_long : Error
  bad_varint frame_too_large status_length roots_length too_many_roots no_response
        response_refused :
      Error
  ssz_size ssz_offset ssz_variable_offset ssz_list_too_big ssz_list_size ssz_bitlist
        ssz_bytes_length :
      Error

pub data Run {ℓ} (A : Type ℓ) : Type ℓ where
  ok : A → Run A
  err : Error → Run A
  panic : Run A

infixl 5 ◌>>=◌ ◌>>◌
abbrev pub ◌>>=◌ {ℓ κ} : {A : Type ℓ} {B : Type κ} → Run A → (A → Run B) → Run B
panic >>= next = panic
err failure >>= next = err failure
ok value >>= next = next value

abbrev pub ◌>>◌ {ℓ κ} : {A : Type ℓ} {B : Type κ} → Run A → Run B → Run B
m >> k = m >>= λ _. k

-- A chain that succeeds has a first part that succeeds.
pub >>=-eq-ok {ℓ κ} :
    {A : Type ℓ} {B : Type κ} (first : Run A) (next : A → Run B) {out : B}
    → (first >>= next) ≡ ok out
    → (value : A) × (first ≡ ok value) × (next value ≡ ok out)
>>=-eq-ok panic next h = cc
>>=-eq-ok (err failure) next h = cc
>>=-eq-ok (ok value) next h = (value, refl, h)

pub Run-cases {ℓ} :
    {A : Type ℓ} (r : Run A)
    → ((a : A) × (r ≡ ok a)) ⊎ ((r ≡ panic) ⊎ ((failure : Error) × (r ≡ err failure)))
Run-cases (ok a) = inl (a, refl)
Run-cases panic = inr (inl refl)
Run-cases (err failure) = inr (inr (failure, refl))
