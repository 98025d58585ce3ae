-- ===== src/Core/Outcome.antt =====
-- The exceptions of the Python files, and methods that change an instance and may raise. What was changed
-- before a raise stays changed, so the state comes back beside the error too.
use userfreezer.Prelude.{String, ◌≡◌, refl, Bool, true, false, if◌then◌else◌}

pub data Error : Type 0 where
  deep_freeze : String → Error
  file_not_found is_a_directory os_error key_error protocol_error permission_error : Error
  value_error type_error runtime_error : Error

-- `err` is a raise.
pub data Result {ℓ} (A : Type ℓ) : Type ℓ where
  err : Error → Result A
  ok : A → Result A

-- What follows a call that may raise.
infixl 10 ◌>>=◌
abbrev pub ◌>>=◌ {ℓ κ} : {A : Type ℓ} {B : Type κ} → Result A → (A → Result B) → Result B
err raised >>= next = err raised
ok value >>= next = next value

pub ok-injective : {A : Type 0} (a b : A) → ok a ≡ ok b → a ≡ b
ok-injective a b h = cc

pub >>=-eq-ok :
    {A B : Type 0} (first : Result A) (next : A → Result B) {end : B}
    → (first >>= next) ≡ ok end
    → (value : A) × (first ≡ ok value) × (next value ≡ ok end)
>>=-eq-ok (err raised) next h = cc
>>=-eq-ok (ok value) next h = (value, refl, h)

-- A guard that did not raise.
module _ {A : Type 0} (refused : Error) where
  pub passed_guard :
      (test : Bool) (rest : Result A) {end : A}
      → (if test then err refused else rest) ≡ ok end
      → (test ≡ false) × (rest ≡ ok end)
  passed_guard true rest h = cc
  passed_guard false rest h = (refl, h)

  pub held_guard :
      (test : Bool) (rest : Result A) {end : A}
      → (if test then rest else err refused) ≡ ok end
      → (test ≡ true) × (rest ≡ ok end)
  held_guard true rest h = (refl, h)
  held_guard false rest h = cc
