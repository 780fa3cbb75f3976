-- ===== src/Importer/Checked.antt =====
-- pkg/importer: how the handlers of the importers return early.
use ioflux.Prelude.{pos, String, Option, Bool, ℤ, some, true, not, none, false, ltb_ℤ}

-- A handler's way to its result: a value, an early return that counts a skipped call, and one that
-- does nothing.
pub data Checked {ℓ} (A : Type ℓ) : Type ℓ where
  ok : A → Checked A
  skipped : String → Checked A
  ignored : Checked A

infixl 5 ◌>>=◌
abbrev pub ◌>>=◌ {ℓ κ} : {A : Type ℓ} {B : Type κ} → Checked A → (A → Checked B) → Checked B
ok a >>= f = f a
skipped reason >>= f = skipped reason
ignored >>= f = ignored

abbrev pub or_skip {ℓ} : {A : Type ℓ} → String → Option A → Checked A
or_skip reason none = skipped reason
or_skip reason (some a) = ok a

abbrev pub or_ignore {ℓ} : {A : Type ℓ} → Option A → Checked A
or_ignore none = ignored
or_ignore (some a) = ok a

-- The value, where the test holds.
abbrev pub keep_if {ℓ} : {A : Type ℓ} → Bool → String → A → Checked A
keep_if true reason a = ok a
keep_if false reason a = skipped reason

-- A number that is not negative.
abbrev pub or_natural : String → Option ℤ → Checked ℤ
or_natural reason none = skipped reason
or_natural reason (some n) = keep_if (not (ltb_ℤ n (pos 0))) reason n
