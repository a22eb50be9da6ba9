-- ===== src/Jobs/Actions.antt =====
-- Python code that changes a state and may raise, as a function on the state: what was written before an
-- exception stays written.
pub mod Hoare
use vmware_migration_helper.Base.{Bool, true, false}
use vmware_migration_helper.Jobs.Model.{Exception}

pub data Outcome {ℓ} (A : Type ℓ) : Type ℓ where
  ok : A → Outcome A
  raised : Exception → Outcome A

abbrev pub Act : Type 0 → Type 0 → Type 0
Act S A = S → Outcome A × S

abbrev pub continue : {S A B : Type 0} → Outcome A → (A → Act S B) → Act S B
continue (ok a) f w = f a w
continue (raised e) f w = (raised e, w)

infixl 10 ◌>>=◌ ◌>>◌
unfoldable pub ◌>>=◌ : {S A B : Type 0} → Act S A → (A → Act S B) → Act S B
◌>>=◌ m f w = let (r, w') = m w in continue r f w'

abbrev pub ◌>>◌ : {S B : Type 0} → Act S (Unit {0}) → Act S B → Act S B
m >> k = m >>= λ _. k

unfoldable pub pure : {S A : Type 0} → A → Act S A
pure a w = (ok a, w)

unfoldable pub raise : {S A : Type 0} → Exception → Act S A
raise e w = (raised e, w)

unfoldable pub skip : {S : Type 0} → Act S (Unit {0})
skip w = (ok tt, w)

-- `try: … except`: the handler gets the exception, in the state that the exception left.
abbrev pub recover : {S A : Type 0} → (Exception → Act S A) → Outcome A × S → Outcome A × S
recover handler (ok a, w) = (ok a, w)
recover handler (raised e, w) = handler e w

unfoldable pub try_catch : {S A : Type 0} → Act S A → (Exception → Act S A) → Act S A
try_catch m handler w = recover handler (m w)

-- `try: … finally`: the last action runs in either case, and the outcome is the first one's unless the
-- last action raises.
abbrev pub finish_with : {S A : Type 0} → Outcome A → Outcome (Unit {0}) × S → Outcome A × S
finish_with r (ok u, w) = (r, w)
finish_with r (raised e, w) = (raised e, w)

unfoldable pub try_finally : {S A : Type 0} → Act S A → Act S (Unit {0}) → Act S A
try_finally m last w = let (r, w') = m w in finish_with r (last w')

-- An action of which only the outcome is known.
unfoldable pub lift : {S A : Type 0} → Outcome A → Act S A
lift o w = (o, w)

abbrev pub when : {S : Type 0} → Bool → Act S (Unit {0}) → Act S (Unit {0})
when true m = m
when false m = skip
