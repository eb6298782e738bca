-- ===== src/Base/Outcome.antt =====
-- What an awaited promise comes to: a value, or the error that it throws; and actions on the
-- world outside (chain, file system), which keep what they did before they threw.
use mathlib.Core.Path.{◌≡◌, refl, ap, subst}
use Prim.Native.Nat.{suc}
use rayls_sovereign_contract.Base.Lists.{length}
use mathlib.Core.List.{List, [], ◌∷◌}
use mathlib.Core.Option.{Option, none}
use rayls_sovereign_contract.Base.Text.{Text, codes}

-- The parts of a thrown value that the program looks at. `info` is its serialized `info` field.
pub record JsError : Type 0 where
  pub code : Option Text
  pub message : Text
  pub short_message : Option Text
  pub info_message : Option Text
  pub info : Text

-- `new Error(message)`
abbrev pub error : Text → JsError
error m = record {
  code = none;
  message = m;
  short_message = none;
  info_message = none;
  info = codes "{}";
}

pub data Outcome {ℓ} (A : Type ℓ) : Type ℓ where
  ok : A → Outcome A
  err : JsError → Outcome A

abbrev pub Exec {ℓ} : Type ℓ → Type ℓ → Type ℓ
Exec W A = W → Outcome A × W

abbrev pub pure {ℓ} : {W A : Type ℓ} → A → Exec W A
pure a w = (ok a, w)

abbrev pub throw {ℓ} : {W A : Type ℓ} → JsError → Exec W A
throw e w = (err e, w)

abbrev pub continue {ℓ} : {W A B : Type ℓ} → Outcome A → (A → Exec W B) → Exec W B
continue (ok a) f w = f a w
continue (err e) f w = (err e, w)

infixl 10 ◌>>=◌ ◌>>◌
abbrev pub ◌>>=◌ {ℓ} : {W A B : Type ℓ} → Exec W A → (A → Exec W B) → Exec W B
◌>>=◌ m f w = let (r, w') = m w in continue r f w'

abbrev pub ◌>>◌ {ℓ} : {W A B : Type ℓ} → Exec W A → Exec W B → Exec W B
m >> k = m >>= λ _. k

-- The promises of `Promise.allSettled`: each action is run, whatever the others come to.
module _ {ℓ} {W A B : Type ℓ} where
  unfoldable pub all_settled : (A → Exec W B) → List A → W → List (Outcome B) × W
  all_settled f [] w = ([], w)
  all_settled f (a ∷ as') w =
      let (r, w') = f a w in let (rs, w'') = all_settled f as' w' in (r ∷ rs, w'')

  -- `for … await`: the first error ends the loop.
  unfoldable pub each : (A → Exec W B) → List A → Exec W (List B)
  each f [] w = (ok [], w)
  each f (a ∷ as') w = continue (f a w).0 (λ b. (each f as') >>= λ bs. pure (b ∷ bs)) (f a w).1

  pub length-all_settled :
      (f : A → Exec W B) (xs : List A) (w : W) → length (all_settled f xs w).0 ≡ length xs
  unfolding all_settled
  length-all_settled f [] w = refl
  length-all_settled f (x ∷ xs) w = ap suc (length-all_settled f xs (f x w).1)

-- Inversion of a successful bind.
module _ {ℓ} {W A B : Type ℓ} where
  pub continue-eq-ok :
      (r : Outcome A) (f : A → Exec W B) (w : W) (b : B)
      → (continue r f w).0 ≡ ok b
      → (a : A) × (r ≡ ok a) × ((f a w).0 ≡ ok b)
  continue-eq-ok (ok a) f w b h = (a, refl, h)
  continue-eq-ok (err e) f w b h = cc

  pub >>=-eq-ok :
      (m : Exec W A) (f : A → Exec W B) (w : W) (b : B)
      → ((m >>= f) w).0 ≡ ok b
      → (a : A) × ((m w).0 ≡ ok a) × ((f a (m w).1).0 ≡ ok b)
  >>=-eq-ok m f w b h = continue-eq-ok (m w).0 f (m w).1 b h

-- A property of the value, if there is one.
abbrev pub Ensures {ℓ κ} : {A : Type ℓ} → (A → Type κ) → Outcome A → Type κ
Ensures P (ok a) = P a
Ensures P (err e) = Unit

pub ok-injective {ℓ} : {A : Type ℓ} {a b : A} → ok a ≡ ok b → a ≡ b
ok-injective e = cc

pub Ensures-ok {ℓ κ} :
    {A : Type ℓ} (P : A → Type κ) (o : Outcome A) (a : A) → o ≡ ok a → Ensures P o → P a
Ensures-ok P (ok b) a e h = subst P (ok-injective e) h
Ensures-ok P (err x) a e h = cc

-- A property of the result of a bind, by a property of what comes after.
pub Ensures-continue {ℓ κ} :
    {W A B : Type ℓ} (P : B → Type κ) (r : Outcome A) (f : A → Exec W B) (w : W)
    → ((a : A) → r ≡ ok a → Ensures P (f a w).0)
    → Ensures P (continue r f w).0
Ensures-continue P (ok a) f w h = h a refl
Ensures-continue P (err e) f w h = tt

-- A property of the error, if there is one.
abbrev pub Raises {ℓ κ} : {A : Type ℓ} → (JsError → Type κ) → Outcome A → Type κ
Raises P (ok a) = Unit
Raises P (err e) = P e

pub err-injective {ℓ} : (A : Type ℓ) {a b : JsError} → ◌≡◌ {A = Outcome A} (err a) (err b) → a ≡ b
err-injective A e = cc

pub Raises-err {ℓ κ} :
    {A : Type ℓ} (P : JsError → Type κ) (o : Outcome A) (x : JsError) → o ≡ err x → Raises P o → P x
Raises-err P (ok b) x e h = cc
Raises-err {A = A} P (err y) x e h = subst P (err-injective A e) h

pub Raises-continue {ℓ κ} :
    {W A B : Type ℓ} (P : JsError → Type κ) (r : Outcome A) (f : A → Exec W B) (w : W)
    → Raises P r
    → ((a : A) → r ≡ ok a → Raises P (f a w).0)
    → Raises P (continue r f w).0
Raises-continue P (ok a) f w k h = h a refl
Raises-continue P (err e) f w k h = k

-- The action answers, whatever the world.
abbrev pub Succeeds {ℓ} : {A : Type ℓ} → Outcome A → Type 0
Succeeds (ok a) = Unit
Succeeds (err e) = ⊥

-- The action answers, with a value that has the property.
abbrev pub Returns {ℓ} : {A : Type ℓ} → (A → Type 0) → Outcome A → Type 0
Returns P (ok a) = P a
Returns P (err e) = ⊥

pub Returns-continue {ℓ} :
    {W A B : Type ℓ} (Q : A → Type 0) (P : B → Type 0) (r : Outcome A) (f : A → Exec W B) (w : W)
    → Returns Q r
    → ((a : A) → Q a → Returns P (f a w).0)
    → Returns P (continue r f w).0
Returns-continue Q P (ok a) f w k h = h a k
Returns-continue Q P (err e) f w k h = k

pub Succeeds-Returns {ℓ} : {A : Type ℓ} (o : Outcome A) → Succeeds o → Returns (λ a. Unit {0}) o
Succeeds-Returns (ok a) h = tt
Succeeds-Returns (err e) h = h

pub Returns-ok {ℓ} :
    {A : Type ℓ} (P : A → Type 0) (o : Outcome A) → Returns P o → (a : A) × (o ≡ ok a) × P a
Returns-ok P (ok a) h = (a, refl, h)
Returns-ok P (err e) h = absurd h

-- `Promise.all`: the actions run, and the first error, in their order, is what it throws.
abbrev pub cons_ok {ℓ} : {A : Type ℓ} → A → Outcome (List A) → Outcome (List A)
cons_ok a (ok as') = ok (a ∷ as')
cons_ok a (err e) = err e

unfoldable pub fulfilled {ℓ} : {A : Type ℓ} → List (Outcome A) → Outcome (List A)
fulfilled [] = ok []
fulfilled (ok a ∷ rs) = cons_ok a (fulfilled rs)
fulfilled (err e ∷ rs) = err e

unfoldable pub promise_all {ℓ} : {W A B : Type ℓ} → (A → Exec W B) → List A → Exec W (List B)
unfolding all_settled fulfilled
promise_all f xs w = let (rs, w') = all_settled f xs w in (fulfilled rs, w')

-- `try m catch (e) handler`
abbrev pub handle {ℓ} : {W A : Type ℓ} → (JsError → Exec W A) → Outcome A × W → Outcome A × W
handle handler (ok a, w) = (ok a, w)
handle handler (err e, w) = handler e w

abbrev pub try_catch {ℓ} : {W A : Type ℓ} → Exec W A → (JsError → Exec W A) → Exec W A
try_catch m handler w = handle handler (m w)

Ensures-any : {A : Type 0} (o : Outcome A) → Ensures (λ a. Unit {0}) o
Ensures-any (ok a) = tt
Ensures-any (err e) = tt

-- What an action answers with has the property, whatever the world.
module _ {W : Type 0} where
  abbrev pub Always : {A : Type 0} → (A → Type 0) → Exec W A → Type 0
  Always P m = (w : W) → Ensures P (m w).0

  pub Always-bind :
      {A B : Type 0} (Q : A → Type 0) (P : B → Type 0) (m : Exec W A) (f : A → Exec W B)
      → Always Q m
      → ((a : A) → Q a → Always P (f a))
      → Always P (m >>= f)
  Always-bind Q P m f h k w =
      Ensures-continue P (m w).0 f (m w).1 (λ a e. k a (Ensures-ok Q (m w).0 a e (h w)) (m w).1)

  -- Where nothing is known of what the first action answers with.
  pub Always-then :
      {A B : Type 0} (P : B → Type 0) (m : Exec W A) (f : A → Exec W B)
      → ((a : A) → Always P (f a))
      → Always P (m >>= f)
  Always-then P m f k = Always-bind (λ a. Unit {0}) P m f (λ w. Ensures-any (m w).0) (λ a u. k a)
