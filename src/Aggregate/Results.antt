-- ===== src/Aggregate/Results.antt =====
-- The steps of SaveAggregate where they return no error.
use tax_deeds.Text.{Text}
use tax_deeds.Failure.{err, ◌>>=◌, ok, Failure, Result}
use tax_deeds.Aggregate.Save.{bare, statement, check}
use tax_deeds.Base.{◌≡◌, refl, Bool, true, false, Option, none, some, if◌then◌else◌}

pub statement-ok {ℓ} :
    {A : Type ℓ} (fault : Option Failure) (msg : Text) (r : Result A) (a : A)
    → statement fault msg r ≡ ok a
    → r ≡ ok a
statement-ok (some e) msg r a h = cc h
statement-ok none msg (err e) a h = cc h
statement-ok none msg (ok b) a h = h

-- The first of two chained steps has a result, from which the second goes on.
pub >>=-ok {ℓ κ ι} :
    {A : Type ℓ} {B : Type κ} {C : Type ι} (r : Result A) (f : A → Result B) (b : B)
    → (r >>= f) ≡ ok b
    → ((a : A) → r ≡ ok a → f a ≡ ok b → C)
    → C
>>=-ok (ok a) f b h go = go a refl h
>>=-ok (err e) f b h go = cc h

pub ok-injective {ℓ} : {A : Type ℓ} (a b : A) → ok a ≡ ok b → a ≡ b
ok-injective a b h = cc h

pub if-ok {ℓ} :
    {A : Type ℓ} (b : Bool) (e : Failure) (a c : A) → (if b then ok a else err e) ≡ ok c → c ≡ a
if-ok true e a c h = cc h
if-ok false e a c h = cc h

pub bare-ok {ℓ} :
    {A : Type ℓ} (fault : Option Failure) (r : Result A) (a : A) → bare fault r ≡ ok a → r ≡ ok a
bare-ok none r a h = h
bare-ok (some e) r a h = cc h

pub check-ok {ℓ} : {A : Type ℓ} (b : Bool) (a c : A) → check b a ≡ ok c → c ≡ a
check-ok true a c h = cc h
check-ok false a c h = cc h
