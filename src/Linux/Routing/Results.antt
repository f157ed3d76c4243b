-- ===== src/Linux/Routing/Results.antt =====
-- What an `io::Result` that is `Ok` says of the calls it came from.
use rattler_sandbox.Prelude.{Option, none, some, ◌≡◌, refl, ap}
use rattler_sandbox.Linux.Routing.Directories.{Fallible, ok, err, and_then, or_error, RouteError}

pub ok_of_and_then {ℓ κ} :
    {A : Type ℓ} {B : Type κ} (r : Fallible A) (f : A → Fallible B) (b : B)
    → and_then r f ≡ ok b
    → (a : A) × (r ≡ ok a) × (f a ≡ ok b)
ok_of_and_then (ok a) f b h = (a, refl, h)
ok_of_and_then (err e) f b h = absurd (cc h)

pub some_of_or_error {ℓ κ} :
    {A : Type ℓ} {B : Type κ} (e : RouteError) (o : Option A) (f : A → Fallible B) (b : B)
    → and_then (or_error e o) f ≡ ok b
    → (a : A) × (o ≡ some a) × (f a ≡ ok b)
some_of_or_error e none f b h = absurd (cc h)
some_of_or_error e (some a) f b h = (a, refl, h)

ok_or {ℓ} : {A : Type ℓ} → A → Fallible A → A
ok_or d (ok a) = a
ok_or d (err e) = d

pub ok-injective {ℓ} : {A : Type ℓ} (a b : A) → ok a ≡ ok b → a ≡ b
unfolding ok_or
ok-injective a b e = ap (ok_or a) e
