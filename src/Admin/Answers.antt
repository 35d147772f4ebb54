-- ===== src/Admin/Answers.antt =====
-- Reading off a result how it came about.
use grok2api.Prelude.{◌≡◌, ◌≢◌, ◌⊎◌, refl, ap, Bool, true, false, if◌then◌else◌, inl, inr}
use grok2api.Admin.Store.Tables.{Tables}
use grok2api.Admin.Service.Base.{Answer, granted, denied, AuthError, LoginOutput}

-- Which side of a test a result came from.
pub sides {ℓ} :
    {A : Type ℓ} (b : Bool) {x y z : A}
    → (if b then x else y) ≡ z
    → ((b ≡ true) × (x ≡ z)) ⊎ ((b ≡ false) × (y ≡ z))
sides true e = inl (refl, e)
sides false e = inr (refl, e)

-- A denial is no grant.
pub not_granted :
    (t u : Tables) (x : AuthError) (out : LoginOutput)
    → ◌≢◌ {A = Tables × Answer LoginOutput} (t, denied x) (u, granted out)
not_granted t u x out e =
    let never : denied x ≡ granted out = ap (λ (y : Tables × Answer LoginOutput). y.1) e in cc
