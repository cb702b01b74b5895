-- ===== src/Api/Http.antt =====
-- What a handler of the API returns: a body, or an HTTPException with its status code.
use feedgate_fetcher.Prelude.{ℕ, ◌≡◌, refl, ◌⊎◌, inl, inr}

pub data Reply {ℓ} (A : Type ℓ) : Type ℓ where
  respond : A → Reply A
  http_error : ℕ → Reply A

infixl 5 ◌>>=◌
abbrev pub ◌>>=◌ {ℓ κ} : {A : Type ℓ} {B : Type κ} → Reply A → (A → Reply B) → Reply B
respond a >>= f = f a
http_error s >>= f = http_error s

pub Reply-cases {ℓ} :
    {A : Type ℓ} (r : Reply A) → ((s : ℕ) × (r ≡ http_error s)) ⊎ ((a : A) × (r ≡ respond a))
Reply-cases (respond a) = inr (a, refl)
Reply-cases (http_error s) = inl (s, refl)
