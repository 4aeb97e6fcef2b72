-- ===== src/Api/MtClient/Connection/Urls.antt =====
-- The base URL of `MTClient` has no slash at its end, so a path that starts with one follows it.
use unitra_service_api.Common.{
  ℕ, ◌≡◌, refl, ap, false, Bool-cases, inl, inr, Option, [], ◌∷◌, ◌++◌, ◌==◌, All, arith,
}
use unitra_service_api.Common.Text.{Text}
use unitra_service_api.Common.Str.{rstrip_char, without_last, ends_with}
use unitra_service_api.Application.{Settings}
use unitra_service_api.Api.MtClient.Connection.{new_client, or_given, or_text, default_base_url}

-- A text that is another with some of a character behind it.
abbrev IsLonger : ℕ → Text → Text → Type 0
IsLonger c s r = (cs : Text) × All (λ d. d ≡ c) cs × (s ≡ r ++ cs)

IsLonger-without_last :
    (c d : ℕ) (r s : Text) → IsLonger c s r → IsLonger c (d ∷ s) (without_last c d r)
IsLonger-without_last c d [] s (cs, all, e) = elim (Bool-cases (d == c)) [
  | inl slash ↦ rw slash (d ∷ cs, (ground arith, all), ap (λ t. d ∷ t) e)
  | inr other ↦ rw other (cs, all, ap (λ t. d ∷ t) e)
]
IsLonger-without_last c d (x ∷ r) s (cs, all, e) = (cs, all, ap (λ t. d ∷ t) e)

IsLonger-rstrip_char : (c : ℕ) (s : Text) → IsLonger c s (rstrip_char c s)
unfolding rstrip_char
IsLonger-rstrip_char c [] = ([], tt, refl)
IsLonger-rstrip_char c (d ∷ s) =
    IsLonger-without_last c d (rstrip_char c s) s (IsLonger-rstrip_char c s)

ends_with-without_last :
    (c d : ℕ) (r : Text) → ends_with c r ≡ false → ends_with c (without_last c d r) ≡ false
unfolding ends_with
ends_with-without_last c d [] h = ground arith
ends_with-without_last c d (e ∷ r) h = h

ends_with-rstrip_char : (c : ℕ) (s : Text) → ends_with c (rstrip_char c s) ≡ false
unfolding rstrip_char ends_with
ends_with-rstrip_char c [] = refl
ends_with-rstrip_char c (d ∷ s) =
    ends_with-without_last c d (rstrip_char c s) (ends_with-rstrip_char c s)

-- Whatever URL is given or set, the base URL of a new client does not end with a slash, and it is
-- that URL but for slashes at its end.
pub new_client_base_url :
    (settings : Settings) (base_url : Option Text) (timeout : ℕ) (api_key : Option Text)
    → (ends_with b'/' (new_client settings base_url timeout api_key).base_url ≡ false)
      × IsLonger b'/'
          (or_given base_url (or_text settings.ml_service_url default_base_url))
          (new_client settings base_url timeout api_key).base_url
unfolding new_client
new_client_base_url settings base_url timeout api_key =
    (ends_with-rstrip_char b'/' _, IsLonger-rstrip_char b'/' _)
