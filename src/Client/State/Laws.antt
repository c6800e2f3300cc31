-- ===== src/Client/State/Laws.antt =====
-- What the constructor makes of its configuration.
use Prim.Native.Char.{Char}
use text.Mathlib.TextLemmas.{cons-append, nil-append}
use chimely.Prelude.{
  ℕ, zero, suc, ◌≤◌, String, ◌+++◌, Bool, false, ◌≡◌, refl, ap, ◌∙◌, sym, inl, inr, Bool-cases,
  arith, str_eq, eq_iff,
}
use chimely.Types.{ChimelyClientConfig}
use chimely.Client.State.{new_client, strip_slashes}

-- n slashes.
pub slashes : ℕ → String
slashes zero = ""
slashes (suc n) = "/" +++ slashes n

-- The last character is a slash.
pub ends_in_slash : String → Bool
ends_in_slash String.[] = false
ends_in_slash (String.◌∷◌ c String.[]) = str_eq (String.◌∷◌ c String.[]) "/"
ends_in_slash (String.◌∷◌ c (String.◌∷◌ d s)) = ends_in_slash (String.◌∷◌ d s)

ends_cons :
    (c : Char) (t : String)
    → str_eq (String.◌∷◌ c t) "/" ≡ false
    → ends_in_slash t ≡ false
    → ends_in_slash (String.◌∷◌ c t) ≡ false
unfolding ends_in_slash
ends_cons c String.[] e h = e
ends_cons c (String.◌∷◌ d t) e h = h

strip_ends : (s : String) → ends_in_slash (strip_slashes s) ≡ false
unfolding strip_slashes ends_in_slash
strip_ends String.[] = refl
strip_ends (String.◌∷◌ c s) = elim (Bool-cases (str_eq (String.◌∷◌ c (strip_slashes s)) "/")) [
  | inl e ↦ rw e
  | inr e ↦ rw e (ends_cons c (strip_slashes s) e (strip_ends s))
]

strip_splits : (s : String) → (n : ℕ) × (s ≡ strip_slashes s +++ slashes n)
unfolding strip_slashes slashes
strip_splits String.[] = (0, refl)
strip_splits (String.◌∷◌ c s) =
    let (n, h) = strip_splits s in
    let split = ap (String.◌∷◌ c) h ∙ sym (cons-append c (strip_slashes s) (slashes n)) in
    elim (Bool-cases (str_eq (String.◌∷◌ c (strip_slashes s)) "/")) [
      | inl e ↦ (
        suc n,
        rw e (
            split
            ∙ ap (λ z. z +++ slashes n) ((eq_iff (String.◌∷◌ c (strip_slashes s)) "/").0 e)
            ∙ sym (nil-append ("/" +++ slashes n))),
      )
      | inr e ↦ (n, rw e split)
    ]

-- A new client's page size lies between 1 and 100, and its base URL is the configured one less all
-- the slashes at its end.
new_client_bounds :
    (config : ChimelyClientConfig)
    → (1 ≤ (new_client config).page_size)
      × ((new_client config).page_size ≤ 100)
      × (ends_in_slash (new_client config).base_url ≡ false)
      × ((n : ℕ) × (config.server_url ≡ (new_client config).base_url +++ slashes n))
unfolding new_client
new_client_bounds config =
    (omega arith, omega arith, strip_ends config.server_url, strip_splits config.server_url)
