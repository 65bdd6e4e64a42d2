-- ===== src/Setup/Endpoints.antt =====
-- managerAPIToWSS of cmd/sit/node_setup.go: where a node connects, from the address of the API.
use sit.Prelude.{
  ℕ, zero, suc, Text, text, ◌==◌, ◌≡◌, refl, Bool, true, false, [], ◌∷◌, ◌++◌, arith, is_empty,
  if◌then◌else◌, ap, ◌∙◌, sym, Bool-cases, inl, inr,
}
use mathlib.Core.List.{append_assoc}
use sit.Strings.{trim_right, is_slash, trim_right_slash, has_prefix, trim_prefix, has_suffix}
use sit.Strings.Laws.{last_ok}
use sit.Setup.{manager_api_to_wss, wss_scheme, connect_path}

abbrev pub slashes : ℕ → Text
slashes zero = []
slashes (suc n) = 47 ∷ slashes n

trim-slashes : (n : ℕ) → trim_right is_slash (slashes n) ≡ []
unfolding trim_right
trim-slashes zero = refl
trim-slashes (suc n) = rw (trim-slashes n) refl

trim-append_slashes :
    (s : Text) (n : ℕ) → last_ok is_slash s ≡ true → trim_right is_slash (s ++ slashes n) ≡ s
unfolding trim_right
trim-append_slashes [] n h = trim-slashes n
trim-append_slashes (c ∷ []) n h = rw (trim-slashes n) (ground (arith, h))
trim-append_slashes (c ∷ d ∷ s) n h = rw (trim-append_slashes (d ∷ s) n h) (ground arith)

last_ok-behind :
    (p : ℕ → Bool) (a s : Text)
    → is_empty s ≡ false
    → last_ok p s ≡ true
    → last_ok p (a ++ s) ≡ true
last_ok-behind p [] s e h = h
last_ok-behind p (a ∷ []) [] e h = cc
last_ok-behind p (a ∷ []) (c ∷ s) e h = h
last_ok-behind p (a ∷ b ∷ r) s e h = last_ok-behind p (b ∷ r) s e h

-- The path behind a host, which may already end in the mount point.
abbrev pub connect_suffix : Text → Text
connect_suffix host =
    if has_suffix (text "/sit") (47 ∷ host) then text "/connect" else text "/sit/connect"

suffix-wss :
    (host : Text)
    → has_suffix (text "/sit") (text "wss://" ++ host) ≡ has_suffix (text "/sit") (47 ∷ host)
unfolding has_suffix ◌==◌
suffix-wss host = refl

suffix-ws :
    (host : Text)
    → has_suffix (text "/sit") (text "ws://" ++ host) ≡ has_suffix (text "/sit") (47 ∷ host)
unfolding has_suffix ◌==◌
suffix-ws host = refl

connect_path-any :
    (url host : Text)
    → has_suffix (text "/sit") url ≡ has_suffix (text "/sit") (47 ∷ host)
    → connect_path url ≡ url ++ connect_suffix host
unfolding connect_path
connect_path-any url host h = elim (Bool-cases (has_suffix (text "/sit") (47 ∷ host))) [
  | inl e ↦ rw (h, e) refl
  | inr e ↦ rw (h, e) refl
]

-- What is left once the scheme is replaced.
connected :
    (scheme host : Text) (n : ℕ)
    → is_empty host ≡ false
    → last_ok is_slash host ≡ true
    → has_suffix (text "/sit") (scheme ++ host) ≡ has_suffix (text "/sit") (47 ∷ host)
    → connect_path (trim_right_slash (scheme ++ (host ++ slashes n)))
      ≡ (scheme ++ host) ++ connect_suffix host
unfolding trim_right_slash
connected scheme host n e h s =
    rw
      (
        sym (append_assoc scheme host (slashes n)),
        trim-append_slashes (scheme ++ host) n (last_ok-behind is_slash scheme host e h),
      )
      (connect_path-any (scheme ++ host) host s)

https_scheme : (s : Text) → wss_scheme (text "https://" ++ s) ≡ text "wss://" ++ s
unfolding wss_scheme has_prefix trim_prefix
https_scheme s = refl

http_scheme : (s : Text) → wss_scheme (text "http://" ++ s) ≡ text "ws://" ++ s
unfolding wss_scheme has_prefix trim_prefix
http_scheme s = refl

-- An API address with a scheme, a host part that is not empty and does not end in a slash, and any
-- number of slashes at its end becomes the address of the node endpoint: https becomes wss and
-- http becomes ws, the slashes go, and "/sit/connect" is added, or "/connect" where the address
-- already ends in the path "/sit".
pub manager_api_to_wss_lem :
    (host : Text) (n : ℕ)
    → is_empty host ≡ false
    → last_ok is_slash host ≡ true
    → (manager_api_to_wss (text "https://" ++ (host ++ slashes n))
        ≡ text "wss://" ++ (host ++ connect_suffix host))
      × (manager_api_to_wss (text "http://" ++ (host ++ slashes n))
          ≡ text "ws://" ++ (host ++ connect_suffix host))
unfolding manager_api_to_wss
manager_api_to_wss_lem host n e h = (
  ap (λ u. connect_path (trim_right_slash u)) (https_scheme (host ++ slashes n))
      ∙ connected (text "wss://") host n e h (suffix-wss host),
  ap (λ u. connect_path (trim_right_slash u)) (http_scheme (host ++ slashes n))
      ∙ connected (text "ws://") host n e h (suffix-ws host),
)
