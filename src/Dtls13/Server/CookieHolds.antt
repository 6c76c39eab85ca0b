-- ===== src/Dtls13/Server/CookieHolds.antt =====
-- src/dtls13/server.rs, the cookie of a ClientHello: what is checked before the exchange.
use dimpl.Base.{
  ℕ, ◌≡◌, refl, sym, ap, ap₂, subst, ◌∙◌, true, false, not, ◌&&◌, some, [], ◌∷◌, ok, ◌==◌, inl, inr,
  Bool-cases, Bytes, ==_iff,
}
use dimpl.Dtls13.Message.ServerHello.{bytes_eq}
use dimpl.Dtls13.Peer.Inverse.{true_or_not, passed, present, branched, chosen, final_value}
use dimpl.Dtls13.Server.{Server, await_client_hello, send_server_hello}
use dimpl.Dtls13.Server.Offer.{Offer}
use dimpl.Dtls13.Server.Hello.{compute_cookie, check_cookie, discard_stale}
use dimpl.Dtls13.Server.Chosen.{retry-stays, no_accept, Selected, select_group-Selected}
use dimpl.Dtls13.Server.Chosen.{retry-stays, no_accept, Selected, select_group-Selected}

pub bytes_eq→eq : (xs ys : Bytes) → bytes_eq xs ys ≡ true → xs ≡ ys
bytes_eq→eq [] [] h = refl
bytes_eq→eq [] (y ∷ ys) h = cc
bytes_eq→eq (x ∷ xs) [] h = cc
bytes_eq→eq (x ∷ xs) (y ∷ ys) h = elim (Bool-cases (x == y)) [
  | inl same ↦
      ap₂ (λ a as'. a ∷ as') ((==_iff x y).0 same)
        (bytes_eq→eq xs ys (subst (λ b. (b && bytes_eq xs ys) ≡ true) same h))
  | inr other ↦ absurd (refuted (subst (λ b. (b && bytes_eq xs ys) ≡ true) other h))
]
  where
    refuted : false ≡ true → ⊥
    refuted e = cc

-- The cookie of the offer is the one that we have given out for this random value, if there is one, and
-- there is one where the server uses cookies.
pub record CookieHolds (random : Bytes) (offer : Offer) (s : Server) : Type 0 where
  pub ours :
      (cookie : Bytes) → offer.cookie_data ≡ some cookie → compute_cookie s random ≡ some cookie
  pub there :
      s.backend.use_server_cookie ≡ true → (cookie : Bytes) × (offer.cookie_data ≡ some cookie)

same_some : {A : Type 0} (a b : A) → some a ≡ some b → a ≡ b
same_some a b h = cc

with_cookie :
    (random cookie expected : Bytes) (offer : Offer) (s : Server)
    → offer.cookie_data ≡ some cookie
    → compute_cookie s random ≡ some expected
    → not (bytes_eq cookie expected) ≡ false
    → CookieHolds random offer s
with_cookie random cookie expected offer s given computed equal = record {
  ours = λ c h.
      computed
      ∙ ap some (
          sym (bytes_eq→eq cookie expected (true_or_not (bytes_eq cookie expected) equal))
          ∙ same_some cookie c (sym given ∙ h));
  there = λ u. (cookie, given);
}

pub apart : ¬ (await_client_hello ≡ send_server_hello)
apart e = cc

no_discard : (len : ℕ) (s s' : Server) → discard_stale len s ≡ (s', ok send_server_hello) → ⊥
unfolding discard_stale
no_discard len s s' e = apart (final_value _ s' await_client_hello send_server_hello e)

pub check_cookie-Checked :
    (len suite : ℕ) (random buf : Bytes) (offer : Offer) (s s' : Server)
    → check_cookie len suite random buf offer s ≡ (s', ok send_server_hello)
    → CookieHolds random offer s × Selected suite buf offer s s'
unfolding check_cookie
check_cookie-Checked len suite random buf offer s s' h =
    elim (chosen offer.cookie_data _ _ s s' send_server_hello h) [
      | inr (cookie, given, h1) ↦
          let (expected, computed, h2) =
            present _ (compute_cookie s random) _ s s' send_server_hello h1 in
          let (equal, h3) = passed (not (bytes_eq cookie expected)) _ _ s s' send_server_hello h2 in
          (
            with_cookie random cookie expected offer s given computed equal,
            select_group-Selected suite random buf offer s s' h3,
          )
      | inl (missing, h1) ↦
          elim (branched s.backend.use_server_cookie _ _ s s' send_server_hello h1) [
            | inr (unused, h2) ↦ (
              record { ours = λ c g. cc; there = λ u. cc },
              select_group-Selected suite random buf offer s s' h2,
            )
            | inl (used, h2) ↦
                let (expected, computed, h3) =
                  present _ (compute_cookie s random) _ s s' send_server_hello h2 in
                absurd (elim (branched s.hello_retry _ _ s s' send_server_hello h3) [
                  | inl (stale, h4) ↦ no_discard len s s' h4
                  | inr (fresh, h4) ↦ no_accept s.state _ s' (retry-stays suite expected _ s) h4
                ])
          ]
    ]
