-- ===== src/ArgoSync/Laws.antt =====
-- How old the token is that the client uses.
use mathlib.Core.Path.{subst}
use jettison_controller.Common.{
  ℕ, ◌+◌, ◌≤◌, ◌<◌, Bool, true, false, if◌then◌else◌, ◌≡◌, sym, ap, arith, inl, inr, Bool-cases,
}
use jettison_controller.Common.Results.{ok, ok-injective}
use jettison_controller.Common.Actions.{follow-ok}
use jettison_controller.Text.{Str}
use jettison_controller.ArgoSync.{
  ArgoCd, SyncClient, session_client_failed, session_failed, token_refresh_threshold_seconds,
  is_fresh, on_argo, get_auth_token,
}

is_fresh-young :
    (now last : ℕ) → is_fresh now last ≡ true → now < last + token_refresh_threshold_seconds
is_fresh-young now last e = ground arith

module _ {W : Type 0} where
  -- The token that a client stores is one that it may use at that time.
  abbrev pub Young : ℕ → SyncClient W → Str → Type 0
  Young now t token =
      (t.last_token_refresh_time ≤ now)
      × (now < t.last_token_refresh_time + token_refresh_threshold_seconds)
      × (token ≡ t.argocd_auth_token)

  Young-kept :
      (now : ℕ) (s t : SyncClient W) (token : Str)
      → s.last_token_refresh_time ≤ now
      → now < s.last_token_refresh_time + token_refresh_threshold_seconds
      → s ≡ t
      → s.argocd_auth_token ≡ token
      → Young now t token
  Young-kept now s t token a b e f = subst (λ u. Young now u token) e (a, b, sym f)

taken {ℓ} : {A : Type ℓ} {b : Bool} {x z : A} (y : A) → b ≡ true → (if b then x else y) ≡ z → x ≡ z
taken {b = true} y e h = h
taken {b = false} y e h = cc

skipped {ℓ} :
    {A : Type ℓ} {b : Bool} {y z : A} (x : A) → b ≡ false → (if b then x else y) ≡ z → y ≡ z
skipped {b = true} x e h = cc
skipped {b = false} x e h = h

module _ {W E C : Type 0} (argo : ArgoCd W E C) where
  -- If the time of the last refresh is not after the present, and a token is returned, then the
  -- token is the stored one, its refresh is not after the present and less than the threshold
  -- before it.
  pub get_auth_token-young :
      (now : ℕ) (s t : SyncClient W) (token : Str)
      → s.last_token_refresh_time ≤ now
      → get_auth_token argo now s ≡ (t, ok token)
      → (t.last_token_refresh_time ≤ now)
        × (now < t.last_token_refresh_time + token_refresh_threshold_seconds)
        × (token ≡ t.argocd_auth_token)
  unfolding get_auth_token
  get_auth_token-young now s t token before h =
      elim (Bool-cases (is_fresh now s.last_token_refresh_time)) [
        | inl e ↦
            let kept : (s, ok s.argocd_auth_token) ≡ (t, ok token) = taken _ e h in
            Young-kept now s t token before (is_fresh-young now s.last_token_refresh_time e)
              (ap (λ p. p.0) kept) (ok-injective (ap (λ p. p.1) kept))
        | inr e ↦
            let (u, a, called, rest) =
              follow-ok (on_argo argo session_client_failed s (argo.new_session_client s.world)) _
                (skipped _ e h) in
            let (v, got, created, stored) =
              follow-ok (on_argo argo session_failed u (argo.create_session u.world)) _ rest in
            subst (λ x. Young now x token) (ap (λ p. p.0) stored)
              (omega arith, omega arith, sym (ok-injective (ap (λ p. p.1) stored)))
      ]
