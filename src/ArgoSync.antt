-- ===== src/ArgoSync.antt =====
-- The client that synchronises applications: internal/webserver/argosync/argosync.go. Its lock makes
-- the calls of getAuthToken one after another. Times are the seconds of time.Now().Unix().
pub mod Laws
pub mod Tests
use jettison_controller.Common.{ℕ, ◌+◌, Bool, true, false, List, Option, ltb, if◌then◌else◌}
use jettison_controller.Common.Results.{Result, ok, err, panic}
use jettison_controller.Common.Actions.{Action, follow, ◌>>=◌, ◌>>◌, return, wrapped, call}
use jettison_controller.Text.{Str}

-- The calls of the Argo CD client. `C` is a client of applications.
pub record ArgoCd (W E C : Type 0) : Type 0 where
  pub new_session_client : Action W E (Unit {0})
  -- The session's token, for the user and the credential.
  pub create_session : Action W E Str
  -- Of the server, with the token; the next call is made with this client.
  pub new_client : Str → Action W E (Unit {0})
  pub new_application_client : Str → Action W E C
  -- At a namespace and a name. That it prunes, and its one option, are constants of the request.
  pub sync : C → Str → Str → Action W E (Unit {0})

pub data SyncError (E : Type 0) : Type 0 where
  session_client_failed session_failed client_failed application_client_failed sync_failed :
      E → SyncError E

pub record SyncClient (W : Type 0) : Type 0 where
  pub world : W
  pub argocd_auth_token : Str
  pub last_token_refresh_time : ℕ

abbrev pub token_refresh_threshold_seconds : ℕ
token_refresh_threshold_seconds = 43200

-- One more than the greatest `int64`.
abbrev pub int64_limit : ℕ
int64_limit = 9223372036854775808

-- `now < s.lastTokenRefreshTime + tokenRefreshThresholdSeconds`: a sum past the limit is negative.
abbrev pub is_fresh : ℕ → ℕ → Bool
is_fresh now last =
    let until = last + token_refresh_threshold_seconds in
    if ltb until int64_limit then ltb now until else false

module _ {W E C : Type 0} (argo : ArgoCd W E C) where
  abbrev pub on_argo :
      {A : Type 0}
      → (E → SyncError E)
      → SyncClient W
      → W × Result E A
      → SyncClient W × Result (SyncError E) A
  on_argo f s (w, ok a) = (record s { world = w }, ok a)
  on_argo f s (w, err e) = (record s { world = w }, err (f e))
  on_argo f s (w, panic) = (record s { world = w }, panic)

  abbrev pub store_token : ℕ → Str → Action (SyncClient W) (SyncError E) Str
  store_token now token s =
      (record s { argocd_auth_token = token; last_token_refresh_time = now }, ok token)

  unfoldable pub get_auth_token : ℕ → Action (SyncClient W) (SyncError E) Str
  get_auth_token now s =
      if is_fresh now s.last_token_refresh_time
      then (s, ok s.argocd_auth_token)
      else (do
        (λ t. on_argo session_client_failed t (argo.new_session_client t.world))
        token ← λ t. on_argo session_failed t (argo.create_session t.world)
        store_token now token)
          s

  unfoldable pub sync_application : ℕ → Str → Str → Action (SyncClient W) (SyncError E) (Unit {0})
  unfolding get_auth_token
  sync_application now namespace name = do
    token ← get_auth_token now
    (λ t. on_argo client_failed t (argo.new_client token t.world))
    client ← λ t. on_argo application_client_failed t (argo.new_application_client token t.world)
    (λ t. on_argo sync_failed t (argo.sync client namespace name t.world))
