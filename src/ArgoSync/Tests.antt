-- ===== src/ArgoSync/Tests.antt =====
-- A client that counts its sessions, and its token.
use jettison_controller.Common.{ℕ, ◌+◌, ◌≤◌, ◌<◌, ◌≡◌, refl, arith}
use jettison_controller.Common.Results.{ok}
use jettison_controller.Text.{Str, codes}
use jettison_controller.ArgoSync.{
  ArgoCd, SyncClient, token_refresh_threshold_seconds, get_auth_token,
}
use jettison_controller.ArgoSync.Laws.{get_auth_token-young}

abbrev counting : ArgoCd ℕ Str (Unit {0})
counting = record {
  new_session_client = λ w. (w, ok tt);
  create_session = λ w. (w + 1, ok (codes "fresh"));
  new_client = λ token w. (w, ok tt);
  new_application_client = λ token w. (w, ok tt);
  sync = λ c namespace name w. (w, ok tt);
}

abbrev old : SyncClient ℕ
old = record { world = 0; argocd_auth_token = (codes "old"); last_token_refresh_time = 100 }

abbrev refreshed : SyncClient ℕ
refreshed = record {
  world = 1;
  argocd_auth_token = (codes "fresh");
  last_token_refresh_time = 43300;
}

still_fresh : get_auth_token counting 43299 old ≡ (old, ok (codes "old"))
unfolding get_auth_token
still_fresh = refl

stale : get_auth_token counting 43300 old ≡ (refreshed, ok (codes "fresh"))
unfolding get_auth_token
stale = refl

get_auth_token-young_example :
    (43300 ≤ 43300)
    × (43300 < 43300 + token_refresh_threshold_seconds)
    × (codes "fresh" ≡ (codes "fresh"))
get_auth_token-young_example =
    get_auth_token-young counting 43300 old refreshed (codes "fresh") (omega arith) stale
