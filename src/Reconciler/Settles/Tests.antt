-- ===== src/Reconciler/Settles/Tests.antt =====
-- A store of applications, in which the application of the flow has an older specification.
use jettison_controller.Common.{
  true, false, List, [], ◌∷◌, Option, none, some, ◌≡◌, ◌≢◌, refl, sym, ap, ◌∙◌, arith, All,
  if◌then◌else◌,
}
use jettison_controller.Common.Results.{ok, err, ok-injective}
use jettison_controller.Text.{Str, codes, Str-discrete, ◌==◌}
use jettison_controller.Flow.Tests.{codec}
use jettison_controller.Apps.{Application, build_application}
use jettison_controller.RepoSettings.Client.{GitHub}
use jettison_controller.RepoSettings.Tests.{names}
use jettison_controller.Reconciler.{Kind, Cluster}
use jettison_controller.Reconciler.Flows.{write_application, sync_applications}
use jettison_controller.Reconciler.Settled.{IsDeployed}
use jettison_controller.Reconciler.Stores.{IsApplicationStore, application_spec}
use jettison_controller.Reconciler.Settles.{sync_applications_settles}
use jettison_controller.Reconciler.Tests.Data.{flow', steps', marshal, project, application, apps}

abbrev Store : Type 0
Store = List Application

abbrev find : Str → Str → Store → Option Application
find n m [] = none
find n m (a ∷ store) =
    let rest = find n m store in
    if a.namespace == n then (if a.name == m then some a else rest) else rest

-- The newest write of an object is the first.
abbrev applications : Kind Store (Unit {0}) Application
applications = record {
  get = λ n m w. (w, ok (find n m w));
  create = λ x w. (x ∷ w, ok tt);
  update = λ x w. (x ∷ w, ok tt);
  delete = λ x w. (w, ok tt);
  derives = λ wanted existing.
      if wanted.path == existing.path then wanted.repo_url == existing.repo_url else false;
}

find-named :
    (n m : Str) (w : Store) (x : Application)
    → find n m w ≡ some x
    → (x.namespace ≡ n) × (x.name ≡ m)
find-named n m [] x h = cc
find-named n m (a ∷ w) x h = ground (arith, find-named n m w x)

find-first : (x : Application) (w : Store) → find x.namespace x.name (x ∷ w) ≡ some x
find-first x w = ground arith

find-others : (x : Application) (w : Store) (n m : Str) → m ≢ x.name → find n m (x ∷ w) ≡ find n m w
find-others x w n m other = ground arith

first :
    (x : Application) (w w' : Store)
    → x ∷ w ≡ w'
    → (y : Application) × ((applications.get x.namespace x.name w').1 ≡ ok (some y))
      × (application_spec x ≡ application_spec y)
first x w w' e = (x, ap ok (ap (find x.namespace x.name) (sym e) ∙ find-first x w), refl)

others :
    (x : Application) (w w' : Store) (n m : Str)
    → x ∷ w ≡ w'
    → m ≢ x.name
    → (applications.get n m w').1 ≡ (applications.get n m w).1
others x w w' n m e other = ap ok (ap (find n m) (sym e) ∙ find-others x w n m other)

derives-same :
    (a b : Application) → application_spec a ≡ application_spec b → applications.derives a b ≡ true
derives-same a b h =
    let p : a.path ≡ b.path = ap (λ x. x.path) h in
    let q : a.repo_url ≡ b.repo_url = ap (λ x. x.repo_url) h in ground arith

applications-IsStore : IsApplicationStore applications
applications-IsStore = record {
  reads = λ n m w. refl;
  named = λ n m w x h. find-named n m w x (ok-injective h);
  create-get = λ x w w' h. first x w w' (ap (λ p. p.0) h);
  update-get = λ x w w' h. first x w w' (ap (λ p. p.0) h);
  create-others = λ x w w' n m h other. others x w w' n m (ap (λ p. p.0) h) other;
  update-others = λ x w w' n m h other. others x w w' n m (ap (λ p. p.0) h) other;
  derives-same = derives-same;
}

abbrev nothing : {T : Type 0} → Kind Store (Unit {0}) T
nothing = record {
  get = λ n m w. (w, ok none);
  create = λ x w. (w, ok tt);
  update = λ x w. (w, ok tt);
  delete = λ x w. (w, ok tt);
  derives = λ wanted existing. true;
}

abbrev cluster : Cluster Store (Unit {0}) (Unit {0})
cluster = record {
  get_flow = λ n m w. (w, ok none);
  not_found = tt;
  update_status = λ f cs w. (w, ok tt);
  set_status_condition = λ cs c. (cs, false);
  event_buses = nothing;
  volume_claims = nothing;
  service_accounts = nothing;
  roles = nothing;
  role_bindings = nothing;
  projects = nothing;
  applications = applications;
  sensors = nothing;
  event_sources = nothing;
  own_application = λ f a. ok a;
  own_sensor = λ f s. ok s;
}

-- No call of GitHub is made.
abbrev github : GitHub Store (Unit {0}) (Unit {0})
github = record {
  find_repository_installation = λ w. (w, ok none);
  get = λ i w. (w, err tt);
  edit = λ i r w. (w, ok tt);
  get_all_rulesets = λ i w. (w, ok []);
  get_ruleset = λ i id w. (w, err tt);
  create_ruleset = λ i r w. (w, ok tt);
  update_ruleset = λ i id r w. (w, ok tt);
}

abbrev older : Application
older = record application { path = codes "prod"; finalizers = []; refresh = false }

abbrev updated : Store
updated = record application { finalizers = [] } ∷ (older ∷ [])

run :
    sync_applications codec marshal cluster names
      (λ o n. github)
      flow'
      (application ∷ [])
      (older ∷ [])
    ≡ (updated, ok true)
unfolding codes Str-discrete sync_applications write_application build_application
run = refl

sync_applications_settles_example :
    All (IsDeployed codec marshal cluster names (λ o n. github) flow' updated) (application ∷ [])
    × (sync_applications codec marshal cluster names
          (λ o n. github)
          flow'
          (application ∷ [])
          updated
        ≡ (updated, ok false))
sync_applications_settles_example =
    sync_applications_settles codec marshal cluster names (λ o n. github) applications-IsStore
      (λ f a owned h.
        (ap (λ x. x.namespace) (sym (ok-injective h)), ap (λ x. x.name) (sym (ok-injective h))))
      flow' steps' (project ∷ []) (application ∷ []) (older ∷ []) updated true apps run
