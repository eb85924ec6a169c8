-- ===== src/Reconciler/Monotone.antt =====
-- Steps of the flow reconciler (internal/controller/flow_controller.go) that take no mark of what was
-- synchronised away.
use jettison_controller.Common.{Bool, true, if◌then◌else◌, ◌≡◌, arith, inl, inr, Bool-cases}
use jettison_controller.Common.Results.{Result, ok, err, panic}
use jettison_controller.Common.Actions.{Action, follow, ◌>>=◌, return, crash}
use jettison_controller.Text.{Str, contains}
use jettison_controller.RepoSettings.Client.{SettingsError}
use jettison_controller.Reconciler.{ReconcileError, client_error, settings_error, Manager}
use jettison_controller.Reconciler.Flows.{
  lifted, on_cluster, on_github, mark_namespace, mark_project, mark_repo, contains_repo,
}

module _ {W : Type 0} where
  -- What was synchronised stays so.
  pub record Grows (s t : Manager W) : Type 0 where
    pub namespaces :
        (n : Str) → contains s.synced_namespaces n ≡ true → contains t.synced_namespaces n ≡ true
    pub projects :
        (n : Str) → contains s.synced_projects n ≡ true → contains t.synced_projects n ≡ true
    pub repos :
        (org name : Str)
        → contains_repo s.synced_repos org name ≡ true
        → contains_repo t.synced_repos org name ≡ true

  pub Grows-refl : (s : Manager W) → Grows s s
  Grows-refl s = record { namespaces = λ n h. h; projects = λ n h. h; repos = λ org name h. h }

  pub Grows-trans : (s t u : Manager W) → Grows s t → Grows t u → Grows s u
  Grows-trans s t u p q = record {
    namespaces = λ n h. q.namespaces n (p.namespaces n h);
    projects = λ n h. q.projects n (p.projects n h);
    repos = λ org name h. q.repos org name (p.repos org name h);
  }

  pub Grows-follow :
      {E A B : Type 0} (s : Manager W) (p : Manager W × Result E A)
      (next : A → Action (Manager W) E B)
      → Grows s p.0
      → ((a : A) (t : Manager W) → Grows t (next a t).0)
      → Grows s (follow p next).0
  Grows-follow s (t, ok a) next g k = Grows-trans s t (next a t).0 g (k a t)
  Grows-follow s (t, err e) next g k = g
  Grows-follow s (t, panic) next g k = g

  -- What acts on the world only.
  pub Grows-lifted :
      {E F A : Type 0} (f : E → F) (s : Manager W) (p : W × Result E A) → Grows s (lifted f s p).0
  Grows-lifted f s (w, ok a) = record {
    namespaces = λ n h. h;
    projects = λ n h. h;
    repos = λ o n h. h;
  }
  Grows-lifted f s (w, err e) = record {
    namespaces = λ n h. h;
    projects = λ n h. h;
    repos = λ o n h. h;
  }
  Grows-lifted f s (w, panic) = record {
    namespaces = λ n h. h;
    projects = λ n h. h;
    repos = λ o n h. h;
  }

module _ {W E : Type 0} where
  -- A step of the reconciler that takes no mark away.
  pub record IsMonotone {A : Type 0} (m : Action (Manager W) (ReconcileError E) A) : Type 0 where
    pub grows : (s : Manager W) → Grows s (m s).0

  pub IsMonotone-bind :
      {A B : Type 0} (m : Action (Manager W) (ReconcileError E) A)
      (next : A → Action (Manager W) (ReconcileError E) B)
      → IsMonotone m
      → ((a : A) → IsMonotone (next a))
      → IsMonotone (m >>= next)
  IsMonotone-bind m next p q = record {
    grows = λ s. Grows-follow s (m s) next (p.grows s) λ a t. (q a).grows t;
  }

  pub IsMonotone-if :
      {A : Type 0} (b : Manager W → Bool) (m n : Action (Manager W) (ReconcileError E) A)
      → IsMonotone m
      → IsMonotone n
      → IsMonotone (λ s. if b s then m s else n s)
  IsMonotone-if b m n p q = record {
    grows = λ s. elim (Bool-cases (b s)) [ inl e ↦ rw e (p.grows s) | inr e ↦ rw e (q.grows s) ];
  }

  pub return-IsMonotone : {A : Type 0} (a : A) → IsMonotone (return {E = ReconcileError E} a)
  return-IsMonotone a = record { grows = Grows-refl }

  pub crash-IsMonotone : {A : Type 0} → IsMonotone (crash {E = ReconcileError E} {A = A})
  crash-IsMonotone = record { grows = Grows-refl }

  pub cluster-IsMonotone : {A : Type 0} (m : Action W E A) → IsMonotone (on_cluster m)
  cluster-IsMonotone m = record { grows = λ s. Grows-lifted client_error s (m s.world) }

  pub github-IsMonotone : {A : Type 0} (m : Action W (SettingsError E) A) → IsMonotone (on_github m)
  github-IsMonotone m = record { grows = λ s. Grows-lifted settings_error s (m s.world) }

  pub mark_namespace-IsMonotone : (n : Str) → IsMonotone (mark_namespace n)
  mark_namespace-IsMonotone n = record {
    grows =
        λ s. record { namespaces = λ m h. ground arith; projects = λ m h. h; repos = λ o m h. h };
  }

  pub mark_project-IsMonotone : (n : Str) → IsMonotone (mark_project n)
  mark_project-IsMonotone n = record {
    grows =
        λ s. record { namespaces = λ m h. h; projects = λ m h. ground arith; repos = λ o m h. h };
  }

  pub mark_repo-IsMonotone : (org name : Str) → IsMonotone (mark_repo org name)
  mark_repo-IsMonotone org name = record {
    grows =
        λ s. record { namespaces = λ m h. h; projects = λ m h. h; repos = λ o m h. ground arith };
  }
