-- ===== src/Watcher/Tests.antt =====
-- Runs of the flow watcher's loop on small inputs, and the theorems at them.
use jettison_controller.Common.{
  ℕ, true, false, not, ◌∷◌, [], ◌++◌, List, Option, none, some, ◌≡◌, ◌≢◌, refl, arith,
  if◌then◌else◌,
}
use jettison_controller.Text.{Str, codes, Str-discrete}
use jettison_controller.Watcher.{
  Resource, ResourceSubscription, ResourceSubscription-discrete, flows, pods, new_web_error,
  Watcher, done, blocked, member, update, Distinct,
}
use jettison_controller.Watcher.Loop.{
  set_subscribers, listed, failed, Event, register, unregister, subscribe, notify_all,
  notify_subscriptions, round, run, empty, subscription_of, register_resource_subscription,
  unregister_conn, notify_conns,
}
use jettison_controller.Watcher.Objects.{
  Object, pod, deleted, event_type_key, on_subscription_resource_delete,
}
use jettison_controller.Watcher.Send.{IsValid, Ends}
use jettison_controller.Watcher.History.{run-IsValid}
use jettison_controller.Watcher.Delivery.{notify_all-delivers}
use jettison_controller.Watcher.Subscribers.{notify_subscriptions-delivers}
use jettison_controller.Watcher.Silence.{unregister-silences}
use jettison_controller.Watcher.Marking.{Names, IsMarked, pod_deletion-reaches}

abbrev identifier : Str
identifier = codes "workflows.jettisonproj.io/v1alpha1"

-- A pod of the application "shop", as it comes without its version and kind.
abbrev cart : Resource (Unit {0})
cart = record {
  api_version = [];
  kind = [];
  namespace = codes "prod";
  name = codes "cart-0";
  annotations = none;
  labels = (codes "jettison-app", codes "shop") ∷ [];
  rest = tt;
}

abbrev shop : ResourceSubscription
shop = record { subscription_type = codes "pod"; namespace = codes "prod"; name = codes "shop" }

abbrev gvk : Object (Unit {0}) → Option (Str × Str)
gvk o = some (codes "v1", codes "Pod")

gvk-Names : Names gvk identifier
unfolding codes
gvk-Names o version kind h = ground arith

-- Connection 1 gets all objects, connection 2 is an auxiliary one.
abbrev opening : List (Event (Unit {0}))
opening =
    register 1 false (listed (flows []) ∷ [])
    ∷ (register 2 true [] ∷ (subscribe 2 shop (listed (pods [])) ∷ []))

run-IsValid_example : Ends IsValid (run opening empty)
run-IsValid_example = run-IsValid opening (refl, (refl, tt))

-- Both are registered, and connection 3 has gone since it subscribed.
abbrev opened : Watcher (Unit {0})
opened = record {
  conns = 1 ∷ (2 ∷ []);
  subscriptions = set_subscribers (λ r. []) shop (2 ∷ (3 ∷ []));
  is_aux = update (λ c. false) 2 true;
  cancelled = λ c. false;
  closed = λ c. false;
  received = λ c. [];
}

opened-IsValid : IsValid opened
opened-IsValid = record {
  open_conns = λ c h. (refl, refl);
  closed_cancelled = λ c h. h;
  distinct = (refl, (refl, tt));
}

notify_all-delivers_example :
    (t : Watcher (Unit {0})) × (round (notify_all (flows (cart ∷ []))) opened ≡ done t)
    × ((c : ℕ)
        → t.received c ≡ (
            if member c opened.conns
            then (if opened.is_aux c
                then opened.received c
                else opened.received c ++ (flows (cart ∷ []) ∷ []))
            else opened.received c))
    × (t.conns ≡ opened.conns)
    × (t.subscriptions ≡ opened.subscriptions)
notify_all-delivers_example = notify_all-delivers (flows (cart ∷ [])) opened opened-IsValid

subscribers : opened.subscriptions (subscription_of cart) ≡ 2 ∷ (3 ∷ [])
unfolding codes Str-discrete ResourceSubscription-discrete
subscribers = refl

subscribers-Distinct : Distinct (opened.subscriptions (subscription_of cart))
subscribers-Distinct = rw subscribers (refl, (refl, tt))

notify_subscriptions-delivers_example :
    (t : Watcher (Unit {0})) × (round (notify_subscriptions cart) opened ≡ done t)
    × ((c : ℕ)
        → t.received c ≡ (
            if member c (opened.subscriptions (subscription_of cart))
            then (if not (member c opened.conns)
                then opened.received c
                else opened.received c ++ (pods (cart ∷ []) ∷ []))
            else opened.received c))
    × ((c : ℕ)
        → member c (t.subscriptions (subscription_of cart)) ≡ (
            if member c (opened.subscriptions (subscription_of cart))
            then member c opened.conns
            else false))
    × ((q : ResourceSubscription)
        → q ≢ subscription_of cart
        → t.subscriptions q ≡ opened.subscriptions q)
    × (t.conns ≡ opened.conns)
notify_subscriptions-delivers_example =
    notify_subscriptions-delivers cart opened opened-IsValid subscribers-Distinct

-- Connection 1 leaves before a flow is announced.
abbrev left : Watcher (Unit {0})
left = record opened {
  cancelled = update opened.cancelled 1 true;
  conns = 2 ∷ [];
  closed = update opened.closed 1 true;
}

run-left : run (unregister 1 ∷ (notify_all (flows (cart ∷ [])) ∷ [])) opened ≡ done left
unfolding run round unregister_conn notify_conns
run-left = refl

unregister-silences_example : left.received 1 ≡ opened.received 1
unregister-silences_example =
    unregister-silences 1 (notify_all (flows (cart ∷ [])) ∷ []) opened left refl run-left

-- The list of pods cannot be had.
abbrev refused : Event (Unit {0})
refused =
    subscribe 1 shop
      (failed (new_web_error identifier (codes "prod") (codes "shop") (codes "PodListError") []))

refused_blocks : round refused opened ≡ blocked
unfolding codes Str-discrete ResourceSubscription-discrete round register_resource_subscription
refused_blocks = refl

-- The pod as it is announced when it is deleted.
abbrev cart_deleted : Resource (Unit {0})
cart_deleted = record cart {
  api_version = codes "v1";
  kind = codes "Pod";
  annotations = some ((event_type_key identifier, deleted) ∷ []);
}

cart_deletion : on_subscription_resource_delete gvk identifier (pod cart) ≡ done (some cart_deleted)
unfolding codes Str-discrete on_subscription_resource_delete
cart_deletion = refl

pod_deletion-reaches_example :
    (t : Watcher (Unit {0})) × (round (notify_subscriptions cart_deleted) opened ≡ done t)
    × (t.received 2 ≡ opened.received 2 ++ (pods (cart_deleted ∷ []) ∷ []))
    × IsMarked (event_type_key identifier) cart cart_deleted
pod_deletion-reaches_example =
    pod_deletion-reaches gvk identifier cart cart_deleted 2 opened gvk-Names cart_deletion
      opened-IsValid subscribers-Distinct (rw subscribers refl) refl
