-- ===== src/Watcher.antt =====
-- The messages of the web server and the state of its flow watcher:
-- internal/webserver/flow_watcher.go, webconn.go, webmessage.go and weberror.go.
pub mod Objects
pub mod Loop
pub mod Keys
pub mod Send
pub mod Invariant
pub mod Initial
pub mod Reader
pub mod Delivery
pub mod Subscribers
pub mod Blocking
pub mod Silence
pub mod History
pub mod Marking
pub mod Race
pub mod Tests
use mathlib.Core.Logic.{ite}
use native.Mathlib.Decide.{ℕ_discrete}
use jettison_controller.Common.{
  ℕ, Bool, true, false, List, [], ◌∷◌, ◌++◌, Option, none, some, ◌≡◌, eqb, if◌then◌else◌,
}
use jettison_controller.Text.{Str, Str-discrete, codes, ◌==◌}

-- A Kubernetes object: what the watcher reads and writes of it, and the rest.
module _ (R : Type 0) where
  pub record Resource : Type 0 where
    pub api_version : Str
    pub kind : Str
    pub namespace : Str
    pub name : Str
    -- A nil map is `none`.
    pub annotations : Option (List (Str × Str))
    pub labels : List (Str × Str)
    pub rest : R

-- `WebError`, with its specification.
pub record WebError : Type 0 where
  pub kind : Str
  pub api_version : Str
  pub namespace : Str
  pub name : Str
  pub reason : Str
  pub message : Str

pub record ResourceSubscription : Type 0 where
  pub subscription_type : Str
  pub namespace : Str
  pub name : Str

pub ResourceSubscription-discrete : Discrete ResourceSubscription
ResourceSubscription-discrete = hlevel Str-discrete

-- What is sent to a connection: a list of one kind of object, or of errors.
pub data Message (R : Type 0) : Type 0 where
  flows applications rollouts workflows pods : List (Resource R) → Message R
  web_errors : List WebError → Message R

abbrev pub web_error_kind : Str
web_error_kind = codes "WebError"

-- `identifier` is that of the group and version of the API.
abbrev pub new_web_error : {R : Type 0} → Str → Str → Str → Str → Str → Message R
new_web_error identifier namespace name reason message = web_errors (
    record {
      kind = web_error_kind;
      api_version = identifier;
      namespace = namespace;
      name = name;
      reason = reason;
      message = message;
    }
    ∷ [])

-- A connection is a number, as a pointer is. `received` has the messages that its writer took from
-- its channel.
pub record Watcher (R : Type 0) : Type 0 where
  -- The keys of `conns`.
  pub conns : List ℕ
  pub subscriptions : ResourceSubscription → List ℕ
  pub is_aux : ℕ → Bool
  pub cancelled : ℕ → Bool
  pub closed : ℕ → Bool
  pub received : ℕ → List (Message R)

-- A step of the loop ends, waits for ever, or stops the program.
pub data Run (A : Type 0) : Type 0 where
  done : A → Run A
  blocked : Run A
  panics : Run A

infixl 5 ◌>>=◌
abbrev pub ◌>>=◌ : {A B : Type 0} → Run A → (A → Run B) → Run B
done a >>= next = next a
blocked >>= next = blocked
panics >>= next = panics

-- Maps from connections.
abbrev pub update : {A : Type 0} → (ℕ → A) → ℕ → A → ℕ → A
update f c a d = if eqb d c then a else f d

abbrev pub member : ℕ → List ℕ → Bool
member c [] = false
member c (d ∷ ds) = if eqb c d then true else member c ds

abbrev pub remove : ℕ → List ℕ → List ℕ
remove c [] = []
remove c (d ∷ ds) = let rest = remove c ds in if eqb d c then rest else d ∷ rest

abbrev pub insert : ℕ → List ℕ → List ℕ
insert c ds = if member c ds then ds else ds ++ (c ∷ [])

-- No key occurs twice.
abbrev pub Distinct : List ℕ → Type 0
Distinct [] = Unit
Distinct (c ∷ cs) = (member c cs ≡ false) × Distinct cs
