-- ===== src/Forks/Announced.antt =====
-- From controllers/fork_watcher.go to controllers/fork_controller.go: a Fork that a tick announces is
-- gone once the requests of the tick are served.
use kubefork_controller.Base.{
  String, ◌≡◌, refl, sym, ap, subst, ◌∙◌, ◌<◌, true, Option, none, some, List, [], ◌∷◌, inl, inr,
  All, ◌++◌, Bool-cases,
}
use mathlib.Core.List.{Memᴰ}
use mathlib.Core.List.Memᴰ.{head, tail, cases_cons}
use kubefork_controller.Base.GoMap.{GoMap}
use kubefork_controller.Base.Result
use kubefork_controller.Base.Result.{Result, ok, ok-injective}
use kubefork_controller.Api.{NamespacedName, Fork, Time}
use kubefork_controller.Kube.{Kube, fork}
use kubefork_controller.Refresh.Naming.{FloatOps}
use kubefork_controller.Updaters.{slug_of}
use kubefork_controller.Controllers.{Event, CanRead, is_due, notified, tick, reconcile_fork}
use kubefork_controller.Controllers.Deadlines.{reconcile_fork-of-is_due}
use kubefork_controller.Forks.Served.{ForkServer, reconcile_fork-stored}

-- A server that answers: a Fork that it holds is found and listed, and a deletion ends well and leaves
-- nothing, as no Fork has finalizers.
pub record Answers {W : Type 0} (kube : Kube W) (stored : W → NamespacedName → Option Fork)
    : Type 0 where
  pub served :
      (k : NamespacedName) (w : W) (f : Fork) → stored w k ≡ some f → kube.get_fork k w ≡ ok f
  pub all_listed :
      (w : W) (forks : List Fork) (k : NamespacedName) (f : Fork)
      → kube.list_forks (record { namespace = ""; label_selector = [] }) w ≡ ok forks
      → stored w k ≡ some f
      → Memᴰ f forks × (slug_of f.metadata ≡ k)
  pub removed :
      (k : NamespacedName) (w : W) (f : Fork)
      → stored w k ≡ some f
      → stored (kube.delete (fork f) w).1 k ≡ none

abbrev pub fork_slug : Fork → NamespacedName
fork_slug f = slug_of f.metadata

All-Memᴰ : (P : Fork → Type 0) (f : Fork) (forks : List Fork) → Memᴰ f forks → All P forks → P f
All-Memᴰ P f [] m all = elim m [ ]
All-Memᴰ P f (g ∷ forks) (head same) (here, _) = subst P (sym same) here
All-Memᴰ P f (g ∷ forks) (tail m) (_, all) = All-Memᴰ P f forks m all

-- For each event, what a reader of it found.
pub data Reads : List Event → List Fork → Type 0 where
  nothing : Reads [] []
  reading :
      {e : Event} {f : Fork} {events : List Event} {forks : List Fork}
      → CanRead e f
      → Reads events forks
      → Reads (e ∷ events) (f ∷ forks)

read_first :
    {e : Event} {events : List Event} {seen : List Fork}
    → Reads (e ∷ events) seen
    → (g : Fork) × (rest : List Fork) × (seen ≡ g ∷ rest) × CanRead e g × Reads events rest
read_first (reading found others) = (_, _, refl, found, others)

-- An event for the last of the Forks can be read as that only.
last_read :
    (now : Time) (f : Fork) (earlier seen : List Fork)
    → is_due now f ≡ true
    → Reads (notified now (earlier ++ f ∷ [])) seen
    → Memᴰ f seen
unfolding notified
last_read now f [] seen due reads =
    let (g, rest, e, found, _) = read_first (rw due at reads) in
    elim (cases_cons found) [
      | inl same ↦ subst (Memᴰ f) (sym e) (head (sym same))
      | inr m ↦ elim m [ ]
    ]
last_read now f (g ∷ earlier) seen due reads = elim (Bool-cases (is_due now g)) [
  | inl here ↦
      let (_, rest, e, _, others) = read_first (rw here at reads) in
      subst (Memᴰ f) (sym e) (tail (last_read now f earlier rest due others))
  | inr skipped ↦ last_read now f earlier seen due (rw skipped at reads)
]

module _ {W : Type 0} (kube : Kube W) (floats : FloatOps)
    (range : (V : Type 0) → GoMap String V → GoMap String V)
    (range_names : List NamespacedName → List NamespacedName) where
  -- The requests for the names are served one after the other, whatever each ends with.
  abbrev pub serve : Time → List NamespacedName → W → W
  serve now [] w = w
  serve now (slug ∷ slugs) w =
      serve now slugs (reconcile_fork kube floats range range_names now slug w).1

  module _ (stored : W → NamespacedName → Option Fork) (server : ForkServer kube stored)
      (k : NamespacedName) where
    request-gone :
        (now : Time) (slug : NamespacedName) (w : W)
        → stored w k ≡ none
        → stored (reconcile_fork kube floats range range_names now slug w).1 k ≡ none
    request-gone now slug w gone =
        elim (reconcile_fork-stored kube stored server k floats range range_names now slug w) [
          | inl same ↦ same ∙ gone
          | inr (f, found, _, here) ↦
              let held = ap (stored w) here ∙ (server.found slug w f found).0 in cc
        ]

    serve-gone :
        (now : Time) (slugs : List NamespacedName) (w : W)
        → stored w k ≡ none
        → stored (serve now slugs w) k ≡ none
    serve-gone now [] w gone = gone
    serve-gone now (slug ∷ slugs) w gone = serve-gone now slugs _ (request-gone now slug w gone)

    module _ (answers : Answers kube stored) (now later : Time) (after : now < later) (f : Fork)
        (due : is_due now f ≡ true) where
      request-removes :
          (slug : NamespacedName) (w : W)
          → stored w k ≡ some f
          → k ≡ slug
          → stored (reconcile_fork kube floats range range_names later slug w).1 k ≡ none
      request-removes slug w held here =
          ap (λ (r : Result (Unit {0}) × W). stored r.1 k)
            (reconcile_fork-of-is_due kube floats range range_names now later f slug w after due
              (answers.served slug w f (ap (stored w) (sym here) ∙ held)))
          ∙ answers.removed k w f held

      serve-removes :
          (slugs : List NamespacedName) (w : W)
          → stored w k ≡ some f
          → Memᴰ k slugs
          → stored (serve later slugs w) k ≡ none
      serve-removes [] w held m = elim m [ ]
      serve-removes (slug ∷ slugs) w held m = elim (cases_cons m) [
        | inl here ↦ serve-gone later slugs _ (request-removes slug w held here)
        | inr m' ↦
            elim (reconcile_fork-stored kube stored server k floats range range_names later slug
              w) [
                | inl same ↦ serve-removes slugs _ (same ∙ held) m'
                | inr (_, _, _, here) ↦ serve-gone later slugs _ (request-removes slug w held here)
              ]
      ]

      -- If a tick of the watcher lists the Forks, and the server answers and deletes as it is asked,
      -- then the last Fork of the list, if its deadline is not after the time of the tick, is gone once
      -- requests are served at a later time: any requests in any order, among which are those for
      -- what was read behind the address of each event, however late it was read.
      pub tick-gone :
          (w : W) (earlier : List Fork) (events : List Event) (seen : List Fork)
          (requests : List NamespacedName)
          → kube.list_forks (record { namespace = ""; label_selector = [] }) w
            ≡ ok (earlier ++ f ∷ [])
          → tick kube now w ≡ ok events
          → stored w k ≡ some f
          → Reads events seen
          → All (λ g. Memᴰ (fork_slug g) requests) seen
          → stored (serve later requests w) k ≡ none
      unfolding tick
      tick-gone w earlier events seen requests listed sent held reads asked =
          let same : notified now (earlier ++ f ∷ []) ≡ events =
            ok-injective
              (ap (λ r. Result.◌>>=◌ r (λ forks. ok (notified now forks))) (sym listed) ∙ sent) in
          let (_, here) = answers.all_listed w (earlier ++ f ∷ []) k f listed held in
          let read =
            last_read now f earlier seen due (subst (λ l. Reads l seen) (sym same) reads) in
          serve-removes requests w held (
            subst (λ n. Memᴰ n requests) here
              (All-Memᴰ (λ g. Memᴰ (fork_slug g) requests) f seen read asked))
