-- ===== src/Tests/OneFork.antt =====
-- A server that holds at most one Fork, and runs of the controllers on it.
use kubefork_controller.Base.{
  ◌≡◌, refl, ap, subst, true, false, Option, none, some, List, [], ◌∷◌, string_eq, arith,
  if◌then◌else◌,
}
use mathlib.Core.List.{Memᴰ}
use mathlib.Core.List.Memᴰ.{head}
use kubefork_controller.Base.Result.{Result, ok, err, failure, not_found, ok-injective}
use kubefork_controller.Api.{NamespacedName, Fork}
use kubefork_controller.Kube.{Kube, Object, fork}
use kubefork_controller.Kube.Laws.{is_at}
use kubefork_controller.Updaters.{slug_of}
use kubefork_controller.Forks.{is_fork}
use kubefork_controller.Forks.Served.{ForkServer, same_place}
use kubefork_controller.Forks.Announced.{Answers}
use kubefork_controller.Tests.Blank.{blank}
use kubefork_controller.Tests.Samples.{sample_manager}

abbrev pub held : Option Fork → NamespacedName → Option Fork
held none k = none
held (some f) k = if is_at k (fork f) then some f else none

abbrev found_of : Option Fork → Result Fork
found_of none = err not_found
found_of (some f) = ok f

abbrev listed_of : Option Fork → List Fork
listed_of none = []
listed_of (some f) = f ∷ []

abbrev taken : Object → Option Fork → Option Fork
taken (fork g) (some f) = if is_at (slug_of g.metadata) (fork f) then none else some f
taken _ w = w

abbrev pub fork_kube : Kube (Option Fork)
fork_kube = record (blank (Option Fork)) {
  get_fork_manager = λ k w. ok sample_manager;
  get_fork = λ k w. found_of (held w k);
  list_forks = λ o w. ok (listed_of w);
  list_unstructured = λ t o w. err (failure "not served");
  new_like = λ o. o;
  delete = λ o w. (ok tt, taken o w);
  create_or_update = λ o f w. (ok tt, w);
}

held-slug :
    (w : Option Fork) (k : NamespacedName) (f : Fork) → held w k ≡ some f → is_at k (fork f) ≡ true
held-slug none k f e = cc
held-slug (some g) k f e = ground arith

found_of-ok : (r : Option Fork) (f : Fork) → found_of r ≡ ok f → r ≡ some f
found_of-ok none f e = cc
found_of-ok (some g) f e = ap some (ok-injective e)

taken-fork :
    (f : Fork) (w : Option Fork) (k : NamespacedName)
    → is_at k (fork f) ≡ false
    → held (taken (fork f) w) k ≡ held w k
taken-fork f none k apart = refl
taken-fork f (some g) k apart = ground arith

taken-removes :
    (k : NamespacedName) (w : Option Fork) (f : Fork)
    → held w k ≡ some f
    → held (taken (fork f) w) k ≡ none
taken-removes k none f e = cc
taken-removes k (some g) f e = ground arith

taken-other :
    (o : Object) (w : Option Fork) (k : NamespacedName)
    → is_fork o ≡ false
    → held (taken o w) k ≡ held w k
unfolding string_eq
taken-other (fork f) w k e = cc
taken-other _ w k e = refl

at_own_slug : (f : Fork) → is_at (slug_of f.metadata) (fork f) ≡ true
at_own_slug f = ground arith

held-all_listed :
    (w : Option Fork) (forks : List Fork) (k : NamespacedName) (f : Fork)
    → Path (Result (List Fork)) (ok (listed_of w)) (ok forks)
    → held w k ≡ some f
    → Memᴰ f forks × (slug_of f.metadata ≡ k)
held-all_listed none forks k f e h = cc
held-all_listed (some g) forks k f e h =
    let here = held-slug (some g) k f h in
    (
      subst (Memᴰ f) (ok-injective e) (head (only k g f h)),
      same_place (slug_of f.metadata) k (fork f) (at_own_slug f) here,
    )
  where
    only : (k : NamespacedName) (g f : Fork) → held (some g) k ≡ some f → f ≡ g
    only k g f e = ground arith

pub fork_kube-ForkServer : ForkServer fork_kube held
fork_kube-ForkServer = record {
  deleted = taken-other;
  written = λ o f w k _. refl;
  listed = λ kind o w us _ e. cc;
  like = λ o e. e;
  found = λ k w f e. let h = found_of-ok (held w k) f e in (h, held-slug w k f h);
  deleted_fork = taken-fork;
}

pub fork_kube-Answers : Answers fork_kube held
fork_kube-Answers = record {
  served = λ k w f e. ap found_of e;
  all_listed = held-all_listed;
  removed = taken-removes;
}
