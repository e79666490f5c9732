-- ===== src/Ctl/Manifest/Lifetime.antt =====
-- How long a Fork of kubeforkctl/domain/fork.go lives, by the check of controllers/fork_controller.go.
use Prim.Native.Nat.{◌/◌}
use kubefork_controller.Base.{ap, some, ℕ, ◌+◌, ◌*◌, ◌≤◌, ◌≡◌, ltb, List, arith}
use kubefork_controller.Api.{LabelSelector, Container, Fork, Time}
use kubefork_controller.Controllers.{is_before, is_expired}
use kubefork_controller.Ctl.Manifest.{ManifestOption, hour, valid_duration, add_duration, new_fork}

valid_duration-small : (v : ℕ) → v ≤ 2562047 → valid_duration v ≡ hour * v
unfolding valid_duration
valid_duration-small v h = omega arith

add_duration-small : (now v : ℕ) → v ≤ 2562047 → add_duration now (hour * v) ≡ now + hour * v
unfolding add_duration
add_duration-small now v h = ground arith

-- A time as metav1.Time writes it, in whole seconds. The instant from which times are counted is
-- taken to be at a whole second.
abbrev pub whole_seconds : Time → Time
whole_seconds t = t / 1000000000 * 1000000000

-- What becomes of a Fork on its way through a manifest and the API server to the controller: its
-- deadline is written in whole seconds.
abbrev pub WritesSeconds : (Fork → Fork) → Type 0
WritesSeconds applied =
    (f : Fork) (t : Time)
    → f.spec.deadline ≡ some t
    → (applied f).spec.deadline ≡ some (whole_seconds t)

deadline-new_fork :
    (opt : ManifestOption) (now : Time) (services deployments : LabelSelector)
    (containers : List Container)
    → opt.valid_time ≤ 2562047
    → (new_fork opt now services deployments containers).spec.deadline
      ≡ some (now + opt.valid_time * 3600000000000)
unfolding new_fork
deadline-new_fork opt now services deployments containers h = ap some (
    rw (valid_duration-small opt.valid_time h, add_duration-small now opt.valid_time h)
      (omega arith))

-- If the valid time is at most 2562047 hours, which is what an `int64` of nanoseconds holds, and the
-- manifest of the command that runs at the time `now` is applied, which writes the deadline in whole
-- seconds, then the controller takes the Fork for expired exactly at the times after `now` and that
-- many hours of 3600 seconds, rounded down to a second.
pub is_expired-new_fork :
    (opt : ManifestOption) (now later : Time) (services deployments : LabelSelector)
    (containers : List Container) (applied : Fork → Fork)
    → opt.valid_time ≤ 2562047
    → WritesSeconds applied
    → is_expired later (applied (new_fork opt now services deployments containers))
      ≡ ltb (whole_seconds (now + opt.valid_time * 3600000000000)) later
unfolding is_expired
is_expired-new_fork opt now later services deployments containers applied h writes =
    ap (λ d. is_before d later)
      (writes (new_fork opt now services deployments containers) _
        (deadline-new_fork opt now services deployments containers h))
