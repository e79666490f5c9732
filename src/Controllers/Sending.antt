-- ===== src/Controllers/Sending.antt =====
-- The sends of `forkWatcher.Start` of controllers/fork_watcher.go: when it comes to its end, and
-- when it does not.
use mathlib.Core.List.{Memᴰ, append_assoc, append-nil}
use mathlib.Core.List.Memᴰ.{head, tail}
use kubefork_controller.Base.{
  ◌≡◌, ◌≤◌, refl, sym, ap, ◌∙◌, Bool, true, false, leb, Option, none, some, List, [], ◌∷◌, ◌++◌,
  map, All, filter_by, arith, Bool-cases, inl, inr,
}
use kubefork_controller.Base.Result.{ok}
use kubefork_controller.Api.{Fork, Time}
use kubefork_controller.Kube.{Kube}
use kubefork_controller.Controllers.{Event, is_reached, is_due, notified, tick}
use kubefork_controller.Controllers.Watching.{
  Signal, context_done, received, ticked, waiting, sending, returned, Watched, before_send, watch,
  start,
}

-- The Fork has a deadline, and it has come.
abbrev pub has_come : Time → Fork → Bool
has_come now f = elim f.spec.deadline [ none ↦ false | some deadline ↦ leb deadline now ]

abbrev pub current_of : List Event → List Fork
current_of events = map (λ (e : Event). e.current) events

reached_iff :
    (deadline : Option Time) (now : Time)
    → is_reached deadline now ≡ elim deadline [ none ↦ false | some d ↦ leb d now ]
reached_iff none now = refl
reached_iff (some d) now = ground arith

is_due-eq-has_come : (now : Time) (f : Fork) → is_due now f ≡ has_come now f
unfolding is_due
is_due-eq-has_come now f = reached_iff f.spec.deadline now

-- The events are for the Forks whose deadline has come, in the order of the list.
current_of-notified :
    (now : Time) (forks : List Fork)
    → current_of (notified now forks) ≡ filter_by (has_come now) forks
unfolding notified
current_of-notified now [] = refl
current_of-notified now (f ∷ forks) =
    ground (arith, is_due-eq-has_come now f, current_of-notified now forks)

notified-cons :
    (now : Time) (f : Fork) (deadline : Time) (forks : List Fork)
    → Memᴰ f forks
    → f.spec.deadline ≡ some deadline
    → deadline ≤ now
    → (e : Event) × (events : List Event) × (notified now forks ≡ e ∷ events)
unfolding notified is_due
notified-cons now f deadline [] m has passed = elim m [ ]
notified-cons now f deadline (g ∷ forks) (head same) has passed =
    let here : is_reached g.spec.deadline now ≡ true =
      ap (λ (h : Fork). is_reached h.spec.deadline now) (sym same)
      ∙ ap (λ d. is_reached d now) has
      ∙ ground arith in
    (record { current = g; later = forks }, notified now forks, rw here refl)
notified-cons now f deadline (g ∷ forks) (tail m) has passed =
    elim (Bool-cases (is_reached g.spec.deadline now)) [
      | inl here ↦ (record { current = g; later = forks }, notified now forks, rw here refl)
      | inr skipped ↦
          let (e, events, more) = notified-cons now f deadline forks m has passed in
          (e, events, rw skipped more)
    ]

abbrev pub is_received : {W : Type 0} → Signal W → Bool
is_received received = true
is_received _ = false

-- As many receptions as there are Forks.
abbrev pub receptions : {W : Type 0} → List Fork → List (Signal W)
receptions forks = map (λ (f : Fork). received) forks

module _ {W : Type 0} (kube : Kube W) where
  watch-append :
      (before after : List (Signal W)) (watched : Watched)
      → watch kube (before ++ after) watched ≡ watch kube after (watch kube before watched)
  unfolding watch
  watch-append [] after watched = refl
  watch-append (signal ∷ before) after watched = watch-append before after _

  watch_blocked :
      (e : Event) (events sent : List Event) (signals : List (Signal W))
      → All (λ s. is_received s ≡ false) signals
      → watch kube signals (record { sent = sent; stand = sending e events })
        ≡ record { sent = sent; stand = sending e events }
  unfolding watch
  watch_blocked e events sent [] _ = refl
  watch_blocked e events sent (context_done ∷ signals) (_, others) =
      watch_blocked e events sent signals others
  watch_blocked e events sent (ticked now w ∷ signals) (_, others) =
      watch_blocked e events sent signals others
  watch_blocked e events sent (received ∷ signals) (heard, others) = absurd (ground (arith, heard))

  watch_drained :
      (events sent : List Event)
      → watch kube
          (receptions (current_of events))
          (record { sent = sent; stand = before_send events })
        ≡ record { sent = sent ++ events; stand = waiting }
  unfolding watch
  watch_drained [] sent = ap (λ l. record { sent = l; stand = waiting }) (sym (append-nil sent))
  watch_drained (e ∷ events) sent =
      watch_drained events (sent ++ e ∷ [])
      ∙ ap (λ l. record { sent = l; stand = waiting }) (append_assoc sent (e ∷ []) events)

  watch_done :
      (sent : List Event)
      → watch kube (context_done ∷ []) (record { sent = sent; stand = waiting })
        ≡ record { sent = sent; stand = returned (ok tt) }
  unfolding watch
  watch_done sent = refl

  -- In a round of the `select`, a tick that lists the Forks brings the watcher to its first send.
  watch_ticked :
      (now : Time) (w : W) (forks : List Fork) (signals : List (Signal W)) (watched : Watched)
      → watched.stand ≡ waiting
      → kube.list_forks (record { namespace = ""; label_selector = [] }) w ≡ ok forks
      → watch kube (ticked now w ∷ signals) watched
        ≡ watch kube signals
            (record { sent = watched.sent; stand = before_send (notified now forks) })
  unfolding watch tick
  watch_ticked now w forks signals watched at listed = rw (at, listed) refl

  module _ (before : List (Signal W)) (now : Time) (w : W) (forks : List Fork)
      (at : (start kube before).stand ≡ waiting)
      (listed : kube.list_forks (record { namespace = ""; label_selector = [] }) w ≡ ok forks) where
    start_ticked :
        (signals : List (Signal W))
        → start kube (before ++ ticked now w ∷ signals)
          ≡ watch kube signals
              (record { sent = (start kube before).sent; stand = before_send (notified now forks) })
    unfolding start
    start_ticked signals =
        watch-append before (ticked now w ∷ signals) _
        ∙ watch_ticked now w forks signals (start kube before) at listed

    -- If the watcher is in its `select` and takes a tick that lists the Forks, and for one of them the
    -- deadline has come, then it stands in a send until something
    -- is received: whatever else arrives, the end of its context too, it does not return and sends
    -- nothing more.
    pub start_blocked :
        (f : Fork) (deadline : Time) (signals : List (Signal W))
        → Memᴰ f forks
        → f.spec.deadline ≡ some deadline
        → deadline ≤ now
        → All (λ s. is_received s ≡ false) signals
        → (e : Event) × (events : List Event) × (start kube (before ++ ticked now w ∷ signals)
            ≡ record { sent = (start kube before).sent; stand = sending e events })
    start_blocked f deadline signals m has passed silent =
        let (e, events, some_events) = notified-cons now f deadline forks m has passed in
        (
          e,
          events,
          start_ticked signals
              ∙ ap
                  (λ l.
                    watch kube signals
                      (record { sent = (start kube before).sent; stand = before_send l }))
                  some_events
              ∙ watch_blocked e events (start kube before).sent signals silent,
        )

    -- If the watcher is in its `select` and takes a tick that lists the Forks, and then an event is
    -- received for each of them whose deadline has come, and then the context ends, then the
    -- watcher has sent one event for each of these Forks, in the order of the list, in addition to
    -- what it had sent before, and returns without an error.
    pub start_drained :
        (events : List Event) × (current_of events ≡ filter_by (has_come now) forks)
        × (start kube (
              before
              ++ ticked now w ∷ (receptions (filter_by (has_come now) forks) ++ context_done ∷ []))
            ≡ record { sent = (start kube before).sent ++ events; stand = returned (ok tt) })
    start_drained = (
      notified now forks,
      current_of-notified now forks,
      start_ticked (receptions (filter_by (has_come now) forks) ++ context_done ∷ [])
          ∙ ap
              (λ (l : List Fork). watch kube (receptions l ++ context_done ∷ []) (record {
                sent = (start kube before).sent;
                stand = before_send (notified now forks);
              }))
              (sym (current_of-notified now forks))
          ∙ watch-append (receptions (current_of (notified now forks))) (context_done ∷ []) _
          ∙ ap (watch kube (context_done ∷ []))
              (watch_drained (notified now forks) (start kube before).sent)
          ∙ watch_done ((start kube before).sent ++ notified now forks),
    )
