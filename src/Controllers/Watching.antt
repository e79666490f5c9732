-- ===== src/Controllers/Watching.antt =====
-- `forkWatcher.Start` of controllers/fork_watcher.go: the loop around the ticks, and the sends on its
-- channel, which has no buffer.
use kubefork_controller.Base.{List, [], ◌∷◌, ◌++◌}
use kubefork_controller.Base.Result.{Result, ok, err}
use kubefork_controller.Api.{Time}
use kubefork_controller.Kube.{Kube}
use kubefork_controller.Controllers.{Event, tick}

-- What may happen around the watcher: its context ends; its ticker fires, with the time that `time.Now`
-- then returns and the world that `List` then reads; or the other side of the channel is ready to
-- receive. A signal that the watcher does not wait for passes it by: a context that has ended, and a
-- tick that the ticker keeps, can come again.
pub data Signal (W : Type 0) : Type 0 where
  context_done received : Signal W
  ticked : Time → W → Signal W

-- Where `Start` stands: in its `select`, in the send of an event, with the events of the tick that come
-- after it, or at its end.
pub data Stand : Type 0 where
  waiting : Stand
  sending : Event → List Event → Stand
  returned : Result (Unit {0}) → Stand

pub record Watched : Type 0 where
  pub sent : List Event
  pub stand : Stand

abbrev pub before_send : List Event → Stand
before_send [] = waiting
before_send (e ∷ events) = sending e events

abbrev pub after_tick : Result (List Event) → Stand
after_tick (ok events) = before_send events
after_tick (err e) = returned (err e)

module _ {W : Type 0} (kube : Kube W) where
  abbrev pub on_signal : Signal W → Stand → List Event → Watched
  on_signal context_done waiting sent = record { sent = sent; stand = returned (ok tt) }
  on_signal (ticked now w) waiting sent = record {
    sent = sent;
    stand = after_tick (tick kube now w);
  }
  on_signal received (sending e events) sent = record {
    sent = sent ++ e ∷ [];
    stand = before_send events;
  }
  on_signal _ stand sent = record { sent = sent; stand = stand }

  -- The loop, over the signals that arrive, from where it stands.
  unfoldable pub watch : List (Signal W) → Watched → Watched
  watch [] watched = watched
  watch (signal ∷ signals) watched = watch signals (on_signal signal watched.stand watched.sent)

  -- `Start`
  unfoldable pub start : List (Signal W) → Watched
  unfolding watch
  start signals = watch signals (record { sent = []; stand = waiting })
