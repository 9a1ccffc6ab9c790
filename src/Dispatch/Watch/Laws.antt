-- ===== src/Dispatch/Watch/Laws.antt =====
-- The life of the wake pipe, in src/drogon_server.cpp and src/r_dispatcher.cpp.
use drogon_r.Prelude.{
  ℕ, ◌≡◌, refl, sym, ap, subst, Bool, ◌∙◌, ◌⊎◌, inl, inr, true, false, List, [], ◌∷◌, ◌++◌, Option,
  none, some, arith,
}
use drogon_r.Queue.{
  QueueState, enqueue_request, push_request, notify_dispatcher, init_queue_wakeup, drain_queue,
  drain_wake_pipe, reset_queue_wakeup,
}
use drogon_r.Dispatch.Watch.{
  Watch, Process, apply_log_level_from_env, ensure_dispatcher_running, shutdown_dispatcher,
  register_dispatcher_fd, unregister_dispatcher_fd, take_requests, arm, use_pipe,
}

module _ {A : Type 0} where
  -- A wait that fires has left the list of `later`; without a descriptor runDispatcher returns.
  abbrev pub fire : Watch A → Watch A
  fire w = elim w.dispatcher_fd [ none ↦ w | some fd ↦ arm (take_requests w).0 ]

  pub data Step (w : Watch A) : Watch A → Type 0 where
    ensures : (p : Process) → Step w (ensure_dispatcher_running p w).0
    shuts : Step w (shutdown_dispatcher w)
    accepts : (req : A) → Step w (record w { queue = (enqueue_request req w.queue).0 })
    fires :
        (before after : List (Option ℕ)) (fd : Option ℕ)
        → w.waits ≡ before ++ fd ∷ after
        → Step w (fire (record w { waits = before ++ after }))

  pub data Reach (w : Watch A) : Watch A → Type 0 where
    here : Reach w w
    next : {u v : Watch A} → Reach w u → Step u v → Reach w v

  -- No pipe, and nothing refers to one.
  pub record IsDown (w : Watch A) : Type 0 where
    pub ready : w.later_fd ≡ true
    pub pipe : w.wake_pipe ≡ none
    pub polled : w.dispatcher_fd ≡ none
    pub read_end : w.queue.wake_read_fd ≡ none
    pub write_end : w.queue.wake_write_fd ≡ none

  -- One pipe: its read end is polled and drained, its write end written to, and `later` waits on it.
  pub record IsUp (r e : ℕ) (w : Watch A) : Type 0 where
    pub ready : w.later_fd ≡ true
    pub pipe : w.wake_pipe ≡ some (r, e)
    pub polled : w.dispatcher_fd ≡ some r
    pub read_end : w.queue.wake_read_fd ≡ some r
    pub write_end : w.queue.wake_write_fd ≡ some e
    pub armed : (before after : List (Option ℕ)) × (w.waits ≡ before ++ some r ∷ after)

  pub IsEither : Watch A → Type 0
  IsEither w = IsDown w ⊎ ((r e : ℕ) × IsUp r e w)

  -- Only the log level can change.
  level_shape :
      (p : Process) (w : Watch A)
      → apply_log_level_from_env p w
        ≡ record w { log_level = (apply_log_level_from_env p w).log_level }
  unfolding apply_log_level_from_env
  level_shape p w = ground arith

  level-Down : (p : Process) (w : Watch A) → IsDown w → IsDown (apply_log_level_from_env p w)
  level-Down p w h = subst IsDown (sym (level_shape p w)) (record {
    ready = h.ready;
    pipe = h.pipe;
    polled = h.polled;
    read_end = h.read_end;
    write_end = h.write_end;
  })

  level-Up :
      (p : Process) (r e : ℕ) (w : Watch A) → IsUp r e w → IsUp r e (apply_log_level_from_env p w)
  level-Up p r e w h = subst (IsUp r e) (sym (level_shape p w)) (record {
    ready = h.ready;
    pipe = h.pipe;
    polled = h.polled;
    read_end = h.read_end;
    write_end = h.write_end;
    armed = h.armed;
  })

  start-Up :
      (r e : ℕ) (w : Watch A)
      → w.later_fd ≡ true
      → IsUp r e (register_dispatcher_fd r (use_pipe r e w)).0
  unfolding register_dispatcher_fd init_queue_wakeup
  start-Up r e w h = simp h (record {
    ready = refl;
    pipe = refl;
    polled = refl;
    read_end = refl;
    write_end = refl;
    armed = (w.waits, [], refl);
  })

  ensure-Either :
      (p : Process) (w : Watch A) → IsEither w → IsEither (ensure_dispatcher_running p w).0
  unfolding IsEither ensure_dispatcher_running
  ensure-Either p w (inr (r, e, h)) =
      simp (h.pipe, ensure_dispatcher_running) (inr (r, e, level-Up p r e w h))
  ensure-Either p w (inl h) =
      simp (h.pipe, ensure_dispatcher_running) (by_pipe p.new_pipe (level-Down p w h))
    where
      by_pipe :
          {v : Watch A} (pipe : Option (ℕ × ℕ))
          → IsDown v
          → IsEither (
              (elim pipe as (λ x. Watch A × Bool) [
                | none ↦ (v, false)
                | some (r, e) ↦ register_dispatcher_fd r (use_pipe r e v)
              ]).0)
      by_pipe none d = inl d
      by_pipe {v} (some (r, e)) d = inr (r, e, start-Up r e v d.ready)

  pub shutdown-Down :
      (r e : ℕ) (w : Watch A)
      → IsUp r e w
      → IsDown (shutdown_dispatcher w)
        × ((shutdown_dispatcher w).queue.queue ≡ [])
        × ((shutdown_dispatcher w).closed ≡ w.closed ++ r ∷ e ∷ [])
  unfolding shutdown_dispatcher unregister_dispatcher_fd reset_queue_wakeup
  shutdown-Down r e w h =
      simp (h.pipe, shutdown_dispatcher)
        (
          record { ready = h.ready; pipe = refl; polled = refl; read_end = refl; write_end = refl },
          refl,
          refl,
        )

  shutdown-Either : (w : Watch A) → IsEither w → IsEither (shutdown_dispatcher w)
  unfolding IsEither shutdown_dispatcher
  shutdown-Either w (inl h) = simp (h.pipe, shutdown_dispatcher) (inl h)
  shutdown-Either w (inr (r, e, h)) = inl (shutdown-Down r e w h).0

  accept_shape :
      (req : A) (q : QueueState A)
      → (enqueue_request req q).0 ≡ record q {
        queue = (enqueue_request req q).0.queue;
        pipe = (enqueue_request req q).0.pipe;
      }
  unfolding enqueue_request push_request notify_dispatcher
  accept_shape req q = ground arith

  accept-Either :
      (req : A) (w : Watch A)
      → IsEither w
      → IsEither (record w { queue = (enqueue_request req w.queue).0 })
  unfolding IsEither
  accept-Either req w (inl h) = inl (record {
    ready = h.ready;
    pipe = h.pipe;
    polled = h.polled;
    read_end = ap (λ q. q.wake_read_fd) (accept_shape req w.queue) ∙ h.read_end;
    write_end = ap (λ q. q.wake_write_fd) (accept_shape req w.queue) ∙ h.write_end;
  })
  accept-Either req w (inr (r, e, h)) = inr (
    r,
    e,
    record {
      ready = h.ready;
      pipe = h.pipe;
      polled = h.polled;
      read_end = ap (λ q. q.wake_read_fd) (accept_shape req w.queue) ∙ h.read_end;
      write_end = ap (λ q. q.wake_write_fd) (accept_shape req w.queue) ∙ h.write_end;
      armed = h.armed;
    },
  )

  fire-Either :
      (before after : List (Option ℕ)) (w : Watch A)
      → IsEither w
      → IsEither (fire (record w { waits = before ++ after }))
  unfolding IsEither take_requests drain_queue drain_wake_pipe
  fire-Either before after w (inl h) = simp (h.polled) (
      inl (record {
        ready = h.ready;
        pipe = h.pipe;
        polled = refl;
        read_end = h.read_end;
        write_end = h.write_end;
      }))
  fire-Either before after w (inr (r, e, h)) = simp (h.polled) (
      inr (
        r,
        e,
        record {
          ready = h.ready;
          pipe = h.pipe;
          polled = refl;
          read_end = h.read_end;
          write_end = h.write_end;
          armed = (before ++ after, [], refl);
        },
      ))

  Step-Either : {w v : Watch A} → Step w v → IsEither w → IsEither v
  Step-Either {w} (ensures p) h = ensure-Either p w h
  Step-Either {w} shuts h = shutdown-Either w h
  Step-Either {w} (accepts req) h = accept-Either req w h
  Step-Either {w} (fires before after fd e) h = fire-Either before after w h

  -- Whatever the order of starts, stops, requests and fired waits, from an R session whose later is
  -- loaded and which has no pipe: either there is none, and no part refers to one, or there is one,
  -- whose read end is polled by a wait of later, so that a byte in it wakes the main thread.
  pub pump_is_armed : {w v : Watch A} → Reach w v → IsDown w → IsEither v
  unfolding IsEither
  pump_is_armed here h = inl h
  pump_is_armed (next r s) h = Step-Either s (pump_is_armed r h)
