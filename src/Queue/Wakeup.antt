-- ===== src/Queue/Wakeup.antt =====
-- The wake-up of `runDispatcher` of src/r_dispatcher.cpp against the producers, step by step.
-- A producer appends under a lock and writes its wake byte later, so any steps may fall between.
use drogon_r.Prelude.{ℕ, suc, ◌+◌, ◌<◌, ◌≡◌, List, [], ◌∷◌, ◌++◌, none, some, arith, ◌≢◌, ◌⊎◌, inl}
use drogon_r.Queue.{QueueState, push_request, notify_dispatcher, drain_queue, drain_wake_pipe}

-- Where the main thread stands: in poll(), or behind a call of `runDispatcher`.
pub data Phase : Type 0 where
  waiting woken pipe_drained requests_drained ws_drained : Phase

-- The three queues that ride the one pipe, and the producers that have pushed but not yet written.
pub record World (A B C : Type 0) : Type 0 where
  pub requests : QueueState A
  pub ws_events : List B
  pub client_events : List C
  pub unwritten : ℕ
  pub phase : Phase

module _ {A B C : Type 0} where
  unfoldable pub pushed : QueueState A → World A B C → World A B C
  pushed q w = record w { requests = q; unwritten = suc w.unwritten }

  unfoldable pub written : ℕ → World A B C → World A B C
  written n w = record w { requests = notify_dispatcher w.requests; unwritten = n }

  -- The order of `runDispatcher`: the pipe, the requests, the WebSocket events, the client's events.
  unfoldable pub drain_pipe_step : World A B C → World A B C
  drain_pipe_step w = record w { requests = drain_wake_pipe w.requests; phase = pipe_drained }

  unfoldable pub drain_requests_step : World A B C → World A B C
  drain_requests_step w = record w {
    requests = (drain_queue w.requests).0;
    phase = requests_drained;
  }

  unfoldable pub drain_ws_step : World A B C → World A B C
  drain_ws_step w = record w { ws_events = []; phase = ws_drained }

  unfoldable pub drain_client_step : World A B C → World A B C
  drain_client_step w = record w { client_events = []; phase = waiting }

  pub data Step (w : World A B C) : World A B C → Type 0 where
    push : (req : A) {q : QueueState A} → push_request req w.requests ≡ some q → Step w (pushed q w)
    push_ws :
        (e : B)
        → Step w (record w { ws_events = w.ws_events ++ e ∷ []; unwritten = suc w.unwritten })
    push_client :
        (e : C)
        → Step w
            (record w { client_events = w.client_events ++ e ∷ []; unwritten = suc w.unwritten })
    write : (n : ℕ) → w.unwritten ≡ suc n → Step w (written n w)
    wake : w.phase ≡ waiting → Step w (record w { phase = woken })
    drain_pipe : w.phase ≡ woken → Step w (drain_pipe_step w)
    drain_requests : w.phase ≡ pipe_drained → Step w (drain_requests_step w)
    drain_ws : w.phase ≡ requests_drained → Step w (drain_ws_step w)
    drain_client : w.phase ≡ ws_drained → Step w (drain_client_step w)

  pub data Reach (w : World A B C) : World A B C → Type 0 where
    here : Reach w w
    next : {u v : World A B C} → Reach w u → Step u v → Reach w v

  -- A wake byte stands in the pipe, or a producer is about to write one.
  abbrev pub Signalled : World A B C → Type 0
  Signalled w = 0 < w.requests.pipe + w.unwritten

  pub record IsHeard (w : World A B C) : Type 0 where
    pub writable : w.requests.wake_write_fd ≢ none
    pub roomy : 0 < w.requests.pipe_size
    pub requests_heard :
        (w.requests.queue ≡ []) ⊎ (Signalled w ⊎ ((w.phase ≡ woken) ⊎ (w.phase ≡ pipe_drained)))
    pub ws_heard :
        (w.ws_events ≡ [])
        ⊎ (Signalled w
            ⊎ ((w.phase ≡ woken) ⊎ ((w.phase ≡ pipe_drained) ⊎ (w.phase ≡ requests_drained))))
    pub client_heard :
        (w.client_events ≡ [])
        ⊎ (Signalled w
            ⊎ ((w.phase ≡ woken)
                ⊎ ((w.phase ≡ pipe_drained)
                    ⊎ ((w.phase ≡ requests_drained) ⊎ (w.phase ≡ ws_drained)))))

  Step-IsHeard : {w v : World A B C} → Step w v → IsHeard w → IsHeard v
  unfolding push_request pushed written drain_pipe_step drain_requests_step drain_ws_step
      drain_client_step notify_dispatcher drain_queue drain_wake_pipe
  Step-IsHeard (push req e) h = ground arith
  Step-IsHeard (push_ws e) h = ground arith
  Step-IsHeard (push_client e) h = ground arith
  Step-IsHeard (write n e) h = ground arith
  Step-IsHeard (wake e) h = ground arith
  Step-IsHeard (drain_pipe e) h = ground arith
  Step-IsHeard (drain_requests e) h = ground arith
  Step-IsHeard (drain_ws e) h = ground arith
  Step-IsHeard (drain_client e) h = ground arith

  Reach-IsHeard : {w v : World A B C} → Reach w v → IsHeard w → IsHeard v
  Reach-IsHeard here h = h
  Reach-IsHeard (next r s) h = Step-IsHeard s (Reach-IsHeard r h)

-- Start with empty queues and a pipe that is set up and can hold a byte. Whenever the main thread
-- waits and a request or a WebSocket event is queued, a wake byte stands in the pipe or a producer
-- has yet to write its own, whatever steps the producers and the dispatcher have made.
pub no_lost_wakeup :
    {A B C : Type 0} (fd : ℕ) (w₀ v : World A B C)
    → w₀.requests.queue ≡ []
    → w₀.ws_events ≡ []
    → w₀.client_events ≡ []
    → w₀.requests.wake_write_fd ≡ some fd
    → 0 < w₀.requests.pipe_size
    → Reach w₀ v
    → v.phase ≡ waiting
    → (v.requests.queue ≢ []) ⊎ ((v.ws_events ≢ []) ⊎ (v.client_events ≢ []))
    → Signalled v
no_lost_wakeup fd w₀ v eq_r eq_w eq_c bound room path phase busy =
    let start : IsHeard w₀ = record {
      writable = λ e. cc;
      roomy = room;
      requests_heard = inl eq_r;
      ws_heard = inl eq_w;
      client_heard = inl eq_c;
    } in
    let h = Reach-IsHeard path start in ground (arith, h.requests_heard, h.ws_heard, h.client_heard)
