-- ===== src/Queue/Laws.antt =====
-- The queue of src/request_queue.cpp over any sequence of calls.
use drogon_r.Prelude.{
  inr, ◌≤◌, ◌<◌, ◌≡◌, sym, ◌∙◌, true, false, List, [], ◌∷◌, ◌++◌, append-nil, append_assoc, arith,
  length, length-append, if◌then◌else◌, ◌⊎◌,
}
use drogon_r.Queue.{QueueState, enqueue_request, drain_queue, notify_dispatcher}

module _ {A : Type 0} where
  -- A request is accepted exactly when the queue has no limit or is below it. An accepted request
  -- goes to the end; a refused one changes nothing.
  pub enqueue_request_cases :
      (req : A) (q : QueueState A)
      → ((q.queue_max_size ≡ 0) ⊎ (length q.queue < q.queue_max_size))
          × (enqueue_request req q
              ≡ (notify_dispatcher (record q { queue = q.queue ++ req ∷ [] }), true))
        ⊎ (0 < q.queue_max_size)
          × (q.queue_max_size ≤ length q.queue)
          × (enqueue_request req q ≡ (q, false))
  unfolding enqueue_request
  enqueue_request_cases req q = ground arith

-- The calls of a run: an I/O thread's `enqueueRequest` and the dispatcher's `drainQueue`.
pub data Call (A : Type 0) : Type 0 where
  enqueues : A → Call A
  drains : Call A

-- The state after a run, what was accepted and what was drained, each in its order.
pub record Run (A : Type 0) : Type 0 where
  pub state : QueueState A
  pub accepted : List A
  pub drained : List A

module _ {A : Type 0} where
  unfoldable pub call : Call A → Run A → Run A
  call (enqueues req) r =
      let (q, taken) = enqueue_request req r.state in
      record r { state = q; accepted = if taken then r.accepted ++ req ∷ [] else r.accepted }
  call drains r =
      let (q, items) = drain_queue r.state in record r { state = q; drained = r.drained ++ items }

  unfoldable pub run : List (Call A) → Run A → Run A
  run [] r = r
  run (c ∷ cs) r = run cs (call c r)

  pub record IsOrdered (r : Run A) : Type 0 where
    pub order : r.drained ++ r.state.queue ≡ r.accepted
    pub bound : (r.state.queue_max_size ≡ 0) ⊎ (length r.state.queue ≤ r.state.queue_max_size)

  enqueue-IsOrdered : (req : A) (r : Run A) → IsOrdered r → IsOrdered (call (enqueues req) r)
  unfolding call enqueue_request
  enqueue-IsOrdered req r h = ground (
    arith,
    sym (append_assoc r.drained r.state.queue (req ∷ [])),
    length-append r.state.queue (req ∷ []),
  )

  drain-IsOrdered : (r : Run A) → IsOrdered r → IsOrdered (call drains r)
  unfolding call drain_queue
  drain-IsOrdered r h = record {
    order = append-nil (r.drained ++ r.state.queue) ∙ h.order;
    bound = inr (omega arith);
  }

  call-IsOrdered : (c : Call A) (r : Run A) → IsOrdered r → IsOrdered (call c r)
  call-IsOrdered (enqueues req) r h = enqueue-IsOrdered req r h
  call-IsOrdered drains r h = drain-IsOrdered r h

  run-IsOrdered : (cs : List (Call A)) (r : Run A) → IsOrdered r → IsOrdered (run cs r)
  unfolding run
  run-IsOrdered [] r h = h
  run-IsOrdered (c ∷ cs) r h = run-IsOrdered cs (call c r) (call-IsOrdered c r h)

-- After any calls on an empty queue, the requests drained so far followed by those still queued are
-- the accepted requests in the order of acceptance, and a limited queue is within its limit.
pub run-order :
    {A : Type 0} (cs : List (Call A)) (q : QueueState A)
    → q.queue ≡ []
    → IsOrdered (run cs (record { state = q; accepted = []; drained = [] }))
run-order cs q e = run-IsOrdered cs _ (record { order = e; bound = inr (rw e (omega arith)) })
