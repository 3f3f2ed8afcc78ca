-- ===== src/Broker/Shutdown.antt =====
-- The broker over every interleaving of requests, workers and a shutdown.
use coding_agents_databricks.Base.{
  ℕ, zero, suc, ◌≡◌, refl, true, ◌&&◌, not, Option, none, some, List, [], ◌∷◌, arith, All,
  Bool-cases, ◌⊎◌, inl, inr,
}
use coding_agents_databricks.Base.Parse.{Text}
use coding_agents_databricks.Broker.{
  Broker, Request, Admission, rejected, minting, admit, worker_exits, is_deliverable, deliver,
  begin_shutdown,
}

-- What happens to the broker: a request, the exit of a worker, the end of a wait, a shutdown.
pub data Event : Type 0 where
  request : Request → Event
  worker : Event
  wait_over : Option Text → Event
  shutdown : Event

-- The broker with the workers that run, and the bodies sent.
pub record World : Type 0 where
  pub broker : Broker
  pub workers : ℕ
  pub sent : List Text

unfoldable pub started : Admission → ℕ → ℕ
started (rejected status) n = n
started minting n = suc n

unfoldable pub note : Option Text → List Text → List Text
note none sent = sent
note (some body) sent = body ∷ sent

-- One event; a worker exits only if one runs.
unfoldable pub handle : ℕ → Event → World → World
handle m (request r) w =
    let (admission, b) = admit r w.broker in
    record w { broker = b; workers = started admission w.workers }
handle m worker w = elim w.workers [
  | zero ↦ w
  | suc n ↦ record w { broker = worker_exits w.broker; workers = n }
]
handle m (wait_over body) w = record w { sent = note (deliver m body w.broker) w.sent }
handle m shutdown w = record w { broker = begin_shutdown w.broker }

unfoldable pub handle_all : ℕ → List Event → World → World
handle_all m [] w = w
handle_all m (e ∷ es) w = handle_all m es (handle m e w)

Nat-cases : (n : ℕ) → (n ≡ zero) ⊎ ((k : ℕ) × (n ≡ suc k))
Nat-cases zero = inl refl
Nat-cases (suc k) = inr (k, refl)

note_deliverable :
    (m : ℕ) (body : Option Text) (b : Broker) (sent : List Text)
    → All (λ t. is_deliverable m t ≡ true) sent
    → All (λ t. is_deliverable m t ≡ true) (note (deliver m body b) sent)
unfolding deliver note
note_deliverable m none b sent h = h
note_deliverable m (some body) b sent h =
    elim (Bool-cases (is_deliverable m body && not b.closing)) [
      | inl t ↦ ground (arith, t, h)
      | inr f ↦ ground (arith, f, h)
    ]

event_deliverable :
    (m : ℕ) (e : Event) (w : World)
    → All (λ t. is_deliverable m t ≡ true) w.sent
    → All (λ t. is_deliverable m t ≡ true) (handle m e w).sent
unfolding handle
event_deliverable m (request r) w h = h
event_deliverable m worker w h = elim (Nat-cases w.workers) [
  | inl z ↦ ground (arith, z, h)
  | inr (n, s) ↦ ground (arith, s, h)
]
event_deliverable m (wait_over body) w h = note_deliverable m body w.broker w.sent h
event_deliverable m shutdown w h = h

-- If the bodies sent before are not empty, not too long and on one line, then so are those sent
-- after any events.
pub handle_all_deliverable :
    (m : ℕ) (es : List Event) (w : World)
    → All (λ t. is_deliverable m t ≡ true) w.sent
    → All (λ t. is_deliverable m t ≡ true) (handle_all m es w).sent
unfolding handle_all
handle_all_deliverable m [] w h = h
handle_all_deliverable m (e ∷ es) w h =
    handle_all_deliverable m es (handle m e w) (event_deliverable m e w h)
