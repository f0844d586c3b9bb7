-- ===== src/Telemetry/Batch.antt =====
-- A queue with a flush timer: `queue`, `flushTimer`, `scheduleFlush` and `flush` of
-- frontend/src/lib/errorReporter.ts, and their counterparts in frontend/src/lib/webVitals.ts.
-- Times are milliseconds; a timer is the time at which it is due.
use learn_pg.Prelude.{
  ℕ, ◌+◌, ◌≡◌, refl, sym, ap, ◌∙◌, map, ◌⊎◌, inl, inr, Bool, true, false, Option, none, some, List,
  [], ◌∷◌, ◌++◌, leb, Bool-cases,
}
use mathlib.Core.List.{append-nil, append_assoc, map-append}

pub record Batch {ℓ} (A : Type ℓ) : Type ℓ where
  pub queue : List A
  pub flush_timer : Option ℕ

abbrev pub armed : ℕ → Option ℕ → Option ℕ
armed due none = some due
armed due (some t) = some t

abbrev pub is_due : ℕ → Option ℕ → Bool
is_due now none = false
is_due now (some t) = leb t now

armed-some : (due : ℕ) (o : Option ℕ) → (t : ℕ) × (armed due o ≡ some t)
armed-some due none = (due, refl)
armed-some due (some t) = (t, refl)

module _ {ℓ} {A : Type ℓ} where
  abbrev pub empty : Batch A
  empty = record { queue = []; flush_timer = none }

  unfoldable pub schedule_flush : ℕ → ℕ → Batch A → Batch A
  schedule_flush delay now b = record b { flush_timer = armed (now + delay) b.flush_timer }

  unfoldable pub push : ℕ → ℕ → A → Batch A → Batch A
  unfolding schedule_flush
  push delay now a b = schedule_flush delay now (record b { queue = b.queue ++ a ∷ [] })

  -- Takes the whole queue. An empty queue makes no request, and its batch is empty.
  unfoldable pub flush : Batch A → Batch A × List A
  flush b = (record b { queue = [] }, b.queue)

  abbrev pub fire_if : Bool → Batch A → Batch A × List A
  fire_if true b = flush (record b { flush_timer = none })
  fire_if false b = (b, [])

  -- The timer's callback, which runs once the time has come.
  unfoldable pub fire : ℕ → Batch A → Batch A × List A
  unfolding flush
  fire now b = fire_if (is_due now b.flush_timer) b

  unfoldable pub flush_now : Batch A → Batch A × List A
  unfolding flush
  flush_now b = flush (record b { flush_timer = none })

  -- Nothing waits in the queue without a timer that will send it.
  abbrev pub IsArmed : Batch A → Type ℓ
  IsArmed b = (b.queue ≡ []) ⊎ ((t : ℕ) × (b.flush_timer ≡ some t))

  pub push-IsArmed : (delay now : ℕ) (a : A) (b : Batch A) → IsArmed (push delay now a b)
  unfolding push
  push-IsArmed delay now a b = inr (armed-some (now + delay) b.flush_timer)

  pub fire-IsArmed : (now : ℕ) (b : Batch A) → IsArmed b → IsArmed (fire now b).0
  unfolding fire
  fire-IsArmed now b h = elim (Bool-cases (is_due now b.flush_timer)) [
    | inl due ↦ rw due (inl refl)
    | inr early ↦ rw early h
  ]

  pub flush_now-IsArmed : (b : Batch A) → IsArmed (flush_now b).0
  unfolding flush_now
  flush_now-IsArmed b = inl refl

  -- What a step sends, with what it leaves in the queue, is what the queue held.
  abbrev pub Conserves : Batch A → Batch A × List A → Type ℓ
  Conserves b r = r.1 ++ r.0.queue ≡ b.queue

  pub fire-Conserves : (now : ℕ) (b : Batch A) → Conserves b (fire now b)
  unfolding fire
  fire-Conserves now b = elim (Bool-cases (is_due now b.flush_timer)) [
    | inl due ↦ rw due (append-nil b.queue)
    | inr early ↦ rw early refl
  ]

  pub flush_now-Conserves : (b : Batch A) → Conserves b (flush_now b)
  unfolding flush_now
  flush_now-Conserves b = append-nil b.queue

  pub queue-push :
      (delay now : ℕ) (a : A) (b : Batch A) → (push delay now a b).queue ≡ b.queue ++ a ∷ []
  unfolding push
  queue-push delay now a b = refl

-- Two runs of a queue, one after the other: what the first sends and leaves, and what the second makes
-- of that.
pub sent_glue {ℓ κ} :
    {A : Type ℓ} {B : Type κ} (f : A → B) (sent more left end : List A) (queued asked rest : List B)
    → map f (sent ++ left) ≡ queued ++ asked
    → map f (more ++ end) ≡ map f left ++ rest
    → map f ((sent ++ more) ++ end) ≡ queued ++ (asked ++ rest)
sent_glue f sent more left end queued asked rest p q =
    ap (map f) (append_assoc sent more end)
    ∙ map-append f sent (more ++ end)
    ∙ ap (λ l. map f sent ++ l) q
    ∙ sym (append_assoc (map f sent) (map f left) rest)
    ∙ ap (λ l. l ++ rest) (sym (map-append f sent left) ∙ p)
    ∙ append_assoc queued asked rest
