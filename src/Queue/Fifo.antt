-- ===== src/Queue/Fifo.antt =====
-- The queues of src/queue.c as bounded first-in first-out queues of at most 100 messages.
use mathlib.Core.List.{append_assoc}
use rn_praktikum.Base.{
  ℕ, suc, ◌+◌, ◌≤◌, ◌<◌, ◌≡◌, refl, sym, ap, ◌∙◌, List, [], ◌∷◌, ◌++◌, Option, none, some, Bool,
  true, false, ltb, leb, if◌then◌else◌, length, arith, length-append, Bool-cases, lt→ltb, leb→le,
  ltb→lt, le→not-ltb, not-ltb→le, not-leb→lt, inl, inr, ◌⊎◌,
}
use rn_praktikum.Queue.{max_queue_size, append_from, push, pop}

module _ {ℓ} {A : Type ℓ} where
  -- An abstract bounded queue, oldest first: it takes a new entry while it is not full.
  abbrev pub enqueue : List A → A → List A × Bool
  enqueue q new = if ltb (length q) max_queue_size then (q ++ new ∷ [], true) else (q, false)

  append_from-enqueue :
      (size : ℕ) (ms : List A) (new : A)
      → size < max_queue_size
      → append_from size ms new
        ≡ (if ltb (size + length ms) max_queue_size then some (ms ++ new ∷ []) else none)
  unfolding append_from
  append_from-enqueue size [] new h = rw (lt→ltb (size + 0) max_queue_size (omega arith))
  append_from-enqueue size (m ∷ ms) new h = elim (Bool-cases (leb max_queue_size (suc size))) [
    | inl e ↦ rw (e, full (omega (arith, leb→le _ _ e)))
    | inr e ↦
        rw (e, append_from-enqueue (suc size) ms new (omega (arith, not-leb→lt _ _ e)), add_suc)
          (after (ltb (size + suc (length ms)) max_queue_size))
  ]
    where
      full : max_queue_size ≤ suc size → ltb (size + suc (length ms)) max_queue_size ≡ false
      full k = le→not-ltb _ _ (omega arith)

      add_suc : suc size + length ms ≡ size + suc (length ms)
      add_suc = omega arith

      after :
          (b : Bool)
          → ◌≡◌ {A = Option (List A)}
              (elim (if b then some (ms ++ new ∷ []) else none) [
                | none ↦ none
                | some ms' ↦ some (m ∷ ms')
              ])
              (if b then some (m ∷ (ms ++ new ∷ [])) else none)
      after true = refl
      after false = refl

  -- A push appends the message and returns 0 while the queue holds fewer than 100 messages; else it
  -- returns -1 and leaves the queue as it is.
  pub push-enqueue : (q : List A) (new : A) → push q new ≡ enqueue q new
  unfolding push
  push-enqueue [] new = refl
  push-enqueue (head ∷ rest) new =
      rw (append_from-enqueue 1 rest new (omega arith), push, add_one)
        (after (ltb (suc (length rest)) max_queue_size))
    where
      add_one : 1 + length rest ≡ suc (length rest)
      add_one = omega arith

      after :
          (b : Bool)
          → ◌≡◌ {A = List A × Bool}
              (elim (if b then some (rest ++ new ∷ []) else none) [
                | none ↦ (head ∷ rest, false)
                | some rest' ↦ (head ∷ rest', true)
              ])
              (if b then (head ∷ (rest ++ new ∷ []), true) else (head ∷ rest, false))
      after true = refl
      after false = refl

  -- The two outcomes of a push, with the length that decides between them.
  pub push_cases :
      (q : List A) (new : A)
      → ((length q < max_queue_size) × (push q new ≡ (q ++ new ∷ [], true)))
        ⊎ ((max_queue_size ≤ length q) × (push q new ≡ (q, false)))
  push_cases q new = elim (Bool-cases (ltb (length q) max_queue_size)) [
    | inl e ↦ inl (ltb→lt _ _ e, rw (push-enqueue q new, e))
    | inr e ↦ inr (not-ltb→le _ _ e, rw (push-enqueue q new, e))
  ]

-- What the threads do with one queue.
pub data Op {ℓ} (A : Type ℓ) : Type ℓ where
  put : A → Op A
  get : Op A

-- A queue with the messages that it took and those that it gave out, each in order.
pub record Log {ℓ} (A : Type ℓ) : Type ℓ where
  pub queue : List A
  pub taken : List A
  pub given : List A

module _ {ℓ} {A : Type ℓ} where
  unfoldable pub step : Log A → Op A → Log A
  step l (put x) =
      let (q, ok) = push l.queue x in
      if ok then record l { queue = q; taken = l.taken ++ x ∷ [] } else record l { queue = q }
  step l get = elim (pop l.queue) [
    | none ↦ l
    | some (x, q) ↦ record l { queue = q; given = l.given ++ x ∷ [] }
  ]

  unfoldable pub run : Log A → List (Op A) → Log A
  unfolding step
  run l [] = l
  run l (o ∷ os) = run (step l o) os

  -- Nothing is lost, doubled or overtaken, and at most 100 messages wait.
  pub record IsFifo (l : Log A) : Type ℓ where
    pub order : l.taken ≡ l.given ++ l.queue
    pub bounded : length l.queue ≤ max_queue_size

  step-IsFifo : (l : Log A) (o : Op A) → IsFifo l → IsFifo (step l o)
  unfolding step pop
  step-IsFifo l (put x) v = elim (push_cases l.queue x) [
    | inl (h, e) ↦
        rw (e, step)
          (record {
            order =
                ap (λ (t : List A). t ++ x ∷ []) v.order ∙ append_assoc l.given l.queue (x ∷ []);
            bounded = omega (arith, length-append l.queue (x ∷ []));
          })
    | inr (h, e) ↦ rw (e, step) v
  ]
  step-IsFifo l get v = pop_step l.queue refl
    where
      pop_step : (q : List A) → l.queue ≡ q → IsFifo (step l get)
      pop_step [] e = rw (e, step) v
      pop_step (x ∷ q) e =
          rw (e, step)
            (record {
              order = v.order ∙ ap (◌++◌ l.given) e ∙ sym (append_assoc l.given (x ∷ []) q);
              bounded = omega (arith, ap length e, v.bounded);
            })

  -- Whatever the threads push and pop, in whatever order: the messages that were taken are those
  -- that were given out followed by those that wait, in the order of the pushes, and never more
  -- than 100 wait, when this held at the start.
  pub run-IsFifo : (l : Log A) (os : List (Op A)) → IsFifo l → IsFifo (run l os)
  unfolding run
  run-IsFifo l [] v = v
  run-IsFifo l (o ∷ os) v = run-IsFifo (step l o) os (step-IsFifo l o v)
