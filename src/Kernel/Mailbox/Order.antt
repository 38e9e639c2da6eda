-- ===== src/Kernel/Mailbox/Order.antt =====
-- What the queue of a mailbox promises, and that `enqueue` keeps it.
use psprism.Base.{ℕ, ◌≤◌, ◌<◌, ◌≡◌, refl, subst, ap, ◌∙◌, arith, bit_and, Bool, false, ◌||◌, ltb}
use psprism.Base.{◌==◌, if◌then◌else◌, List, [], ◌∷◌, ◌++◌, Bool-cases, inl, inr, some}
use psprism.Base.Sorting.{SortedFrom, IsSorted}
use psprism.Kernel.Objects.{Message}
use psprism.Kernel.Mailbox.Queue.{
  message_priority_attribute, has_address, insert_by_priority, enqueue,
}

abbrev pub priority_of : Message → ℕ
priority_of message = message.priority

-- The messages of one priority, in the order of the queue.
unfoldable pub of_priority : ℕ → List Message → List Message
of_priority priority [] = []
of_priority priority (message ∷ messages) =
    let rest = of_priority priority messages in
    if message.priority == priority then message ∷ rest else rest

-- No address twice.
abbrev pub IsDistinct : List Message → Type 0
IsDistinct [] = Unit
IsDistinct (message ∷ messages) =
    (has_address message.address messages ≡ false) × IsDistinct messages

of_priority-append :
    (priority : ℕ) (messages : List Message) (message : Message)
    → of_priority priority (messages ++ message ∷ []) ≡ (
        if message.priority == priority
        then of_priority priority messages ++ message ∷ []
        else of_priority priority messages)
unfolding of_priority
of_priority-append priority [] message = refl
of_priority-append priority (queued ∷ messages) message =
    ground (arith, of_priority-append priority messages message)

-- Below a bound there is nothing.
of_priority-SortedFrom :
    (priority low : ℕ) (messages : List Message)
    → priority < low
    → SortedFrom priority_of low messages
    → of_priority priority messages ≡ []
unfolding of_priority
of_priority-SortedFrom priority low [] h s = refl
of_priority-SortedFrom priority low (message ∷ messages) h s =
    ground (arith, of_priority-SortedFrom priority message.priority messages)

of_priority-insert :
    (priority low : ℕ) (message : Message) (messages : List Message)
    → SortedFrom priority_of low messages
    → of_priority priority (insert_by_priority message messages)
      ≡ of_priority priority (messages ++ message ∷ [])
unfolding of_priority insert_by_priority
of_priority-insert priority low message [] s = refl
of_priority-insert priority low message (queued ∷ messages) s =
    elim (Bool-cases (ltb message.priority queued.priority)) [
      | inl e ↦ rw e (
          ground (
            arith,
            of_priority-append priority messages message,
            of_priority-SortedFrom priority queued.priority messages,
          ))
      | inr e ↦ rw e (
          ap (λ (t : List Message). if queued.priority == priority then queued ∷ t else t)
            (of_priority-insert priority queued.priority message messages (ground arith)))
    ]

SortedFrom-insert :
    (low : ℕ) (message : Message) (messages : List Message)
    → low ≤ message.priority
    → SortedFrom priority_of low messages
    → SortedFrom priority_of low (insert_by_priority message messages)
unfolding insert_by_priority
SortedFrom-insert low message [] h s = (h, tt)
SortedFrom-insert low message (queued ∷ messages) h s =
    elim (Bool-cases (ltb message.priority queued.priority)) [
      | inl e ↦ rw e (ground arith)
      | inr e ↦ rw e (s.0, SortedFrom-insert queued.priority message messages (ground arith) s.1)
    ]

has_address-append :
    (address : ℕ) (messages : List Message) (message : Message)
    → has_address address (messages ++ message ∷ [])
      ≡ (has_address address messages || message.address == address)
unfolding has_address
has_address-append address [] message = ground arith
has_address-append address (queued ∷ messages) message =
    ground (arith, has_address-append address messages message)

has_address-insert :
    (address : ℕ) (message : Message) (messages : List Message)
    → has_address address (insert_by_priority message messages)
      ≡ (has_address address messages || message.address == address)
unfolding has_address insert_by_priority
has_address-insert address message [] = ground arith
has_address-insert address message (queued ∷ messages) =
    ground (arith, has_address-insert address message messages)

IsDistinct-append :
    (message : Message) (messages : List Message)
    → IsDistinct messages
    → has_address message.address messages ≡ false
    → IsDistinct (messages ++ message ∷ [])
unfolding has_address
IsDistinct-append message [] d h = (refl, tt)
IsDistinct-append message (queued ∷ messages) d h = (
  ground (arith, has_address-append queued.address messages message),
  IsDistinct-append message messages d.1 (ground arith),
)

IsDistinct-insert :
    (message : Message) (messages : List Message)
    → IsDistinct messages
    → has_address message.address messages ≡ false
    → IsDistinct (insert_by_priority message messages)
unfolding has_address insert_by_priority
IsDistinct-insert message [] d h = (refl, tt)
IsDistinct-insert message (queued ∷ messages) d h =
    elim (Bool-cases (ltb message.priority queued.priority)) [
      | inl e ↦ rw e (h, d)
      | inr e ↦ rw e (
        ground (arith, has_address-insert queued.address message messages),
        IsDistinct-insert message messages d.1 (ground arith),
      )
    ]

-- The addresses are distinct, and with the priority attribute the priorities ascend.
pub record IsQueue (attributes : ℕ) (messages : List Message) : Type 0 where
  pub distinct : IsDistinct messages
  pub ordered :
      (if bit_and attributes message_priority_attribute == 0
        then Unit
        else IsSorted priority_of messages)

-- For a queue of distinct addresses, in ascending order of priority if the attributes ask for it:
-- a message that `enqueue` accepts has an address that is not in the queue, the new queue is
-- again such a queue, and the message stands behind every message of its own priority, so that
-- the messages of each priority stay in the order they came.
pub enqueue-IsQueue :
    (attributes address priority : ℕ) {messages messages' : List Message}
    → IsQueue attributes messages
    → enqueue messages attributes address priority ≡ some messages'
    → (level : ℕ)
    → (has_address address messages ≡ false)
      × IsQueue attributes messages'
      × (of_priority level messages' ≡ (
          if priority == level
          then of_priority level messages ++ record { address = address; priority = priority } ∷ []
          else of_priority level messages))
unfolding enqueue
enqueue-IsQueue attributes address priority {messages = messages} {messages' = messages'} q h
      level =
    let message : Message = record { address = address; priority = priority } in
    elim (Bool-cases (has_address address messages)) [
      | inl e ↦ absurd (ground (arith, e, h))
      | inr e ↦ elim (Bool-cases (bit_and attributes message_priority_attribute == 0)) [
        | inl f ↦
            let is_next : messages' ≡ messages ++ message ∷ [] = ground (arith, e, f, h) in
            rw is_next (
              e,
              record {
                distinct = IsDistinct-append message messages q.distinct e;
                ordered = rw f tt;
              },
              of_priority-append level messages message,
            )
        | inr f ↦
            let is_next : messages' ≡ insert_by_priority message messages =
              ground (arith, e, f, h) in
            let ordered : IsSorted priority_of messages =
              subst (λ (b : Bool). if b then Unit else IsSorted priority_of messages) f q.ordered in
            rw is_next (
              e,
              record {
                distinct = IsDistinct-insert message messages q.distinct e;
                ordered = rw f (SortedFrom-insert 0 message messages (omega arith) ordered);
              },
              of_priority-insert level 0 message messages ordered
                  ∙ of_priority-append level messages message,
            )
      ]
    ]
