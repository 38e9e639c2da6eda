-- ===== src/Kernel/Mailbox/Queue.antt =====
-- mailbox_state.hpp
use psprism.Base.{
  ℕ, bit_and, Bool, false, ◌||◌, ltb, ◌==◌, if◌then◌else◌, List, [], ◌∷◌, ◌++◌, Option, none, some,
}
use psprism.Kernel.Objects.{Message}

abbrev pub message_priority_attribute : ℕ
message_priority_attribute = 0x400

unfoldable pub has_address : ℕ → List Message → Bool
has_address address [] = false
has_address address (message ∷ messages) =
    message.address == address || has_address address messages

-- The insertion before the first message of a larger priority.
unfoldable pub insert_by_priority : Message → List Message → List Message
insert_by_priority message [] = message ∷ []
insert_by_priority message (queued ∷ messages) =
    let rest = insert_by_priority message messages in
    if ltb message.priority queued.priority then message ∷ queued ∷ messages else queued ∷ rest

-- `none` is a refused message, whose address is in the queue.
unfoldable pub enqueue : List Message → ℕ → ℕ → ℕ → Option (List Message)
unfolding has_address insert_by_priority
enqueue messages attributes address priority =
    let message : Message = record { address = address; priority = priority } in
    if has_address address messages
    then none
    else if bit_and attributes message_priority_attribute == 0
    then some (messages ++ message ∷ [])
    else some (insert_by_priority message messages)
