-- ===== src/Kernel/Mailbox/Handlers.antt =====
-- The mailbox stubs: sceKernelCreateMbx, sceKernelDeleteMbx, sceKernelSendMbx, sceKernelPollMbx and
-- sceKernelReceiveMbx. A receive is two steps, up to the condition variable and from it on.
use psprism.Base.{
  ℕ, ◌+◌, ◌-◌, Bool, true, false, not, ◌&&◌, ◌||◌, ltb, ◌==◌, if◌then◌else◌, List, [], ◌∷◌, Option,
  none, some,
}
use psprism.Base.{length, drop}
use psprism.Cpu.State.{State}
use psprism.Cpu.Memory.{mapped_address, read_at, write_at, canonical_address, Pointer}
use psprism.Kernel.Table.{
  find, update, emplace, erase, returns, unimplemented, unknown_mailbox, mailbox_no_message,
  wait_timeout, wait_deleted,
}
use psprism.Kernel.Objects.{Kernel, Mailbox, allocate_uid}
use psprism.Kernel.Mailbox.Queue.{enqueue}
use psprism.Kernel.Semaphore.Handlers.{read_timeout}

-- `memchr` for 0.
abbrev has_zero : List ℕ → Bool
has_zero [] = false
has_zero (byte ∷ bytes) = byte == 0 || has_zero bytes

-- Does `guest_string` give a string?
unfoldable pub has_string : State → ℕ → Bool
unfolding canonical_address
has_string state address = elim state.memory [
  | none ↦ false
  | some bytes ↦
      let canon = canonical_address address in
      let offset = canon - state.memory_base in
      not (ltb canon state.memory_base) && ltb offset (length bytes) && has_zero (drop offset bytes)
]

unfoldable pub sce_kernel_create_mbx : Kernel → State → Kernel × State
unfolding has_string allocate_uid emplace
sce_kernel_create_mbx kernel state =
    let (uid, kernel') = allocate_uid kernel in
    let mailbox : Mailbox = record { attributes = state.gpr 5; messages = []; deleted = false } in
    if not (has_string state (state.gpr 4))
    then (kernel, returns state unimplemented)
    else (record kernel' { mailboxes = emplace uid mailbox kernel'.mailboxes }, returns state uid)

-- The mailbox that threads still wait for comes with the result.
unfoldable pub sce_kernel_delete_mbx : Kernel → State → Option Mailbox × Kernel × State
unfolding find erase
sce_kernel_delete_mbx kernel state = elim (find (state.gpr 4) kernel.mailboxes) [
  | none ↦ (none, kernel, returns state unknown_mailbox)
  | some mailbox ↦ (
    some (record mailbox { deleted = true }),
    record kernel { mailboxes = erase (state.gpr 4) kernel.mailboxes },
    returns state 0,
  )
]

abbrev put_mailbox : Kernel → ℕ → Mailbox → Kernel
put_mailbox kernel uid mailbox = record kernel { mailboxes = update uid mailbox kernel.mailboxes }

-- `none` is a read of the priority outside its host buffer.
unfoldable pub sce_kernel_send_mbx : Kernel → State → Option (Kernel × State)
unfolding find update mapped_address read_at enqueue
sce_kernel_send_mbx kernel state =
    let address = state.gpr 5 in
    elim (find (state.gpr 4) kernel.mailboxes) [
      | none ↦ some (kernel, returns state unknown_mailbox)
      | some mailbox ↦ elim (mapped_address state address 8) [
        | none ↦ some (kernel, returns state unimplemented)
        | some p ↦ elim (read_at state (record p { at = p.at + 4 }) 1) [
          | none ↦ none
          | some priority ↦ elim (enqueue mailbox.messages mailbox.attributes address priority) [
            | none ↦ some (kernel, returns state 0x800201c9)
            | some messages ↦ some (
              put_mailbox kernel (state.gpr 4) (record mailbox { messages = messages }),
              returns state 0,
            )
          ]
        ]
      ]
    ]

-- Under the lock: the first message goes to the output.
unfoldable pub poll_messages : State → Pointer → Mailbox → Option (Mailbox × State)
unfolding write_at
poll_messages state output mailbox = elim mailbox.messages [
  | [] ↦ some (mailbox, returns state mailbox_no_message)
  | message ∷ messages ↦ elim (write_at state output 4 message.address) [
    | none ↦ none
    | some state' ↦ some (record mailbox { messages = messages }, returns state' 0)
  ]
]

unfoldable pub sce_kernel_poll_mbx : Kernel → State → Option (Kernel × State)
unfolding find update mapped_address poll_messages
sce_kernel_poll_mbx kernel state = elim (find (state.gpr 4) kernel.mailboxes) [
  | none ↦ some (kernel, returns state unknown_mailbox)
  | some mailbox ↦ elim (mapped_address state (state.gpr 5) 4) [
    | none ↦ some (kernel, returns state unimplemented)
    | some output ↦ elim (poll_messages state output mailbox) [
      | none ↦ none
      | some (mailbox', state') ↦ some (put_mailbox kernel (state.gpr 4) mailbox', state')
    ]
  ]
]

-- A refused call, or a thread at the condition variable, with its output and its time.
pub data Receive : Type 0 where
  refused : State → Receive
  waiting : Mailbox → Pointer → Option ℕ → Receive

unfoldable pub sce_kernel_receive_mbx_begin : Kernel → State → Receive
unfolding find mapped_address read_timeout
sce_kernel_receive_mbx_begin kernel state = elim (find (state.gpr 4) kernel.mailboxes) [
  | none ↦ refused (returns state unknown_mailbox)
  | some mailbox ↦ elim (mapped_address state (state.gpr 5) 4) [
    | none ↦ refused (returns state unimplemented)
    | some output ↦ elim (read_timeout state (state.gpr 6)) [
      | none ↦ refused (returns state unimplemented)
      | some timeout ↦ waiting mailbox output timeout
    ]
  ]
]

-- The lambda `available`
unfoldable pub is_message_available : Bool → Mailbox → Bool
is_message_available exit_requested mailbox =
    elim mailbox.messages [ [] ↦ false | _ ∷ _ ↦ true ] || mailbox.deleted || exit_requested

-- `front` of an empty queue, which C++ leaves undefined, is `none`.
unfoldable pub sce_kernel_receive_mbx_end :
    Bool → Bool → Mailbox → Pointer → State → Option (Mailbox × State)
unfolding write_at
sce_kernel_receive_mbx_end timed_out exit_requested mailbox output state =
    let received : Option (Mailbox × State) = elim mailbox.messages [
      | [] ↦ none
      | message ∷ messages ↦ elim (write_at state output 4 message.address) [
        | none ↦ none
        | some state' ↦ some (record mailbox { messages = messages }, returns state' 0)
      ]
    ] in
    if timed_out
    then some (mailbox, returns state wait_timeout)
    else if mailbox.deleted
    then some (mailbox, returns state wait_deleted)
    else if exit_requested
    then some (mailbox, returns state 0)
    else received
