-- ===== src/Kernel/EventFlag/Operations.antt =====
-- The stubs of event flags; a wait is two steps, up to the condition variable and from it on.
use psprism.Base.{
  ℕ, ◌+◌, ◌-◌, ◌^◌, Bool, not, ◌||◌, ◌==◌, if◌then◌else◌, Option, none, some, bit_and, bit_or, u32,
}
use psprism.Cpu.State.{State}
use psprism.Kernel.Table.{
  find, update, emplace, erase, has, returns, unimplemented, event_flag_condition,
}
use psprism.Kernel.Objects.{Kernel, EventFlag, allocate_uid}
use psprism.Kernel.Memory.Handlers.{put_output}

-- The lambda `matched`: bit 0 of the mode asks for one of the bits, else all of them are needed.
unfoldable pub is_matched : ℕ → ℕ → ℕ → Bool
is_matched bits pattern mode =
    if not (bit_and mode 1 == 0)
    then not (bit_and bits pattern == 0)
    else bit_and bits pattern == pattern

-- The bits that a matched wait leaves.
unfoldable pub consume : ℕ → ℕ → ℕ → ℕ
consume bits pattern mode =
    if not (bit_and mode 0x20 == 0)
    then 0
    else if not (bit_and mode 0x10 == 0)
    then bit_and bits (0xffffffff - pattern)
    else bits

abbrev put_event_flag : Kernel → ℕ → EventFlag → Kernel
put_event_flag kernel uid event = record kernel {
  event_flags = update uid event kernel.event_flags;
}

unfoldable pub sce_kernel_create_event_flag : Kernel → State → Kernel × State
unfolding allocate_uid emplace
sce_kernel_create_event_flag kernel state =
    let (uid, kernel') = allocate_uid kernel in
    let event : EventFlag = record {
      attributes = state.gpr 5;
      initial_bits = state.gpr 6;
      bits = state.gpr 6;
      waiting_threads = 0;
    } in
    (record kernel' { event_flags = emplace uid event kernel'.event_flags }, returns state uid)

unfoldable pub sce_kernel_delete_event_flag : Kernel → State → Kernel × State
unfolding has erase
sce_kernel_delete_event_flag kernel state = (
  record kernel { event_flags = erase (state.gpr 4) kernel.event_flags },
  returns state (if has (state.gpr 4) kernel.event_flags then 0 else unimplemented),
)

unfoldable pub sce_kernel_set_event_flag : Kernel → State → Kernel × State
unfolding find update
sce_kernel_set_event_flag kernel state = elim (find (state.gpr 4) kernel.event_flags) [
  | none ↦ (kernel, state)
  | some event ↦ (
    put_event_flag kernel (state.gpr 4) (record event { bits = bit_or event.bits (state.gpr 5) }),
    returns state 0,
  )
]

unfoldable pub sce_kernel_clear_event_flag : Kernel → State → Kernel × State
unfolding find update
sce_kernel_clear_event_flag kernel state = elim (find (state.gpr 4) kernel.event_flags) [
  | none ↦ (kernel, state)
  | some event ↦ (
    put_event_flag kernel (state.gpr 4) (record event { bits = bit_and event.bits (state.gpr 5) }),
    returns state 0,
  )
]

-- `none` is a write of the observed bits outside the host buffer.
unfoldable pub sce_kernel_poll_event_flag : Kernel → State → Option (Kernel × State)
unfolding find update put_output is_matched consume
sce_kernel_poll_event_flag kernel state =
    let pattern = state.gpr 5 in
    let mode = state.gpr 6 in
    elim (find (state.gpr 4) kernel.event_flags) [
      | none ↦ some (kernel, returns state unimplemented)
      | some event ↦ elim (put_output state (state.gpr 7) event.bits) [
        | none ↦ none
        | some state' ↦ some (
            if not (is_matched event.bits pattern mode)
            then (kernel, returns state' event_flag_condition)
            else (
              put_event_flag kernel (state.gpr 4)
                  (record event { bits = consume event.bits pattern mode }),
              returns state' 0,
            ))
      ]
    ]

-- An unknown flag leaves the result register as it is: there is no wait.
unfoldable pub sce_kernel_wait_event_flag_begin : Kernel → State → Option (Kernel × EventFlag)
unfolding find update
sce_kernel_wait_event_flag_begin kernel state = elim (find (state.gpr 4) kernel.event_flags) [
  | none ↦ none
  | some event ↦
      let event' : EventFlag = record event { waiting_threads = u32 (event.waiting_threads + 1) } in
      some (put_event_flag kernel (state.gpr 4) event', event')
]

-- `matched() || exit_requested`
unfoldable pub is_event_available : Bool → EventFlag → State → Bool
unfolding is_matched
is_event_available exit_requested event state =
    is_matched event.bits (state.gpr 5) (state.gpr 6) || exit_requested

unfoldable pub sce_kernel_wait_event_flag_end : EventFlag → State → Option (EventFlag × State)
unfolding put_output consume
sce_kernel_wait_event_flag_end event state =
    let event' : EventFlag = record event {
      bits = consume event.bits (state.gpr 5) (state.gpr 6);
      waiting_threads = u32 (event.waiting_threads + 2 ^ 32 - 1);
    } in
    elim (put_output state (state.gpr 7) event.bits) [
      | none ↦ none
      | some state' ↦ some (event', returns state' 0)
    ]
