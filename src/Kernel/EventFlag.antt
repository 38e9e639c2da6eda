-- ===== src/Kernel/EventFlag.antt =====
-- Event flags: sceKernelCreateEventFlag, sceKernelSetEventFlag, sceKernelClearEventFlag,
-- sceKernelPollEventFlag, sceKernelWaitEventFlag and sceKernelDeleteEventFlag.
pub mod Operations
pub mod Matched
