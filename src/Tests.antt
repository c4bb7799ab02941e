-- ===== src/Tests.antt =====
-- Each theorem that has a hypothesis, applied at a concrete input, and runs of the definitions.
mod BlkTests
mod CapTableTests
mod CapabilityTests
mod DirectoryTests
mod ElfTests
mod FrameTests
mod HeapTests
mod IpcTests
mod MountTests
mod QueueTests
mod ReclaimTests
mod ReleaseTests
mod RingTests
mod RwfsTests
mod SchedulerTests
mod SubmitTests
