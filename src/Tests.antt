-- ===== src/Tests.antt =====
-- Concrete runs of the model: the theorems at inputs where their conditions hold.
pub mod HeapTests
pub mod TextTests
pub mod PcbTests
pub mod CallTests
pub mod FrameTests
pub mod FreeTests
pub mod PollTests
pub mod DriverTests
pub mod CommandTests
pub mod ClockTests
pub mod BootTests
pub mod LoadTests
pub mod KernelTests
