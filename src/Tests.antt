-- ===== src/Tests.antt =====
-- The theorems at concrete inputs, and runs of the definitions: one module for each part.
mod Queue
mod Device
mod Driver
mod System
mod Programs
mod Irq
mod Machine
mod Unload
mod Handler
mod Interrupts
mod Module
mod Files
mod Service
