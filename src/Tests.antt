-- ===== src/Tests.antt =====
-- Concrete inputs at which the theorems are applied.
mod World
mod Console
mod Map
mod Memory
mod Registers
mod Ports
mod System
mod Elf
mod Runtime
mod Software
mod Tasks
mod Mock
mod Cpu
mod Pipeline
mod Program
