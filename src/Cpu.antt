-- ===== src/Cpu.antt =====
-- src/*.sv and include/*.svh: the pipelined processor. A module is a function from its registers and
-- inputs to its outputs, and one to its registers after the clock edge. A `logic [w-1:0]` is a number
-- below 2 ^ w and a `logic` a Boolean; a `'0` is the value 0 of every field.
pub mod Word
pub mod Types
pub mod Alu
pub mod Lsu
pub mod Decoder
pub mod Regfile
pub mod Fifo
pub mod Scoreboard
pub mod CsrFile
pub mod ExeStage
pub mod MemStage
pub mod WbStage
pub mod Frontend
pub mod Backend
pub mod Top
pub mod TbTop
pub mod Isa
