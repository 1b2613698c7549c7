-- ===== src/Cpu/Regfile.antt =====
-- src/regfile.sv.
use dae_pipeline_cpu.Prelude.{ℕ, Bool, not, ◌&&◌, ◌==◌, if◌then◌else◌}

abbrev pub Regs : Type 0
Regs = ℕ → ℕ

-- after a reset
abbrev pub zero_regs : Regs
zero_regs i = 0

-- `rs1_o` and `rs2_o`
unfoldable pub read : Regs → ℕ → ℕ
read regs_q rs = if rs == 0 then 0 else regs_q rs

-- the registers after an edge without a reset
unfoldable pub write : Regs → Bool → ℕ → ℕ → Regs
write regs_q we_i rd_i wdata_i i =
    if we_i && not (rd_i == 0) && i == rd_i then wdata_i else regs_q i
