-- ===== src/Cpu/ExeStage.antt =====
-- src/exe_stage.sv: one function for each output.
use dae_pipeline_cpu.Prelude.{
  ℕ, ◌+◌, ◌-◌, ◌%◌, Bool, true, not, ◌&&◌, ◌||◌, ◌==◌, if◌then◌else◌, u32,
}
use dae_pipeline_cpu.Cpu.Word.{slice}
use dae_pipeline_cpu.Cpu.Types.{
  DecodedIr, InstToken, alu_op1_rs1, alu_op1_pc, alu_op1_zero, alu_op2_rs2, alu_op2_imm,
  halt_misalign_pc, is_load, is_branch, is_csr, is_mret, token_alive,
}
use dae_pipeline_cpu.Cpu.Alu.{alu, taken, target_pc, link_val}
use dae_pipeline_cpu.Cpu.Decoder.{opcode_jalr}

unfoldable pub alu_lhs : InstToken → ℕ
alu_lhs exe = elim exe.ir.alu_op1_sel [
  | alu_op1_pc ↦ exe.ir.pc
  | alu_op1_zero ↦ 0
  | alu_op1_rs1 ↦ exe.rs1_val
]

unfoldable pub alu_rhs : InstToken → ℕ
alu_rhs exe = elim exe.ir.alu_op2_sel [ alu_op2_imm ↦ exe.ir.imm | alu_op2_rs2 ↦ exe.rs2_val ]

pub csr_source : InstToken → ℕ
csr_source exe = if exe.ir.csr_source_is_imm then exe.ir.csr_source_imm else exe.rs1_val

unfoldable pub alu_result : InstToken → ℕ
alu_result exe = alu exe.ir.alu_op (alu_lhs exe) (alu_rhs exe)

abbrev pub is_jalr : DecodedIr → Bool
is_jalr ir = slice ir.raw_inst 6 0 == opcode_jalr

-- `(rs1_val + imm) & ~32'd1`
abbrev pub jalr_target : InstToken → ℕ
jalr_target exe = let t = u32 (exe.rs1_val + exe.ir.imm) in t - t % 2

unfoldable pub actual_redirect_pc : InstToken → ℕ
actual_redirect_pc exe = if is_jalr exe.ir then jalr_target exe else target_pc exe.ir.pc exe.ir.imm

unfoldable pub branch_taken : InstToken → Bool
branch_taken exe = taken exe.ir.branch_op exe.rs1_val exe.rs2_val

unfoldable pub csr_commit : InstToken → Bool → Bool → Bool
csr_commit exe mem_stall trap_pending =
    token_alive exe && is_csr exe.ir && not mem_stall && not trap_pending

unfoldable pub mret_commit : InstToken → Bool → Bool → Bool
mret_commit exe mem_stall trap_pending =
    token_alive exe && is_mret exe.ir && not mem_stall && not trap_pending

unfoldable pub exe_rd_ready : InstToken → Bool
exe_rd_ready exe = token_alive exe && exe.ir.rd_to_write && not (is_load exe.ir)

unfoldable pub exe_redirect_valid : InstToken → Bool → Bool → Bool
exe_redirect_valid exe mem_stall trap_pending =
    token_alive exe
    && not mem_stall
    && not trap_pending
    && (is_branch exe.ir && branch_taken exe || is_mret exe.ir)

unfoldable pub exe_redirect_pc : InstToken → ℕ → ℕ
exe_redirect_pc exe csr_mepc = if is_mret exe.ir then csr_mepc else actual_redirect_pc exe

-- The value for `rd`.
unfoldable pub exe_rd_value : InstToken → ℕ → ℕ
exe_rd_value exe csr_old =
    if is_branch exe.ir
    then link_val exe.ir.pc
    else if is_csr exe.ir
    then csr_old
    else alu_result exe

-- `exe_o`: csr_old, csr_new, csr_illegal.
unfoldable pub exe_out : InstToken → ℕ → ℕ → Bool → InstToken
exe_out exe csr_old csr_new csr_illegal =
    let misaligned_pc =
      token_alive exe
      && is_branch exe.ir
      && branch_taken exe
      && not (slice (actual_redirect_pc exe) 1 0 == 0) in
    record exe {
      ir = record (exe.ir) {
        illegal =
            if not (is_branch exe.ir) && is_csr exe.ir && csr_illegal then true else exe.ir.illegal;
      };
      alu_result = alu_result exe;
      mem_addr = if is_branch exe.ir && is_jalr exe.ir then jalr_target exe else alu_result exe;
      store_data = exe.rs2_val;
      csr_old = csr_old;
      csr_new = csr_new;
      csr_illegal = csr_illegal;
      rd_value = exe_rd_value exe csr_old;
      halt_observed = if misaligned_pc then true else exe.halt_observed;
      halt_kind = if misaligned_pc then halt_misalign_pc else exe.halt_kind;
    }
