-- ===== src/Cpu/Alu.antt =====
-- src/alu.sv and src/branch_unit.sv.
use Prim.Native.Nat.{bit_xor}
use dae_pipeline_cpu.Prelude.{
  ℕ, ◌+◌, Bool, true, not, ◌==◌, ltb, if◌then◌else◌, u32, ◌<<<◌, ◌>>>◌, bit_and, bit_or,
}
use dae_pipeline_cpu.Cpu.Word.{slice, sub32, signed_lt, shift_signed}
use dae_pipeline_cpu.Cpu.Types.{
  AluOp, alu_add, alu_sll, alu_slt, alu_sltu, alu_xor, alu_srl, alu_or, alu_and, alu_sub, alu_sra,
  BranchOp, br_jump, br_eq, br_ne, br_lt, br_ltu, br_ge, br_geu,
}

-- `result_o`
unfoldable pub alu : AluOp → ℕ → ℕ → ℕ
alu alu_add lhs rhs = u32 (lhs + rhs)
alu alu_sll lhs rhs = u32 (lhs <<< slice rhs 4 0)
alu alu_slt lhs rhs = if signed_lt lhs rhs then 1 else 0
alu alu_sltu lhs rhs = if ltb lhs rhs then 1 else 0
alu alu_xor lhs rhs = bit_xor lhs rhs
alu alu_srl lhs rhs = lhs >>> slice rhs 4 0
alu alu_or lhs rhs = bit_or lhs rhs
alu alu_and lhs rhs = bit_and lhs rhs
alu alu_sub lhs rhs = sub32 lhs rhs
alu alu_sra lhs rhs = shift_signed lhs (slice rhs 4 0)

-- `taken`, which `mispredict` is too
unfoldable pub taken : BranchOp → ℕ → ℕ → Bool
taken br_jump rs1_val rs2_val = true
taken br_eq rs1_val rs2_val = rs1_val == rs2_val
taken br_ne rs1_val rs2_val = not (rs1_val == rs2_val)
taken br_lt rs1_val rs2_val = signed_lt rs1_val rs2_val
taken br_ltu rs1_val rs2_val = ltb rs1_val rs2_val
taken br_ge rs1_val rs2_val = not (signed_lt rs1_val rs2_val)
taken br_geu rs1_val rs2_val = not (ltb rs1_val rs2_val)

unfoldable pub target_pc : ℕ → ℕ → ℕ
target_pc pc imm = u32 (pc + imm)

unfoldable pub link_val : ℕ → ℕ
link_val pc = u32 (pc + 4)
