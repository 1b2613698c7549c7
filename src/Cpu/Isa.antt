-- ===== src/Cpu/Isa.antt =====
-- The unprivileged instructions of RV32I, from the manual of the instruction set: how they are
-- encoded and what they compute. Nothing here is taken from the code.
pub mod Arith
pub mod Fields
pub mod Meaning
pub mod Exec
use dae_pipeline_cpu.Prelude.{
  ℕ, zero, suc, ◌+◌, ◌-◌, ◌*◌, ◌/◌, ◌%◌, ◌^◌, ◌<◌, ◌≤◌, ◌≡◌, ◌≢◌, Bool, true, false, not, ◌==◌, ltb,
  if◌then◌else◌, u32, bit_and, bit_or,
}
use Prim.Native.Nat.{bit_xor}
use dae_pipeline_cpu.Cpu.Types.{
  AluOp, alu_add, alu_sll, alu_slt, alu_sltu, alu_xor, alu_srl, alu_or, alu_and, alu_sub, alu_sra,
  BranchOp, br_jump, br_eq, br_ne, br_lt, br_ltu, br_ge, br_geu, MemLen, mem_len_1, mem_len_2,
  mem_len_4,
}

-- An immediate is the field of the instruction; those of `jal` and `branch` count half words.
pub data Inst : Type 0 where
  op : AluOp → ℕ → ℕ → ℕ → Inst
  op_imm : AluOp → ℕ → ℕ → ℕ → Inst
  lui auipc jal : ℕ → ℕ → Inst
  jalr : ℕ → ℕ → ℕ → Inst
  branch : BranchOp → ℕ → ℕ → ℕ → Inst
  load : MemLen → Bool → ℕ → ℕ → ℕ → Inst
  store : MemLen → ℕ → ℕ → ℕ → Inst

abbrev pub r_word : ℕ → ℕ → ℕ → ℕ → ℕ → ℕ → ℕ
r_word funct7 rs2 rs1 funct3 rd opcode =
    funct7 * 2 ^ 25 + rs2 * 2 ^ 20 + rs1 * 2 ^ 15 + funct3 * 2 ^ 12 + rd * 2 ^ 7 + opcode

abbrev pub i_word : ℕ → ℕ → ℕ → ℕ → ℕ → ℕ
i_word imm rs1 funct3 rd opcode =
    imm * 2 ^ 20 + rs1 * 2 ^ 15 + funct3 * 2 ^ 12 + rd * 2 ^ 7 + opcode

abbrev pub s_word : ℕ → ℕ → ℕ → ℕ → ℕ → ℕ
s_word imm rs2 rs1 funct3 opcode = r_word (imm / 32) rs2 rs1 funct3 (imm % 32) opcode

abbrev pub b_word : ℕ → ℕ → ℕ → ℕ → ℕ → ℕ
b_word imm rs2 rs1 funct3 opcode =
    r_word (imm / 2 ^ 11 * 2 ^ 6 + imm / 2 ^ 4 % 2 ^ 6) rs2 rs1 funct3
      (imm % 2 ^ 4 * 2 + imm / 2 ^ 10 % 2) opcode

abbrev pub u_word : ℕ → ℕ → ℕ → ℕ
u_word imm rd opcode = imm * 2 ^ 12 + rd * 2 ^ 7 + opcode

abbrev pub j_word : ℕ → ℕ → ℕ → ℕ
j_word imm rd opcode =
    u_word
      (imm / 2 ^ 19 * 2 ^ 19
        + imm % 2 ^ 10 * 2 ^ 9
        + imm / 2 ^ 10 % 2 * 2 ^ 8
        + imm / 2 ^ 11 % 2 ^ 8)
      rd opcode

abbrev pub alu_funct3 : AluOp → ℕ
alu_funct3 alu_add = 0
alu_funct3 alu_sub = 0
alu_funct3 alu_sll = 1
alu_funct3 alu_slt = 2
alu_funct3 alu_sltu = 3
alu_funct3 alu_xor = 4
alu_funct3 alu_srl = 5
alu_funct3 alu_sra = 5
alu_funct3 alu_or = 6
alu_funct3 alu_and = 7

abbrev pub alu_funct7 : AluOp → ℕ
alu_funct7 alu_sub = 0x20
alu_funct7 alu_sra = 0x20
alu_funct7 _ = 0

abbrev pub branch_funct3 : BranchOp → ℕ
branch_funct3 br_eq = 0
branch_funct3 br_ne = 1
branch_funct3 br_lt = 4
branch_funct3 br_ge = 5
branch_funct3 br_ltu = 6
branch_funct3 br_geu = 7
branch_funct3 br_jump = 2

abbrev pub load_funct3 : MemLen → Bool → ℕ
load_funct3 mem_len_1 true = 0
load_funct3 mem_len_2 true = 1
load_funct3 mem_len_4 _ = 2
load_funct3 mem_len_1 false = 4
load_funct3 mem_len_2 false = 5

abbrev pub store_funct3 : MemLen → ℕ
store_funct3 mem_len_1 = 0
store_funct3 mem_len_2 = 1
store_funct3 mem_len_4 = 2

abbrev pub encode : Inst → ℕ
encode (op o rd rs1 rs2) = r_word (alu_funct7 o) rs2 rs1 (alu_funct3 o) rd 0x33
encode (op_imm o rd rs1 imm) = i_word (alu_funct7 o * 2 ^ 5 + imm) rs1 (alu_funct3 o) rd 0x13
encode (lui rd imm) = u_word imm rd 0x37
encode (auipc rd imm) = u_word imm rd 0x17
encode (jal rd imm) = j_word imm rd 0x6f
encode (jalr rd rs1 imm) = i_word imm rs1 0 rd 0x67
encode (branch c rs1 rs2 imm) = b_word imm rs2 rs1 (branch_funct3 c) 0x63
encode (load len signed rd rs1 imm) = i_word imm rs1 (load_funct3 len signed) rd 0x03
encode (store len rs1 rs2 imm) = s_word imm rs2 rs1 (store_funct3 len) 0x23

-- The shifts by an immediate have one of 5 bits; there is no `subi`, and no branch always.
abbrev pub is_shift : AluOp → Bool
is_shift alu_sll = true
is_shift alu_srl = true
is_shift alu_sra = true
is_shift _ = false

unfoldable pub IsInst : Inst → Type 0
IsInst (op o rd rs1 rs2) = (rd < 32) × (rs1 < 32) × (rs2 < 32)
IsInst (op_imm o rd rs1 imm) =
    (rd < 32) × (rs1 < 32) × (imm < (if is_shift o then 32 else 2 ^ 12)) × (o ≢ alu_sub)
IsInst (lui rd imm) = (rd < 32) × (imm < 2 ^ 20)
IsInst (auipc rd imm) = (rd < 32) × (imm < 2 ^ 20)
IsInst (jal rd imm) = (rd < 32) × (imm < 2 ^ 20)
IsInst (jalr rd rs1 imm) = (rd < 32) × (rs1 < 32) × (imm < 2 ^ 12)
IsInst (branch c rs1 rs2 imm) = (rs1 < 32) × (rs2 < 32) × (imm < 2 ^ 12) × (c ≢ br_jump)
IsInst (load len signed rd rs1 imm) = (rd < 32) × (rs1 < 32) × (imm < 2 ^ 12)
IsInst (store len rs1 rs2 imm) = (rs1 < 32) × (rs2 < 32) × (imm < 2 ^ 12)

-- A field of `w` bits in two's complement, on 32 bits.
abbrev pub sext : ℕ → ℕ → ℕ
sext w x = u32 ((x + 2 ^ (w - 1)) % 2 ^ w + (2 ^ 32 - 2 ^ (w - 1)))

-- The order of the signed values is that of the words moved by half their range.
abbrev pub less_signed : ℕ → ℕ → Bool
less_signed a b = ltb (u32 (a + 2 ^ 31)) (u32 (b + 2 ^ 31))

-- An arithmetic shift, bit by bit.
abbrev pub halve_signed : ℕ → ℕ
halve_signed a = a / 2 + a / 2 ^ 31 * 2 ^ 31

abbrev pub shift_arith : ℕ → ℕ → ℕ
shift_arith a zero = a
shift_arith a (suc n) = halve_signed (shift_arith a n)

abbrev pub compute : AluOp → ℕ → ℕ → ℕ
compute alu_add a b = u32 (a + b)
compute alu_sub a b = u32 (a + (2 ^ 32 - b))
compute alu_sll a b = u32 (a * 2 ^ (b % 32))
compute alu_slt a b = if less_signed a b then 1 else 0
compute alu_sltu a b = if ltb a b then 1 else 0
compute alu_xor a b = bit_xor a b
compute alu_srl a b = a / 2 ^ (b % 32)
compute alu_sra a b = shift_arith a (b % 32)
compute alu_or a b = bit_or a b
compute alu_and a b = bit_and a b

abbrev pub holds : BranchOp → ℕ → ℕ → Bool
holds br_eq a b = a == b
holds br_ne a b = not (a == b)
holds br_lt a b = less_signed a b
holds br_ge a b = not (less_signed a b)
holds br_ltu a b = ltb a b
holds br_geu a b = not (ltb a b)
holds br_jump a b = true
