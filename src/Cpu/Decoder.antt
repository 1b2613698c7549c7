-- ===== src/Cpu/Decoder.antt =====
-- src/decoder.sv, with the constants of include/riscv.svh.
use dae_pipeline_cpu.Prelude.{
  ℕ, ◌+◌, ◌*◌, ◌^◌, Bool, true, false, not, ◌&&◌, ◌||◌, ◌==◌, if◌then◌else◌,
}
use dae_pipeline_cpu.Cpu.Word.{slice, bit_at, extend}
use dae_pipeline_cpu.Cpu.Types.{
  DecodedIr, zero_ir, fu_branch, fu_csr, fu_load, fu_store, fu_system, AluOp, alu_add, alu_sll,
  alu_slt, alu_sltu, alu_xor, alu_srl, alu_or, alu_and, alu_sub, alu_sra, alu_op1_pc, alu_op1_zero,
  alu_op2_imm, BranchOp, br_jump, br_eq, br_ne, br_lt, br_ltu, br_ge, br_geu, MemLen, mem_len_1,
  mem_len_2, mem_len_4, SystemKind, sys_not, sys_ecall, sys_ebreak, sys_mret, sys_wfi, sys_csr_rw,
  sys_csr_rs, sys_csr_rc,
}

abbrev pub opcode_load : ℕ
opcode_load = 0x03

abbrev pub opcode_misc_mem : ℕ
opcode_misc_mem = 0x0f

abbrev pub opcode_op_imm : ℕ
opcode_op_imm = 0x13

abbrev pub opcode_auipc : ℕ
opcode_auipc = 0x17

abbrev pub opcode_store : ℕ
opcode_store = 0x23

abbrev pub opcode_op : ℕ
opcode_op = 0x33

abbrev pub opcode_lui : ℕ
opcode_lui = 0x37

abbrev pub opcode_branch : ℕ
opcode_branch = 0x63

abbrev pub opcode_jalr : ℕ
opcode_jalr = 0x67

abbrev pub opcode_jal : ℕ
opcode_jal = 0x6f

abbrev pub opcode_system : ℕ
opcode_system = 0x73

-- `funct7 != 7'h00 && funct7 != 7'h20`
abbrev pub bad_funct7 : ℕ → Bool
bad_funct7 funct7 = not (funct7 == 0) && not (funct7 == 0x20)

abbrev pub sext12 : ℕ → ℕ
sext12 x = extend (bit_at x 11) 20 12 x

-- The operation of OPCODE_OP, or of OPCODE_OP_IMM where `imm`; every funct3 has one.
abbrev pub alu_op_of : Bool → ℕ → ℕ → AluOp
alu_op_of imm funct3 funct7 =
    if funct3 == 0
    then (if not imm && bit_at funct7 5 then alu_sub else alu_add)
    else if funct3 == 1
    then alu_sll
    else if funct3 == 2
    then alu_slt
    else if funct3 == 3
    then alu_sltu
    else if funct3 == 4
    then alu_xor
    else if funct3 == 5
    then (if bit_at funct7 5 then alu_sra else alu_srl)
    else if funct3 == 6
    then alu_or
    else alu_and

abbrev pub imm_i : ℕ → ℕ
imm_i inst = sext12 (slice inst 31 20)

abbrev pub imm_s : ℕ → ℕ
imm_s inst = extend (bit_at inst 31) 20 12 (slice inst 31 25 * 2 ^ 5 + slice inst 11 7)

abbrev pub imm_b : ℕ → ℕ
imm_b inst = extend (bit_at inst 31) 19 13 (
    slice inst 31 31 * 2 ^ 12
    + slice inst 7 7 * 2 ^ 11
    + slice inst 30 25 * 2 ^ 5
    + slice inst 11 8 * 2)

abbrev pub imm_j : ℕ → ℕ
imm_j inst = extend (bit_at inst 31) 11 21 (
    slice inst 31 31 * 2 ^ 20
    + slice inst 19 12 * 2 ^ 12
    + slice inst 20 20 * 2 ^ 11
    + slice inst 30 21 * 2)

abbrev pub imm_u : ℕ → ℕ
imm_u inst = slice inst 31 12 * 2 ^ 12

-- The branches of the case on the opcode. `d` holds what is set before it.
unfoldable pub decode_op : DecodedIr → ℕ → ℕ → DecodedIr
decode_op d funct3 funct7 = record d {
  rs1_use = true;
  rs2_use = true;
  rd_to_write = not (d.rd_idx == 0);
  alu_op = alu_op_of false funct3 funct7;
  illegal = bad_funct7 funct7;
}

unfoldable pub decode_op_imm : DecodedIr → ℕ → ℕ → DecodedIr
decode_op_imm d funct3 funct7 = record d {
  rs1_use = true;
  rd_to_write = not (d.rd_idx == 0);
  imm = imm_i d.raw_inst;
  alu_op2_sel = alu_op2_imm;
  alu_op = alu_op_of true funct3 funct7;
  illegal = funct3 == 1 && not (funct7 == 0) || funct3 == 5 && bad_funct7 funct7;
}

abbrev pub load_len : ℕ → MemLen
load_len funct3 =
    if funct3 == 0 || funct3 == 4
    then mem_len_1
    else if funct3 == 1 || funct3 == 5
    then mem_len_2
    else mem_len_4

unfoldable pub decode_load : DecodedIr → ℕ → DecodedIr
decode_load d funct3 = record d {
  fu_type = fu_load;
  rs1_use = true;
  rd_to_write = not (d.rd_idx == 0);
  imm = imm_i d.raw_inst;
  alu_op2_sel = alu_op2_imm;
  mem_len = load_len funct3;
  load_signext = funct3 == 0 || funct3 == 1 || funct3 == 2;
  illegal = funct3 == 3 || funct3 == 6 || funct3 == 7;
}

unfoldable pub decode_store : DecodedIr → ℕ → DecodedIr
decode_store d funct3 = record d {
  fu_type = fu_store;
  rs1_use = true;
  rs2_use = true;
  imm = imm_s d.raw_inst;
  alu_op2_sel = alu_op2_imm;
  mem_len = if funct3 == 0 then mem_len_1 else if funct3 == 1 then mem_len_2 else mem_len_4;
  illegal = not (funct3 == 0) && not (funct3 == 1) && not (funct3 == 2);
}

abbrev pub branch_op_of : ℕ → BranchOp
branch_op_of funct3 =
    if funct3 == 0
    then br_eq
    else if funct3 == 1
    then br_ne
    else if funct3 == 4
    then br_lt
    else if funct3 == 5
    then br_ge
    else if funct3 == 6
    then br_ltu
    else if funct3 == 7
    then br_geu
    else br_jump

unfoldable pub decode_branch : DecodedIr → ℕ → DecodedIr
decode_branch d funct3 = record d {
  fu_type = fu_branch;
  rs1_use = true;
  rs2_use = true;
  imm = imm_b d.raw_inst;
  branch_op = branch_op_of funct3;
  illegal = funct3 == 2 || funct3 == 3;
}

unfoldable pub decode_jal : DecodedIr → DecodedIr
decode_jal d = record d {
  fu_type = fu_branch;
  imm = imm_j d.raw_inst;
  branch_op = br_jump;
  rd_to_write = not (d.rd_idx == 0);
}

unfoldable pub decode_jalr : DecodedIr → ℕ → DecodedIr
decode_jalr d funct3 = record d {
  fu_type = fu_branch;
  rs1_use = true;
  imm = imm_i d.raw_inst;
  branch_op = br_jump;
  rd_to_write = not (d.rd_idx == 0);
  illegal = not (funct3 == 0);
}

unfoldable pub decode_auipc : DecodedIr → DecodedIr
decode_auipc d = record d {
  imm = imm_u d.raw_inst;
  alu_op1_sel = alu_op1_pc;
  alu_op2_sel = alu_op2_imm;
  rd_to_write = not (d.rd_idx == 0);
}

unfoldable pub decode_lui : DecodedIr → DecodedIr
decode_lui d = record d {
  imm = imm_u d.raw_inst;
  alu_op1_sel = alu_op1_zero;
  alu_op2_sel = alu_op2_imm;
  rd_to_write = not (d.rd_idx == 0);
}

-- FUNCT12_ECALL, FUNCT12_EBREAK, FUNCT12_MRET and FUNCT12_WFI
abbrev pub priv_kind : ℕ → SystemKind
priv_kind funct12 =
    if funct12 == 0
    then sys_ecall
    else if funct12 == 1
    then sys_ebreak
    else if funct12 == 0x302
    then sys_mret
    else if funct12 == 0x105
    then sys_wfi
    else sys_not

abbrev pub is_priv : ℕ → Bool
is_priv funct12 = funct12 == 0 || funct12 == 1 || funct12 == 0x302 || funct12 == 0x105

unfoldable pub decode_priv : DecodedIr → ℕ → DecodedIr
decode_priv d funct12 = record d {
  fu_type = fu_system;
  sys_kind = priv_kind funct12;
  illegal = not (d.rs1_idx == 0) || not (d.rd_idx == 0) || not (is_priv funct12);
}

-- The CSR instructions; from funct3 5 on the operand is the field of rs1 itself.
unfoldable pub decode_csr : DecodedIr → ℕ → ℕ → DecodedIr
decode_csr d funct3 funct12 =
    let by_imm = funct3 == 5 || funct3 == 6 || funct3 == 7 in
    let writes = funct3 == 1 || funct3 == 5 in
    record d {
      fu_type = fu_csr;
      csr_addr = funct12;
      rd_to_write = not (d.rd_idx == 0);
      rs1_use = not by_imm;
      sys_kind =
          if writes
          then sys_csr_rw
          else if funct3 == 2 || funct3 == 6
          then sys_csr_rs
          else sys_csr_rc;
      csr_writes = writes || not (d.rs1_idx == 0);
      csr_source_is_imm = by_imm;
      csr_source_imm = if by_imm then d.rs1_idx else 0;
    }

unfoldable pub decode_system : DecodedIr → ℕ → ℕ → DecodedIr
decode_system d funct3 funct12 =
    if funct3 == 0
    then decode_priv d funct12
    else if funct3 == 4
    then record d { fu_type = fu_system; illegal = true }
    else decode_csr d funct3 funct12

-- What is set before the case.
unfoldable pub decode_base : ℕ → ℕ → Bool → DecodedIr
decode_base pc inst if_bus_error = record zero_ir {
  pc = pc;
  raw_inst = inst;
  if_bus_error = if_bus_error;
  mem_len = mem_len_4;
  rs1_idx = slice inst 19 15;
  rs2_idx = slice inst 24 20;
  rd_idx = slice inst 11 7;
}

unfoldable pub decode_case : DecodedIr → ℕ → ℕ → ℕ → ℕ → DecodedIr
decode_case d opcode funct3 funct7 funct12 =
    if opcode == opcode_op
    then decode_op d funct3 funct7
    else if opcode == opcode_op_imm
    then decode_op_imm d funct3 funct7
    else if opcode == opcode_load
    then decode_load d funct3
    else if opcode == opcode_store
    then decode_store d funct3
    else if opcode == opcode_branch
    then decode_branch d funct3
    else if opcode == opcode_jal
    then decode_jal d
    else if opcode == opcode_jalr
    then decode_jalr d funct3
    else if opcode == opcode_auipc
    then decode_auipc d
    else if opcode == opcode_lui
    then decode_lui d
    else if opcode == opcode_misc_mem
    then record d { illegal = not (funct3 == 0) }
    else if opcode == opcode_system
    then decode_system d funct3 funct12
    else record d { illegal = true }

-- `decoded_o`
unfoldable pub decoder : ℕ → ℕ → Bool → DecodedIr
decoder pc_i inst_i if_bus_error_i =
    decode_case (decode_base pc_i inst_i if_bus_error_i) (slice inst_i 6 0) (slice inst_i 14 12)
      (slice inst_i 31 25) (slice inst_i 31 20)
