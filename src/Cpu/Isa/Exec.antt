-- ===== src/Cpu/Isa/Exec.antt =====
-- An instruction that is decoded and executed, against its meaning.
pub mod Computes
pub mod Flow
pub mod Access
pub mod Each
use dae_pipeline_cpu.Prelude.{
  ℕ, zero, suc, ◌+◌, ◌-◌, ◌*◌, ◌/◌, ◌%◌, ◌^◌, ◌<◌, ◌≤◌, ◌≡◌, ◌≢◌, refl, arith, Bool, true, false,
  not, ◌==◌, ◌&&◌, ltb, if◌then◌else◌, u32, ◌∙◌, ap, sym, inl, inr, Bool-cases, Option, some, none,
}
use dae_pipeline_cpu.Cpu.Word.{slice, bit_at}
use dae_pipeline_cpu.Cpu.Types.{
  FetchPkt, DecodedIr, zero_ir, InstToken, zero_token, AluOp, alu_add, alu_sll, alu_slt, alu_sltu,
  alu_xor, alu_srl, alu_or, alu_and, alu_sub, alu_sra, BranchOp, br_jump, br_eq, br_ne, br_lt,
  br_ltu, br_ge, br_geu, MemLen, mem_len_1, mem_len_2, mem_len_4, is_load, is_store, is_mem,
  sys_not,
}
use dae_pipeline_cpu.Cpu.Alu.{alu, taken, target_pc, link_val}
use dae_pipeline_cpu.Cpu.Decoder.{
  alu_op_of, bad_funct7, decode_base, decode_case, decoder, decode_op, decode_op_imm, decode_load,
  decode_store, decode_branch, decode_jal, decode_jalr, decode_auipc, decode_lui,
}
use dae_pipeline_cpu.Cpu.Frontend.{id_out}
use dae_pipeline_cpu.Cpu.ExeStage.{
  alu_lhs, alu_rhs, alu_result, actual_redirect_pc, branch_taken, exe_redirect_valid,
  exe_redirect_pc, exe_rd_value, exe_out,
}
use dae_pipeline_cpu.Cpu.Isa.{
  Inst, op, op_imm, lui, auipc, jal, jalr, branch, load, store, encode, IsInst, alu_funct3,
  alu_funct7, branch_funct3, load_funct3, store_funct3, is_shift, sext, compute, holds, r_word,
  i_word, s_word, b_word, u_word, j_word,
}
use dae_pipeline_cpu.Cpu.Isa.Arith.{alu_lem, taken_lem}
use dae_pipeline_cpu.Cpu.Isa.Fields.{
  RFields, r_fields, i_fields, u_fields, imm_i_lem, imm_s_lem, imm_b_lem, imm_j_lem, imm_u_lem,
}
use dae_pipeline_cpu.Cpu.Isa.Meaning.{Meaning, meaning}

-- The token that is issued for a fetched word, with the values of its sources.
abbrev pub issued : FetchPkt → ℕ → ℕ → InstToken
issued pkt a b = record zero_token {
  valid = true;
  epoch = (id_out pkt).epoch;
  seq_id = (id_out pkt).seq_id;
  ir = id_out pkt;
  rs1_val = a;
  rs2_val = b;
}

-- The registers that are read.
abbrev pub Reads : Option ℕ → Bool → ℕ → Type 0
Reads none src_use idx = src_use ≡ false
Reads (some rs) src_use idx = (src_use ≡ true) × (idx ≡ rs)

-- The register that is written, if it is not x0.
abbrev pub Writes : Option ℕ → InstToken → Type 0
Writes none t = t.ir.rd_to_write ≡ false
Writes (some rd) t = (t.ir.rd_to_write ≡ not (rd == 0)) × (t.ir.rd_idx ≡ rd)

abbrev pub Results : Option ℕ → InstToken → Type 0
Results none t = Unit
Results (some v) t = (csr_old csr_new : ℕ) → (exe_out t csr_old csr_new false).rd_value ≡ v

-- Whether the fetch goes on elsewhere, and where.
abbrev pub Jumps : Option ℕ → InstToken → Type 0
Jumps none t = exe_redirect_valid t false false ≡ false
Jumps (some v) t =
    (exe_redirect_valid t false false ≡ true) × ((mepc : ℕ) → exe_redirect_pc t mepc ≡ v)

abbrev pub Accesses : Option ℕ → InstToken → Type 0
Accesses none t = Unit
Accesses (some v) t = (csr_old csr_new : ℕ) → (exe_out t csr_old csr_new false).mem_addr ≡ v

abbrev pub is_given : Option ℕ → Bool
is_given none = false
is_given (some v) = true

-- The token does in EXE what is meant, stays legal there, and goes on as an instruction of memory
-- exactly if it accesses it, and as none of the system.
pub record Does (t : InstToken) (m : Meaning) : Type 0 where
  pub legal : t.ir.illegal ≡ false
  pub kept_legal : (csr_old csr_new : ℕ) → (exe_out t csr_old csr_new false).ir.illegal ≡ false
  pub memory : is_mem t.ir ≡ is_given m.address
  pub system : t.ir.sys_kind ≡ sys_not
  pub reads1 : Reads m.source1 t.ir.rs1_use t.ir.rs1_idx
  pub reads2 : Reads m.source2 t.ir.rs2_use t.ir.rs2_idx
  pub writes : Writes m.dest t
  pub result : Results m.result t
  pub jumps : Jumps m.jumps t
  pub address : Accesses m.address t

abbrev pub base_with : ℕ → ℕ → ℕ → ℕ → ℕ → DecodedIr
base_with pc w rs1 rs2 rd = record zero_ir {
  pc = pc;
  raw_inst = w;
  mem_len = mem_len_4;
  rs1_idx = rs1;
  rs2_idx = rs2;
  rd_idx = rd;
}

pub from_fields :
    (pc w f7 rs2 rs1 f3 rd opc : ℕ)
    → RFields w f7 rs2 rs1 f3 rd opc
    → decoder pc w false ≡ decode_case (base_with pc w rs1 rs2 rd) opc f3 f7 (slice w 31 20)
unfolding decoder decode_base
from_fields pc w f7 rs2 rs1 f3 rd opc f =
    rw (f.opcode_is, f.rd_is, f.funct3_is, f.rs1_is, f.rs2_is, f.funct7_is) refl

abbrev pub fetched : ℕ → ℕ → ℕ → ℕ → FetchPkt
fetched epoch seq_id pc w = record {
  valid = true;
  epoch = epoch;
  seq_id = seq_id;
  pc = pc;
  inst = w;
  error = false;
}

-- The same for the words of which only the opcode and the destination are fields of this kind.
pub from_u_fields :
    (pc w rd opc : ℕ)
    → (slice w 6 0 ≡ opc) × (slice w 11 7 ≡ rd)
    → decoder pc w false
      ≡ decode_case
          (base_with pc w (slice w 19 15) (slice w 24 20) rd)
          opc
          (slice w 14 12)
          (slice w 31 25)
          (slice w 31 20)
unfolding decoder decode_base
from_u_fields pc w rd opc (code, dest) = rw (code, dest) refl
