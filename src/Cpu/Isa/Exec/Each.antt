-- ===== src/Cpu/Isa/Exec/Each.antt =====
-- Every instruction.
use dae_pipeline_cpu.Prelude.{ℕ, ◌^◌, ◌<◌}
use dae_pipeline_cpu.Cpu.Types.{InstToken}
use dae_pipeline_cpu.Cpu.Isa.{
  Inst, op, op_imm, lui, auipc, jal, jalr, branch, load, store, encode, IsInst,
}
use dae_pipeline_cpu.Cpu.Isa.Meaning.{meaning}
use dae_pipeline_cpu.Cpu.Isa.Exec.{Does, issued, fetched}
use dae_pipeline_cpu.Cpu.Isa.Exec.Computes.{op_lem, op_imm_lem, lui_lem, auipc_lem}
use dae_pipeline_cpu.Cpu.Isa.Exec.Flow.{jal_lem, jalr_lem, branch_lem}
use dae_pipeline_cpu.Cpu.Isa.Exec.Access.{IsLoad, IsStore, load_lem, store_lem}

-- What the memory stage is told, where the instruction accesses memory.
abbrev pub Accessing : ℕ → Inst → InstToken → Type 0
Accessing b (load len signed rd rs1 imm) t = IsLoad len signed t
Accessing b (store len rs1 rs2 imm) t = IsStore b len t
Accessing b i t = Unit

-- Every instruction of RV32I but the fence, the environment calls and those of the CSRs: the word
-- that the manual encodes it with, fetched at `pc` and issued with the values `a` and `b` of its
-- sources, is legal, stays so in EXE, is one of memory exactly if it accesses it and none of the
-- system, and does in EXE what the manual says: it names the register that it writes, gives the
-- value that it computes, redirects the fetch exactly if it jumps and then to the target, and gives
-- the address of its access with the length, the sign or the data.
pub exec_lem :
    (epoch seq_id pc a b : ℕ) (i : Inst)
    → a < 2 ^ 32
    → b < 2 ^ 32
    → IsInst i
    → let t = issued (fetched epoch seq_id pc (encode i)) a b in
      Does t (meaning i pc a b) × Accessing b i t
exec_lem epoch seq_id pc a b (op o rd rs1 rs2) ha hb h =
    (op_lem epoch seq_id pc a b ha hb o rd rs1 rs2 h, tt)
exec_lem epoch seq_id pc a b (op_imm o rd rs1 imm) ha hb h =
    (op_imm_lem epoch seq_id pc a b ha hb o rd rs1 imm h, tt)
exec_lem epoch seq_id pc a b (lui rd imm) ha hb h = (lui_lem epoch seq_id pc a b ha hb rd imm h, tt)
exec_lem epoch seq_id pc a b (auipc rd imm) ha hb h =
    (auipc_lem epoch seq_id pc a b ha hb rd imm h, tt)
exec_lem epoch seq_id pc a b (jal rd imm) ha hb h = (jal_lem epoch seq_id pc a b ha hb rd imm h, tt)
exec_lem epoch seq_id pc a b (jalr rd rs1 imm) ha hb h =
    (jalr_lem epoch seq_id pc a b ha hb rd rs1 imm h, tt)
exec_lem epoch seq_id pc a b (branch c rs1 rs2 imm) ha hb h =
    (branch_lem epoch seq_id pc a b ha hb c rs1 rs2 imm h, tt)
exec_lem epoch seq_id pc a b (load len signed rd rs1 imm) ha hb h =
    load_lem epoch seq_id pc a b len signed rd rs1 imm h
exec_lem epoch seq_id pc a b (store len rs1 rs2 imm) ha hb h =
    store_lem epoch seq_id pc a b len rs1 rs2 imm h
